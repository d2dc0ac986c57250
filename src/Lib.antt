-- ===== src/Lib.antt =====
-- streamwm, a window manager for the river compositor: a model of its state, of its event handlers, of
-- the layout, and of the threads and the process around them.
--
-- The program keeps one state (src/state.rs): nine tags, outputs that show one tag each, windows on a
-- tag each, and seats. The compositor's events (src/events.rs, src/connection.rs), key bindings and
-- drags (src/bindings.rs) and commands from a control socket (src/status.rs) change it; a manage and a
-- render sequence (src/wm/mod.rs) turn it into requests, with the tiles of src/wm/layout.rs. Beside the
-- event loop (src/connection.rs) there are the threads of the socket's clients (src/status.rs) and of the
-- lid switch (src/lid.rs), which share no state with it but the registry of subscribers and queues; a
-- supervisor (src/main.rs) restarts the process.
--
--   Base.antt         tests, lists, panics, and machine integers
--   Protocol.antt     the objects and requests of src/protocols.rs, as data; `FloatOps`, Rust's f64,
--                     which is a parameter
--   Config.antt       src/config.rs: the values, their defaults, and colours
--   State.antt        src/state.rs: the records and look-ups; State/Focus (focus and tags),
--                     State/Outputs (giving tags, removal, repair), State/Geometry (floating windows,
--                     with State/Outputs/Clamping and State/Outputs/Dialogs), State/Fraction,
--                     and State/Invariant, the well-formedness of a state: State/Ranges, its
--                     indices, tags and geometry, and State/Owners, the tags that outputs show
--   Wm.antt           src/wm: Wm/Layout, Wm/Manage (on_manage_start), Wm/Render (on_render_start),
--                     Wm/Spawn (the start of a command, as its arguments)
--   App.antt          src/connection.rs: the event loop's data (AppData)
--   Bindings.antt     src/bindings.rs: Bindings/Keys, Bindings/Action (run_action), Bindings/Pointer
--   Events.antt       src/events.rs: Events/OnWindow, Events/OnOutput, Events/OnSeat
--   Status.antt       src/status.rs: Status/Command, Status/Snapshot, Status/Subscribers; Status/Client,
--                     what a client is answered; Status/Stream, a subscriber's thread beside the window
--                     manager's, as moves between points at which the other thread can run
--   Connection.antt   src/connection.rs: new windows, outputs and seats
--   Loop.antt         src/connection.rs, run: a step of the loop for each input; Loop/Safety, the data
--                     that it reaches; Loop/Rounds, the rounds of the loop, with its errors and its end
--   Lid.antt          src/lid.rs: Lid/Topology (the connected outputs), Lid/Profiles (the commands),
--                     Lid/Ticks (a round of run, with what it reads),
--                     Lid/Listener (the events that are sent)
--   Supervisor.antt   src/main.rs: the worker, and the supervisor that restarts it
--   Samples.antt      test data, and the theorems applied to it
--
-- Protocol/Sequence is the order of requests that protocols/stable/river-window-management-v1.xml asks
-- for, as an automaton. The modules called Requests are about the requests that the handlers of a part
-- add, and Loop/Answers about those of all inputs. Wm/Rows and Wm/Apart are about the places of tiles,
-- Wm/Focus about the focus after a manage sequence. The modules called Safety are about all handlers of
-- a part: that they return, and keep the state well-formed.
--
-- A function that may panic returns an `Outcome`: an index out of bounds and a clamp whose bounds cross
-- are panics. The handlers send requests by appending them to the data's `sent`. An object is its id.
-- Integers of 32 bits wrap, as in a release build; the invariant keeps the coordinates and extents of
-- outputs below 2 ^ 30 from the origin, where a sum of two does not wrap. The loop over the outputs
-- has one round for each of them. No function needs fuel.
--
-- What the outside does is a parameter: the parsing of JSON and TOML, the success of a command
-- (src/lid.rs), the results and times of the attempts to run the worker (src/main.rs), and the order in
-- which two threads move (src/status.rs). A loop without an end is a function of the list of what its
-- rounds read.
--
-- Not modelled: the calls of sockets, files, D-Bus, polling and processes themselves, and the generated
-- src/protocols.rs.
mod Base
pub mod Protocol
pub mod Config
pub mod State
pub mod Wm
pub mod App
pub mod Bindings
pub mod Events
pub mod Status
pub mod Connection
pub mod Loop
pub mod Supervisor
pub mod Lid
mod Samples
