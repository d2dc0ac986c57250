-- ===== src/Samples/Services.antt =====
-- The theorems on the supervisor, on commands and on the status socket, applied.
use Prim.Native.String.{String}
use text.Mathlib.Text.{◌==◌ as str_eq}
use streamwm.Base.{
  ℕ, ◌*◌, ◌^◌, ◌≡◌, ◌≤◌, refl, true, Option, none, some, List, [], ◌∷◌, arith, All, get_elem?,
  length, if◌then◌else◌,
}
use streamwm.Supervisor.{Attempt, failed, not_started, succeeded, exit_failure, supervise}
use streamwm.Supervisor.Recent.{reference, supervise-reference}
use streamwm.Supervisor.Ends.{supervise-gives_up}
use streamwm.State.{State, Output, new_output, new_state, new_window}
use streamwm.Status.Snapshot.{build_snapshot}
use streamwm.Status.Reference.{output_snap, build_snapshot-output_snap}
use streamwm.Status.Stream.{
  Shared, start, connecting, listening, Moves, here, later, stores, sends, wakes, takes, writes,
  written,
}
use streamwm.Status.Stream.Converge.{published-Newest}
use streamwm.Status.Stream.Order.{Descending, Moves-Descending}
use streamwm.Status.Stream.Race.{stale, stale-reached}
use streamwm.Status.Command.{Json}
use streamwm.Status.Client.{
  Served, serve_line, handle_client, connected, disconnected, max_status_clients,
}
use streamwm.Status.Client.Replies.{handle_client-first, client_event-bound, counts}
use streamwm.Wm.Spawn.{Text, shell_syntax_byte, direct_command_args}
use streamwm.Wm.Spawn.Words.{IsWord, join_words, direct_command_args-join_words}

-- Failures in seconds 1, 2 and 100, and a success.
abbrev four_attempts : List (Attempt × ℕ)
four_attempts =
    (failed, 10 ^ 9)
    ∷ (not_started, 2 * 10 ^ 9)
    ∷ (failed, 100 * 10 ^ 9)
    ∷ (succeeded, 101 * 10 ^ 9)
    ∷ []

supervise-reference_example : supervise true four_attempts ≡ reference [] four_attempts
supervise-reference_example =
    supervise-reference four_attempts (omega arith, (omega arith, (omega arith, (omega arith, tt))))

-- Six failures, a second apart.
abbrev six_failures : List (Attempt × ℕ)
six_failures =
    (failed, 1 * 10 ^ 9)
    ∷ (failed, 2 * 10 ^ 9)
    ∷ (failed, 3 * 10 ^ 9)
    ∷ (failed, 4 * 10 ^ 9)
    ∷ (failed, 5 * 10 ^ 9)
    ∷ (not_started, 6 * 10 ^ 9)
    ∷ []

supervise-gives_up_example : (supervise true six_failures).1 ≡ exit_failure
supervise-gives_up_example = supervise-gives_up (10 ^ 9) six_failures (omega arith) (
  ((λ e. cc), omega arith, omega arith),
  (
    ((λ e. cc), omega arith, omega arith),
    (
      ((λ e. cc), omega arith, omega arith),
      (
        ((λ e. cc), omega arith, omega arith),
        (((λ e. cc), omega arith, omega arith), (((λ e. cc), omega arith, omega arith), tt)),
      ),
    ),
  ),
)

-- A client that has the first state, when the state has changed and is about to be stored.
abbrev changed_once : Shared
changed_once = record start { version = 1; registered = true }

abbrev published_once : Shared
published_once = record changed_once { published = 1 }

published-Newest_example :
    (published_once.version ≡ published_once.published) × (published_once.slot ≡ none)
published-Newest_example =
    published-Newest changed_once (listening (0 ∷ [])) published_once (1 ∷ 0 ∷ []) tt
      (later (later (later (later here (sends refl)) (wakes refl)) (takes refl)) writes) refl refl

Moves-Descending_example : Descending (written (listening (4 ∷ 3 ∷ [])))
Moves-Descending_example = Moves-Descending (
    later
      (later (later (later (later (stale-reached 3) (stores refl refl)) (sends refl)) (wakes refl))
        (takes refl))
      writes)

stale-reached_example : Moves start connecting (stale 3) (listening (3 ∷ []))
stale-reached_example = stale-reached 3

-- Two outputs, and a window on the tag of the second.
abbrev second_output : Output
second_output = record (new_output 11) { active_tag = 1 }

abbrev with_outputs : State
with_outputs = record (new_state 50) {
  outputs = new_output 10 ∷ second_output ∷ [];
  tags =
      record { output = some 0; label = none; master_fraction = 50 }
      ∷ record { output = some 1; label = none; master_fraction = 50 }
      ∷ [];
  windows = new_window 21 1 1 ∷ [];
}

build_snapshot-output_snap_example :
    (get_elem? (build_snapshot (λ i. "output") with_outputs).outputs 1
      ≡ some (output_snap (λ i. "output") with_outputs 1 second_output))
    × (length (build_snapshot (λ i. "output") with_outputs).outputs ≡ 2)
build_snapshot-output_snap_example =
    build_snapshot-output_snap (λ i. "output") with_outputs 1 second_output refl

-- A JSON library that knows one text.
abbrev quit_json : Json
quit_json = record {
  get_str = λ field. if str_eq field "cmd" then some "quit" else none;
  get_u64 = λ field. none;
}

abbrev parse_quit : String → Option Json
parse_quit text = if str_eq text "{\"cmd\":\"quit\"}" then some quit_json else none

abbrev serve : List (Option String) → Served
serve lines = handle_client parse_quit (λ snap. none) none lines

handle_client-first_example :
    serve (some "  " ∷ some "" ∷ some " {\"cmd\":\"quit\"} " ∷ some "get_status" ∷ none ∷ [])
    ≡ serve_line parse_quit (λ snap. none) none "{\"cmd\":\"quit\"}"
handle_client-first_example =
    handle_client-first parse_quit (λ snap. none) none ("  " ∷ "" ∷ []) " {\"cmd\":\"quit\"} "
      (some "get_status" ∷ none ∷ []) (refl, (refl, tt)) refl

client_event-bound_example :
    All (λ n. n ≤ max_status_clients) (counts 15 (connected ∷ connected ∷ disconnected ∷ []))
client_event-bound_example =
    client_event-bound 15 (connected ∷ connected ∷ disconnected ∷ []) (omega arith)

-- `foot -e top`
abbrev foot : Text
foot = b'f' ∷ b'o' ∷ b'o' ∷ b't' ∷ []

abbrev dash_e : Text
dash_e = b'-' ∷ b'e' ∷ []

abbrev top : Text
top = b't' ∷ b'o' ∷ b'p' ∷ []

foot-IsWord : IsWord foot
unfolding shell_syntax_byte
foot-IsWord = (omega arith, ((refl, refl), ((refl, refl), ((refl, refl), ((refl, refl), tt)))))

dash_e-IsWord : IsWord dash_e
unfolding shell_syntax_byte
dash_e-IsWord = (omega arith, ((refl, refl), ((refl, refl), tt)))

top-IsWord : IsWord top
unfolding shell_syntax_byte
top-IsWord = (omega arith, ((refl, refl), ((refl, refl), ((refl, refl), tt))))

direct_command_args-join_words_example :
    direct_command_args (join_words (foot ∷ dash_e ∷ top ∷ [])) ≡ some (foot ∷ dash_e ∷ top ∷ [])
direct_command_args-join_words_example =
    direct_command_args-join_words foot (dash_e ∷ top ∷ [])
      (foot-IsWord, (dash_e-IsWord, (top-IsWord, tt)))
