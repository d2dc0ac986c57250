-- ===== src/Supervisor.antt =====
-- src/main.rs: the worker, and the supervisor that restarts it when it has failed. Times are in
-- nanoseconds, as `Instant` and `Duration` measure them; an attempt comes with the time at which it
-- was over.
pub mod Recent
pub mod Backoff
pub mod Ends
use Prim.Native.Nat.{min}
use Prim.Native.String.{String}
use text.Mathlib.Text.{◌==◌ as str_eq}
use streamwm.Base.{
  ℕ, ◌+◌, ◌-◌, ◌*◌, ◌^◌, Bool, List, [], ◌∷◌, ◌++◌, if◌then◌else◌, ltb, leb, length, Option,
  get_elem?, get_or_else,
}
use streamwm.Protocol.{F64}
use streamwm.Config.{Config, load}

abbrev pub restart_window : ℕ
restart_window = 60 * 10 ^ 9

abbrev pub max_restarts_in_window : ℕ
max_restarts_in_window = 5

abbrev pub initial_restart_delay : ℕ
initial_restart_delay = 250 * 10 ^ 6

abbrev pub max_restart_delay : ℕ
max_restart_delay = 4 * 10 ^ 9

-- `Duration::saturating_mul`: at most `Duration::MAX`.
unfoldable pub saturating_mul : ℕ → ℕ → ℕ
saturating_mul d n = min (d * n) (2 ^ 64 * 10 ^ 9 - 1)

unfoldable pub restart_delay : ℕ → ℕ
unfolding saturating_mul
restart_delay recent_failures =
    min (saturating_mul initial_restart_delay (2 ^ min (recent_failures - 1) 4)) max_restart_delay

-- The loop that pops failures off the front while they are too old. `duration_since` is 0 for a
-- time in the future.
unfoldable pub expire : ℕ → List ℕ → List ℕ
expire now [] = []
expire now (failed_at ∷ failures) =
    if leb restart_window (now - failed_at) then expire now failures else failed_at ∷ failures

unfoldable pub record_failure : ℕ → List ℕ → List ℕ
unfolding expire
record_failure now failures = expire now failures ++ now ∷ []

-- How one run of the worker ended.
pub data Attempt : Type 0 where
  succeeded failed not_started : Attempt

pub data Verdict : Type 0 where
  exit_success exit_failure running : Verdict

-- A failure is recorded, as one of `recent`: the supervisor gives up, or it sleeps and goes on.
unfoldable pub after_failure : ℕ → List ℕ × Verdict → List ℕ × Verdict
unfolding restart_delay
after_failure recent rest =
    if ltb max_restarts_in_window recent
    then ([], exit_failure)
    else (restart_delay recent ∷ rest.0, rest.1)

-- The delays that were slept, and how the supervisor stands after these attempts.
unfoldable pub supervise_from : List ℕ → List (Attempt × ℕ) → List ℕ × Verdict
unfolding record_failure after_failure
supervise_from failures [] = ([], running)
supervise_from failures ((succeeded, now) ∷ attempts) = ([], exit_success)
supervise_from failures ((failed, now) ∷ attempts) =
    let recorded = record_failure now failures in
    after_failure (length recorded) (supervise_from recorded attempts)
supervise_from failures ((not_started, now) ∷ attempts) =
    let recorded = record_failure now failures in
    after_failure (length recorded) (supervise_from recorded attempts)

-- `resolved`: whether the path of the executable is known.
unfoldable pub supervise : Bool → List (Attempt × ℕ) → List ℕ × Verdict
unfolding supervise_from
supervise resolved attempts = if resolved then supervise_from [] attempts else ([], exit_failure)

-- How the program was started: `main`, from the arguments after the program's name.
pub data Mode : Type 0 where
  worker : Option String → Mode
  supervisor : List String → Mode

abbrev pub worker_arg : String
worker_arg = "--streamwm-worker"

unfoldable pub mode : List String → Mode
mode [] = supervisor []
mode (arg ∷ args) =
    if str_eq arg worker_arg then worker (get_elem? args 0) else supervisor (arg ∷ args)

-- What the supervisor gives to the worker.
unfoldable pub child_args : List String → List String
child_args args = worker_arg ∷ args

-- `run_worker`: whether the lid listener is started, and the exit code. `read` reads a file, and
-- `runs` says whether `connection::run` ends without an error.
unfoldable pub run_worker :
    (String → Option String)
    → (String → Option Config)
    → F64
    → F64
    → (Config → Bool)
    → Option String
    → Bool × Verdict
unfolding load
run_worker read from_str master_fraction resize_step runs config_path =
    let path = get_or_else config_path "/etc/streamwm/config.toml" in
    let config = load from_str master_fraction resize_step (read path) in
    (config.lid.enable, if runs config then exit_success else exit_failure)
