-- ===== src/Graph/Types.antt =====
-- The data of internal/graphexec/executor.go: nodes, transitions, the executor's state.
use lutra.Prelude.{ℕ, ◌*◌, ◌^◌, Bool, true, false, String, List, Option}
use lutra.Prelude.Map.{Map}
use lutra.Prelude.Int32.{larger, smaller, decrement}

-- `unset` is the empty string, which `New` and `Add` replace by `pending`.
pub data State : Type 0 where
  unset pending ready running waiting done failed canceled : State

pub State-discrete : Discrete State
State-discrete = hlevel

abbrev pub terminal : State → Bool
terminal done = true
terminal failed = true
terminal canceled = true
terminal _ = false

abbrev pub is_done : State → Bool
is_done done = true
is_done _ = false

abbrev pub is_pending : State → Bool
is_pending pending = true
is_pending _ = false

abbrev pub is_ready : State → Bool
is_ready ready = true
is_ready _ = false

-- `nothing` is the empty string.
pub data WaitReason : Type 0 where
  nothing for_image for_children for_retry : WaitReason

-- A Go error: its text, and whether `errors.As` finds a cacheable error in it.
pub record Failure : Type 0 where
  pub text : String
  pub cacheable : Bool

abbrev pub errors_new : String → Failure
errors_new s = record { text = s; cacheable = false }

-- Identifiers are numbers, `uuid.Nil` is 0; a time is a number of nanoseconds, the zero time is 0.
pub record Node : Type 0 where
  pub id : ℕ
  pub parent_id : Option ℕ
  pub attempt : ℕ  -- int32
  pub failures : ℕ  -- int32
  pub max_attempts : ℕ  -- int32
  pub state : State
  pub waiting_on : WaitReason
  pub image_key : List ℕ
  pub output : List ℕ
  pub cache_key : List ℕ
  pub cache_hit : Bool
  pub error : String
  pub next_attempt_at : ℕ
  pub prerequisites : List ℕ

pub record Transition : Type 0 where
  pub run_id : ℕ
  pub claim_token : ℕ
  pub node_id : ℕ
  pub from : State
  pub state : State
  pub waiting_on : WaitReason
  pub attempt : ℕ
  pub failures : ℕ
  pub expected_attempt : ℕ
  pub output : List ℕ
  pub error : String
  pub at : ℕ
  pub next_attempt_at : ℕ
  pub cache_hit : Bool

-- A store answers a transition from what it has accepted before, newest first. No call follows a
-- refused one (`commit`), so any sequence of answers is such a function.
abbrev pub Store : Type 0
Store = List Transition → Transition → Option Failure

-- What `Options` holds beside the services that the goroutines call between two critical sections.
pub record Options : Type 0 where
  pub run_id : ℕ
  pub claim_token : ℕ
  pub slots : ℕ
  pub store : Option Store
  pub has_images : Bool
  pub has_cache : Bool
  pub retry_backoff : ℕ → ℕ

-- The default of `New`, in nanoseconds.
unfoldable pub default_backoff : ℕ → ℕ
default_backoff n = 1_000_000_000 * 2 ^ smaller (larger (decrement n) 0) 6

-- The object that `execute` makes for a running attempt, without its mutex (see System).
pub record Active : Type 0 where
  pub canceled : Bool
  pub held : Bool
  pub waiters : ℕ

-- A goroutine of `timerLocked` that waits for its time.
pub record Timer : Type 0 where
  pub id : ℕ
  pub attempt : ℕ
  pub at : ℕ

-- `active` maps a node to its attempt's object, by the object's index in `objects`. `changed`
-- numbers the channels that `notifyLocked` closes; `wake` says that the wake channel is full.
-- `stopped` is `e.ctx.Err() != nil`. `accepted` is what the store has accepted, newest first.
pub record Executor : Type 0 where
  pub nodes : Map Node
  pub active : Map ℕ
  pub objects : List Active
  pub timers : List Timer
  pub changed : ℕ
  pub wake : Bool
  pub started : Bool
  pub stopped : Bool
  pub err : Option Failure
  pub accepted : List Transition
