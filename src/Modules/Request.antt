-- ===== src/Modules/Request.antt =====
-- module/request_module.h and module/request_module.cc: a request is read in three parts, the first
-- under one timer and the others under a second. `cancel` of the socket, which throws on an error, is
-- taken not to throw.
pub mod Races
pub mod Endings
use zerver.Prelude.{ℕ, ◌*◌, Bool, true, false, not, ◌||◌, List, [], ◌∷◌, ◌==◌, if◌then◌else◌}
use zerver.Framework.Module.{ModState, mod_async, mod_failed, mod_timeout}
use zerver.Modules.Session.{
  Ec, no_error, operation_aborted, other_error, Effect, start_op, set_timer, cancel_timer,
  cancel_socket, notify, exit_context, resume, Session, Handlers, perform_all,
}

-- A read with the number of bytes that it waits for.
pub data Read : Type 0 where
  read_version read_head read_body : ℕ → Read

-- `flag`: 1 for the version, 2 for the head and the body.
abbrev pub TimerFlag : Type 0
TimerFlag = ℕ

-- The answers of the virtual functions during a handler, and whether `cancel` of the timer sets an
-- error.
pub record Answers : Type 0 where
  pub accepted : Bool
  pub cancel_fails : Bool
  pub head_len : ℕ
  pub body_len : ℕ
  pub succeed_state : ModState

abbrev pub is_error : Ec → Bool
is_error no_error = false
is_error _ = true

abbrev pub is_aborted : Ec → Bool
is_aborted operation_aborted = true
is_aborted _ = false

-- 1000 * FLAGS_wait_ads_request_time_out.
abbrev pub read_version_time_out_ms : ℕ
read_version_time_out_ms = 1000 * 600

-- FLAGS_read_ads_body_time_out_ms.
abbrev pub read_head_and_body_time_out_ms : ℕ
read_head_and_body_time_out_ms = 10

abbrev pub Effects : Type 0
Effects = List (Effect Read TimerFlag)

-- `run`: the state that it returns and what it starts.
unfoldable pub run : ℕ → ModState × Effects
run version_len =
    (mod_async, set_timer 1 read_version_time_out_ms ∷ start_op (read_version version_len) ∷ [])

-- `cancel_time_out_timer` and what follows it, which an error of `cancel` leaves out.
unfoldable pub cancel_time_out_timer : Answers → Effects → Effects
cancel_time_out_timer a rest = cancel_timer ∷ (if a.cancel_fails then [] else rest)

-- The branch of each handler for an error or for bytes that are refused.
unfoldable pub on_failed : Ec → Answers → Effects
unfolding cancel_time_out_timer
on_failed ec a =
    if is_aborted ec
    then exit_context ∷ resume mod_timeout ∷ []
    else cancel_time_out_timer a (notify ∷ exit_context ∷ resume mod_failed ∷ [])

unfoldable pub on_read_version : Ec → Answers → Effects
unfolding on_failed cancel_time_out_timer
on_read_version ec a =
    if is_error ec || not a.accepted
    then on_failed ec a
    else cancel_time_out_timer a
        (set_timer 2 read_head_and_body_time_out_ms ∷ start_op (read_head a.head_len) ∷ [])

unfoldable pub on_read_head : Ec → Answers → Effects
unfolding on_failed
on_read_head ec a =
    if is_error ec || not a.accepted then on_failed ec a else start_op (read_body a.body_len) ∷ []

unfoldable pub on_read_body : Ec → Answers → Effects
unfolding on_failed cancel_time_out_timer
on_read_body ec a =
    if is_error ec || not a.accepted
    then on_failed ec a
    else cancel_time_out_timer a (resume a.succeed_state ∷ [])

unfoldable pub on_read_time_out : TimerFlag → Ec → Effects
on_read_time_out flag ec = if is_error ec then [] else notify ∷ cancel_socket ∷ []

-- Which handler an operation is bound to.
unfoldable pub on_read : Read → Ec → Answers → Effects
unfolding on_read_version on_read_head on_read_body
on_read (read_version len) ec a = on_read_version ec a
on_read (read_head len) ec a = on_read_head ec a
on_read (read_body len) ec a = on_read_body ec a

unfoldable pub handlers : Handlers Read TimerFlag Answers (Unit {0})
unfolding on_read on_read_time_out
handlers = record {
  on_op = λ op ec a m. (m, on_read op ec a);
  on_timer = λ flag ec a m. (m, on_read_time_out flag ec);
}

-- A module in which `run` has been called.
unfoldable pub begin : ℕ → Session Read TimerFlag (Unit {0})
unfolding run perform_all
begin version_len =
    perform_all (run version_len).1
      (record { ops = []; timers = []; state = tt; exited = false; resumed = [] })
