-- ===== src/Modules/Request/Endings.antt =====
-- module/request_module.cc: all the ways in which the reading of a request ends.
use zerver.Prelude.{ℕ, Bool, true, false, List, [], ◌∷◌, refl, if◌then◌else◌, inl, inr, Bool-cases}
use zerver.Framework.Module.{ModState, mod_failed, mod_timeout}
use zerver.Modules.Session.{
  Ec, no_error, operation_aborted, other_error, Status, Session, Event, perform, perform_all, abort,
  cancel_timer,
}
use zerver.Modules.Session
use zerver.Modules.Session.Endings.{
  Endings, Phase, doing, over, under_way, ended, IsIn, after_calls, calls, after_op, Follows,
  run-IsIn,
}
use zerver.Modules.Request.{
  Read, read_version, read_head, read_body, TimerFlag, Answers, handlers, begin, run, Effects,
  is_aborted, on_read, on_read_version, on_read_head, on_read_body, on_failed,
  cancel_time_out_timer, on_read_time_out,
}

-- A handler gave up since `cancel` of the timer set an error; a read was aborted; a read failed or its
-- bytes were refused; or the body was accepted, with the state that the application gave.
pub data Ending : Type 0 where
  gave_up timed_out failed : Ending
  accepted : ModState → Ending

abbrev end_exited : Ending → Bool
end_exited timed_out = true
end_exited failed = true
end_exited _ = false

abbrev end_states : Ending → List ModState
end_states gave_up = []
end_states timed_out = mod_timeout ∷ []
end_states failed = mod_failed ∷ []
end_states (accepted state) = state ∷ []

abbrev pub endings : Endings (Unit {0}) Ending
endings = record {
  busy_data = tt;
  end_data = λ e. tt;
  end_exited = end_exited;
  end_states = end_states;
}

-- What follows where `cancel` of the timer sets no error.
abbrev unless_stuck : Answers → Phase Read Ending → Phase Read Ending
unless_stuck a p = if a.cancel_fails then over gave_up else p

-- What follows a read: version, head and body in this order, each by its length, as long as none fails
-- or is refused.
abbrev pub next_phase : Read → Ec → Answers → Phase Read Ending
next_phase op operation_aborted a = over timed_out
next_phase op other_error a = unless_stuck a (over failed)
next_phase (read_version len) no_error a =
    unless_stuck a (if a.accepted then doing (read_head a.head_len) else over failed)
next_phase (read_head len) no_error a =
    if a.accepted then doing (read_body a.body_len) else unless_stuck a (over failed)
next_phase (read_body len) no_error a =
    unless_stuck a (if a.accepted then over (accepted a.succeed_state) else over failed)

-- The handlers follow the table in the two cases of a flag that they test.
stuck-IsIn :
    (a : Answers) (p : Phase Read Ending) (effects : Effects) (timers : List (TimerFlag × Status))
    → IsIn endings p (after_op endings (tt, cancel_timer ∷ effects) timers)
    → IsIn endings
        (unless_stuck a p)
        (after_op endings (tt, cancel_time_out_timer a effects) timers)
unfolding cancel_time_out_timer perform_all perform
stuck-IsIn a p effects timers h = elim (Bool-cases a.cancel_fails) [
  | inl fails ↦ rw fails (_, refl)
  | inr goes ↦ rw goes h
]

on_failed-IsIn :
    (ec : Ec) (a : Answers) (timers : List (TimerFlag × Status))
    → IsIn endings
        (if is_aborted ec then over timed_out else unless_stuck a (over failed))
        (after_op {Op = Read} endings (tt, on_failed ec a) timers)
unfolding on_failed perform_all perform
on_failed-IsIn operation_aborted a timers = (_, refl)
on_failed-IsIn no_error a timers = stuck-IsIn a (over failed) _ timers (_, refl)
on_failed-IsIn other_error a timers = stuck-IsIn a (over failed) _ timers (_, refl)

on_read-IsIn :
    (op : Read) (ec : Ec) (a : Answers) (timers : List (TimerFlag × Status))
    → IsIn endings (next_phase op ec a) (after_op endings (tt, on_read op ec a) timers)
unfolding on_read on_read_version on_read_head on_read_body perform_all perform
on_read-IsIn (read_version len) no_error a timers = elim (Bool-cases a.accepted) [
  | inr no_ ↦ rw no_ (on_failed-IsIn no_error a timers)
  | inl yes_ ↦ rw yes_ (stuck-IsIn a (doing (read_head a.head_len)) _ timers (_, _, refl))
]
on_read-IsIn (read_head len) no_error a timers = elim (Bool-cases a.accepted) [
  | inr no_ ↦ rw no_ (on_failed-IsIn no_error a timers)
  | inl yes_ ↦ rw yes_ (_, _, refl)
]
on_read-IsIn (read_body len) no_error a timers = elim (Bool-cases a.accepted) [
  | inr no_ ↦ rw no_ (on_failed-IsIn no_error a timers)
  | inl yes_ ↦ rw yes_ (stuck-IsIn a (over (accepted a.succeed_state)) _ timers (_, refl))
]
on_read-IsIn (read_version len) operation_aborted a timers = (_, refl)
on_read-IsIn (read_head len) operation_aborted a timers = (_, refl)
on_read-IsIn (read_body len) operation_aborted a timers = (_, refl)
on_read-IsIn (read_version len) other_error a timers = on_failed-IsIn other_error a timers
on_read-IsIn (read_head len) other_error a timers = on_failed-IsIn other_error a timers
on_read-IsIn (read_body len) other_error a timers = on_failed-IsIn other_error a timers

timer-busy :
    (flag : TimerFlag) (ec : Ec) (op : Read) (status : Status) (timers : List (TimerFlag × Status))
    → IsIn endings
        (doing op)
        (perform_all (on_read_time_out flag ec) (under_way endings op status timers))
unfolding on_read_time_out perform_all perform
timer-busy flag no_error op status timers = (abort status, timers, refl)
timer-busy flag operation_aborted op status timers = (status, timers, refl)
timer-busy flag other_error op status timers = (status, timers, refl)

timer-over :
    (flag : TimerFlag) (ec : Ec) (e : Ending) (timers : List (TimerFlag × Status))
    → IsIn {Op = Read} endings
        (over e)
        (perform_all (on_read_time_out flag ec) (ended endings e timers))
unfolding on_read_time_out perform_all perform
timer-over flag no_error e timers = (timers, refl)
timer-over flag operation_aborted e timers = (timers, refl)
timer-over flag other_error e timers = (timers, refl)

handlers-Follows : Follows handlers endings next_phase
unfolding handlers
handlers-Follows = record {
  op_follows = λ op ec a timers. on_read-IsIn op ec a timers;
  timer_busy = λ t ec a op status timers. timer-busy t ec op status timers;
  timer_over = λ t ec a e timers. timer-over t ec e timers;
}

-- A request module after any events in any order is in the phase that the table of `next_phase` gives for
-- the error codes and answers with which the handlers of its reads were called: either that read, of
-- that length, is under way, the machine has not been resumed, and the context is not at its exit; or no
-- read is, and the machine has been resumed, and the context put at its exit, as the ending of the
-- table says.
pub request_ends :
    (version_len : ℕ) (es : List (Event Answers))
    → IsIn endings
        (after_calls next_phase
          (doing (read_version version_len))
          (calls handlers (begin version_len) es))
        (Session.run handlers (begin version_len) es)
unfolding begin run perform_all perform
request_ends version_len es =
    run-IsIn handlers endings next_phase handlers-Follows (doing (read_version version_len))
      (begin version_len) es (_, _, refl)
