-- ===== src/Modules/Tcp/Endings/Runs.antt =====
-- module/tcp_module.cc: a request to a server is under way until it ends.
use zerver.Prelude.{ℕ, List, [], ◌∷◌, ◌≡◌, refl, inl, inr, Bool-cases, if◌then◌else◌}
use zerver.Modules.Session.{
  Ec, no_error, operation_aborted, other_error, Status, armed, queued, Session, Event, op_done,
  timer_due, run_op, run_timer, perform, perform_all, abort, abort_all, dispatch_op, dispatch_timer,
  step, remove_at, notify, cancel_socket,
}
use zerver.Modules.Session
use zerver.Modules.Tcp.{
  Op, connect, write_req, Timer, Answers, Found, pooled, fresh, handlers, begin, run, on_time_out,
  send_request,
}
use zerver.Modules.Tcp.Endings.{
  Ending, gave_up, timed_out, failed, refused, answered, busy_data, end_data, endings, next_phase,
}
use zerver.Modules.Session.Endings.{
  doing, over, under_way, ended, IsIn, after_calls, calls, Follows, run-IsIn,
}
use zerver.Modules.Tcp.Endings.Handlers.{on_op-IsIn}

-- A handler of a timer finds the client, and aborts at most the operation.
timer-busy :
    (c : ℕ) (ec : Ec) (a : Answers) (op : Op) (status : Status) (timers : List (Timer × Status))
    → IsIn
        (endings c)
        (doing op)
        (perform_all (on_time_out ec a (busy_data c)) (under_way (endings c) op status timers))
unfolding on_time_out perform_all perform
timer-busy c no_error a op status timers = elim (Bool-cases a.socket_cancel_fails) [
  | inl fails ↦ rw fails (status, timers, refl)
  | inr goes ↦ rw goes (abort status, timers, refl)
]
timer-busy c operation_aborted a op status timers = (status, timers, refl)
timer-busy c other_error a op status timers = (status, timers, refl)

-- Without an operation there is nothing that `cancel` of the socket aborts.
cancel-over :
    (c : ℕ) (a : Answers) (e : Ending) (timers : List (Timer × Status))
    → perform_all
        (if a.socket_cancel_fails then notify ∷ [] else cancel_socket ∷ notify ∷ [])
        (ended {Op = Op} (endings c) e timers)
      ≡ ended (endings c) e timers
unfolding perform_all perform
cancel-over c a e timers = elim (Bool-cases a.socket_cancel_fails) [
  | inl fails ↦ rw fails refl
  | inr goes ↦ rw goes refl
]

timer-over :
    (c : ℕ) (ec : Ec) (a : Answers) (e : Ending) (timers : List (Timer × Status))
    → IsIn {Op = Op}
        (endings c)
        (over e)
        (perform_all (on_time_out ec a (end_data c e)) (ended (endings c) e timers))
unfolding on_time_out perform_all perform
timer-over c operation_aborted a e timers = (timers, refl)
timer-over c other_error a e timers = (timers, refl)
timer-over c no_error a (answered accepted) timers = (timers, refl)
timer-over c no_error a gave_up timers = (timers, cancel-over c a gave_up timers)
timer-over c no_error a timed_out timers = (timers, cancel-over c a timed_out timers)
timer-over c no_error a failed timers = (timers, cancel-over c a failed timers)
timer-over c no_error a refused timers = (timers, cancel-over c a refused timers)

handlers-Follows : (c : ℕ) → Follows handlers (endings c) next_phase
unfolding handlers
handlers-Follows c = record {
  op_follows = λ op ec a timers. on_op-IsIn c op ec a timers;
  timer_busy = λ t ec a op status timers. timer-busy c ec a op status timers;
  timer_over = λ t ec a e timers. timer-over c ec a e timers;
}

-- How a request with a client begins: over a new client with the connection, over a pooled one with the
-- request.
pub data Begins (c : ℕ) (a : Answers) : Found → Op → Type 0 where
  with_fresh : Begins c a (fresh c) connect
  with_pooled : Begins c a (pooled c) (write_req a.req_len)

begin-IsIn :
    (c : ℕ) (found : Found) (op : Op) (a : Answers)
    → Begins c a found op
    → IsIn (endings c) (doing op) (begin found a)
unfolding begin run send_request perform_all perform
begin-IsIn c _ _ a with_fresh = (_, _, refl)
begin-IsIn c _ _ a with_pooled = (_, _, refl)

-- A request that has a client, connected or from the pool, after any events in any order is in the phase
-- that the table of `next_phase` gives for the error codes and answers with which the handlers of its
-- operations were called: either that operation, of that length, is under way on the client, and
-- nothing was closed, given back or resumed; or no operation is under way, and the ending of the table
-- says what became of the client and with which state, if any, the machine was resumed.
pub run-ends :
    (c : ℕ) (found : Found) (op : Op) (a : Answers) (es : List (Event Answers))
    → Begins c a found op
    → IsIn
        (endings c)
        (after_calls next_phase (doing op) (calls handlers (begin found a) es))
        (Session.run handlers (begin found a) es)
run-ends c found op a es h =
    run-IsIn handlers (endings c) next_phase (handlers-Follows c) (doing op) (begin found a) es
      (begin-IsIn c found op a h)
