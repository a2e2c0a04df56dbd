-- ===== src/Modules/Tcp/TimeOut.antt =====
-- module/tcp_module.cc: what becomes of a request whose timer runs out.
use zerver.Prelude.{
  ℕ, zero, suc, true, false, some, List, [], ◌∷◌, ◌++◌, ◌≡◌, refl, arith, get_elem?, ◌⊎◌, inl, inr,
  Bool-cases,
}
use zerver.Framework.Module.{mod_timeout}
use zerver.Modules.Session.{
  Ec, no_error, operation_aborted, Status, armed, queued, finish, op_done, timer_due, run_op,
  run_timer, Session, perform, perform_all, dispatch_op, dispatch_timer, remove_at,
}
use zerver.Modules.Session
use zerver.Modules.Tcp.{
  TcpData, socket_event_closed, Op, connect, write_req, recv_resp_head, recv_resp_body, Timer,
  connect_timer, reply_timer, Answers, fresh, new_data, handlers, begin, is_opened, on_op,
  on_time_out, send_request, guarded,
}
use zerver.Modules.Tcp

get_elem?-finish :
    (l : List (Timer × Status)) (i : ℕ) (t : Timer) (ec : Ec)
    → get_elem? l i ≡ some (t, armed)
    → get_elem? (finish l i ec) i ≡ some (t, queued ec)
get_elem?-finish [] i t ec h = cc
get_elem?-finish ((u, armed) ∷ l) zero t ec h = ground arith
get_elem?-finish ((u, queued e) ∷ l) zero t ec h = cc
get_elem?-finish ((u, armed) ∷ l) (suc i) t ec h = get_elem?-finish l i t ec h
get_elem?-finish ((u, queued e) ∷ l) (suc i) t ec h = get_elem?-finish l i t ec h

-- A handler that is run with an operation that was aborted resumes the machine, and does nothing else.
on_op-aborted :
    (op : Op) (a : Answers) (d : TcpData)
    → is_opened d ≡ true
    → on_op op operation_aborted a d
      ≡ (record d { socket_event = socket_event_closed }, Session.resume mod_timeout ∷ [])
unfolding on_op
on_op-aborted connect a d o = ground arith
on_op-aborted (write_req len) a d o = ground arith
on_op-aborted (recv_resp_head len) a d o = ground arith
on_op-aborted (recv_resp_body len) a d o = ground arith

-- A timer of a request runs out while an operation on its client is under way, whichever it is, and
-- the timer's handler runs. Where `cancel` of the socket sets no error: once the operation's handler
-- has run too, no operation is under way, the machine has been resumed with `Mod_Timeout`, and the
-- client has been neither closed nor given back. Where it sets one, the handler leaves the request as it
-- was, with the operation under way and without that timer.
pub time_out-resumes :
    (s : Session Op Timer TcpData) (op : Op) (i : ℕ) (t : Timer) (c : ℕ) (a b : Answers)
    → s.ops ≡ (op, armed) ∷ []
    → get_elem? s.timers i ≡ some (t, armed)
    → s.state.client ≡ some c
    → is_opened s.state ≡ true
    → ((a.socket_cancel_fails ≡ false)
        × ((Session.run handlers s (timer_due i ∷ run_timer i a ∷ run_op 0 b ∷ [])).ops ≡ [])
        × ((Session.run handlers s (timer_due i ∷ run_timer i a ∷ run_op 0 b ∷ [])).resumed
            ≡ s.resumed ++ mod_timeout ∷ [])
        × ((Session.run handlers s (timer_due i ∷ run_timer i a ∷ run_op 0 b ∷ [])).state
            ≡ record s.state { socket_event = socket_event_closed }))
      ⊎ ((a.socket_cancel_fails ≡ true)
          × (Session.run handlers s (timer_due i ∷ run_timer i a ∷ [])
              ≡ record s { timers = remove_at (finish s.timers i no_error) i }))
unfolding Session.run Session.step handlers on_time_out dispatch_op dispatch_timer perform_all
time_out-resumes s op i t c a b ops timer holds opened = elim (Bool-cases a.socket_cancel_fails) [
  | inl fails ↦ inr (fails, rw (get_elem?-finish s.timers i t no_error timer, holds, fails) refl)
  | inr goes ↦
      let found = get_elem?-finish s.timers i t no_error timer in
      let aborted = on_op-aborted op b (record s.state { client = some c }) opened in
      inl (
        goes,
        rw (ops, found, holds, goes, aborted) refl,
        rw (ops, found, holds, goes, aborted) refl,
        rw (ops, found, holds, goes, aborted) refl,
      )
]

-- The connect timer runs out when the connection is made and its handler is still in the queue. The
-- handler sends the request under the second timer; the first timer's handler, which runs then, cancels
-- the write, and the request ends as timed out, though the second timer is still armed.
pub stale_timer_ends_tcp :
    (c : ℕ) (a b d : Answers)
    → a.cancel_fails ≡ false
    → b.socket_cancel_fails ≡ false
    → ((Session.run handlers
          (begin (fresh c) a)
          (op_done 0 no_error ∷ timer_due 0 ∷ run_op 0 a ∷ run_timer 0 b ∷ run_op 0 d ∷ [])).timers
        ≡ (reply_timer, armed) ∷ [])
      × ((Session.run handlers (begin (fresh c) a) (
            op_done 0 no_error
            ∷ timer_due 0
            ∷ run_op 0 a
            ∷ run_timer 0 b
            ∷ run_op 0 d
            ∷ [])).resumed
          ≡ mod_timeout ∷ [])
unfolding Session.run Session.step handlers begin Tcp.run send_request on_time_out dispatch_op
    dispatch_timer perform_all
stale_timer_ends_tcp c a b d e f = rw (e, f) (refl, refl)
