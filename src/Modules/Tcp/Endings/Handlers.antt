-- ===== src/Modules/Tcp/Endings/Handlers.antt =====
-- module/tcp_module.cc: what the handler of each operation makes of a request that is under way.
use zerver.Prelude.{ℕ, List, [], ◌∷◌, ◌≡◌, refl, sym, ap, inl, inr, Bool-cases}
use zerver.Framework.Module.{mod_failed}
use zerver.Modules.Session.{
  Ec, no_error, operation_aborted, other_error, Status, perform, perform_all, abort_all,
}
use zerver.Modules.Tcp.{
  Op, connect, write_req, recv_resp_head, recv_resp_body, Timer, Answers, guarded, on_failed,
  on_connect, on_write_req, on_recv_resp_head, on_recv_resp_body, close_client, recollect_client,
  on_op, send_request,
}
use zerver.Modules.Tcp.Endings.{
  Ending, timed_out, failed, refused, busy_data, end_data, end_states, endings, unless_stuck,
  next_phase,
}
use zerver.Modules.Session.Endings.{over, ended, IsIn, after_op}

-- The branch for an error, where the data after `cancel` went well are those of an ending.
on_failed-IsIn :
    (c : ℕ) (ec : Ec) (a : Answers) (timers : List (Timer × Status)) (e : Ending)
    → end_states e ≡ mod_failed ∷ []
    → IsIn
        (endings c)
        (elim ec [ operation_aborted ↦ over timed_out | _ ↦ unless_stuck a (over e) ])
        (after_op {Op = Op} (endings c) (on_failed ec a (end_data c failed) (end_data c e)) timers)
unfolding on_failed perform_all perform
on_failed-IsIn c operation_aborted a timers e ends = (_, refl)
on_failed-IsIn c _ a timers e ends = elim (Bool-cases a.cancel_fails) [
  | inl fails ↦ rw fails (_, refl)
  | inr goes ↦
      rw goes
        (_, ap (λ r. record (ended (endings c) e (abort_all timers)) { resumed = r }) (sym ends))
]

on_connect-IsIn :
    (c : ℕ) (ec : Ec) (a : Answers) (timers : List (Timer × Status))
    → IsIn
        (endings c)
        (next_phase connect ec a)
        (after_op (endings c) (on_op connect ec a (busy_data c)) timers)
unfolding on_op on_connect guarded on_failed send_request perform_all perform
on_connect-IsIn c no_error a timers = elim (Bool-cases a.cancel_fails) [
  | inl fails ↦ rw fails (_, refl)
  | inr goes ↦ rw goes (_, _, refl)
]
on_connect-IsIn c operation_aborted a timers = (_, refl)
on_connect-IsIn c other_error a timers = on_failed-IsIn c other_error a timers failed refl

on_write_req-IsIn :
    (c : ℕ) (len : ℕ) (ec : Ec) (a : Answers) (timers : List (Timer × Status))
    → IsIn
        (endings c)
        (next_phase (write_req len) ec a)
        (after_op (endings c) (on_op (write_req len) ec a (busy_data c)) timers)
unfolding on_op on_write_req guarded on_failed perform_all perform
on_write_req-IsIn c len no_error a timers = (_, _, refl)
on_write_req-IsIn c len operation_aborted a timers = (_, refl)
on_write_req-IsIn c len other_error a timers = on_failed-IsIn c other_error a timers failed refl

on_recv_resp_head-IsIn :
    (c : ℕ) (len : ℕ) (ec : Ec) (a : Answers) (timers : List (Timer × Status))
    → IsIn
        (endings c)
        (next_phase (recv_resp_head len) ec a)
        (after_op (endings c) (on_op (recv_resp_head len) ec a (busy_data c)) timers)
unfolding on_op on_recv_resp_head guarded on_failed close_client perform_all perform
on_recv_resp_head-IsIn c len no_error a timers = elim (Bool-cases a.accepted) [
  | inl yes_ ↦ rw yes_ (_, _, refl)
  | inr no_ ↦ rw no_ (on_failed-IsIn c no_error a timers refused refl)
]
on_recv_resp_head-IsIn c len operation_aborted a timers = (_, refl)
on_recv_resp_head-IsIn c len other_error a timers =
    on_failed-IsIn c other_error a timers refused refl

on_recv_resp_body-IsIn :
    (c : ℕ) (len : ℕ) (ec : Ec) (a : Answers) (timers : List (Timer × Status))
    → IsIn
        (endings c)
        (next_phase (recv_resp_body len) ec a)
        (after_op (endings c) (on_op (recv_resp_body len) ec a (busy_data c)) timers)
unfolding on_op on_recv_resp_body guarded on_failed recollect_client perform_all perform
on_recv_resp_body-IsIn c len no_error a timers = elim (Bool-cases a.cancel_fails) [
  | inl fails ↦ rw fails (_, refl)
  | inr goes ↦ elim (Bool-cases a.accepted) [
    | inl yes_ ↦ rw (goes, yes_) (_, refl)
    | inr no_ ↦ rw (goes, no_) (_, refl)
  ]
]
on_recv_resp_body-IsIn c len operation_aborted a timers = (_, refl)
on_recv_resp_body-IsIn c len other_error a timers =
    on_failed-IsIn c other_error a timers failed refl

pub on_op-IsIn :
    (c : ℕ) (op : Op) (ec : Ec) (a : Answers) (timers : List (Timer × Status))
    → IsIn
        (endings c)
        (next_phase op ec a)
        (after_op (endings c) (on_op op ec a (busy_data c)) timers)
on_op-IsIn c connect ec a timers = on_connect-IsIn c ec a timers
on_op-IsIn c (write_req len) ec a timers = on_write_req-IsIn c len ec a timers
on_op-IsIn c (recv_resp_head len) ec a timers = on_recv_resp_head-IsIn c len ec a timers
on_op-IsIn c (recv_resp_body len) ec a timers = on_recv_resp_body-IsIn c len ec a timers
