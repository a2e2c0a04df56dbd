-- ===== src/Modules/Tcp/Endings.antt =====
-- module/tcp_module.cc: all the ways in which a request to a server ends.
pub mod Handlers
pub mod Runs
use zerver.Prelude.{
  ℕ, zero, suc, Bool, true, false, Option, none, some, List, [], ◌∷◌, ◌≡◌, refl, sym, ap, subst,
  get_elem?, ◌⊎◌, inl, inr, Bool-cases, if◌then◌else◌,
}
use zerver.Framework.Module.{ModState, mod_succeed, mod_failed, mod_timeout}
use zerver.Modules.Session.Endings.{Endings, Phase, doing, over}
use zerver.Modules.Session.{
  Ec, no_error, operation_aborted, other_error, Status, armed, queued, Session, Event, op_done,
  timer_due, run_op, run_timer, perform, perform_all, abort, abort_all, dispatch_op, dispatch_timer,
  step, remove_at,
}
use zerver.Modules.Session
use zerver.Modules.Tcp.{
  TcpData, socket_event_opened, socket_event_closed, Op, connect, write_req, recv_resp_head,
  recv_resp_body, Timer, Answers, Found, pooled, fresh, handlers, begin, run, guarded, on_failed,
  on_connect, on_write_req, on_recv_resp_head, on_recv_resp_body, close_client, recollect_client,
  on_op, on_time_out, send_request, resp_head_len,
}

-- How a request ends: a handler gave up since `cancel` of the timer set an error; an operation was
-- aborted; an operation failed; the head of the response failed or was refused; or the body came, and
-- was accepted or not.
pub data Ending : Type 0 where
  gave_up timed_out failed refused : Ending
  answered : Bool → Ending

-- The module data while an operation is under way on a client, and at the end.
abbrev pub busy_data : ℕ → TcpData
busy_data c = record {
  client = some c;
  socket_event = socket_event_opened;
  closed = [];
  recollected = [];
}

abbrev pub end_data : ℕ → Ending → TcpData
end_data c refused = record {
  client = some c;
  socket_event = socket_event_closed;
  closed = c ∷ [];
  recollected = [];
}
end_data c (answered accepted) = record {
  client = none;
  socket_event = socket_event_closed;
  closed = [];
  recollected = c ∷ [];
}
end_data c _ = record {
  client = some c;
  socket_event = socket_event_closed;
  closed = [];
  recollected = [];
}

-- The states with which the machine has been resumed at the end.
abbrev pub end_states : Ending → List ModState
end_states gave_up = []
end_states timed_out = mod_timeout ∷ []
end_states failed = mod_failed ∷ []
end_states refused = mod_failed ∷ []
end_states (answered true) = mod_succeed ∷ []
end_states (answered false) = mod_failed ∷ []

abbrev pub endings : ℕ → Endings TcpData Ending
endings c = record {
  busy_data = busy_data c;
  end_data = end_data c;
  end_exited = λ e. false;
  end_states = end_states;
}

-- What follows where `cancel` of the timer sets no error.
abbrev pub unless_stuck : Answers → Phase Op Ending → Phase Op Ending
unless_stuck a p = if a.cancel_fails then over gave_up else p

-- What follows an operation: the connection, the request, and the head and the body of the response in this
-- order, each by its length, as long as none fails or is refused.
abbrev pub next_phase : Op → Ec → Answers → Phase Op Ending
next_phase op operation_aborted a = over timed_out
next_phase connect no_error a = unless_stuck a (doing (write_req a.req_len))
next_phase (write_req len) no_error a = doing (recv_resp_head resp_head_len)
next_phase (recv_resp_head len) no_error a =
    if a.accepted then doing (recv_resp_body a.resp_body_len) else unless_stuck a (over refused)
next_phase (recv_resp_body len) no_error a = unless_stuck a (over (answered a.accepted))
next_phase (recv_resp_head len) other_error a = unless_stuck a (over refused)
next_phase _ other_error a = unless_stuck a (over failed)
