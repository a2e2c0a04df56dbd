-- ===== src/Modules/Tcp/Clients.antt =====
-- module/tcp_module.cc: what becomes of the client that a request holds.
use zerver.Prelude.{
  ◌+◌, ◌≤◌, true, false, none, List, [], ◌∷◌, ◌≡◌, arith, length, length-append, Option-cases, ◌⊎◌,
  inl, inr,
}
use zerver.Modules.Session.{Ec, Session, Event, perform_all}
use zerver.Modules.Session
use zerver.Modules.Session.State.{IsKept, run-keeps}
use zerver.Modules.Tcp.{
  TcpData, socket_event_closed, Op, connect, write_req, recv_resp_head, recv_resp_body, Answers,
  Found, no_type_id, pooled, no_server, bad_address, bad_socket, fresh, handlers, begin, run,
  is_opened, guarded, on_connect, on_write_req, on_recv_resp_head, on_recv_resp_body, close_client,
  recollect_client, on_op, send_request,
}

-- At most one client was closed or given back; while an operation is open none was; and a request that
-- gave its client back does not hold it.
pub IsHeld : TcpData → Type 0
IsHeld d =
    (length d.closed + length d.recollected ≤ 1)
    × (is_opened d ≡ true → length d.closed + length d.recollected ≡ 0)
    × ((length d.recollected ≡ 0) ⊎ (d.client ≡ none))

-- The client is given up once: with nothing closed or given back yet, and no operation open.
close_client-IsHeld :
    (d : TcpData)
    → length d.closed + length d.recollected ≡ 0
    → is_opened d ≡ false
    → IsHeld (close_client d)
unfolding close_client IsHeld
close_client-IsHeld d none_ shut = elim (Option-cases d.client) [
  | inl e ↦ ground arith
  | inr (c, e) ↦ ground (arith, length-append d.closed (c ∷ []))
]

recollect_client-IsHeld :
    (d : TcpData)
    → length d.closed + length d.recollected ≡ 0
    → is_opened d ≡ false
    → IsHeld (recollect_client d)
unfolding recollect_client IsHeld
recollect_client-IsHeld d none_ shut = elim (Option-cases d.client) [
  | inl e ↦ ground arith
  | inr (c, e) ↦ ground (arith, length-append d.recollected (c ∷ []))
]

on_op-IsHeld :
    (op : Op) (ec : Ec) (a : Answers) (d : TcpData) → IsHeld d → IsHeld (on_op op ec a d).0
unfolding on_op IsHeld guarded on_connect on_write_req on_recv_resp_head on_recv_resp_body
on_op-IsHeld connect ec a d held = ground arith
on_op-IsHeld (write_req len) ec a d held = ground arith
on_op-IsHeld (recv_resp_head len) ec a d held =
    let shut = record d { socket_event = socket_event_closed } in
    ground (arith, close_client-IsHeld shut)
on_op-IsHeld (recv_resp_body len) ec a d held =
    let shut = record d { socket_event = socket_event_closed } in
    ground (arith, recollect_client-IsHeld shut)

handlers-IsKept : IsKept handlers IsHeld
unfolding handlers
handlers-IsKept = record {
  op_keeps = λ op ec a d held. on_op-IsHeld op ec a d held;
  timer_keeps = λ t ec a d held. held;
}

begin-IsHeld : (found : Found) (a : Answers) → IsHeld (begin found a).state
unfolding begin run send_request perform_all IsHeld
begin-IsHeld no_type_id a = ground arith
begin-IsHeld (pooled c) a = ground arith
begin-IsHeld no_server a = ground arith
begin-IsHeld bad_address a = ground arith
begin-IsHeld bad_socket a = ground arith
begin-IsHeld (fresh c) a = ground arith

-- However a request begins and whatever then happens, its client is closed or given back to the pool at
-- most once in all, neither while an operation on it is open, and once it is given back the module data
-- no longer holds a client.
pub run-IsHeld :
    (found : Found) (a : Answers) (es : List (Event Answers))
    → IsHeld (Session.run handlers (begin found a) es).state
run-IsHeld found a es =
    run-keeps handlers IsHeld handlers-IsKept (begin found a) es (begin-IsHeld found a)
