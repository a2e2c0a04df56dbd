-- ===== src/Modules/Tcp.antt =====
-- module/tcp_module.h and module/tcp_module.cc: a request to another server, over a pooled connection
-- or a new one. The lock of the module data makes each handler a step of its own. A client is an index,
-- as in `Client/TcpClientPool.antt`; `close` of a client and `recollect` are recorded in the data.
pub mod Once
pub mod Clients
pub mod Sharing
pub mod TimeOut
pub mod Endings
use zerver.Prelude.{
  ℕ, ◌∷◌, Bool, true, false, not, ◌||◌, Option, none, some, List, [], ◌++◌, if◌then◌else◌,
}
use zerver.Framework.Module.{ModState, mod_async, mod_failed, mod_succeed, mod_timeout}
use zerver.Modules.Session.{
  Ec, no_error, operation_aborted, other_error, Effect, start_op, set_timer, cancel_timer,
  cancel_socket, notify, resume, Session, Handlers, perform_all,
}

pub data SocketEventState : Type 0 where
  socket_event_none socket_event_opened socket_event_closed : SocketEventState

-- `ModuleData`. The clients that were closed and that were given back are kept for the proofs.
pub record TcpData : Type 0 where
  pub client : Option ℕ
  pub socket_event : SocketEventState
  pub closed : List ℕ
  pub recollected : List ℕ

-- An operation on the client's socket, with the number of bytes.
pub data Op : Type 0 where
  connect : Op
  write_req recv_resp_head recv_resp_body : ℕ → Op

pub data Timer : Type 0 where
  connect_timer reply_timer : Timer

-- The answers of the virtual functions, and whether `cancel` of the timer, and that of the socket, set
-- an error.
pub record Answers : Type 0 where
  pub accepted : Bool
  pub cancel_fails : Bool
  pub socket_cancel_fails : Bool
  pub req_len : ℕ
  pub resp_body_len : ℕ

abbrev pub Effects : Type 0
Effects = List (Effect Op Timer)

-- FLAGS_wait_connect_time_out_ms.
abbrev pub connect_time_out_ms : ℕ
connect_time_out_ms = 50

-- FLAGS_wait_reply_time_out_ms.
abbrev pub time_out_ms : ℕ
time_out_ms = 50

abbrev pub resp_head_len : ℕ
resp_head_len = 256

abbrev pub new_data : TcpData
new_data = record { client = none; socket_event = socket_event_none; closed = []; recollected = [] }

-- `ModuleData::recollectable`.
unfoldable pub recollectable : TcpData → Bool
recollectable d = elim d.socket_event [
  | socket_event_none ↦ true
  | socket_event_opened ↦ false
  | socket_event_closed ↦ true
]

unfoldable pub reset : TcpData → TcpData
reset d = record d { client = none; socket_event = socket_event_none }

-- What `run` finds: no type id, a pooled client, no server, an address that cannot be read, a socket
-- that cannot be made, or a new client.
pub data Found : Type 0 where
  no_type_id : Found
  pooled : ℕ → Found
  no_server bad_address bad_socket : Found
  fresh : ℕ → Found

unfoldable pub send_request : Answers → TcpData → TcpData × Effects
send_request a d =
    (record d { socket_event = socket_event_opened }, start_op (write_req a.req_len) ∷ [])

-- `run`: the state that it returns, the data, and what it starts.
unfoldable pub run : Found → Answers → TcpData → ModState × TcpData × Effects
unfolding send_request
run no_type_id a d = (mod_failed, d, [])
run no_server a d = (mod_failed, record d { client = none }, [])
run bad_address a d = (mod_failed, record d { client = none }, [])
run bad_socket a d =
    (mod_failed, record d { client = none }, set_timer connect_timer connect_time_out_ms ∷ [])
run (fresh c) a d = (
  mod_async,
  record d { client = some c; socket_event = socket_event_opened },
  set_timer connect_timer connect_time_out_ms ∷ start_op connect ∷ [],
)
run (pooled c) a d =
    let (d', effects) = send_request a (record d { client = some c }) in
    (mod_async, d', set_timer reply_timer time_out_ms ∷ effects)

abbrev pub is_opened : TcpData → Bool
is_opened d = elim d.socket_event [ socket_event_opened ↦ true | _ ↦ false ]

abbrev pub is_error : Ec → Bool
is_error no_error = false
is_error _ = true

-- The guard of each handler of an operation: a call that comes when no operation is open does nothing;
-- any other closes the event.
unfoldable pub guarded : (TcpData → TcpData × Effects) → TcpData → TcpData × Effects
guarded body d =
    if is_opened d then body (record d { socket_event = socket_event_closed }) else (d, [])

-- The branch of each handler for an error, with the data as it is after `cancel` went well.
unfoldable pub on_failed : Ec → Answers → TcpData → TcpData → TcpData × Effects
on_failed ec a d failed = elim ec [
  | operation_aborted ↦ (d, resume mod_timeout ∷ [])
  | _ ↦
      if a.cancel_fails
      then (d, cancel_timer ∷ [])
      else (failed, cancel_timer ∷ notify ∷ resume mod_failed ∷ [])
]

unfoldable pub on_connect : Ec → Answers → TcpData → TcpData × Effects
unfolding guarded on_failed send_request
on_connect ec a = guarded λ d.
    if is_error ec
    then on_failed ec a d d
    else if a.cancel_fails
    then (d, cancel_timer ∷ [])
    else let (d', effects) = send_request a d in
      (d', cancel_timer ∷ set_timer reply_timer time_out_ms ∷ effects)

unfoldable pub on_write_req : Ec → Answers → TcpData → TcpData × Effects
unfolding guarded on_failed
on_write_req ec a = guarded λ d. if is_error ec then on_failed ec a d d else (
  record d { socket_event = socket_event_opened },
  start_op (recv_resp_head resp_head_len) ∷ [],
)

-- `data->client_->close()`.
unfoldable pub close_client : TcpData → TcpData
close_client d = elim d.client [ none ↦ d | some c ↦ record d { closed = d.closed ++ c ∷ [] } ]

unfoldable pub on_recv_resp_head : Ec → Answers → TcpData → TcpData × Effects
unfolding guarded on_failed close_client
on_recv_resp_head ec a = guarded λ d.
    if is_error ec || not a.accepted then on_failed ec a d (close_client d) else (
      record d { socket_event = socket_event_opened },
      start_op (recv_resp_body a.resp_body_len) ∷ [],
    )

-- `client_pool_.recollect(data->client_); data->client_.reset()`.
unfoldable pub recollect_client : TcpData → TcpData
recollect_client d = elim d.client [
  | none ↦ d
  | some c ↦ record d { client = none; recollected = d.recollected ++ c ∷ [] }
]

unfoldable pub on_recv_resp_body : Ec → Answers → TcpData → TcpData × Effects
unfolding guarded on_failed recollect_client
on_recv_resp_body ec a = guarded λ d.
    if is_error ec then on_failed ec a d d else if a.cancel_fails then (d, cancel_timer ∷ []) else (
      recollect_client d,
      cancel_timer ∷ resume (if a.accepted then mod_succeed else mod_failed) ∷ [],
    )

-- `on_handle_connect_time_out` and `on_handle_time_out`: without a client there is nothing to cancel, and
-- where `cancel` of the socket sets an error, which is only logged, nothing is cancelled.
unfoldable pub on_time_out : Ec → Answers → TcpData → Effects
on_time_out ec a d = if is_error ec then [] else elim d.client [
  | none ↦ notify ∷ []
  | some c ↦ if a.socket_cancel_fails then notify ∷ [] else cancel_socket ∷ notify ∷ []
]

-- Which handler an operation is bound to.
unfoldable pub on_op : Op → Ec → Answers → TcpData → TcpData × Effects
unfolding on_connect on_write_req on_recv_resp_head on_recv_resp_body
on_op connect ec a d = on_connect ec a d
on_op (write_req len) ec a d = on_write_req ec a d
on_op (recv_resp_head len) ec a d = on_recv_resp_head ec a d
on_op (recv_resp_body len) ec a d = on_recv_resp_body ec a d

unfoldable pub handlers : Handlers Op Timer Answers TcpData
unfolding on_op on_time_out
handlers = record { on_op = on_op; on_timer = λ t ec a d. (d, on_time_out ec a d) }

-- A module in which `run` has been called on the data of a new request.
unfoldable pub begin : Found → Answers → Session Op Timer TcpData
unfolding run perform_all
begin found a =
    let (state, d, effects) = run found a new_data in
    perform_all effects (record { ops = []; timers = []; state = d; exited = false; resumed = [] })
