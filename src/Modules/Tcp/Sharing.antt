-- ===== src/Modules/Tcp/Sharing.antt =====
-- module/tcp_module.cc with client/tcp_client_pool.cc: requests that share a pool. The requests stand
-- in the order in which they began. The lock of each module data and the mutex of the pool make an event a step of its own.
pub mod Gives
pub mod Owners
pub mod Busy
pub mod Lends
use zerver.Prelude.{ℕ, Option, none, some, List, [], ◌∷◌, ◌++◌, length, get_elem?, set}
use zerver.Client.TcpClient.{Poll, new_tcp_client, close}
use zerver.Client.TcpClientPool.{
  TcpClientPool, new_tcp_client_pool, get_client, recollect, check_clients,
}
use zerver.Modules.Session.{Session}
use zerver.Modules.Session
use zerver.Modules.Tcp.{
  TcpData, Op, Timer, Answers, Found, no_type_id, pooled, no_server, bad_address, bad_socket, fresh,
  handlers, begin,
}

abbrev pub Request : Type 0
Request = Session Op Timer TcpData

pub record Shared : Type 0 where
  pub pool : TcpClientPool
  pub requests : List Request

-- What stands in the way of a new client, or that it is made.
pub data NewClient : Type 0 where
  server_unknown address_unread socket_failed made : NewClient

-- `run` where `get_client` gives a null pointer: what it finds, with the pool that has the new client.
unfoldable pub connect_new : NewClient → ℕ → ℕ → TcpClientPool → Found × TcpClientPool
connect_new server_unknown peer_id now pool = (no_server, pool)
connect_new address_unread peer_id now pool = (bad_address, pool)
connect_new socket_failed peer_id now pool = (bad_socket, pool)
connect_new made peer_id now pool = (
  fresh (length pool.clients),
  record pool { clients = pool.clients ++ new_tcp_client peer_id now ∷ [] },
)

-- `run` asks the pool first. A type id of -1 is `none`.
unfoldable pub find_client :
    Option ℕ → (ℕ → Poll) → NewClient → ℕ → TcpClientPool → Found × TcpClientPool
unfolding connect_new
find_client none sockets new now pool = (no_type_id, pool)
find_client (some peer_id) sockets new now pool =
    let (client, pool') = get_client sockets pool peer_id in
    elim client [ some c ↦ (pooled c, pool') | none ↦ connect_new new peer_id now pool' ]

-- The client that a handler has closed, or given back, if it has: the one that has been recorded since.
abbrev pub since : List ℕ → List ℕ → Option ℕ
since old new = get_elem? new (length old)

unfoldable pub close_client : TcpClientPool → Option ℕ → TcpClientPool
close_client pool none = pool
close_client pool (some p) = elim (get_elem? pool.clients p) [
  | none ↦ pool
  | some c ↦ record pool { clients = set pool.clients p (close c) }
]

-- What becomes of the pool when the data of a request changes.
unfoldable pub settle : ℕ → TcpData → TcpData → TcpClientPool → TcpClientPool
unfolding close_client
settle now before after pool =
    recollect now (close_client pool (since before.closed after.closed))
      (since before.recollected after.recollected)

-- A request begins; something happens to the operations of a request; or the pool's timer runs out.
pub data Event : Type 0 where
  begun : Option ℕ → (ℕ → Poll) → NewClient → Answers → ℕ → Event
  happened : ℕ → Session.Event Answers → ℕ → Event
  check_time : ℕ → (ℕ → Poll) → Event

-- One event of the request with a number, if it has begun.
unfoldable pub handle : Option Request → ℕ → Session.Event Answers → ℕ → Shared → Shared
unfolding settle
handle none i e now s = s
handle (some r) i e now s =
    let r' = Session.step handlers r e in
    record { pool = settle now r.state r'.state s.pool; requests = set s.requests i r' }

unfoldable pub step : Shared → Event → Shared
unfolding find_client handle
step s (begun type_id sockets new a now) =
    let (found, pool') = find_client type_id sockets new now s.pool in
    record { pool = pool'; requests = s.requests ++ begin found a ∷ [] }
step s (happened i e now) = handle (get_elem? s.requests i) i e now s
step s (check_time now sockets) = record s { pool = check_clients now sockets s.pool }

unfoldable pub run : Shared → List Event → Shared
run s [] = s
run s (e ∷ es) = run (step s e) es

-- What a sequence of events makes of a new pool without requests.
abbrev pub served : ℕ → ℕ → List Event → Shared
served time times es = run (record { pool = new_tcp_client_pool time times []; requests = [] }) es
