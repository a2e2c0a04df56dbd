-- ===== src/Client/TcpClientPool.antt =====
-- client/tcp_client_pool.h and client/tcp_client_pool.cc. A `TcpClientPtr` is an index into a heap of
-- clients. The mutex makes each call a step of its own; what the sockets answer during a call, and the
-- time, are arguments. A `max_times_` that is not positive is 0; `check_time_` is not negative.
-- `debug_string` is only printed, and is left out.
pub mod Deques
pub mod Checks
pub mod Lending
pub mod Moves
pub mod Sizes
pub mod Reference
use zerver.Prelude.{
  ℕ, zero, suc, ◌+◌, Bool, true, false, Option, none, some, List, [], ◌∷◌, ◌++◌, length, get_elem?,
  set, ltb, not, ◌||◌, if◌then◌else◌, nat_eq,
}
use zerver.Prelude.Maps.{find, assign}
use zerver.Client.TcpClient.{
  TcpClient, Poll, is_error, increase_times, close, on_recollect, expired,
}

pub record TcpClientPool : Type 0 where
  pub max_times : ℕ
  pub check_time : ℕ
  pub clients : List TcpClient
  pub free_clients : List (ℕ × List ℕ)

unfoldable pub new_tcp_client_pool : ℕ → ℕ → List TcpClient → TcpClientPool
new_tcp_client_pool check_time times clients = record {
  max_times = times;
  check_time = check_time;
  clients = clients;
  free_clients = [];
}

-- What the loop of `get_client` does with a client that it has popped: the client as it is left, and
-- whether it is returned.
unfoldable pub try_client : ℕ → Bool → TcpClient → TcpClient × Bool
unfolding increase_times
try_client max_times failing c =
    if c.is_closed
    then (c, false)
    else if ltb 0 max_times
    then if ltb max_times (increase_times c).times
      then (close (increase_times c), false)
      else (increase_times c, not failing)
    else (c, not failing)

-- The loop over one deque: the client found, the rest of the deque, and the heap.
unfoldable pub take_client :
    ℕ → (ℕ → Poll) → List TcpClient → List ℕ → Option ℕ × List ℕ × List TcpClient
take_client max_times sockets heap [] = (none, [], heap)
take_client max_times sockets heap (p ∷ deque) = elim (get_elem? heap p) [
  | none ↦ take_client max_times sockets heap deque
  | some c ↦
      let (c', found) = try_client max_times (is_error (sockets p)) c in
      elim found [
        | true ↦ (some p, deque, set heap p c')
        | false ↦ take_client max_times sockets (set heap p c') deque
      ]
]

unfoldable pub get_client : (ℕ → Poll) → TcpClientPool → ℕ → Option ℕ × TcpClientPool
get_client sockets pool peer_id = elim (find peer_id pool.free_clients) [
  | none ↦ (none, pool)
  | some deque ↦
      let (found, rest, heap) = take_client pool.max_times sockets pool.clients deque in
      (found, record pool { clients = heap; free_clients = assign peer_id rest pool.free_clients })
]

unfoldable pub size_of : List (ℕ × List ℕ) → ℕ
size_of [] = 0
size_of ((peer_id, deque) ∷ m) = length deque + size_of m

unfoldable pub size : TcpClientPool → ℕ
unfolding size_of
size pool = size_of pool.free_clients

-- The inner loop of `check_clients`: the deque and the heap that are left.
unfoldable pub check_deque : ℕ → ℕ → (ℕ → Poll) → List TcpClient → List ℕ → List ℕ × List TcpClient
check_deque check_time now sockets heap [] = ([], heap)
check_deque check_time now sockets heap (p ∷ deque) = elim (get_elem? heap p) [
  | none ↦ check_deque check_time now sockets heap deque
  | some c ↦ elim (expired now check_time c) [
    | true ↦ check_deque check_time now sockets (set heap p (close c)) deque
    | false ↦ elim (c.is_closed || is_error (sockets p)) [
      | true ↦ check_deque check_time now sockets heap deque
      | false ↦
          let (kept, heap') = check_deque check_time now sockets heap deque in (p ∷ kept, heap')
    ]
  ]
]

unfoldable pub check_all :
    ℕ → ℕ → (ℕ → Poll) → List TcpClient → List (ℕ × List ℕ) → List (ℕ × List ℕ) × List TcpClient
unfolding check_deque
check_all check_time now sockets heap [] = ([], heap)
check_all check_time now sockets heap ((peer_id, deque) ∷ m) =
    let (kept, heap') = check_deque check_time now sockets heap deque in
    let (m', heap'') = check_all check_time now sockets heap' m in ((peer_id, kept) ∷ m', heap'')

unfoldable pub check_clients : ℕ → (ℕ → Poll) → TcpClientPool → TcpClientPool
unfolding check_all
check_clients now sockets pool =
    let (m, heap) = check_all pool.check_time now sockets pool.clients pool.free_clients in
    record pool { clients = heap; free_clients = m }

-- The deque that `free_clients_[peer_id]` gives, which is new if there was none.
abbrev pub deque_of : ℕ → List (ℕ × List ℕ) → List ℕ
deque_of peer_id m = elim (find peer_id m) [ none ↦ [] | some deque ↦ deque ]

-- `none` is a null pointer.
unfoldable pub recollect : ℕ → TcpClientPool → Option ℕ → TcpClientPool
recollect now pool none = pool
recollect now pool (some p) = elim (get_elem? pool.clients p) [
  | none ↦ pool
  | some c ↦ record pool {
    clients = set pool.clients p (on_recollect now c);
    free_clients =
        assign c.peer_id (deque_of c.peer_id pool.free_clients ++ p ∷ []) pool.free_clients;
  }
]
