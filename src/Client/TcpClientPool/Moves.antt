-- ===== src/Client/TcpClientPool/Moves.antt =====
-- client/tcp_client_pool.cc: how often a client stands in the deques after each operation of the pool.
use zerver.Prelude.{
  ℕ, ◌+◌, ◌≤◌, Option, none, some, List, [], ◌∷◌, ◌++◌, ◌≡◌, refl, arith, inl, inr, get_elem?, set,
  ◌==◌, if◌then◌else◌, Option-cases, nat_eq,
}
use zerver.Prelude.Maps.{find}
use zerver.Client.TcpClient.{TcpClient, Poll, is_error, on_recollect}
use zerver.Client.TcpClientPool.{
  TcpClientPool, try_client, take_client, get_client, check_clients, deque_of, recollect,
}
use zerver.Client.TcpClientPool.Deques.{
  count, peer_of, peer_of-set, null_client, found, passed, visit, take_client-keeps,
}
use zerver.Client.TcpClientPool.Lending.{pooled, count-append, pooled-assign, check_all-keeps}

-- How often a client stands in a variable that may hold one.
abbrev pub held : ℕ → Option ℕ → ℕ
held p none = 0
held p (some q) = if q == p then 1 else 0

take_client-moves :
    (max_times : ℕ) (sockets : ℕ → Poll) (heap : List TcpClient) (deque : List ℕ) (p : ℕ)
    → count p (take_client max_times sockets heap deque).1
        + held p (take_client max_times sockets heap deque).0
      ≤ count p deque
unfolding take_client
take_client-moves max_times sockets heap [] p = omega arith
take_client-moves max_times sockets heap (q ∷ deque) p =
    elim (visit max_times sockets heap q deque) [
      | null_client e r ↦ rw r (omega (arith, take_client-moves max_times sockets heap deque p))
      | found c e t r ↦ rw r (omega arith)
      | passed c e t r ↦
          let heap' = set heap q (try_client max_times (is_error (sockets q)) c).0 in
          rw r (omega (arith, take_client-moves max_times sockets heap' deque p))
    ]

-- What `get_client` returns has left the deques.
pub get_client-moves :
    (sockets : ℕ → Poll) (pool : TcpClientPool) (k p : ℕ)
    → (pooled p (get_client sockets pool k).1.free_clients + held p (get_client sockets pool k).0
        ≤ pooled p pool.free_clients)
      × (peer_of (get_client sockets pool k).1.clients p ≡ peer_of pool.clients p)
unfolding get_client
get_client-moves sockets pool k p = elim (Option-cases (find k pool.free_clients)) [
  | inl e ↦ rw (e, get_client) (omega arith, refl)
  | inr (deque, e) ↦
      let m = pool.free_clients in
      let moves = take_client-moves pool.max_times sockets pool.clients deque p in
      let rest = (take_client pool.max_times sockets pool.clients deque).1 in
      rw (e, get_client)
        (
          ground (arith, e, pooled-assign p k rest m, moves),
          (take_client-keeps pool.max_times sockets pool.clients deque p).1,
        )
]

-- What is given back stands in the deques once more, if it is a client at all.
pub recollect-moves :
    (now : ℕ) (pool : TcpClientPool) (back : Option ℕ) (p : ℕ)
    → (pooled p (recollect now pool back).free_clients ≤ pooled p pool.free_clients + held p back)
      × (peer_of (recollect now pool back).clients p ≡ peer_of pool.clients p)
unfolding recollect on_recollect
recollect-moves now pool none p = (omega arith, refl)
recollect-moves now pool (some q) p = elim (Option-cases (get_elem? pool.clients q)) [
  | inl e ↦ rw (e, recollect) (omega arith, refl)
  | inr (c, e) ↦
      let m = pool.free_clients in
      let deque = deque_of c.peer_id m ++ q ∷ [] in
      rw (e, recollect)
        (
          ground (
            arith,
            pooled-assign p c.peer_id deque m,
            count-append p (deque_of c.peer_id m) (q ∷ []),
          ),
          peer_of-set pool.clients q p c (on_recollect now c) e refl,
        )
]

pub check_clients-moves :
    (now : ℕ) (sockets : ℕ → Poll) (pool : TcpClientPool) (p : ℕ)
    → (pooled p (check_clients now sockets pool).free_clients ≤ pooled p pool.free_clients)
      × (peer_of (check_clients now sockets pool).clients p ≡ peer_of pool.clients p)
unfolding check_clients
check_clients-moves now sockets pool p =
    check_all-keeps pool.check_time now sockets pool.clients pool.free_clients p
