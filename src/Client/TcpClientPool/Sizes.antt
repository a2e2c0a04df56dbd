-- ===== src/Client/TcpClientPool/Sizes.antt =====
-- client/tcp_client_pool.cc: what `size` counts.
use zerver.Prelude.{
  ℕ, ◌+◌, some, List, [], ◌∷◌, ◌++◌, ◌≡◌, refl, arith, inl, inr, get_elem?, Option-cases, nat_eq,
  length, length-append,
}
use zerver.Prelude.Maps.{find, assign}
use zerver.Client.TcpClient.{TcpClient, Poll}
use zerver.Client.TcpClientPool.{
  TcpClientPool, take_client, get_client, size_of, size, deque_of, recollect,
}
use zerver.Client.TcpClientPool.Lending.{deque_of-assign}

size_of-assign :
    (k : ℕ) (deque : List ℕ) (m : List (ℕ × List ℕ))
    → size_of (assign k deque m) + length (deque_of k m) ≡ size_of m + length deque
unfolding size_of assign find
size_of-assign k deque [] = omega arith
size_of-assign k deque ((j, d) ∷ m) = ground (arith, size_of-assign k deque m)

-- `recollect` makes the pool larger by one.
pub size-recollect :
    (now : ℕ) (pool : TcpClientPool) (p : ℕ) (c : TcpClient)
    → get_elem? pool.clients p ≡ some c
    → size (recollect now pool (some p)) ≡ size pool + 1
unfolding size recollect
size-recollect now pool p c e =
    let q = deque_of c.peer_id pool.free_clients in
    rw (e, recollect)
      (omega
        (arith, size_of-assign c.peer_id (q ++ p ∷ []) pool.free_clients, length-append q (p ∷ [])))

-- `get_client` makes the pool smaller by what it takes out of the peer's deque.
pub size-get_client :
    (sockets : ℕ → Poll) (pool : TcpClientPool) (k : ℕ)
    → size (get_client sockets pool k).1 + length (deque_of k pool.free_clients)
      ≡ size pool + length (deque_of k (get_client sockets pool k).1.free_clients)
unfolding size get_client
size-get_client sockets pool k = elim (Option-cases (find k pool.free_clients)) [
  | inl e ↦ rw (e, get_client) refl
  | inr (deque, e) ↦
      let rest = (take_client pool.max_times sockets pool.clients deque).1 in
      rw (e, get_client)
        (ground (
          arith,
          e,
          deque_of-assign k k rest pool.free_clients,
          size_of-assign k rest pool.free_clients,
        ))
]
