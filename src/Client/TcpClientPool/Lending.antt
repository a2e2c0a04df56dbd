-- ===== src/Client/TcpClientPool/Lending.antt =====
-- client/tcp_client_pool.cc: which clients are in the pool, and which are lent.
use zerver.Prelude.{
  ℕ, ◌+◌, ◌≤◌, none, some, List, [], ◌∷◌, ◌++◌, ◌≡◌, ◌≢◌, refl, ap, ◌∙◌, arith, inl, inr, get_elem?,
  set, ◌==◌, if◌then◌else◌, Option-cases, nat_eq,
}
use zerver.Prelude.Maps.{find, assign, find-assign}
use zerver.Client.TcpClient.{TcpClient, Poll, on_recollect}
use zerver.Client.TcpClientPool.{
  TcpClientPool, take_client, get_client, check_deque, check_all, check_clients, deque_of,
  recollect,
}
use zerver.Client.TcpClientPool.Deques.{
  count, peer_of, peer_of-set, IsLent, take_client-some, take_client-none, take_client-keeps,
}
use zerver.Client.TcpClientPool.Checks.{check_deque-keeps}

-- How often a client stands in the deques of a pool.
unfoldable pub pooled : ℕ → List (ℕ × List ℕ) → ℕ
pooled p [] = 0
pooled p ((peer_id, deque) ∷ m) = count p deque + pooled p m

pub count-append : (p : ℕ) (xs ys : List ℕ) → count p (xs ++ ys) ≡ count p xs + count p ys
count-append p [] ys = omega arith
count-append p (x ∷ xs) ys = omega (arith, count-append p xs ys)

pub pooled-assign :
    (p k : ℕ) (deque : List ℕ) (m : List (ℕ × List ℕ))
    → pooled p (assign k deque m) + count p (deque_of k m) ≡ pooled p m + count p deque
unfolding pooled assign find
pooled-assign p k deque [] = omega arith
pooled-assign p k deque ((j, d) ∷ m) = ground (arith, pooled-assign p k deque m)

pub deque_of-assign :
    (j k : ℕ) (deque : List ℕ) (m : List (ℕ × List ℕ))
    → deque_of j (assign k deque m) ≡ (if k == j then deque else deque_of j m)
deque_of-assign j k deque m = ground (arith, find-assign j k deque m)

count-deque_of : (p k : ℕ) (m : List (ℕ × List ℕ)) → count p (deque_of k m) ≤ pooled p m
unfolding pooled find
count-deque_of p k [] = omega arith
count-deque_of p k ((j, d) ∷ m) = ground (arith, count-deque_of p k m)

-- Each client stands in the deques at most once, and only in that of its own peer.
pub record IsValid (pool : TcpClientPool) : Type 0 where
  pub once : (p : ℕ) → pooled p pool.free_clients ≤ 1
  pub filed :
      (k p : ℕ) → 1 ≤ count p (deque_of k pool.free_clients) → peer_of pool.clients p ≡ some k

-- A pool with fewer clients in each deque, whose clients have the peers that they had.
pub fewer-IsValid :
    (pool pool' : TcpClientPool)
    → ((p : ℕ) → pooled p pool'.free_clients ≤ pooled p pool.free_clients)
    → ((k p : ℕ) → count p (deque_of k pool'.free_clients) ≤ count p (deque_of k pool.free_clients))
    → ((p : ℕ) → peer_of pool'.clients p ≡ peer_of pool.clients p)
    → IsValid pool
    → IsValid pool'
fewer-IsValid pool pool' total each peers v = record {
  once = λ p. omega (arith, total p, v.once p);
  filed = λ k p h. peers p ∙ v.filed k p (omega (arith, each k p));
}

-- `get_client` keeps the pool valid.
pub get_client-IsValid :
    (sockets : ℕ → Poll) (pool : TcpClientPool) (k : ℕ)
    → IsValid pool
    → IsValid (get_client sockets pool k).1
unfolding get_client
get_client-IsValid sockets pool k v = elim (Option-cases (find k pool.free_clients)) [
  | inl e ↦ rw (e, get_client) v
  | inr (deque, e) ↦
      let m = pool.free_clients in
      let keeps = take_client-keeps pool.max_times sockets pool.clients deque in
      let rest = (take_client pool.max_times sockets pool.clients deque).1 in
      rw (e, get_client)
        (fewer-IsValid pool _ (λ p. ground (arith, e, pooled-assign p k rest m, keeps p))
          (λ j p. ground (arith, e, deque_of-assign j k rest m, keeps p)) (λ p. (keeps p).1) v)
]

pub check_all-keeps :
    (check_time now : ℕ) (sockets : ℕ → Poll) (heap : List TcpClient) (m : List (ℕ × List ℕ))
    (p : ℕ)
    → (pooled p (check_all check_time now sockets heap m).0 ≤ pooled p m)
      × (peer_of (check_all check_time now sockets heap m).1 p ≡ peer_of heap p)
unfolding check_all pooled
check_all-keeps check_time now sockets heap [] p = (omega arith, refl)
check_all-keeps check_time now sockets heap ((k, deque) ∷ m) p =
    let (n, s) = check_deque-keeps check_time now sockets heap deque p in
    let heap' = (check_deque check_time now sockets heap deque).1 in
    let (n', s') = check_all-keeps check_time now sockets heap' m p in (omega arith, s' ∙ s)

check_all-deque_of :
    (check_time now : ℕ) (sockets : ℕ → Poll) (heap : List TcpClient) (m : List (ℕ × List ℕ))
    (k p : ℕ)
    → count p (deque_of k (check_all check_time now sockets heap m).0) ≤ count p (deque_of k m)
unfolding check_all find
check_all-deque_of check_time now sockets heap [] k p = omega arith
check_all-deque_of check_time now sockets heap ((j, deque) ∷ m) k p =
    let heap' = (check_deque check_time now sockets heap deque).1 in
    ground (
      arith,
      check_deque-keeps check_time now sockets heap deque p,
      check_all-deque_of check_time now sockets heap' m k p,
    )

-- `check_clients` keeps the pool valid.
pub check_clients-IsValid :
    (now : ℕ) (sockets : ℕ → Poll) (pool : TcpClientPool)
    → IsValid pool
    → IsValid (check_clients now sockets pool)
unfolding check_clients
check_clients-IsValid now sockets pool v =
    fewer-IsValid pool _
      (λ p. (check_all-keeps pool.check_time now sockets pool.clients pool.free_clients p).0)
      (check_all-deque_of pool.check_time now sockets pool.clients pool.free_clients)
      (λ p. (check_all-keeps pool.check_time now sockets pool.clients pool.free_clients p).1) v

-- A client that is not in the pool can be given back, and the pool stays valid.
pub recollect-IsValid :
    (now : ℕ) (pool : TcpClientPool) (p : ℕ)
    → pooled p pool.free_clients ≡ 0
    → IsValid pool
    → IsValid (recollect now pool (some p))
unfolding recollect on_recollect
recollect-IsValid now pool p absent v = elim (Option-cases (get_elem? pool.clients p)) [
  | inl e ↦ rw (e, recollect) v
  | inr (c, e) ↦
      let m = pool.free_clients in
      let deque = deque_of c.peer_id m ++ p ∷ [] in
      let same : (q : ℕ)
          → peer_of (set pool.clients p (on_recollect now c)) q ≡ peer_of pool.clients q =
        λ q. peer_of-set pool.clients p q c (on_recollect now c) e refl in
      rw (e, recollect)
        (record {
          once = λ q. ground (
            arith,
            v.once q,
            pooled-assign q c.peer_id deque m,
            count-append q (deque_of c.peer_id m) (p ∷ []),
          );
          filed = λ k q h.
              same q
              ∙ ground (
                arith,
                e,
                v.filed k q,
                deque_of-assign k c.peer_id deque m,
                count-append q (deque_of c.peer_id m) (p ∷ []),
              );
        })
]

-- In a valid pool the client that `get_client` returns is of the wanted peer, open, within the limit of times and not
-- in error, and it is in the pool no more.
pub get_client-some :
    (sockets : ℕ → Poll) (pool : TcpClientPool) (k p : ℕ)
    → IsValid pool
    → (get_client sockets pool k).0 ≡ some p
    → IsLent pool.max_times sockets (get_client sockets pool k).1.clients p
      × (peer_of (get_client sockets pool k).1.clients p ≡ some k)
      × (pooled p (get_client sockets pool k).1.free_clients ≡ 0)
unfolding get_client
get_client-some sockets pool k p v h = elim (Option-cases (find k pool.free_clients)) [
  | inl e ↦ absurd (cc (rw (e, get_client) at h))
  | inr (deque, e) ↦
      let m = pool.free_clients in
      let taken = take_client pool.max_times sockets pool.clients deque in
      let h' : taken.0 ≡ some p = rw (e, get_client) at h in
      let (dropped, split, lent) =
        take_client-some pool.max_times sockets pool.clients deque taken.1 taken.2 p
          (λ j. (h' j, taken.1, taken.2)) in
      let here : deque_of k m ≡ deque = rw (e, deque_of) in
      let splits : count p deque ≡ count p dropped + (1 + count p taken.1) =
        ap (count p) split ∙ ground (arith, count-append p dropped (p ∷ taken.1)) in
      let stood : 1 ≤ count p (deque_of k m) = omega (arith, ap (count p) here) in
      rw (e, get_client)
        (
          lent,
          (take_client-keeps pool.max_times sockets pool.clients deque p).1 ∙ v.filed k p stood,
          omega (arith, ap (count p) here, pooled-assign p k taken.1 m, v.once p),
        )
]

-- Without a client to return, nothing is left in the peer's deque.
pub get_client-none :
    (sockets : ℕ → Poll) (pool : TcpClientPool) (k : ℕ)
    → (get_client sockets pool k).0 ≡ none
    → deque_of k (get_client sockets pool k).1.free_clients ≡ []
unfolding get_client
get_client-none sockets pool k h = elim (Option-cases (find k pool.free_clients)) [
  | inl e ↦ rw (e, get_client) (rw (e, deque_of))
  | inr (deque, e) ↦
      let rest = (take_client pool.max_times sockets pool.clients deque).1 in
      rw (e, get_client)
        (ground (
          arith,
          deque_of-assign k k rest pool.free_clients,
          take_client-none pool.max_times sockets pool.clients deque (rw (e, get_client) at h),
        ))
]

-- The deque of another peer is left as it was.
pub get_client-other :
    (sockets : ℕ → Poll) (pool : TcpClientPool) (k j : ℕ)
    → k ≢ j
    → deque_of j (get_client sockets pool k).1.free_clients ≡ deque_of j pool.free_clients
unfolding get_client
get_client-other sockets pool k j ne = elim (Option-cases (find k pool.free_clients)) [
  | inl e ↦ rw (e, get_client)
  | inr (deque, e) ↦
      let rest = (take_client pool.max_times sockets pool.clients deque).1 in
      rw (e, get_client) (ground (arith, deque_of-assign j k rest pool.free_clients))
]
