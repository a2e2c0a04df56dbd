-- ===== src/Client/TcpClientPool/Reference.antt =====
-- client/tcp_client_pool.cc: the loops over deques, which change the clients as they go, compared with
-- a search and a filter that look at the clients as they are at the beginning.
use zerver.Prelude.{
  ℕ, ◌≤◌, Bool, true, false, none, some, List, [], ◌∷◌, ◌++◌, ◌≡◌, ◌≢◌, refl, ap, ◌∙◌, sym, arith,
  inl, inr, get_elem?, set, ltb, not, ◌||◌, ◌&&◌, ◌==◌, Bool-cases, ==_iff, Option-cases,
  get_elem?-set_self, get_elem?-set_ne, get_elem?-lt, filter, find_first, nat_eq,
}
use zerver.Prelude.Maps.{find, find-assign_self}
use zerver.Client.TcpClient.{TcpClient, Poll, is_error, close, expired, on_recollect}
use zerver.Client.TcpClientPool.{
  TcpClientPool, try_client, take_client, get_client, check_deque, check_all, check_clients,
  deque_of, recollect,
}
use zerver.Client.TcpClientPool.Deques.{count, null_client, found, passed, visit}
use zerver.Client.TcpClientPool.Lending.{deque_of-assign}

-- A client that may be lent, as a test.
abbrev pub is_usable : ℕ → (ℕ → Poll) → List TcpClient → ℕ → Bool
is_usable max_times sockets heap p = elim (get_elem? heap p) [
  | none ↦ false
  | some c ↦
      not c.is_closed && (not (is_error (sockets p)) && (max_times == 0 || ltb c.times max_times))
]

-- A client that may stay in the pool, as a test.
abbrev pub is_fresh : ℕ → ℕ → (ℕ → Poll) → List TcpClient → ℕ → Bool
is_fresh check_time now sockets heap p = elim (get_elem? heap p) [
  | none ↦ false
  | some c ↦ not (expired now check_time c) && (not c.is_closed && not (is_error (sockets p)))
]

abbrev pub filter_deques : (ℕ → Bool) → List (ℕ × List ℕ) → List (ℕ × List ℕ)
filter_deques test [] = []
filter_deques test ((peer_id, deque) ∷ m) = (peer_id, filter test deque) ∷ filter_deques test m

module _ (max_times : ℕ) (sockets : ℕ → Poll) where
  is_usable-try :
      (heap : List TcpClient) (p : ℕ) (c : TcpClient) (b : Bool)
      → get_elem? heap p ≡ some c
      → (try_client max_times (is_error (sockets p)) c).1 ≡ b
      → is_usable max_times sockets heap p ≡ b
  unfolding try_client
  is_usable-try heap p c b e t = ground (arith, e)

  is_usable-set :
      (heap : List TcpClient) (q p : ℕ) (c : TcpClient)
      → q ≢ p
      → is_usable max_times sockets (set heap q c) p ≡ is_usable max_times sockets heap p
  is_usable-set heap q p c ne = rw (is_usable, get_elem?-set_ne heap c ne)

  find_usable :
      (test : ℕ → Bool) (heap : List TcpClient) (deque : List ℕ)
      → ((p : ℕ) → 1 ≤ count p deque → test p ≡ is_usable max_times sockets heap p)
      → ((p : ℕ) → count p deque ≤ 1)
      → ((take_client max_times sockets heap deque).0 ≡ (find_first test deque).0)
        × ((take_client max_times sockets heap deque).1 ≡ (find_first test deque).1)
  unfolding take_client
  find_usable test heap [] same once = (refl, refl)
  find_usable test heap (q ∷ deque) same once =
      let at : test q ≡ is_usable max_times sockets heap q = same q (ground arith) in
      let once' : (x : ℕ) → count x deque ≤ 1 = λ x. omega (arith, once x) in
      elim (visit max_times sockets heap q deque) [
        | null_client e r ↦
            let no : test q ≡ false = at ∙ ground (arith, e) in
            rw (r, no) (find_usable test heap deque (λ x k. same x (omega arith)) once')
        | found c e t r ↦
            let on : test q ≡ true = at ∙ is_usable-try heap q c true e t in rw (r, on) (refl, refl)
        | passed c e t r ↦
            let no : test q ≡ false = at ∙ is_usable-try heap q c false e t in
            let heap' = set heap q (try_client max_times (is_error (sockets q)) c).0 in
            rw (r, no)
              (find_usable test heap' deque
                (λ x k.
                  let ne : q ≢ x = λ s. ground (arith, once x) in
                  same x (omega arith) ∙ sym (is_usable-set heap q x _ ne))
                once')
      ]

  -- Where the pointers of a deque differ, the loop of `get_client` returns the first client that is
  -- usable at the beginning, and leaves what stands behind it.
  pub take_client-eq-find_first :
      (heap : List TcpClient) (deque : List ℕ)
      → ((p : ℕ) → count p deque ≤ 1)
      → ((take_client max_times sockets heap deque).0
          ≡ (find_first (is_usable max_times sockets heap) deque).0)
        × ((take_client max_times sockets heap deque).1
            ≡ (find_first (is_usable max_times sockets heap) deque).1)
  take_client-eq-find_first heap deque once =
      find_usable (is_usable max_times sockets heap) heap deque (λ p k. refl) once

module _ (check_time now : ℕ) (sockets : ℕ → Poll) where
  -- Closing a client that has expired changes for no client whether it may stay.
  is_fresh-close :
      (heap : List TcpClient) (q p : ℕ) (c : TcpClient)
      → get_elem? heap q ≡ some c
      → expired now check_time c ≡ true
      → is_fresh check_time now sockets (set heap q (close c)) p
        ≡ is_fresh check_time now sockets heap p
  unfolding close expired
  is_fresh-close heap q p c e x = elim (Bool-cases (q == p)) [
    | inl s ↦
        let here : q ≡ p = (==_iff q p).0 s in
        ground (
          arith,
          e,
          here,
          ap (get_elem? heap) here,
          ap (get_elem? (set heap q (close c))) here,
          get_elem?-set_self heap q (close c) (get_elem?-lt heap q e),
        )
    | inr d ↦
        let ne : q ≢ p = λ s. ground arith in rw (is_fresh, get_elem?-set_ne heap (close c) ne)
  ]

  filter_fresh :
      (test : ℕ → Bool) (heap : List TcpClient) (deque : List ℕ)
      → ((p : ℕ) → is_fresh check_time now sockets heap p ≡ test p)
      → ((check_deque check_time now sockets heap deque).0 ≡ filter test deque)
        × ((p : ℕ)
            → is_fresh check_time now sockets (check_deque check_time now sockets heap deque).1 p
              ≡ test p)
  unfolding check_deque
  filter_fresh test heap [] same = (refl, same)
  filter_fresh test heap (q ∷ deque) same = elim (Option-cases (get_elem? heap q)) [
    | inl e ↦
        let no : test q ≡ false = sym (same q) ∙ ground (arith, e) in
        rw (e, check_deque, no) (filter_fresh test heap deque same)
    | inr (c, e) ↦ elim (Bool-cases (expired now check_time c)) [
      | inl x ↦
          let no : test q ≡ false = sym (same q) ∙ ground (arith, e, x) in
          rw (e, check_deque, x, no)
            (filter_fresh test (set heap q (close c)) deque
              (λ p. is_fresh-close heap q p c e x ∙ same p))
      | inr x ↦ elim (Bool-cases (c.is_closed || is_error (sockets q))) [
        | inl y ↦
            let no : test q ≡ false = sym (same q) ∙ ground (arith, e, x, y) in
            rw (e, check_deque, x, y, no) (filter_fresh test heap deque same)
        | inr y ↦
            let on : test q ≡ true = sym (same q) ∙ ground (arith, e, x, y) in
            let (kept, after) = filter_fresh test heap deque same in
            rw (e, check_deque, x, y, on) (ap (◌∷◌ q) kept, after)
      ]
    ]
  ]

  filter_all :
      (test : ℕ → Bool) (heap : List TcpClient) (m : List (ℕ × List ℕ))
      → ((p : ℕ) → is_fresh check_time now sockets heap p ≡ test p)
      → (check_all check_time now sockets heap m).0 ≡ filter_deques test m
  unfolding check_all
  filter_all test heap [] same = refl
  filter_all test heap ((k, deque) ∷ m) same =
      let (kept, after) = filter_fresh test heap deque same in
      let rest = filter_all test (check_deque check_time now sockets heap deque).1 m after in
      λ j. (k, kept j) ∷ rest j

-- `check_clients` leaves in each deque, in their order, the clients that are fresh at its beginning, and
-- drops all others: those that closing changes on the way make no difference.
pub check_clients-eq-filter :
    (now : ℕ) (sockets : ℕ → Poll) (pool : TcpClientPool)
    → (check_clients now sockets pool).free_clients
      ≡ filter_deques (is_fresh pool.check_time now sockets pool.clients) pool.free_clients
unfolding check_clients
check_clients-eq-filter now sockets pool =
    filter_all pool.check_time now sockets (is_fresh pool.check_time now sockets pool.clients)
      pool.clients pool.free_clients (λ p. refl)

get_only :
    (sockets : ℕ → Poll) (pool : TcpClientPool) (k p : ℕ)
    → find k pool.free_clients ≡ some (p ∷ [])
    → is_usable pool.max_times sockets pool.clients p ≡ true
    → ((get_client sockets pool k).0 ≡ some p)
      × (deque_of k (get_client sockets pool k).1.free_clients ≡ [])
unfolding get_client
get_only sockets pool k p e usable =
    let taken = take_client pool.max_times sockets pool.clients (p ∷ []) in
    let (one, rest) =
      take_client-eq-find_first pool.max_times sockets pool.clients (p ∷ []) (λ q. ground arith) in
    let one' : taken.0 ≡ some p = one ∙ rw usable in
    let rest' : taken.1 ≡ [] = rest ∙ rw usable in
    rw (e, get_client) (one', ground (arith, rest', deque_of-assign k k taken.1 pool.free_clients))

-- A client that is given back to an empty deque of its peer, and is usable then, is the one that the
-- next request to the peer gets.
pub get_client-recollect :
    (now : ℕ) (sockets : ℕ → Poll) (pool : TcpClientPool) (p : ℕ) (c : TcpClient)
    → get_elem? pool.clients p ≡ some c
    → deque_of c.peer_id pool.free_clients ≡ []
    → is_usable pool.max_times sockets pool.clients p ≡ true
    → ((get_client sockets (recollect now pool (some p)) c.peer_id).0 ≡ some p)
      × (deque_of c.peer_id
            (get_client sockets (recollect now pool (some p)) c.peer_id).1.free_clients
          ≡ [])
unfolding recollect on_recollect
get_client-recollect now sockets pool p c e empty usable =
    let m = pool.free_clients in
    let k = c.peer_id in
    let back : TcpClientPool = recollect now pool (some p) in
    let there : find k back.free_clients ≡ some (p ∷ []) =
      rw (e, recollect)
        (find-assign_self k (deque_of k m ++ p ∷ []) m ∙ ap (λ d. some (d ++ p ∷ [])) empty) in
    let still : is_usable back.max_times sockets back.clients p ≡ true =
      rw (e, recollect)
        (ground (
          arith,
          e,
          get_elem?-set_self pool.clients p (on_recollect now c) (get_elem?-lt pool.clients p e),
        )) in
    get_only sockets back k p there still
