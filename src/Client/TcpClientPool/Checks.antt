-- ===== src/Client/TcpClientPool/Checks.antt =====
-- client/tcp_client_pool.cc: what `check_clients` leaves of one deque.
use zerver.Prelude.{
  ℕ, ◌+◌, ◌≤◌, ◌<◌, true, false, some, List, [], ◌∷◌, ◌≡◌, ◌≢◌, refl, ap, ◌∙◌, sym, arith, ◌⊎◌, inl,
  inr, get_elem?, set, ◌||◌, ◌==◌, Bool-cases, ==_iff, Option-cases, get_elem?-set_ne,
}
use mathlib.Core.Path.{subst}
use mathlib.Core.Option.{some-injective}
use zerver.Client.TcpClient.{TcpClient, Poll, is_error, close, expired}
use zerver.Client.TcpClientPool.{check_deque}
use zerver.Client.TcpClientPool.Deques.{count, peer_of, peer_of-set}

module _ (check_time now : ℕ) (sockets : ℕ → Poll) where
  -- A client that stays in a deque: it has been used in the last `check_time`, it is open, and its
  -- socket is not in error.
  abbrev pub IsFresh : List TcpClient → ℕ → Type 0
  IsFresh heap p =
      (c : TcpClient) × (get_elem? heap p ≡ some c)
      × (now < check_time + c.last_touch_time)
      × (c.is_closed ≡ false)
      × (is_error (sockets p) ≡ false)

  data Check (heap : List TcpClient) (p : ℕ) (deque : List ℕ) : Type 0 where
    dropped :
        (heap' : List TcpClient)
        → ¬ IsFresh heap p
        → ((heap' ≡ heap)
            ⊎ ((c : TcpClient) × (get_elem? heap p ≡ some c) × (heap' ≡ set heap p (close c))))
        → check_deque check_time now sockets heap (p ∷ deque)
          ≡ check_deque check_time now sockets heap' deque
        → Check heap p deque
    kept :
        IsFresh heap p
        → check_deque check_time now sockets heap (p ∷ deque) ≡ (
          p ∷ (check_deque check_time now sockets heap deque).0,
          (check_deque check_time now sockets heap deque).1,
        )
        → Check heap p deque

  stale :
      (heap : List TcpClient) (p : ℕ) (c : TcpClient)
      → get_elem? heap p ≡ some c
      → (expired now check_time c ≡ true) ⊎ ((c.is_closed || is_error (sockets p)) ≡ true)
      → ¬ IsFresh heap p
  unfolding expired
  stale heap p c e why f =
      let same : c ≡ f.0 = some-injective c f.0 (sym e ∙ f.1) in
      let late : now < check_time + c.last_touch_time =
        subst (λ (x : TcpClient). now < check_time + x.last_touch_time) (sym same) f.2 in
      let opened : c.is_closed ≡ false = ap (λ (x : TcpClient). x.is_closed) same ∙ f.3 in
      ground (arith, f.4)

  check : (heap : List TcpClient) (p : ℕ) (deque : List ℕ) → Check heap p deque
  unfolding check_deque
  check heap p deque = elim (Option-cases (get_elem? heap p)) [
    | inl e ↦ dropped heap (λ f. absurd (cc (sym e ∙ f.1))) (inl refl) (rw (e, check_deque))
    | inr (c, e) ↦ elim (Bool-cases (expired now check_time c)) [
      | inl x ↦
          dropped (set heap p (close c)) (λ f. stale heap p c e (inl x) f) (inr (c, e, refl))
            (rw (e, check_deque, x))
      | inr x ↦ elim (Bool-cases (c.is_closed || is_error (sockets p))) [
        | inl y ↦
            dropped heap (λ f. stale heap p c e (inr y) f) (inl refl) (rw (e, check_deque, x, y))
        | inr y ↦
            kept (c, e, unfold expired in ground arith, ground arith, ground arith)
              (rw (e, check_deque, x, y))
      ]
    ]
  ]

  peer_of-close :
      (heap : List TcpClient) (p q : ℕ) (c : TcpClient)
      → get_elem? heap p ≡ some c
      → peer_of (set heap p (close c)) q ≡ peer_of heap q
  unfolding close
  peer_of-close heap p q c e = peer_of-set heap p q c (close c) e (ground arith)

  -- `check_clients` takes clients out of a deque, and changes no client's peer.
  pub check_deque-keeps :
      (heap : List TcpClient) (deque : List ℕ) (p : ℕ)
      → (count p (check_deque check_time now sockets heap deque).0 ≤ count p deque)
        × (peer_of (check_deque check_time now sockets heap deque).1 p ≡ peer_of heap p)
  unfolding check_deque
  check_deque-keeps heap [] p = (omega arith, refl)
  check_deque-keeps heap (q ∷ deque) p = elim (check heap q deque) [
    | dropped heap' _ (inl e) r ↦
        let (n, s) = check_deque-keeps heap' deque p in
        rw r (omega arith, s ∙ ap (λ h. peer_of h p) e)
    | dropped heap' _ (inr (c, here, e)) r ↦
        let (n, s) = check_deque-keeps heap' deque p in
        rw r (omega arith, s ∙ ap (λ h. peer_of h p) e ∙ peer_of-close heap q p c here)
    | kept f r ↦ let (n, s) = check_deque-keeps heap deque p in rw r (omega arith, s)
  ]

  dropped_elsewhere :
      (heap heap' : List TcpClient) (q p : ℕ)
      → q ≢ p
      → ((heap' ≡ heap)
          ⊎ ((c : TcpClient) × (get_elem? heap q ≡ some c) × (heap' ≡ set heap q (close c))))
      → get_elem? heap' p ≡ get_elem? heap p
  dropped_elsewhere heap heap' q p ne (inl e) = rw e
  dropped_elsewhere heap heap' q p ne (inr (c, here, e)) = rw e (get_elem?-set_ne heap _ ne)

  check_deque-untouched :
      (heap : List TcpClient) (deque : List ℕ) (p : ℕ)
      → count p deque ≡ 0
      → get_elem? (check_deque check_time now sockets heap deque).1 p ≡ get_elem? heap p
  unfolding check_deque
  check_deque-untouched heap [] p n = refl
  check_deque-untouched heap (q ∷ deque) p n =
      let ne : q ≢ p = λ s. ground arith in
      elim (check heap q deque) [
        | dropped heap' _ how r ↦ rw r (
            check_deque-untouched heap' deque p (ground arith)
            ∙ dropped_elsewhere heap heap' q p ne how)
        | kept f r ↦ rw r (check_deque-untouched heap deque p (ground arith))
      ]

  -- Where the pointers of a deque differ, the clients that stay are fresh, and are left as they were.
  pub check_deque-kept :
      (heap : List TcpClient) (deque : List ℕ) (p : ℕ)
      → ((q : ℕ) → count q deque ≤ 1)
      → 1 ≤ count p (check_deque check_time now sockets heap deque).0
      → IsFresh heap p
        × (get_elem? (check_deque check_time now sockets heap deque).1 p ≡ get_elem? heap p)
  unfolding check_deque
  check_deque-kept heap [] p once k = elim k [ ]
  check_deque-kept heap (q ∷ deque) p once k =
      let once' : (x : ℕ) → count x deque ≤ 1 = λ x. omega (arith, once x) in
      elim (check heap q deque) [
        | dropped heap' _ how r ↦
            let k' : 1 ≤ count p (check_deque check_time now sockets heap' deque).0 = rw r at k in
            let ne : q ≢ p = λ s. ground (arith, once p, check_deque-keeps heap' deque p) in
            let (fresh, left) = check_deque-kept heap' deque p once' k' in
            let same = dropped_elsewhere heap heap' q p ne how in
            rw r ((fresh.0, sym same ∙ fresh.1, fresh.2, fresh.3, fresh.4), left ∙ same)
        | kept f r ↦ elim (Bool-cases (q == p)) [
          | inl s ↦
              let here : q ≡ p = (==_iff q p).0 s in
              rw r (
                subst (λ x. IsFresh heap x) here f,
                check_deque-untouched heap deque p (ground (arith, once p)),
              )
          | inr d ↦ rw r (
              check_deque-kept heap deque p once'
                (ground (arith, ap (λ (x : List ℕ × List TcpClient). count p x.0) r)))
        ]
      ]

  -- Where the pointers of a deque differ, every fresh client stays.
  pub check_deque-keeps_fresh :
      (heap : List TcpClient) (deque : List ℕ) (p : ℕ)
      → ((q : ℕ) → count q deque ≤ 1)
      → 1 ≤ count p deque
      → IsFresh heap p
      → 1 ≤ count p (check_deque check_time now sockets heap deque).0
  unfolding check_deque
  check_deque-keeps_fresh heap [] p once k f = elim k [ ]
  check_deque-keeps_fresh heap (q ∷ deque) p once k f =
      let once' : (x : ℕ) → count x deque ≤ 1 = λ x. omega (arith, once x) in
      elim (Bool-cases (q == p)) [
        | inl s ↦
            let here : p ≡ q = sym ((==_iff q p).0 s) in
            elim (check heap q deque) [
              | dropped heap' old how r ↦ absurd (old (subst (λ x. IsFresh heap x) here f))
              | kept g r ↦ rw r (ground arith)
            ]
        | inr d ↦
            let ne : q ≢ p = λ s. ground arith in
            let k' : 1 ≤ count p deque = ground arith in
            elim (check heap q deque) [
              | dropped heap' _ how r ↦
                  let same = sym (dropped_elsewhere heap heap' q p ne how) in
                  rw r (
                    check_deque-keeps_fresh heap' deque p once' k'
                      (f.0, sym same ∙ f.1, f.2, f.3, f.4))
              | kept g r ↦ rw r (ground (arith, check_deque-keeps_fresh heap deque p once' k' f))
            ]
      ]
