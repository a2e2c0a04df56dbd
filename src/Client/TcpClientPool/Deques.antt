-- ===== src/Client/TcpClientPool/Deques.antt =====
-- client/tcp_client_pool.cc: what the loops over one deque return and leave.
use zerver.Prelude.{
  ℕ, ◌+◌, ◌≤◌, ◌<◌, Bool, true, false, Option, none, some, List, [], ◌∷◌, ◌++◌, ◌≡◌, ◌≢◌, refl, ap,
  ◌∙◌, sym, arith, ◌⊎◌, inl, inr, get_elem?, set, ◌==◌, if◌then◌else◌, Bool-cases, Option-cases,
  get_elem?-set_self, get_elem?-set_ne, get_elem?-lt, ◌↔◌,
}
use mathlib.Core.Path.{ap₂, subst, subst₂}
use mathlib.Core.Option.{some-injective}
use zerver.Prelude.Maps.{is_some}
use zerver.Client.TcpClient.{TcpClient, Poll, is_error, increase_times, close}
use zerver.Client.TcpClientPool.{try_client, take_client}

abbrev pub count : ℕ → List ℕ → ℕ
count p [] = 0
count p (q ∷ deque) = (if q == p then 1 else 0) + count p deque

-- A client that may be lent: it is open, its socket is not in error, and it has been lent fewer times
-- than the limit, if there is one.
abbrev pub IsUsable : ℕ → Bool → TcpClient → Type 0
IsUsable max_times failing c =
    (c.is_closed ≡ false) × (failing ≡ false) × ((max_times ≡ 0) ⊎ (c.times < max_times))

-- Exactly the usable clients are returned, and a client keeps its peer.
pub try_client_lem :
    (max_times : ℕ) (failing : Bool) (c : TcpClient)
    → (((try_client max_times failing c).1 ≡ true) ↔ IsUsable max_times failing c)
      × ((try_client max_times failing c).0.peer_id ≡ c.peer_id)
unfolding try_client increase_times close
try_client_lem max_times failing c = (((λ h. ground arith), (λ h. ground arith)), ground arith)

-- A returned client is open and within the limit after the call.
pub try_client-lent :
    (max_times : ℕ) (failing : Bool) (c : TcpClient)
    → (try_client max_times failing c).1 ≡ true
    → ((try_client max_times failing c).0.is_closed ≡ false)
      × (0 < max_times → (try_client max_times failing c).0.times ≤ max_times)
unfolding try_client increase_times
try_client-lent max_times failing c h = (ground arith, λ z. ground arith)

-- The peer that a pointer's client belongs to.
abbrev pub peer_of : List TcpClient → ℕ → Option ℕ
peer_of heap p = elim (get_elem? heap p) [ none ↦ none | some c ↦ some c.peer_id ]

pub peer_of-set :
    (heap : List TcpClient) (p q : ℕ) (c c' : TcpClient)
    → get_elem? heap p ≡ some c
    → c'.peer_id ≡ c.peer_id
    → peer_of (set heap p c') q ≡ peer_of heap q
peer_of-set heap p q c c' h e = elim (Bool-cases (p == q)) [
  | inl s ↦ ground (arith, get_elem?-set_self heap p c' (get_elem?-lt heap p h), h, e)
  | inr d ↦ let ne : p ≢ q = λ s. ground arith in rw (peer_of, get_elem?-set_ne heap c' ne)
]

module _ (max_times : ℕ) (sockets : ℕ → Poll) where
  -- The client of a pointer is open and within the limit, and its socket is not in error.
  abbrev pub IsLent : List TcpClient → ℕ → Type 0
  IsLent heap p =
      (c : TcpClient) × (get_elem? heap p ≡ some c)
      × (c.is_closed ≡ false)
      × (is_error (sockets p) ≡ false)
      × (0 < max_times → c.times ≤ max_times)

  found-IsLent :
      (heap : List TcpClient) (p : ℕ) (c : TcpClient)
      → get_elem? heap p ≡ some c
      → (try_client max_times (is_error (sockets p)) c).1 ≡ true
      → IsLent (set heap p (try_client max_times (is_error (sockets p)) c).0) p
  found-IsLent heap p c e t =
      let (open_, within) = try_client-lent max_times (is_error (sockets p)) c t in
      let usable = (try_client_lem max_times (is_error (sockets p)) c).0.0 t in
      (_, get_elem?-set_self heap p _ (get_elem?-lt heap p e), open_, usable.1, within)

  -- The three things that happen to the client at the front.
  pub data Visit (heap : List TcpClient) (p : ℕ) (deque : List ℕ) : Type 0 where
    null_client :
        get_elem? heap p ≡ none
        → take_client max_times sockets heap (p ∷ deque) ≡ take_client max_times sockets heap deque
        → Visit heap p deque
    found :
        (c : TcpClient)
        → get_elem? heap p ≡ some c
        → (try_client max_times (is_error (sockets p)) c).1 ≡ true
        → take_client max_times sockets heap (p ∷ deque)
          ≡ (some p, deque, set heap p (try_client max_times (is_error (sockets p)) c).0)
        → Visit heap p deque
    passed :
        (c : TcpClient)
        → get_elem? heap p ≡ some c
        → (try_client max_times (is_error (sockets p)) c).1 ≡ false
        → take_client max_times sockets heap (p ∷ deque)
          ≡ take_client max_times sockets
              (set heap p (try_client max_times (is_error (sockets p)) c).0)
              deque
        → Visit heap p deque

  pub visit : (heap : List TcpClient) (p : ℕ) (deque : List ℕ) → Visit heap p deque
  unfolding take_client
  visit heap p deque = elim (Option-cases (get_elem? heap p)) [
    | inl e ↦ null_client e (rw (e, take_client))
    | inr (c, e) ↦ elim (Bool-cases (try_client max_times (is_error (sockets p)) c).1) [
      | inl t ↦ found c e t (rw (e, take_client, t))
      | inr t ↦ passed c e t (rw (e, take_client, t))
    ]
  ]

  -- A client that the loop finds splits the deque: what stood before it is dropped, what stood behind
  -- it is left. It is open, its socket is not in error, and it is within the limit.
  pub take_client-some :
      (heap : List TcpClient) (deque rest : List ℕ) (heap' : List TcpClient) (p : ℕ)
      → take_client max_times sockets heap deque ≡ (some p, rest, heap')
      → (dropped : List ℕ) × (deque ≡ dropped ++ p ∷ rest) × IsLent heap' p
  unfolding take_client
  take_client-some heap [] rest heap' p h = ground arith
  take_client-some heap (q ∷ deque) rest heap' p h = elim (visit heap q deque) [
    | null_client e r ↦
        let (dropped, split, more) = take_client-some heap deque rest heap' p (sym r ∙ h) in
        (q ∷ dropped, ap (◌∷◌ q) split, more)
    | found c e t r ↦
        let same = sym r ∙ h in
        let here : q ≡ p =
          some-injective q p (ap (λ (x : Option ℕ × List ℕ × List TcpClient). x.0) same) in
        (
          [],
          ap₂ ◌∷◌ here (ap (λ (x : Option ℕ × List ℕ × List TcpClient). x.1) same),
          subst₂ (λ H x. IsLent H x) (ap (λ (x : Option ℕ × List ℕ × List TcpClient). x.2) same)
              here (found-IsLent heap q c e t),
        )
    | passed c e t r ↦
        let c' : TcpClient = (try_client max_times (is_error (sockets q)) c).0 in
        let (dropped, split, more) =
          take_client-some (set heap q c') deque rest heap' p (sym r ∙ h) in
        (q ∷ dropped, ap (◌∷◌ q) split, more)
  ]

  -- Without a client to return, the loop empties the deque.
  pub take_client-none :
      (heap : List TcpClient) (deque : List ℕ)
      → (take_client max_times sockets heap deque).0 ≡ none
      → (take_client max_times sockets heap deque).1 ≡ []
  unfolding take_client
  take_client-none heap [] h = refl
  take_client-none heap (q ∷ deque) h = elim (visit heap q deque) [
    | null_client e r ↦ rw r (take_client-none heap deque (rw r at h))
    | found c e t r ↦ absurd (cc (rw r at h))
    | passed c e t r ↦ rw r (
        take_client-none (set heap q (try_client max_times (is_error (sockets q)) c).0) deque
          (rw r at h))
  ]

  -- The loop drops and returns what is in the deque, and changes no client's peer.
  pub take_client-keeps :
      (heap : List TcpClient) (deque : List ℕ) (p : ℕ)
      → (count p (take_client max_times sockets heap deque).1 ≤ count p deque)
        × (peer_of (take_client max_times sockets heap deque).2 p ≡ peer_of heap p)
  unfolding take_client
  take_client-keeps heap [] p = (omega arith, refl)
  take_client-keeps heap (q ∷ deque) p = elim (visit heap q deque) [
    | null_client e r ↦ rw r (let (n, s) = take_client-keeps heap deque p in (omega arith, s))
    | found c e t r ↦ rw r (omega arith, peer_of-set heap q p c _ e (try_client_lem _ _ c).1)
    | passed c e t r ↦
        let c' : TcpClient = (try_client max_times (is_error (sockets q)) c).0 in
        let (n, s) = take_client-keeps (set heap q c') deque p in
        rw r (omega arith, s ∙ peer_of-set heap q p c c' e (try_client_lem _ _ c).1)
  ]

  -- A usable client is passed over for no reason but a client before it that is returned: if it stands
  -- nowhere before in the deque, the loop returns a client.
  pub take_client-finds :
      (heap : List TcpClient) (before after : List ℕ) (p : ℕ) (c : TcpClient)
      → get_elem? heap p ≡ some c
      → IsUsable max_times (is_error (sockets p)) c
      → count p before ≡ 0
      → is_some (take_client max_times sockets heap (before ++ p ∷ after)).0 ≡ true
  take_client-finds heap [] after p c e u n = elim (visit heap p after) [
    | null_client e' r ↦ ground (arith, e, e')
    | found c' e' t r ↦ rw r
    | passed c' e' t r ↦
        let same : c' ≡ c = some-injective c' c (sym e' ∙ e) in
        let (iff, _) = try_client_lem max_times (is_error (sockets p)) c' in
        absurd (
          cc
            (sym t ∙ iff.1 (subst (λ x. IsUsable max_times (is_error (sockets p)) x) (sym same) u)))
  ]
  take_client-finds heap (q ∷ before) after p c e u n = elim (visit heap q (before ++ p ∷ after)) [
    | null_client e' r ↦ rw r (take_client-finds heap before after p c e u (ground arith))
    | found c' e' t r ↦ rw r
    | passed c' e' t r ↦
        let heap' : List TcpClient =
          set heap q (try_client max_times (is_error (sockets q)) c').0 in
        let ne : q ≢ p = λ s. ground arith in
        rw r (
          take_client-finds heap' before after p c (get_elem?-set_ne heap _ ne ∙ e) u
            (ground arith))
  ]
