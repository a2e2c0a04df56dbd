-- ===== src/Modules/Tcp/Sharing/Owners.antt =====
-- module/tcp_module.cc with client/tcp_client_pool.cc: who holds a client.
use zerver.Prelude.{
  ℕ, zero, suc, ◌+◌, ◌≤◌, Option, none, some, List, [], ◌∷◌, ◌++◌, ◌≡◌, refl, sym, ap, ◌∙◌, arith,
  inl, inr, length, get_elem?, set, ◌==◌, if◌then◌else◌, Option-cases, nat_eq, ==_iff, false,
}
use mathlib.Core.Option.{some-injective}
use zerver.Client.TcpClient.{TcpClient, Poll, new_tcp_client, close}
use zerver.Client.TcpClientPool.{TcpClientPool, new_tcp_client_pool, get_client}
use zerver.Client.TcpClientPool.Deques.{peer_of, peer_of-set}
use zerver.Client.TcpClientPool.Lending
use zerver.Client.TcpClientPool.Moves.{held, get_client-moves, recollect-moves, check_clients-moves}
use zerver.Modules.Session
use zerver.Modules.Tcp.{
  Answers, Found, no_type_id, pooled, no_server, bad_address, bad_socket, fresh, handlers, begin,
}
use zerver.Modules.Tcp.Sharing.{
  Request, Shared, NewClient, server_unknown, address_unread, socket_failed, made, connect_new,
  find_client, since, close_client, settle, Event, begun, happened, check_time, handle, step, run,
  served,
}
use zerver.Modules.Tcp.Sharing.Gives.{held-step, found_client, begin-client}

-- How many of the requests hold a client.
abbrev pub owners : ℕ → List Request → ℕ
owners p [] = 0
owners p (r ∷ rs) = held p r.state.client + owners p rs

owners-append :
    (p : ℕ) (rs : List Request) (r : Request)
    → owners p (rs ++ r ∷ []) ≡ owners p rs + held p r.state.client
owners-append p [] r = omega arith
owners-append p (x ∷ rs) r = omega (arith, owners-append p rs r)

owners-set :
    (p : ℕ) (rs : List Request) (i : ℕ) (r r' : Request)
    → get_elem? rs i ≡ some r
    → owners p (set rs i r') + held p r.state.client ≡ owners p rs + held p r'.state.client
owners-set p [] i r r' h = cc
owners-set p (x ∷ rs) zero r r' h =
    omega (arith, ap (λ (y : Request). held p y.state.client) (some-injective x r h))
owners-set p (x ∷ rs) (suc i) r r' h = omega (arith, owners-set p rs i r r' h)

pub held-owners :
    (p : ℕ) (rs : List Request) (i : ℕ) (r : Request)
    → get_elem? rs i ≡ some r
    → held p r.state.client ≤ owners p rs
held-owners p [] i r at = cc
held-owners p (x ∷ rs) zero r at =
    omega (arith, ap (λ (y : Request). held p y.state.client) (some-injective x r at))
held-owners p (x ∷ rs) (suc i) r at = omega (arith, held-owners p rs i r at)

-- In how many places of the deques and the requests a client stands.
abbrev pub holders : ℕ → Shared → ℕ
holders p s = Lending.pooled p s.pool.free_clients + owners p s.requests

-- A client stands in at most one place, and what is no client yet in none.
pub record IsOwned (s : Shared) : Type 0 where
  pub once : (p : ℕ) → holders p s ≤ 1
  pub known : (p : ℕ) → peer_of s.pool.clients p ≡ none → holders p s ≡ 0

-- A step after which no client stands in more places, and none that there was is gone.
fewer-IsOwned :
    (s s' : Shared)
    → ((p : ℕ) → holders p s' ≤ holders p s)
    → ((p : ℕ) → peer_of s'.pool.clients p ≡ peer_of s.pool.clients p)
    → IsOwned s
    → IsOwned s'
fewer-IsOwned s s' fewer peers o = record {
  once = λ p. omega (arith, fewer p, o.once p);
  known = λ p e. omega (arith, fewer p, o.known p (sym (peers p) ∙ e));
}

pub close_client-same :
    (pool : TcpClientPool) (c : Option ℕ) (p : ℕ)
    → ((close_client pool c).free_clients ≡ pool.free_clients)
      × (peer_of (close_client pool c).clients p ≡ peer_of pool.clients p)
unfolding close_client close
close_client-same pool none p = (refl, refl)
close_client-same pool (some q) p = elim (Option-cases (get_elem? pool.clients q)) [
  | inl e ↦ rw (e, close_client) (refl, refl)
  | inr (c, e) ↦
      rw (e, close_client) (refl, peer_of-set pool.clients q p c (close c) e (ground arith))
]

handle-IsOwned :
    (entry : Option Request) (i : ℕ) (e : Session.Event Answers) (now : ℕ) (s : Shared)
    → get_elem? s.requests i ≡ entry
    → IsOwned s
    → IsOwned (handle entry i e now s)
unfolding handle settle
handle-IsOwned none i e now s at o = o
handle-IsOwned (some r) i e now s at o =
    let r' = Session.step handlers r e in
    let closed = close_client s.pool (since r.state.closed r'.state.closed) in
    let back = since r.state.recollected r'.state.recollected in
    fewer-IsOwned s _
      (λ p. omega (
        arith,
        owners-set p s.requests i r r' at,
        held-step p r e,
        (recollect-moves now closed back p).0,
        ap (Lending.pooled p) (close_client-same s.pool (since r.state.closed r'.state.closed) p).0,
      ))
      (λ p.
        (recollect-moves now closed back p).1
        ∙ (close_client-same s.pool (since r.state.closed r'.state.closed) p).1)
      o

-- A request that begins with what has left the deques, or with nothing.
begin-IsOwned :
    (found : Found) (a : Answers) (pool pool' : TcpClientPool) (rs : List Request)
    → ((p : ℕ)
        → Lending.pooled p pool'.free_clients + held p (found_client found)
          ≤ Lending.pooled p pool.free_clients)
    → ((p : ℕ) → peer_of pool'.clients p ≡ peer_of pool.clients p)
    → IsOwned (record { pool = pool; requests = rs })
    → IsOwned (record { pool = pool'; requests = rs ++ begin found a ∷ [] })
begin-IsOwned found a pool pool' rs moves peers o =
    fewer-IsOwned (record { pool = pool; requests = rs }) _
      (λ p.
        omega
          (arith, moves p, owners-append p rs (begin found a), ap (held p) (begin-client found a)))
      peers o

peer_of-length : (heap : List TcpClient) → peer_of heap (length heap) ≡ none
peer_of-length [] = refl
peer_of-length (c ∷ heap) = peer_of-length heap

peer_of-append :
    (heap : List TcpClient) (c : TcpClient) (p : ℕ)
    → peer_of (heap ++ c ∷ []) p ≡ none
    → (peer_of heap p ≡ none) × ((length heap == p) ≡ false)
peer_of-append [] c zero h = ground (arith)
peer_of-append [] c (suc p) h = (refl, ground arith)
peer_of-append (x ∷ heap) c zero h = ground arith
peer_of-append (x ∷ heap) c (suc p) h =
    let (unknown, other) = peer_of-append heap c p h in (unknown, ground (arith, other))

-- A client that is made is in no other place.
made-IsOwned :
    (c : TcpClient) (a : Answers) (pool : TcpClientPool) (rs : List Request)
    → IsOwned (record { pool = pool; requests = rs })
    → IsOwned (record {
      pool = record pool { clients = pool.clients ++ c ∷ [] };
      requests = rs ++ begin (fresh (length pool.clients)) a ∷ [];
    })
made-IsOwned c a pool rs o =
    let new = fresh (length pool.clients) in
    let more : (p : ℕ)
        → owners p (rs ++ begin new a ∷ [])
          ≡ owners p rs + (if length pool.clients == p then 1 else 0) =
      λ p.
        owners-append p rs (begin new a) ∙ ap (λ x. owners p rs + held p x) (begin-client new a) in
    record {
      once = λ p. ground (
        arith,
        more p,
        o.once p,
        o.known (length pool.clients) (peer_of-length pool.clients),
        ==_iff (length pool.clients) p,
      );
      known = λ p e.
          let (unknown, other) = peer_of-append pool.clients c p e in
          ground (arith, more p, o.known p unknown, other);
    }

connect_new-IsOwned :
    (new : NewClient) (peer_id now : ℕ) (a : Answers) (pool : TcpClientPool) (rs : List Request)
    → IsOwned (record { pool = pool; requests = rs })
    → IsOwned (record {
      pool = (connect_new new peer_id now pool).1;
      requests = rs ++ begin (connect_new new peer_id now pool).0 a ∷ [];
    })
unfolding connect_new
connect_new-IsOwned server_unknown peer_id now a pool rs o =
    begin-IsOwned no_server a pool pool rs (λ p. omega arith) (λ p. refl) o
connect_new-IsOwned address_unread peer_id now a pool rs o =
    begin-IsOwned bad_address a pool pool rs (λ p. omega arith) (λ p. refl) o
connect_new-IsOwned socket_failed peer_id now a pool rs o =
    begin-IsOwned bad_socket a pool pool rs (λ p. omega arith) (λ p. refl) o
connect_new-IsOwned made peer_id now a pool rs o =
    made-IsOwned (new_tcp_client peer_id now) a pool rs o

find_client-IsOwned :
    (type_id : Option ℕ) (sockets : ℕ → Poll) (new : NewClient) (now : ℕ) (a : Answers)
    (pool : TcpClientPool) (rs : List Request)
    → IsOwned (record { pool = pool; requests = rs })
    → IsOwned (record {
      pool = (find_client type_id sockets new now pool).1;
      requests = rs ++ begin (find_client type_id sockets new now pool).0 a ∷ [];
    })
unfolding find_client
find_client-IsOwned none sockets new now a pool rs o =
    begin-IsOwned no_type_id a pool pool rs (λ p. omega arith) (λ p. refl) o
find_client-IsOwned (some k) sockets new now a pool rs o =
    let pool' = (get_client sockets pool k).1 in
    elim (Option-cases (get_client sockets pool k).0) [
      | inl e ↦
          rw (e, find_client)
            (connect_new-IsOwned new k now a pool' rs (
              fewer-IsOwned (record { pool = pool; requests = rs }) _
                (λ p. omega (arith, (get_client-moves sockets pool k p).0))
                (λ p. (get_client-moves sockets pool k p).1) o))
      | inr (c, e) ↦
          rw (e, find_client)
            (begin-IsOwned (pooled c) a pool pool' rs
              (λ p. omega (arith, (get_client-moves sockets pool k p).0, ap (held p) e))
              (λ p. (get_client-moves sockets pool k p).1) o)
    ]

pub step-IsOwned : (s : Shared) (e : Event) → IsOwned s → IsOwned (step s e)
unfolding step
step-IsOwned s (begun type_id sockets new a now) o =
    find_client-IsOwned type_id sockets new now a s.pool s.requests o
step-IsOwned s (happened i e now) o = handle-IsOwned (get_elem? s.requests i) i e now s refl o
step-IsOwned s (check_time now sockets) o =
    fewer-IsOwned s _ (λ p. omega (arith, (check_clients-moves now sockets s.pool p).0))
      (λ p. (check_clients-moves now sockets s.pool p).1) o

pub run-IsOwned : (s : Shared) (es : List Event) → IsOwned s → IsOwned (run s es)
unfolding run
run-IsOwned s [] o = o
run-IsOwned s (e ∷ es) o = run-IsOwned (step s e) es (step-IsOwned s e o)

pub new-IsOwned :
    (time times : ℕ) → IsOwned (record { pool = new_tcp_client_pool time times []; requests = [] })
unfolding new_tcp_client_pool Lending.pooled
new-IsOwned time times = record { once = λ q. omega arith; known = λ q e. omega arith }

-- From a new pool on, whatever requests begin and whatever happens to them in whatever order, each
-- client stands at most once in all in the deques of the pool and in the module data of the requests: no
-- two requests hold the same client, and none holds one that the pool can still lend.
pub run-holders : (time times : ℕ) (es : List Event) (p : ℕ) → holders p (served time times es) ≤ 1
run-holders time times es p =
    (run-IsOwned (record { pool = new_tcp_client_pool time times []; requests = [] }) es
        (new-IsOwned time times)).once
      p
