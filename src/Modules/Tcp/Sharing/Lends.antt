-- ===== src/Modules/Tcp/Sharing/Lends.antt =====
-- module/tcp_module.cc with client/tcp_client_pool.cc: the pool of the requests, and what it lends.
use zerver.Prelude.{
  ℕ, zero, suc, Option, none, some, List, [], ◌∷◌, ◌++◌, ◌≡◌, refl, ap, arith, inl, inr, get_elem?,
  Option-cases, nat_eq,
}
use zerver.Prelude.Maps.{find}
use zerver.Client.TcpClient.{TcpClient, Poll, new_tcp_client}
use zerver.Client.TcpClientPool.{
  TcpClientPool, new_tcp_client_pool, get_client, recollect, deque_of,
}
use zerver.Client.TcpClientPool.Deques.{count, peer_of, IsLent}
use zerver.Client.TcpClientPool.Lending.{
  IsValid, fewer-IsValid, get_client-IsValid, get_client-some, check_clients-IsValid,
  recollect-IsValid,
}
use zerver.Client.TcpClientPool.Lending
use zerver.Client.TcpClientPool.Moves.{held, get_client-moves}
use zerver.Modules.Session
use zerver.Modules.Tcp.{Answers, handlers}
use zerver.Modules.Tcp.Sharing.{
  Request, Shared, NewClient, server_unknown, address_unread, socket_failed, made, connect_new,
  find_client, since, close_client, settle, Event, begun, happened, check_time, handle, step, run,
  served,
}
use zerver.Modules.Tcp.Sharing.Gives.{held-step}
use zerver.Modules.Tcp.Sharing.Owners.{
  owners, IsOwned, held-owners, close_client-same, step-IsOwned, new-IsOwned, run-holders,
}

peer_of-append_left :
    (heap : List TcpClient) (c : TcpClient) (p k : ℕ)
    → peer_of heap p ≡ some k
    → peer_of (heap ++ c ∷ []) p ≡ some k
peer_of-append_left [] c p k h = cc
peer_of-append_left (x ∷ heap) c zero k h = h
peer_of-append_left (x ∷ heap) c (suc p) k h = peer_of-append_left heap c p k h

connect_new-IsValid :
    (new : NewClient) (k now : ℕ) (pool : TcpClientPool)
    → IsValid pool
    → IsValid (connect_new new k now pool).1
unfolding connect_new
connect_new-IsValid server_unknown k now pool v = v
connect_new-IsValid address_unread k now pool v = v
connect_new-IsValid socket_failed k now pool v = v
connect_new-IsValid made k now pool v = record {
  once = v.once;
  filed = λ j p h. peer_of-append_left pool.clients (new_tcp_client k now) p j (v.filed j p h);
}

find_client-IsValid :
    (type_id : Option ℕ) (sockets : ℕ → Poll) (new : NewClient) (now : ℕ) (pool : TcpClientPool)
    → IsValid pool
    → IsValid (find_client type_id sockets new now pool).1
unfolding find_client
find_client-IsValid none sockets new now pool v = v
find_client-IsValid (some k) sockets new now pool v =
    let v' = get_client-IsValid sockets pool k v in
    elim (Option-cases (get_client sockets pool k).0) [
      | inl e ↦ rw (e, find_client) (connect_new-IsValid new k now (get_client sockets pool k).1 v')
      | inr (c, e) ↦ rw (e, find_client) v'
    ]

close_client-IsValid :
    (pool : TcpClientPool) (c : Option ℕ) → IsValid pool → IsValid (close_client pool c)
close_client-IsValid pool c v =
    fewer-IsValid pool (close_client pool c)
      (λ p. omega (arith, ap (Lending.pooled p) (close_client-same pool c p).0))
      (λ k p. omega (arith, ap (λ m. count p (deque_of k m)) (close_client-same pool c p).0))
      (λ p. (close_client-same pool c p).1) v

recollect_absent-IsValid :
    (now : ℕ) (pool : TcpClientPool) (back : Option ℕ)
    → ((c : ℕ) → back ≡ some c → Lending.pooled c pool.free_clients ≡ 0)
    → IsValid pool
    → IsValid (recollect now pool back)
unfolding recollect
recollect_absent-IsValid now pool none absent v = v
recollect_absent-IsValid now pool (some c) absent v = recollect-IsValid now pool c (absent c refl) v

handle-IsValid :
    (entry : Option Request) (i : ℕ) (e : Session.Event Answers) (now : ℕ) (s : Shared)
    → get_elem? s.requests i ≡ entry
    → IsOwned s
    → IsValid s.pool
    → IsValid (handle entry i e now s).pool
unfolding handle settle
handle-IsValid none i e now s at o v = v
handle-IsValid (some r) i e now s at o v =
    let r' = Session.step handlers r e in
    let gone = since r.state.closed r'.state.closed in
    recollect_absent-IsValid now (close_client s.pool gone)
      (since r.state.recollected r'.state.recollected)
      (λ c back.
        let once : held c (some c) ≡ 1 = ground arith in
        omega (
          arith,
          held-step c r e,
          ap (held c) back,
          held-owners c s.requests i r at,
          o.once c,
          ap (Lending.pooled c) (close_client-same s.pool gone c).0,
        ))
      (close_client-IsValid s.pool gone v)

step-IsValid : (s : Shared) (e : Event) → IsOwned s → IsValid s.pool → IsValid (step s e).pool
unfolding step
step-IsValid s (begun type_id sockets new a now) o v =
    find_client-IsValid type_id sockets new now s.pool v
step-IsValid s (happened i e now) o v = handle-IsValid (get_elem? s.requests i) i e now s refl o v
step-IsValid s (check_time now sockets) o v = check_clients-IsValid now sockets s.pool v

run_pool-IsValid :
    (s : Shared) (es : List Event) → IsOwned s → IsValid s.pool → IsValid (run s es).pool
unfolding run
run_pool-IsValid s [] o v = v
run_pool-IsValid s (e ∷ es) o v =
    run_pool-IsValid (step s e) es (step-IsOwned s e o) (step-IsValid s e o v)

new-IsValid : (time times : ℕ) → IsValid (new_tcp_client_pool time times [])
unfolding new_tcp_client_pool Lending.pooled find
new-IsValid time times = record { once = λ q. omega arith; filed = λ j q c. absurd (omega arith) }

-- From a new pool on, whatever requests begin and whatever happens to them in whatever order: what
-- `get_client` then returns is a client of the wanted peer, which is open, not in error and within the
-- limit of times, which no request holds, and which is in the pool no more.
pub run-lends :
    (time times : ℕ) (es : List Event) (sockets : ℕ → Poll) (k p : ℕ)
    → (get_client sockets (served time times es).pool k).0 ≡ some p
    → IsLent
        (served time times es).pool.max_times
        sockets
        (get_client sockets (served time times es).pool k).1.clients
        p
      × (peer_of (get_client sockets (served time times es).pool k).1.clients p ≡ some k)
      × (Lending.pooled p (get_client sockets (served time times es).pool k).1.free_clients ≡ 0)
      × (owners p (served time times es).requests ≡ 0)
run-lends time times es sockets k p h =
    let s = served time times es in
    let start : Shared = record { pool = new_tcp_client_pool time times []; requests = [] } in
    let v : IsValid s.pool =
      run_pool-IsValid start es (new-IsOwned time times) (new-IsValid time times) in
    let (lent, peer, gone) = get_client-some sockets s.pool k p v h in
    let one : held p (get_client sockets s.pool k).0 ≡ 1 = rw h (ground arith) in
    (
      lent,
      peer,
      gone,
      omega (arith, (get_client-moves sockets s.pool k p).0, run-holders time times es p),
    )
