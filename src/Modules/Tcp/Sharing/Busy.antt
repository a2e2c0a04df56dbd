-- ===== src/Modules/Tcp/Sharing/Busy.antt =====
-- module/tcp_module.cc with client/tcp_client_pool.cc: a client on which an operation is under way.
use zerver.Prelude.{
  ℕ, ◌+◌, ◌≤◌, Bool, true, ◌&&◌, Option, none, some, List, [], ◌∷◌, ◌≡◌, refl, arith, ◌⊎◌, inl, inr,
  length, get_elem?, All, All-append, All-set, All-get_elem?, nat_eq, Option-cases,
}
use zerver.Prelude.Maps.{is_some}
use zerver.Client.TcpClientPool.{new_tcp_client_pool}
use zerver.Client.TcpClientPool.Lending
use zerver.Client.TcpClientPool.Moves.{held}
use zerver.Modules.Session.{Ec, perform_all}
use zerver.Modules.Session
use zerver.Modules.Session.Once.{started, resumes, IsLinear, IsBusy, weight, step-weight}
use zerver.Modules.Tcp.{
  TcpData, Op, connect, write_req, recv_resp_head, recv_resp_body, Answers, Found, no_type_id,
  pooled, no_server, bad_address, bad_socket, fresh, handlers, begin, is_opened, on_op,
  send_request,
}
use zerver.Modules.Tcp
use zerver.Modules.Tcp.Once.{goes}
use zerver.Modules.Tcp.Sharing.{
  Request, Shared, Event, begun, happened, check_time, handle, step, run, served, find_client,
}
use zerver.Modules.Tcp.Sharing.Owners.{owners, held-owners, run-holders}

-- An operation is open, on a client that the data hold.
abbrev engaged : TcpData → Bool
engaged d = is_opened d && is_some d.client

on_op-engaged :
    (op : Op) (ec : Ec) (a : Answers) (d : TcpData)
    → engaged d ≡ true
    → (started (on_op op ec a d).1 + resumes (on_op op ec a d).1 ≤ 1)
      × (goes a ≡ true → started (on_op op ec a d).1 + resumes (on_op op ec a d).1 ≡ 1)
      × ((started (on_op op ec a d).1 ≡ 0) ⊎ (engaged (on_op op ec a d).0 ≡ true))
unfolding on_op
on_op-engaged connect ec a d b = (ground arith, λ g. ground arith, ground arith)
on_op-engaged (write_req len) ec a d b = (ground arith, λ g. ground arith, ground arith)
on_op-engaged (recv_resp_head len) ec a d b = (ground arith, λ g. ground arith, ground arith)
on_op-engaged (recv_resp_body len) ec a d b = (ground arith, λ g. ground arith, ground arith)

handlers-IsLinear : IsLinear handlers engaged goes
unfolding handlers
handlers-IsLinear = record {
  op_once = λ op ec a d b. (on_op-engaged op ec a d b).0;
  op_goes = λ op ec a d b g. (on_op-engaged op ec a d b).1 g;
  op_busy = λ op ec a d b. (on_op-engaged op ec a d b).2;
  timer_none = λ t ec a d. ground arith;
  timer_busy = λ t ec a d b. b;
}

-- At most one operation is under way, and only on a client that the request holds.
abbrev IsEngaged : Request → Type 0
IsEngaged r = IsBusy handlers engaged goes r × (weight handlers engaged goes r ≤ 1)

begin-IsEngaged : (found : Found) (a : Answers) → IsEngaged (begin found a)
unfolding begin Tcp.run send_request perform_all
begin-IsEngaged no_type_id a = (inl refl, omega arith)
begin-IsEngaged (pooled c) a = (inr refl, omega arith)
begin-IsEngaged no_server a = (inl refl, omega arith)
begin-IsEngaged bad_address a = (inl refl, omega arith)
begin-IsEngaged bad_socket a = (inl refl, omega arith)
begin-IsEngaged (fresh c) a = (inr refl, omega arith)

handle-IsEngaged :
    (entry : Option Request) (i : ℕ) (e : Session.Event Answers) (now : ℕ) (s : Shared)
    → get_elem? s.requests i ≡ entry
    → All IsEngaged s.requests
    → All IsEngaged (handle entry i e now s).requests
unfolding handle
handle-IsEngaged none i e now s at all = all
handle-IsEngaged (some r) i e now s at all =
    let (busy, one) = All-get_elem? IsEngaged s.requests i r all at in
    let (busy', less, _) =
      step-weight handlers engaged goes handlers-IsLinear r e (omega arith) busy in
    All-set IsEngaged s.requests i (Session.step handlers r e) all (busy', omega arith)

run-IsEngaged :
    (s : Shared) (es : List Event) → All IsEngaged s.requests → All IsEngaged (run s es).requests
unfolding run step
run-IsEngaged s [] all = all
run-IsEngaged s (begun type_id sockets new a now ∷ es) all =
    let found = (find_client type_id sockets new now s.pool).0 in
    run-IsEngaged (step s (begun type_id sockets new a now)) es
      (All-append IsEngaged s.requests (begin found a ∷ []) all (begin-IsEngaged found a, tt))
run-IsEngaged s (happened i e now ∷ es) all =
    run-IsEngaged (step s (happened i e now)) es
      (handle-IsEngaged (get_elem? s.requests i) i e now s refl all)
run-IsEngaged s (check_time now sockets ∷ es) all =
    run-IsEngaged (step s (check_time now sockets)) es all

-- From a new pool on, whatever requests begin and whatever happens to them in whatever order: a request
-- with an operation under way holds a client, which no other request holds and which is not in the pool.
pub run-exclusive :
    (time times : ℕ) (es : List Event) (i : ℕ) (r : Request)
    → get_elem? (served time times es).requests i ≡ some r
    → 1 ≤ length r.ops
    → (c : ℕ) × (r.state.client ≡ some c)
      × (owners c (served time times es).requests ≡ 1)
      × (Lending.pooled c (served time times es).pool.free_clients ≡ 0)
run-exclusive time times es i r at under_way =
    let s = served time times es in
    let all =
      run-IsEngaged (record { pool = new_tcp_client_pool time times []; requests = [] }) es tt in
    let busy : engaged r.state ≡ true =
      ground (arith, (All-get_elem? IsEngaged s.requests i r all at).0) in
    elim (Option-cases r.state.client) [
      | inl e ↦ absurd (ground (arith, e))
      | inr (c, e) ↦
          let some_ = held-owners c s.requests i r at in
          let most = run-holders time times es c in
          let here : held c r.state.client ≡ 1 = rw e (ground arith) in
          (c, e, omega arith, omega arith)
    ]
