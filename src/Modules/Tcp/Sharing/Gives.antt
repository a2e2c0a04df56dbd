-- ===== src/Modules/Tcp/Sharing/Gives.antt =====
-- module/tcp_module.cc: a request keeps its client, or gives it back to the pool.
use zerver.Prelude.{
  ℕ, ◌+◌, Option, none, some, List, [], ◌∷◌, ◌++◌, ◌≡◌, refl, arith, ◌⊎◌, inl, inr, Option-cases,
  get_elem?-append_length,
}
use zerver.Client.TcpClientPool.Moves.{held}
use zerver.Modules.Session.{Ec, Event}
use zerver.Modules.Session
use zerver.Modules.Session.State.{step-relates}
use zerver.Modules.Tcp.{
  TcpData, Op, connect, write_req, recv_resp_head, recv_resp_body, Answers, handlers, on_op,
  send_request, Found, no_type_id, pooled, no_server, bad_address, bad_socket, fresh, begin, run,
}
use zerver.Modules.Session.{perform_all}
use zerver.Modules.Tcp.Sharing.{Request, since}

-- A handler keeps the client of its request, or gives it back; it may close it before.
abbrev Gives : TcpData → TcpData → Type 0
Gives d d' =
    ((d'.client ≡ d.client) × (d'.recollected ≡ d.recollected))
    ⊎ ((c : ℕ) × (d.client ≡ some c)
        × (d'.client ≡ none)
        × (d'.recollected ≡ d.recollected ++ c ∷ []))

on_op-Gives : (op : Op) (ec : Ec) (a : Answers) (d : TcpData) → Gives d (on_op op ec a d).0
unfolding on_op
on_op-Gives connect ec a d = ground arith
on_op-Gives (write_req len) ec a d = ground arith
on_op-Gives (recv_resp_head len) ec a d = ground arith
on_op-Gives (recv_resp_body len) ec a d = elim (Option-cases d.client) [
  | inl e ↦ inl (ground arith)
  | inr (c, e) ↦ ground arith
]

-- Across an event a request gives up its client only to the pool.
step-Gives : (r : Request) (e : Event Answers) → Gives r.state (Session.step handlers r e).state
unfolding handlers
step-Gives r e =
    step-relates handlers Gives (λ d. inl (refl, refl)) on_op-Gives (λ t ec a d. inl (refl, refl)) r
      e

since_same : (l : List ℕ) → since l l ≡ none
since_same [] = refl
since_same (x ∷ l) = since_same l

-- The clients that a request holds before an event are those that it holds or has given back after.
pub held-step :
    (p : ℕ) (r : Request) (e : Event Answers)
    → held p r.state.client
      ≡ held p (Session.step handlers r e).state.client
        + held p (since r.state.recollected (Session.step handlers r e).state.recollected)
held-step p r e = elim (step-Gives r e) [
  | inl (same, none_) ↦ rw (same, none_, since_same r.state.recollected) (omega arith)
  | inr (c, before, after, back) ↦
      rw (after, back, get_elem?-append_length r.state.recollected c, before) (omega arith)
]

-- The client that a request begins with.
abbrev pub found_client : Found → Option ℕ
found_client (pooled c) = some c
found_client (fresh c) = some c
found_client _ = none

pub begin-client : (found : Found) (a : Answers) → (begin found a).state.client ≡ found_client found
unfolding begin run send_request perform_all
begin-client no_type_id a = refl
begin-client (pooled c) a = refl
begin-client no_server a = refl
begin-client bad_address a = refl
begin-client bad_socket a = refl
begin-client (fresh c) a = refl
