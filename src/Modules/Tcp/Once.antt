-- ===== src/Modules/Tcp/Once.antt =====
-- module/tcp_module.cc: that a request to a server ends once.
use zerver.Prelude.{ℕ, ◌+◌, ◌≤◌, Bool, true, not, List, ◌≡◌, refl, arith, length, All, ◌⊎◌}
use zerver.Modules.Session.{Ec, Session, Event, Handlers, perform_all}
use zerver.Modules.Session
use zerver.Modules.Session.Once.{started, resumes, IsLinear, Goes, run-resumes_once}
use zerver.Modules.Tcp.{
  TcpData, Op, connect, write_req, recv_resp_head, recv_resp_body, Answers, pooled, fresh, handlers,
  begin, run, is_opened, on_op, send_request,
}

abbrev pub goes : Answers → Bool
goes a = not a.cancel_fails

on_op-once :
    (op : Op) (ec : Ec) (a : Answers) (d : TcpData)
    → is_opened d ≡ true
    → (started (on_op op ec a d).1 + resumes (on_op op ec a d).1 ≤ 1)
      × (goes a ≡ true → started (on_op op ec a d).1 + resumes (on_op op ec a d).1 ≡ 1)
      × ((started (on_op op ec a d).1 ≡ 0) ⊎ (is_opened (on_op op ec a d).0 ≡ true))
unfolding on_op
on_op-once connect ec a d b = (ground arith, λ g. ground arith, ground arith)
on_op-once (write_req len) ec a d b = (ground arith, λ g. ground arith, ground arith)
on_op-once (recv_resp_head len) ec a d b = (ground arith, λ g. ground arith, ground arith)
on_op-once (recv_resp_body len) ec a d b = (ground arith, λ g. ground arith, ground arith)

handlers-IsLinear : IsLinear handlers is_opened goes
unfolding handlers
handlers-IsLinear = record {
  op_once = λ op ec a d b. (on_op-once op ec a d b).0;
  op_goes = λ op ec a d b g. (on_op-once op ec a d b).1 g;
  op_busy = λ op ec a d b. (on_op-once op ec a d b).2;
  timer_none = λ t ec a d. ground arith;
  timer_busy = λ t ec a d b. b;
}

-- A request over a pooled client resumes the machine at most once, whatever the order of events, and if
-- `cancel` of the timer sets no error exactly once, as soon as no operation is under way.
pub pooled_resumes_once :
    (c : ℕ) (a : Answers) (es : List (Event Answers))
    → (length (Session.run handlers (begin (pooled c) a) es).resumed ≤ 1)
      × (All (Goes handlers is_opened goes) es
          → length (Session.run handlers (begin (pooled c) a) es).ops
              + length (Session.run handlers (begin (pooled c) a) es).resumed
            ≡ 1)
pooled_resumes_once c a es =
    run-resumes_once handlers is_opened goes handlers-IsLinear (begin (pooled c) a) es
      (unfold begin run send_request perform_all in refl)
      (unfold begin run send_request perform_all in refl)
      (unfold begin run send_request perform_all in refl)

-- So does a request that connects a new client first.
pub fresh_resumes_once :
    (c : ℕ) (a : Answers) (es : List (Event Answers))
    → (length (Session.run handlers (begin (fresh c) a) es).resumed ≤ 1)
      × (All (Goes handlers is_opened goes) es
          → length (Session.run handlers (begin (fresh c) a) es).ops
              + length (Session.run handlers (begin (fresh c) a) es).resumed
            ≡ 1)
fresh_resumes_once c a es =
    run-resumes_once handlers is_opened goes handlers-IsLinear (begin (fresh c) a) es
      (unfold begin run perform_all in refl) (unfold begin run perform_all in refl)
      (unfold begin run perform_all in refl)
