-- ===== src/Modules/Request/Races.antt =====
-- module/request_module.cc: that a request ends once, and what a timer does that runs out while a read's
-- handler is in the queue.
use zerver.Prelude.{
  ℕ, ◌+◌, ◌≤◌, Bool, true, false, not, List, [], ◌∷◌, ◌≡◌, refl, arith, length, All, inr,
}
use zerver.Framework.Module.{ModState, mod_timeout}
use zerver.Modules.Session.{
  Ec, no_error, operation_aborted, other_error, Status, armed, queued, Session, Event, op_done,
  timer_due, run_op, run_timer, Handlers, perform_all,
}
use zerver.Modules.Session
use zerver.Modules.Session.Once.{started, resumes, IsLinear, Goes, run-resumes_once}
use zerver.Modules.Request.{
  Read, read_version, read_head, read_body, Answers, handlers, begin, run, on_read, on_read_version,
  on_read_head, on_read_body, on_failed, cancel_time_out_timer, on_read_time_out,
}

abbrev pub goes : Answers → Bool
goes a = not a.cancel_fails

on_read-once :
    (op : Read) (ec : Ec) (a : Answers)
    → (started (on_read op ec a) + resumes (on_read op ec a) ≤ 1)
      × (goes a ≡ true → started (on_read op ec a) + resumes (on_read op ec a) ≡ 1)
unfolding on_read on_read_version on_read_head on_read_body on_failed cancel_time_out_timer
on_read-once (read_version len) ec a = (ground arith, λ g. ground arith)
on_read-once (read_head len) ec a = (ground arith, λ g. ground arith)
on_read-once (read_body len) ec a = (ground arith, λ g. ground arith)

handlers-IsLinear : IsLinear handlers (λ m. true) goes
unfolding handlers on_read_time_out
handlers-IsLinear = record {
  op_once = λ op ec a m b. (on_read-once op ec a).0;
  op_goes = λ op ec a m b g. (on_read-once op ec a).1 g;
  op_busy = λ op ec a m b. inr refl;
  timer_none = λ t ec a m. ground arith;
  timer_busy = λ t ec a m b. refl;
}

-- Whatever the order in which reads end, timers run out and handlers run, a request module resumes the
-- machine at most once; if `cancel` of the timer sets no error it resumes it exactly once, as soon as no
-- read is under way.
pub request_resumes_once :
    (version_len : ℕ) (es : List (Event Answers))
    → (length (Session.run handlers (begin version_len) es).resumed ≤ 1)
      × (All (Goes handlers (λ m. true) goes) es
          → length (Session.run handlers (begin version_len) es).ops
              + length (Session.run handlers (begin version_len) es).resumed
            ≡ 1)
request_resumes_once version_len es =
    run-resumes_once handlers (λ m. true) goes handlers-IsLinear (begin version_len) es
      (unfold begin run perform_all in refl) (unfold begin run perform_all in refl) refl

-- A read's bytes are taken, and `cancel` sets no error.
abbrev pub accepts : ℕ → ℕ → ModState → Answers
accepts head_len body_len state = record {
  accepted = true;
  cancel_fails = false;
  head_len = head_len;
  body_len = body_len;
  succeed_state = state;
}

-- All three parts arrive in time: the machine is resumed with the application's state, the context is
-- not at its exit, and no timer is armed.
pub request_succeeds :
    (version_len head_len body_len : ℕ) (state : ModState)
    → let a = accepts head_len body_len state in
      Session.run handlers (begin version_len) (
        op_done 0 no_error
        ∷ run_op 0 a
        ∷ op_done 0 no_error
        ∷ run_op 0 a
        ∷ op_done 0 no_error
        ∷ run_op 0 a
        ∷ [])
      ≡ record {
        ops = [];
        timers = (1, queued operation_aborted) ∷ (2, queued operation_aborted) ∷ [];
        state = tt;
        exited = false;
        resumed = state ∷ [];
      }
unfolding begin handlers Session.run Session.step
request_succeeds version_len head_len body_len state = refl

-- The version's timer runs out when the version has arrived and its handler is still in the queue. The
-- handler accepts the version and begins to read the head under the second timer; the first timer's
-- handler, which runs then, cancels the read of the head, and the request ends as timed out, though the
-- second timer is still armed.
pub stale_timer_ends_request :
    (version_len head_len body_len : ℕ) (state : ModState) (b c : Answers)
    → let a = accepts head_len body_len state in
      Session.run handlers
        (begin version_len)
        (op_done 0 no_error ∷ timer_due 0 ∷ run_op 0 a ∷ run_timer 0 b ∷ run_op 0 c ∷ [])
      ≡ record {
        ops = [];
        timers = (2, armed) ∷ [];
        state = tt;
        exited = true;
        resumed = mod_timeout ∷ [];
      }
unfolding begin handlers Session.run Session.step
stale_timer_ends_request version_len head_len body_len state b c = refl

-- The second timer runs out when the head has arrived and its handler is still in the queue. The
-- timer's handler cancels no read; the head's handler then begins to read the body, and no timer is left
-- to end that read.
pub body_read_without_timer :
    (version_len head_len body_len : ℕ) (state : ModState) (b c : Answers)
    → let a = accepts head_len body_len state in
      Session.run handlers (begin version_len) (
        op_done 0 no_error
        ∷ run_op 0 a
        ∷ run_timer 0 b
        ∷ op_done 0 no_error
        ∷ timer_due 0
        ∷ run_timer 0 c
        ∷ run_op 0 a
        ∷ [])
      ≡ record {
        ops = (read_body body_len, armed) ∷ [];
        timers = [];
        state = tt;
        exited = false;
        resumed = [];
      }
unfolding begin handlers Session.run Session.step
body_read_without_timer version_len head_len body_len state b c = refl
