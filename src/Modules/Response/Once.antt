-- ===== src/Modules/Response/Once.antt =====
-- module/response_module.cc: that a response ends once, and how.
use zerver.Prelude.{
  ℕ, ◌+◌, ◌≤◌, Bool, true, false, not, some, List, [], ◌∷◌, ◌≡◌, refl, arith, length, All, inr,
}
use zerver.Framework.Module.{ModState, mod_succeed, mod_failed, mod_timeout}
use zerver.Modules.Session.{
  Ec, no_error, operation_aborted, other_error, Session, Event, op_done, run_op, timer_due,
  run_timer, Handlers, perform_all,
}
use zerver.Modules.Session
use zerver.Modules.Session.Once.{started, resumes, IsLinear, Goes, run-resumes_once}
use zerver.Modules.Response.{
  handlers, begin, run, on_write_resp, cancel_time_out_timer, on_write_time_out,
}

on_write_resp-once :
    (ec : Ec) (fails : Bool)
    → (started (on_write_resp ec fails) + resumes (on_write_resp ec fails) ≤ 1)
      × (not fails ≡ true → started (on_write_resp ec fails) + resumes (on_write_resp ec fails) ≡ 1)
unfolding on_write_resp cancel_time_out_timer
on_write_resp-once ec fails = (ground arith, λ g. ground arith)

handlers-IsLinear : IsLinear handlers (λ m. true) not
unfolding handlers on_write_time_out
handlers-IsLinear = record {
  op_once = λ op ec a m b. (on_write_resp-once ec a).0;
  op_goes = λ op ec a m b g. (on_write_resp-once ec a).1 g;
  op_busy = λ op ec a m b. inr refl;
  timer_none = λ t ec a m. ground arith;
  timer_busy = λ t ec a m b. refl;
}

-- Whatever the order of events, a response module that has a response resumes the machine at most once;
-- if `cancel` of the timer sets no error, exactly once, as soon as the write is over.
pub response_resumes_once :
    (resp_len : ℕ) (es : List (Event Bool))
    → (length (Session.run handlers (begin (some resp_len)) es).resumed ≤ 1)
      × (All (Goes handlers (λ m. true) not) es
          → length (Session.run handlers (begin (some resp_len)) es).ops
              + length (Session.run handlers (begin (some resp_len)) es).resumed
            ≡ 1)
response_resumes_once resp_len es =
    run-resumes_once handlers (λ m. true) not handlers-IsLinear (begin (some resp_len)) es
      (unfold begin run perform_all in refl) (unfold begin run perform_all in refl) refl

-- How the write ended: done, cut off by the timer, or in error.
abbrev pub outcome : Ec → ModState
outcome no_error = mod_succeed
outcome operation_aborted = mod_timeout
outcome other_error = mod_failed

abbrev pub ends_connection : Ec → Bool
ends_connection no_error = false
ends_connection _ = true

-- The write ends with an error code, and its handler runs, where `cancel` sets no error: the machine is resumed with the state for
-- the code, and unless all was written the context is put at its exit.
pub response_ends :
    (resp_len : ℕ) (ec : Ec)
    → let s = Session.run handlers (begin (some resp_len)) (op_done 0 ec ∷ run_op 0 false ∷ []) in
      (s.resumed ≡ outcome ec ∷ []) × (s.exited ≡ ends_connection ec)
unfolding begin handlers Session.run Session.step
response_ends resp_len no_error = (refl, refl)
response_ends resp_len operation_aborted = (refl, refl)
response_ends resp_len other_error = (refl, refl)
