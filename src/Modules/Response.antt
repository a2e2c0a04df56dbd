-- ===== src/Modules/Response.antt =====
-- module/response_module.h and module/response_module.cc: a response is written under one timer.
-- `cancel` of the socket, which throws on an error, is taken not to throw.
pub mod Once
use zerver.Prelude.{ℕ, Bool, true, false, Option, none, some, List, [], ◌∷◌, if◌then◌else◌}
use zerver.Framework.Module.{ModState, mod_async, mod_failed, mod_succeed, mod_timeout}
use zerver.Modules.Session.{
  Ec, no_error, operation_aborted, other_error, Effect, start_op, set_timer, cancel_timer,
  cancel_socket, notify, exit_context, resume, Session, Handlers, perform_all,
}

-- A write of a number of bytes.
pub data Write : Type 0 where
  write_resp : ℕ → Write

pub data Timer : Type 0 where
  write_timer : Timer

abbrev pub Effects : Type 0
Effects = List (Effect Write Timer)

-- `get_write_resp_time_out_ms`.
abbrev pub write_resp_time_out_ms : ℕ
write_resp_time_out_ms = 30

-- `run`, with what `get_resp` gives: the length of the response, or `none` for a null pointer.
unfoldable pub run : Option ℕ → ModState × Effects
run none = (mod_failed, [])
run (some resp_len) =
    (mod_async, set_timer write_timer write_resp_time_out_ms ∷ start_op (write_resp resp_len) ∷ [])

-- `cancel_time_out_timer` and what follows it; the argument is whether `cancel` sets an error.
unfoldable pub cancel_time_out_timer : Bool → Effects → Effects
cancel_time_out_timer fails rest = cancel_timer ∷ (if fails then [] else rest)

unfoldable pub on_write_resp : Ec → Bool → Effects
unfolding cancel_time_out_timer
on_write_resp no_error fails = cancel_time_out_timer fails (notify ∷ resume mod_succeed ∷ [])
on_write_resp operation_aborted fails = exit_context ∷ resume mod_timeout ∷ []
on_write_resp other_error fails =
    cancel_time_out_timer fails (notify ∷ exit_context ∷ resume mod_failed ∷ [])

unfoldable pub on_write_time_out : Ec → Effects
on_write_time_out no_error = notify ∷ cancel_socket ∷ []
on_write_time_out _ = []

unfoldable pub handlers : Handlers Write Timer Bool (Unit {0})
unfolding on_write_resp on_write_time_out
handlers = record {
  on_op = λ op ec fails m. (m, on_write_resp ec fails);
  on_timer = λ t ec fails m. (m, on_write_time_out ec);
}

-- A module in which `run` has been called.
unfoldable pub begin : Option ℕ → Session Write Timer (Unit {0})
unfolding run perform_all
begin resp =
    perform_all (run resp).1
      (record { ops = []; timers = []; state = tt; exited = false; resumed = [] })
