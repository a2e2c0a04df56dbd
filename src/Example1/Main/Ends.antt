-- ===== src/Example1/Main/Ends.antt =====
-- example1/main.cc with framework/fsm.cc: a request of the example that could not be read.
use zerver.Prelude.{
  ℕ, suc, true, false, some, string_eq, nat_eq, ◌≡◌, sym, ap, ◌∙◌, subst, arith, ◌==◌, get_elem?,
}
use zerver.Framework.Module.{ModState, mod_async}
use zerver.Framework.Fsm.{set_start_module, set_end_module}
use zerver.Framework.Context.{FsmContext}
use zerver.Framework.Engine.{World, App, done, is_end, resume, run_fuel, after_run}
use zerver.Framework.Engine.Exits.{end_request-exited, resume-end}
use zerver.Example1.Main.{MainModule, req_mod, end_mod, Flags, States, Snprintf, object, main_fsm}
use zerver.Example1.Main.Wiring.{HasDistinctNames}
use zerver.Example1.Main.Table.{AreDistinct, after_req}
use zerver.Example1.Main.Gather.{resume-next_mod}

module _ (snprintf : Snprintf) (address : MainModule → ℕ) (flags : Flags) (states : States) where
  -- The end module of the machine is the object that `main` made.
  end_mod-is_end :
      {D M E : Type 0} (w : World D M E)
      → w.fsm ≡ main_fsm snprintf address flags states
      → is_end w (object snprintf address end_mod) ≡ true
  unfolding main_fsm set_start_module set_end_module
  end_mod-is_end w e =
      subst (λ f. is_end (record w { fsm = f }) (object snprintf address end_mod) ≡ true) (sym e)
        (ground arith)

  -- Where the names differ, and so do the states of the headers, and the request module, which is not the
  -- end module, ends in a state that the table leads to the end module: where the end module runs to its
  -- end, keeps the machine and leaves the context at its exit, the handler returns as soon as it has
  -- run, and no further request is begun on the connection.
  pub main_closes :
      {D M E : Type 0} (app : App D M E) (s : ModState) (k i : ℕ) (w : World D M E)
      (c : FsmContext D M)
      → HasDistinctNames snprintf address flags states
      → AreDistinct states
      → (address req_mod == address end_mod) ≡ false
      → after_req states s ≡ end_mod
      → w.fsm ≡ main_fsm snprintf address flags states
      → ((app.run (object snprintf address end_mod) i s w).0 == mod_async) ≡ false
      → (app.run (object snprintf address end_mod) i s w).1.fsm
        ≡ main_fsm snprintf address flags states
      → get_elem? (app.run (object snprintf address end_mod) i s w).1.contexts i ≡ some c
      → c.exited ≡ true
      → resume app (run_fuel app (suc k)) (object snprintf address req_mod) s i w
        ≡ done (app.run (object snprintf address end_mod) i s w).1
  unfolding run_fuel after_run
  main_closes app s k i w c names differ inner closes e runs kept here exited =
      let last = object snprintf address end_mod in
      let (state, w') = app.run last i s w in
      resume-next_mod snprintf address flags states app (run_fuel app (suc k)) req_mod end_mod s i w
        names differ tt (ap (λ b. some b) closes) inner e
      ∙ rw (runs, run_fuel, after_run)
          (resume-end app (run_fuel app k) last state i w' (end_mod-is_end w' kept)
            ∙ end_request-exited app (run_fuel app k) i w' c here exited)
