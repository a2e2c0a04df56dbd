-- ===== src/Framework/Engine/Accept.antt =====
-- framework/tcp_server.cc: `on_accepted` over the store of contexts. The call of `start_accept` that
-- follows is a field of `Framework/Server.antt`.
use zerver.Prelude.{
  ℕ, suc, Bool, Option, false, String, string_eq, arith, some, [], ◌∷◌, ◌++◌, ◌≡◌, refl, sym, ap,
  ◌∙◌, subst, length, get_elem?-append_length, set-append_length,
}
use zerver.Framework.Module.{Module, mod_start}
use zerver.Framework.Fsm.{Fsm}
use zerver.Framework.Context.{FsmContext, new_context, init_modules, init, reset}
use zerver.Framework.Context.Reset.{NoNull, reset_lem}
use zerver.Framework.Context.Init.{init_modules-NoNull}
use zerver.Framework.Context.ModuleData.{created, reset_data, init_modules-find, find-reset_entry}
use zerver.Prelude.Maps.{find, find-nil, HasUniqueKeys}
use zerver.Framework.Engine.{
  World, App, Runner, Outcome, done, ◌>>=◌, deref, handle_request, run_fuel,
}
use zerver.Framework.Engine.Runs.{run_fuel-waits}
use zerver.Framework.Engine.Total.{IsWorkflow}

module _ {D M E : Type 0} (app : App D M E) where
  -- The error code is not read.
  unfoldable pub on_accepted : Runner D M E → ℕ → Bool → World D M E → Outcome (World D M E)
  unfolding handle_request
  on_accepted again conn error w = do
    fresh ← deref (init app.ops w.fsm (new_context conn))
    handle_request app again (length w.contexts) (record w { contexts = w.contexts ++ fresh ∷ [] })

  on_accepted-starts :
      (again : Runner D M E) (conn : ℕ) (error : Bool) (w : World D M E)
      (fresh fresh' : FsmContext D M) (start : Module)
      → init app.ops w.fsm (new_context conn) ≡ some fresh
      → reset app.ops (app.rand w.env).0 fresh ≡ some fresh'
      → w.fsm.start_mod ≡ some start
      → on_accepted again conn error w
        ≡ again start
            (length w.contexts)
            mod_start
            (record w { contexts = w.contexts ++ fresh' ∷ []; env = (app.rand w.env).1 })
  unfolding on_accepted handle_request
  on_accepted-starts again conn error w fresh fresh' start ini res st = rw (
    ini,
    on_accepted,
    handle_request,
    get_elem?-append_length w.contexts fresh,
    res,
    st,
    set-append_length w.contexts fresh fresh',
  )

module _ {D M E : Type 0} (app : App D M E) (f : Fsm) (wf : IsWorkflow app f) where
  -- For a workflow whose modules are registered under different names, whatever the error code: an
  -- accepted connection is given a new context, which is not at its exit and has the drawn number, the
  -- factory's data, reset, and for each name what the module of the name creates, reset, and nothing
  -- else. The start module is run on it and waits.
  pub on_accepted-waits :
      (k conn : ℕ) (error : Bool) (w : World D M E)
      → w.fsm ≡ f
      → HasUniqueKeys f.mod_map
      → (c : FsmContext D M) × (c.conn ≡ conn)
        × (c.exited ≡ false)
        × (c.uuid ≡ (app.rand w.env).0)
        × (c.fsm_data ≡ some (app.ops.reset_fsm_data app.ops.create_fsm_data))
        × ((name : String)
            → find name c.module_data_map
              ≡ reset_data app.ops (created app.ops (find name f.mod_map)))
        × (on_accepted app (run_fuel app (suc k)) conn error w
            ≡ done
                (app.run wf.start
                  (length w.contexts)
                  mod_start
                  (record w { contexts = w.contexts ++ c ∷ []; env = (app.rand w.env).1 })).1)
  unfolding new_context init
  on_accepted-waits k conn error w e unique =
      let no_null = subst (λ g. NoNull g.mod_map) (sym e) wf.no_null in
      let (m, made, n) = init_modules-NoNull app.ops w.fsm.mod_map [] no_null tt in
      let ini : init app.ops w.fsm (new_context conn)
          ≡ some (record (new_context conn) {
            fsm_data = some app.ops.create_fsm_data;
            module_data_map = m;
          }) =
        ground (arith, made) in
      let fresh : FsmContext D M = record (new_context conn) {
        fsm_data = some app.ops.create_fsm_data;
        module_data_map = m;
      } in
      let res = reset_lem app.ops (app.rand w.env).0 fresh app.ops.create_fsm_data refl n in
      let st : w.fsm.start_mod ≡ some wf.start = ap (λ (g : Fsm). g.start_mod) e ∙ wf.started in
      (
        _,
        refl,
        refl,
        refl,
        refl,
        λ name.
            find-reset_entry app.ops name m
            ∙ ap (reset_data app.ops) (
                init_modules-find app.ops name f.mod_map [] m unique
                  (subst (λ (g : Fsm). init_modules app.ops g.mod_map [] ≡ some m) e made)
                ∙ ground (arith, find-nil {V = Option M} name)),
        on_accepted-starts app (run_fuel app (suc k)) conn error w fresh _ wf.start ini res st
            ∙ run_fuel-waits app k wf.start (length w.contexts) mod_start _ _ _ refl
                (wf.start_waits _ _ _),
      )
