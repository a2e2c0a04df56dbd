-- ===== src/Framework/Engine/Total.antt =====
-- framework/fsm.cc: the machines for which `_run` and `resume` return, and the fuel that they need.
use zerver.Prelude.{
  ℕ, zero, suc, String, true, some, ◌≡◌, ◌<◌, ◌≤◌, ◌+◌, ◌-◌, refl, sym, ap, ◌∙◌, subst, arith,
  length, ◌==◌, string_eq, Bool-cases, inl, inr, get_elem?-some,
}
use zerver.Prelude.Maps.{find}
use zerver.Framework.Module.{Module, ModState, mod_async, mod_start}
use zerver.Framework.Fsm.{Fsm}
use zerver.Framework.Fsm.Links.{linked, target}
use zerver.Framework.Fsm.Closed.{IsClosed, target-linked, get_next_module-IsClosed}
use zerver.Framework.Context.{FsmContext, new_context}
use zerver.Framework.Context.Reset.{NoNull, reset_lem}
use zerver.Framework.Context.Init.{init-NoNull}
use zerver.Framework.Engine.{World, App, done, is_end, end_request, resume, run_fuel}
use zerver.Framework.Engine.Exits.{
  end_request-exited, end_request-restarts, resume-end, resume-moves, resume-exits,
}
use zerver.Framework.Engine.Runs.{KeepsFsm, run_fuel-waits, run_fuel-resume}

-- A workflow: a machine of registered modules, each under its own name, whose links go down in rank
-- and whose start module always waits for an operation, as the request module does. `run` may
-- change the contexts, but makes and drops none.
pub record IsWorkflow {D M E : Type 0} (app : App D M E) (f : Fsm) : Type 0 where
  pub keeps_fsm : KeepsFsm app
  pub keeps_contexts :
      (mo : Module) (i : ℕ) (last : ModState) (w : World D M E)
      → length (app.run mo i last w).1.contexts ≡ length w.contexts
  pub closed : IsClosed f
  pub named : (t : String) (m : Module) → find t f.mod_map ≡ some (some m) → m.name ≡ t
  pub no_null : NoNull f.mod_map
  pub start : Module
  pub started : f.start_mod ≡ some start
  pub start_waits :
      (i : ℕ) (last : ModState) (w : World D M E) → ((app.run start i last w).0 == mod_async) ≡ true
  pub rank : String → ℕ
  pub ranked :
      (name : String) (s : ModState) (t : String) → linked f name s ≡ some t → rank t < rank name

module _ {D M E : Type 0} (app : App D M E) (f : Fsm) (wf : IsWorkflow app f) where
  end_request-total :
      (k i : ℕ) (w : World D M E)
      → w.fsm ≡ f
      → i < length w.contexts
      → (u : World D M E) × (end_request app (run_fuel app (suc k)) i w ≡ done u)
  unfolding new_context
  end_request-total k i w e lt =
      let (c, ctx) = get_elem?-some w.contexts i lt in
      elim (Bool-cases c.exited) [
        | inl x ↦ (w, end_request-exited app (run_fuel app (suc k)) i w c ctx x)
        | inr x ↦
            let no_null = subst (λ g. NoNull g.mod_map) (sym e) wf.no_null in
            let (m, ini, n) = init-NoNull app.ops w.fsm (new_context c.conn) no_null tt in
            let fresh : FsmContext D M = record (new_context c.conn) {
              fsm_data = some app.ops.create_fsm_data;
              module_data_map = m;
            } in
            let res = reset_lem app.ops (app.rand w.env).0 fresh app.ops.create_fsm_data refl n in
            let st : w.fsm.start_mod ≡ some wf.start =
              ap (λ (g : Fsm). g.start_mod) e ∙ wf.started in
            (
              _,
              end_request-restarts app (run_fuel app (suc k)) i w c fresh _ wf.start ctx x ini res
                    st
                  ∙ run_fuel-waits app k wf.start (length w.contexts) mod_start _ _ _ refl
                      (wf.start_waits _ _ _),
            )
      ]

  rank_falls :
      (mo next : Module) (s : ModState) (t : String) (w : World D M E) (k : ℕ)
      → w.fsm ≡ f
      → target w.fsm mo.name s ≡ some t
      → find t w.fsm.mod_map ≡ some (some next)
      → wf.rank mo.name + 2 ≤ suc k
      → wf.rank next.name + 2 ≤ k
  rank_falls mo next s t w k e tgt found r =
      let (s', l) = target-linked f mo.name s t (subst (λ g. target g mo.name s ≡ some t) e tgt) in
      let n = wf.named t next (subst (λ (g : Fsm). find t g.mod_map ≡ some (some next)) e found) in
      omega (arith, wf.ranked mo.name s' t l, ap wf.rank n)

  -- `resume` returns where the run of each next module does.
  resume_returns :
      (k : ℕ) (mo : Module) (s : ModState) (i : ℕ) (w : World D M E)
      → w.fsm ≡ f
      → i < length w.contexts
      → wf.rank mo.name + 2 ≤ suc k
      → ((next : Module)
          → wf.rank next.name + 2 ≤ k
          → (u : World D M E) × (run_fuel app k next i s w ≡ done u))
      → (u : World D M E) × (resume app (run_fuel app k) mo s i w ≡ done u)
  resume_returns k mo s i w e lt r runs =
      let closed' : IsClosed w.fsm = subst (λ g. IsClosed g) (sym e) wf.closed in
      elim (Bool-cases (is_end w mo)) [
        | inl isend ↦
            let k' : k ≡ suc (k - 1) = omega arith in
            let (u, p) = end_request-total (k - 1) i w e lt in
            (
              u,
              resume-end app (run_fuel app k) mo s i w isend
                  ∙ subst (λ n. end_request app (run_fuel app n) i w ≡ done u) (sym k') p,
            )
        | inr notend ↦ elim (get_next_module-IsClosed w.fsm mo s closed') [
          | inl (tgt, _) ↦
              let (c, ctx) = get_elem?-some w.contexts i lt in
              (_, resume-exits app (run_fuel app k) mo s i w c notend tgt ctx)
          | inr (t, next, tgt, found, _) ↦
              let (u, p) = runs next (rank_falls mo next s t w k e tgt found r) in
              (u, resume-moves app (run_fuel app k) mo next s t i w notend tgt found ∙ p)
        ]
      ]

  -- For a workflow a run with fuel two above the rank of its module returns: it neither
  -- meets a null pointer nor uses up the fuel.
  pub run_fuel-total :
      (k : ℕ) (mo : Module) (i : ℕ) (last : ModState) (w : World D M E)
      → w.fsm ≡ f
      → i < length w.contexts
      → wf.rank mo.name + 2 ≤ k
      → (u : World D M E) × (run_fuel app k mo i last w ≡ done u)
  run_fuel-total zero mo i last w e lt r = absurd (omega arith)
  run_fuel-total (suc k) mo i last w e lt r =
      let s : ModState = (app.run mo i last w).0 in
      let w' : World D M E = (app.run mo i last w).1 in
      let e' : w'.fsm ≡ f = wf.keeps_fsm mo i last w ∙ e in
      let lt' : i < length w'.contexts = omega (arith, wf.keeps_contexts mo i last w) in
      elim (Bool-cases (s == mod_async)) [
        | inl async ↦ (w', run_fuel-waits app k mo i last s w w' refl async)
        | inr ne ↦
            let (u, p) =
              resume_returns k mo s i w' e' lt' r
                (λ next fuel. run_fuel-total k next i s w' e' lt' fuel) in
            (u, run_fuel-resume app k mo i last s w w' refl ne ∙ p)
      ]

  -- For a workflow a handler that resumes it after a module returns, with fuel one above
  -- the module's rank.
  pub resume-total :
      (k : ℕ) (mo : Module) (s : ModState) (i : ℕ) (w : World D M E)
      → w.fsm ≡ f
      → i < length w.contexts
      → wf.rank mo.name + 1 ≤ k
      → (u : World D M E) × (resume app (run_fuel app k) mo s i w ≡ done u)
  resume-total k mo s i w e lt r =
      resume_returns k mo s i w e lt (omega arith)
        (λ next fuel. run_fuel-total k next i s w e lt fuel)
