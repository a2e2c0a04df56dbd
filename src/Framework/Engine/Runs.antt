-- ===== src/Framework/Engine/Runs.antt =====
-- framework/fsm.cc: the runs of a machine as a relation with no fuel and no recursion of the code's,
-- and a proof that the code computes it.
use zerver.Prelude.{
  ℕ, zero, suc, String, true, false, none, some, [], ◌∷◌, ◌++◌, ◌≡◌, refl, ◌∙◌, sym, ap, subst,
  get_elem?, length, ◌==◌, string_eq, Bool-cases, inl, inr, get_elem?-append_length,
  set-append_length, ==_iff,
}
use zerver.Prelude.Maps.{find}
use zerver.Framework.Module.{Module, ModState, mod_async, mod_start}
use zerver.Framework.Fsm.Links.{target, get_next_module-none}
use zerver.Framework.Fsm.Closed.{IsClosed, get_next_module-IsClosed}
use zerver.Framework.Context.{FsmContext, new_context, exit, init, reset}
use zerver.Framework.Engine.{
  World, App, Runner, done, deref, deref-done, >>=-done, set_context, is_end, handle_request,
  end_request, advance, resume, after_run, run_fuel,
}
use zerver.Framework.Engine.Exits.{
  end_request-exited, end_request-restarts, resume-end, resume-moves, resume-exits,
}

pub done-injective {ℓ} : {A : Type ℓ} {a b : A} → done a ≡ done b → a ≡ b
done-injective h = cc

module _ {D M E : Type 0} (app : App D M E) where
  -- `Module::run` links and registers no modules.
  abbrev pub KeepsFsm : Type 0
  KeepsFsm =
      (mo : Module) (i : ℕ) (last : ModState) (w : World D M E)
      → (app.run mo i last w).1.fsm ≡ w.fsm

  -- A module runs and waits for an operation; or it ends, and the machine follows its link, leaves by
  -- the exit if there is none, or, at the end module, is over or begins the connection's next request.
  pub data Runs : Module → ℕ → ModState → World D M E → World D M E → Type 0 where
    waits :
        {mo : Module} {i : ℕ} {last : ModState} {w w' : World D M E}
        → app.run mo i last w ≡ (mod_async, w')
        → Runs mo i last w w'
    moves :
        {mo next : Module} {i : ℕ} {last s : ModState} {t : String} {w w' u : World D M E}
        → app.run mo i last w ≡ (s, w')
        → (s == mod_async) ≡ false
        → is_end w' mo ≡ false
        → target w'.fsm mo.name s ≡ some t
        → find t w'.fsm.mod_map ≡ some (some next)
        → Runs next i s w' u
        → Runs mo i last w u
    leaves :
        {mo : Module} {i : ℕ} {last s : ModState} {w w' : World D M E} {c : FsmContext D M}
        → app.run mo i last w ≡ (s, w')
        → (s == mod_async) ≡ false
        → is_end w' mo ≡ false
        → target w'.fsm mo.name s ≡ none
        → get_elem? w'.contexts i ≡ some c
        → Runs mo i last w (set_context w' i (exit c))
    ends :
        {mo : Module} {i : ℕ} {last s : ModState} {w w' : World D M E} {c : FsmContext D M}
        → app.run mo i last w ≡ (s, w')
        → (s == mod_async) ≡ false
        → is_end w' mo ≡ true
        → get_elem? w'.contexts i ≡ some c
        → c.exited ≡ true
        → Runs mo i last w w'
    restarts :
        {mo start : Module} {i : ℕ} {last s : ModState} {w w' u : World D M E}
        {c fresh fresh' : FsmContext D M}
        → app.run mo i last w ≡ (s, w')
        → (s == mod_async) ≡ false
        → is_end w' mo ≡ true
        → get_elem? w'.contexts i ≡ some c
        → c.exited ≡ false
        → init app.ops w'.fsm (new_context c.conn) ≡ some fresh
        → reset app.ops (app.rand w'.env).0 fresh ≡ some fresh'
        → w'.fsm.start_mod ≡ some start
        → Runs start
            (length w'.contexts)
            mod_start
            (record w' { contexts = w'.contexts ++ fresh' ∷ []; env = (app.rand w'.env).1 })
            u
        → Runs mo i last w u

  pub run_fuel-suc :
      (k : ℕ) (mo : Module) (i : ℕ) (last s : ModState) (w w' : World D M E)
      → app.run mo i last w ≡ (s, w')
      → run_fuel app (suc k) mo i last w ≡ after_run app (run_fuel app k) mo i (s, w')
  unfolding run_fuel
  run_fuel-suc k mo i last s w w' e = ap (after_run app (run_fuel app k) mo i) e

  pub run_fuel-resume :
      (k : ℕ) (mo : Module) (i : ℕ) (last s : ModState) (w w' : World D M E)
      → app.run mo i last w ≡ (s, w')
      → (s == mod_async) ≡ false
      → run_fuel app (suc k) mo i last w ≡ resume app (run_fuel app k) mo s i w'
  unfolding after_run
  run_fuel-resume k mo i last s w w' e ne = rw (run_fuel-suc k mo i last s w w' e, after_run, ne)

  pub run_fuel-waits :
      (k : ℕ) (mo : Module) (i : ℕ) (last s : ModState) (w w' : World D M E)
      → app.run mo i last w ≡ (s, w')
      → (s == mod_async) ≡ true
      → run_fuel app (suc k) mo i last w ≡ done w'
  unfolding after_run
  run_fuel-waits k mo i last s w w' e async =
      rw (run_fuel-suc k mo i last s w w' e, after_run, async)

  -- Every run of the relation is computed, with some fuel.
  pub Runs-run_fuel :
      {mo : Module} {i : ℕ} {last : ModState} {w u : World D M E}
      → Runs mo i last w u
      → (k : ℕ) × (run_fuel app k mo i last w ≡ done u)
  unfolding after_run
  Runs-run_fuel (waits {mo} {i} {last} {w} {w'} e) = (1, run_fuel-suc 0 mo i last mod_async w w' e)
  Runs-run_fuel (moves {mo} {next} {i} {last} {s} {t} {w} {w'} e ne notend tgt found r) =
      let (k, h) = Runs-run_fuel r in
      (
        suc k,
        run_fuel-resume k mo i last s w w' e ne
            ∙ resume-moves app (run_fuel app k) mo next s t i w' notend tgt found
            ∙ h,
      )
  Runs-run_fuel (leaves {mo} {i} {last} {s} {w} {w'} {c} e ne notend tgt h) = (
    1,
    run_fuel-resume 0 mo i last s w w' e ne
        ∙ resume-exits app (run_fuel app 0) mo s i w' c notend tgt h,
  )
  Runs-run_fuel (ends {mo} {i} {last} {s} {w} {w'} {c} e ne isend h x) = (
    1,
    run_fuel-resume 0 mo i last s w w' e ne
        ∙ resume-end app (run_fuel app 0) mo s i w' isend
        ∙ end_request-exited app (run_fuel app 0) i w' c h x,
  )
  Runs-run_fuel
        (restarts {mo} {start} {i} {last} {s} {w} {w'} {c = c} {fresh} {fresh'} e ne isend h x ini
          res st r) =
      let (k, p) = Runs-run_fuel r in
      (
        suc k,
        run_fuel-resume k mo i last s w w' e ne
            ∙ resume-end app (run_fuel app k) mo s i w' isend
            ∙ end_request-restarts app (run_fuel app k) i w' c fresh fresh' start h x ini res st
            ∙ p,
      )

  -- What `_end_request` has done where it succeeds.
  pub data Ended (again : Runner D M E) (i : ℕ) (w u : World D M E) : Type 0 where
    over :
        (c : FsmContext D M)
        → get_elem? w.contexts i ≡ some c
        → c.exited ≡ true
        → w ≡ u
        → Ended again i w u
    begun :
        (c fresh fresh' : FsmContext D M) (start : Module)
        → get_elem? w.contexts i ≡ some c
        → c.exited ≡ false
        → init app.ops w.fsm (new_context c.conn) ≡ some fresh
        → reset app.ops (app.rand w.env).0 fresh ≡ some fresh'
        → w.fsm.start_mod ≡ some start
        → again start
            (length w.contexts)
            mod_start
            (record w { contexts = w.contexts ++ fresh' ∷ []; env = (app.rand w.env).1 })
          ≡ done u
        → Ended again i w u

  pub end_request-Ended :
      (again : Runner D M E) (i : ℕ) (w u : World D M E)
      → end_request app again i w ≡ done u
      → Ended again i w u
  unfolding end_request handle_request
  end_request-Ended again i w u h =
      let (c, e, h1) = >>=-done (deref (get_elem? w.contexts i)) _ h in
      let ctx = deref-done (get_elem? w.contexts i) e in
      elim (Bool-cases c.exited) [
        | inl x ↦ over c ctx x (done-injective (rw x at h1))
        | inr x ↦
            let (fresh, e2, h2) =
              >>=-done (deref (init app.ops w.fsm (new_context c.conn))) _ (rw x at h1) in
            let (c', e3, h3) =
              >>=-done (deref (get_elem? (w.contexts ++ fresh ∷ []) (length w.contexts))) _ h2 in
            let same = rw (get_elem?-append_length w.contexts fresh) at e3 in
            let (fresh', e4, h4) = >>=-done (deref (reset app.ops (app.rand w.env).0 c')) _ h3 in
            let (start, e5, h5) = >>=-done (deref w.fsm.start_mod) _ h4 in
            begun c fresh fresh' start ctx x (deref-done _ e2)
              (rw (done-injective same) (deref-done _ e4)) (deref-done _ e5)
              (rw (set-append_length w.contexts fresh fresh') at h5)
      ]

  resume-none :
      (again : Runner D M E) (mo : Module) (s : ModState) (i : ℕ) (w u : World D M E)
      → is_end w mo ≡ false
      → target w.fsm mo.name s ≡ none
      → resume app again mo s i w ≡ done u
      → (c : FsmContext D M) × (get_elem? w.contexts i ≡ some c)
  unfolding resume advance
  resume-none again mo s i w u e tgt h =
      let (c, p, rest) =
        >>=-done (deref (get_elem? w.contexts i)) _
          (rw (e, resume, get_next_module-none w.fsm mo s tgt) at h) in
      (c, deref-done _ p)

  -- In a closed machine, whose modules do not change it, whatever the code computes is a run.
  pub run_fuel-Runs :
      (k : ℕ) (mo : Module) (i : ℕ) (last : ModState) (w u : World D M E)
      → KeepsFsm
      → IsClosed w.fsm
      → run_fuel app k mo i last w ≡ done u
      → Runs mo i last w u
  unfolding run_fuel after_run
  run_fuel-Runs zero mo i last w u keeps closed h = cc
  run_fuel-Runs (suc k) mo i last w u keeps closed h =
      let s : ModState = (app.run mo i last w).0 in
      let w' : World D M E = (app.run mo i last w).1 in
      let closed' : IsClosed w'.fsm = subst (λ f. IsClosed f) (sym (keeps mo i last w)) closed in
      let ran : app.run mo i last w ≡ (s, w') = refl in
      elim (Bool-cases (s == mod_async)) [
        | inl async ↦
            let over : w' ≡ u =
              done-injective (sym (run_fuel-waits k mo i last s w w' ran async) ∙ h) in
            let now : s ≡ mod_async = (==_iff s mod_async).0 async in waits (λ j. (now j, over j))
        | inr ne ↦
            let h' : resume app (run_fuel app k) mo s i w' ≡ done u =
              sym (run_fuel-resume k mo i last s w w' ran ne) ∙ h in
            elim (Bool-cases (is_end w' mo)) [
              | inl isend ↦
                  elim (end_request-Ended (run_fuel app k) i w' u
                    (sym (resume-end app (run_fuel app k) mo s i w' isend) ∙ h')) [
                      | over c ctx x e ↦ subst (λ v. Runs mo i last w v) e (ends ran ne isend ctx x)
                      | begun c fresh fresh' start ctx x ini res st go ↦
                          restarts ran ne isend ctx x ini res st
                            (run_fuel-Runs k start _ mod_start _ u keeps closed' go)
                    ]
              | inr notend ↦ elim (get_next_module-IsClosed w'.fsm mo s closed') [
                | inl (tgt, _) ↦
                    let (c, ctx) = resume-none (run_fuel app k) mo s i w' u notend tgt h' in
                    subst (λ v. Runs mo i last w v)
                      (done-injective
                        (sym (resume-exits app (run_fuel app k) mo s i w' c notend tgt ctx) ∙ h'))
                      (leaves ran ne notend tgt ctx)
                | inr (t, next, tgt, found, _) ↦ moves ran ne notend tgt found (
                    run_fuel-Runs k next i s w' u keeps closed' (
                      sym (resume-moves app (run_fuel app k) mo next s t i w' notend tgt found)
                      ∙ h'))
              ]
            ]
      ]
