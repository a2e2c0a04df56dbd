-- ===== src/Example1/Main/Wiring.antt =====
-- example1/main.cc: the machine that `main` sets up, and what the framework does with it.
use zerver.Prelude.{
  ℕ, ◌+◌, ◌<◌, ◌≤◌, true, none, some, ◌≡◌, refl, sym, ap, ◌∙◌, subst, arith, inl, inr, IsIn,
  All-IsIn, length, ltb, ◌==◌, if◌then◌else◌, Option-cases, Bool-cases, String,
}
use zerver.Framework.Module.{Module, ModState, mod_async, mod_else}
use zerver.Framework.Fsm.{new_fsm, set_start_module, set_end_module}
use zerver.Framework.Fsm.Links.{linked, target}
use zerver.Framework.Fsm.Closed.{IsClosed}
use zerver.Framework.Fsm.Calls.{link, linked-IsIn}
use zerver.Framework.Fsm.Calls.Names.{
  built-IsLink, built-IsAdded, built-IsClosed, apply_calls-NoNull,
}
use zerver.Framework.Fsm.Calls.Ranks.{
  has_distinct_names, same_object, rank_of, rank_of-add, built-ranked,
}
use zerver.Framework.Engine.{World, App, done, run_fuel, resume}
use zerver.Framework.Engine.Runs.{KeepsFsm}
use zerver.Framework.Engine.Total.{IsWorkflow, resume-total}
use zerver.Modules.Fork.{mod_fork0}
use zerver.Example1.Main.{
  MainModule, req_mod, Flags, States, Snprintf, mod_name, object, main_calls, main_fsm,
}
use zerver.Example1.Main.Links.{IsMade, IsWired, rank, Falls, main_calls-Falls}
use zerver.Example1.Main.Made.{
  IsMade-add, ForkObject, fork_mod, branch, fork_num, fork_mod-link, IsWired-branch,
}

pub rank-le : (m : MainModule) → rank m ≤ 11
rank-le m = ground arith

module _ (snprintf : Snprintf) (address : MainModule → ℕ) (flags : Flags) (states : States) where
  pub link-Falls :
      (a b : MainModule) (s : ModState)
      → IsIn (link a b s) (main_calls flags states)
      → Falls flags states (link a b s)
  link-Falls a b s i =
      All-IsIn (Falls flags states) (link a b s) (main_calls flags states)
        (main_calls-Falls flags states) i

  -- Whatever the flags and the states of the headers, and however names are printed, every link of the
  -- machine leads to a module that is registered.
  pub main_fsm-IsClosed : IsClosed (main_fsm snprintf address flags states)
  unfolding main_fsm set_start_module set_end_module linked
  main_fsm-IsClosed =
      built-IsClosed (object snprintf address) (main_calls flags states)
        (λ a b s i. IsMade-add flags states b (link-Falls a b s i).1)

  -- The names of the objects of `main` differ.
  abbrev pub HasDistinctNames : Type 0
  HasDistinctNames = has_distinct_names (object snprintf address) (main_calls flags states) ≡ true

  -- What is asked of the modules of the application: they keep the machine and the number of contexts,
  -- and the request module waits for its read.
  pub record IsServing {D M E : Type 0} (app : App D M E) : Type 0 where
    pub keeps_fsm : KeepsFsm app
    pub keeps_contexts :
        (mo : Module) (i : ℕ) (last : ModState) (w : World D M E)
        → length (app.run mo i last w).1.contexts ≡ length w.contexts
    pub waits :
        (i : ℕ) (last : ModState) (w : World D M E)
        → ((app.run (object snprintf address req_mod) i last w).0 == mod_async) ≡ true

  -- Where the names differ, the machine is a workflow for such an application.
  pub main_fsm-IsWorkflow :
      {D M E : Type 0} (app : App D M E)
      → HasDistinctNames
      → IsServing app
      → IsWorkflow app (main_fsm snprintf address flags states)
  unfolding main_fsm set_start_module set_end_module linked
  main_fsm-IsWorkflow app d serving =
      let make = object snprintf address in
      let cs = main_calls flags states in
      record {
        keeps_fsm = serving.keeps_fsm;
        keeps_contexts = serving.keeps_contexts;
        closed = main_fsm-IsClosed;
        named = λ t m h.
            let (x, i, e, n) = built-IsAdded make cs t m h in ap (λ (o : Module). o.name) e ∙ sym n;
        no_null = apply_calls-NoNull make cs new_fsm tt;
        start = make req_mod;
        started = refl;
        start_waits = serving.waits;
        rank = rank_of make rank cs;
        ranked = built-ranked make rank cs d (λ a b s i.
            let f = link-Falls a b s i in
            (IsMade-add flags states a f.0, IsMade-add flags states b f.1, f.2));
      }

  -- Where the names differ, a handler of such an application that resumes the machine after any module
  -- that `main` made returns, with fuel 12, whatever the flags.
  pub main_resume-total :
      {D M E : Type 0} (app : App D M E)
      → HasDistinctNames
      → IsServing app
      → (m : MainModule) (s : ModState) (i : ℕ) (w : World D M E) → IsMade flags m
      → w.fsm ≡ main_fsm snprintf address flags states
      → i < length w.contexts
      → (u : World D M E) × (resume app (run_fuel app 12) (object snprintf address m) s i w
          ≡ done u)
  unfolding main_fsm-IsWorkflow
  main_resume-total app d serving m s i w made e lt =
      let make = object snprintf address in
      let cs = main_calls flags states in
      let r = rank_of-add make rank cs m d (IsMade-add flags states m made) in
      resume-total app (main_fsm snprintf address flags states) (main_fsm-IsWorkflow app d serving)
        12 (make m) s i w e lt (omega (arith, r, rank-le m))

  fork_has_link :
      (m : ForkObject) (i : ℕ)
      → IsMade flags (fork_mod m)
      → i < fork_num flags m
      → (t : String) × (linked
            (main_fsm snprintf address flags states)
            (mod_name snprintf (fork_mod m))
            (mod_fork0 + i)
          ≡ some t)
  unfolding main_fsm set_start_module set_end_module linked
  fork_has_link m i made lt =
      linked-IsIn (object snprintf address) (main_calls flags states) new_fsm (fork_mod m)
        (branch m i) (mod_fork0 + i) (fork_mod-link flags states m i made lt)

  fork_linked :
      (m : ForkObject) (s : ModState) (t : String)
      → HasDistinctNames
      → IsMade flags (fork_mod m)
      → linked (main_fsm snprintf address flags states) (mod_name snprintf (fork_mod m)) s ≡ some t
      → (j : ℕ) × (t ≡ mod_name snprintf (branch m j))
        × (s ≡ mod_fork0 + j)
        × (j < fork_num flags m)
  unfolding main_fsm set_start_module set_end_module linked
  fork_linked m s t d made h =
      let make = object snprintf address in
      let cs = main_calls flags states in
      let (a, b, at, n, e) = built-IsLink make cs (mod_name snprintf (fork_mod m)) s t h in
      let f = link-Falls a b s at in
      let same =
        same_object make cs (fork_mod m) a d (IsMade-add flags states (fork_mod m) made)
          (IsMade-add flags states a f.0) n in
      let (j, e', n', lt) =
        IsWired-branch flags states m b s (subst (λ x. IsWired states x b s) (sym same) f.3) f.1 in
      (j, e ∙ ap (mod_name snprintf) e', n', lt)

  -- Where the names differ, a fork module that `main` made has a link for each of its numbers, to the
  -- branch of that number, and neither one for a number past these nor one for `Mod_else`.
  pub main_fsm-branches :
      (m : ForkObject) (i : ℕ)
      → HasDistinctNames
      → IsMade flags (fork_mod m)
      → target
          (main_fsm snprintf address flags states)
          (mod_name snprintf (fork_mod m))
          (mod_fork0 + i)
        ≡ (if ltb i (fork_num flags m) then some (mod_name snprintf (branch m i)) else none)
  unfolding target
  main_fsm-branches m i d made =
      let f = main_fsm snprintf address flags states in
      let name = mod_name snprintf (fork_mod m) in
      elim (Option-cases (linked f name (mod_fork0 + i))) [
        | inr (t, e) ↦
            let (j, e', n, lt) = fork_linked m (mod_fork0 + i) t d made e in
            let same : j ≡ i = omega arith in
            ground (arith, e, ap (λ k. mod_name snprintf (branch m k)) same)
        | inl e ↦ elim (Option-cases (linked f name mod_else)) [
          | inr (t, e') ↦
              let (j, _, n, _) = fork_linked m mod_else t d made e' in absurd (omega arith)
          | inl e' ↦ elim (Bool-cases (ltb i (fork_num flags m))) [
            | inl lt ↦ let (t, l) = fork_has_link m i made (ground arith) in absurd (cc (sym e ∙ l))
            | inr ge ↦ ground (arith, e, e')
          ]
        ]
      ]
