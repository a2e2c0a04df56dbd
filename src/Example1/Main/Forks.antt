-- ===== src/Example1/Main/Forks.antt =====
-- example1/main.cc with module/fork_module.cc and framework/fsm.cc: which modules a fork of the example
-- begins.
use zerver.Prelude.{
  ℕ, ◌+◌, ◌<◌, ◌≤◌, ◌%◌, ◌^◌, ◌⊎◌, false, string_eq, none, some, ◌≡◌, sym, ap, ◌∙◌, subst, arith,
  ◌==◌, inl, inr,
}
use zerver.Prelude.Maps.{find}
use zerver.Framework.Module.{Module, ModState, mod_async}
use zerver.Framework.Fsm.{new_fsm, set_start_module, set_end_module}
use zerver.Framework.Fsm.Links.{target}
use zerver.Framework.Fsm.Calls.Names.{built-IsAdded, IsIn-IsRegistered}
use zerver.Framework.Fsm.Calls.Ranks.{same_object}
use zerver.Framework.Engine.{World, App, Runner, resume, is_end}
use zerver.Framework.Engine.Exits.{resume-moves}
use zerver.Modules.Fork
use zerver.Modules.Fork.{new_fork_module, create_data, mod_fork0, forks_from, run_lem}
use zerver.Example1.Main.{
  MainModule, end_mod, Flags, States, Snprintf, mod_name, object, main_calls, main_fsm,
}
use zerver.Example1.Main.Links.{IsMade}
use zerver.Example1.Main.Made.{IsMade-add, ForkObject, fork_mod, branch, fork_num, branch-IsMade}
use zerver.Example1.Main.Wiring.{HasDistinctNames, main_fsm-branches}

module _ (snprintf : Snprintf) (address : MainModule → ℕ) (flags : Flags) (states : States) where
  -- An object that `main` made stands under its name.
  pub main_fsm-find :
      (m : MainModule)
      → HasDistinctNames snprintf address flags states
      → IsMade flags m
      → find (mod_name snprintf m) (main_fsm snprintf address flags states).mod_map
        ≡ some (some (object snprintf address m))
  unfolding main_fsm set_start_module set_end_module
  main_fsm-find m d made =
      let make = object snprintf address in
      let cs = main_calls flags states in
      let there = IsMade-add flags states m made in
      let (o, found) = IsIn-IsRegistered make cs new_fsm m tt there in
      let (x, at, e, n) = built-IsAdded make cs (mod_name snprintf m) o found in
      let same = same_object make cs m x d there at n in
      found ∙ ap (λ (p : Module). some (some p)) (e ∙ ap make (sym same))

  -- A module that is not the end module, with a target that `main` made, is followed by that.
  pub goes_on :
      {D M E : Type 0} (app : App D M E) (again : Runner D M E)
      → (m b : MainModule) (s : ModState) (i : ℕ) (w : World D M E)
      → HasDistinctNames snprintf address flags states
      → IsMade flags b
      → (address m == address end_mod) ≡ false
      → w.fsm ≡ main_fsm snprintf address flags states
      → target (main_fsm snprintf address flags states) (mod_name snprintf m) s
        ≡ some (mod_name snprintf b)
      → resume app again (object snprintf address m) s i w ≡ again (object snprintf address b) i s w
  unfolding main_fsm set_start_module set_end_module
  goes_on app again m b s i w d made differ e tgt =
      let make = object snprintf address in
      resume-moves app again (make m) (make b) s (mod_name snprintf b) i w
        (subst (λ g. is_end (record w { fsm = g }) (make m) ≡ false) (sym e) differ)
        (subst (λ g. target g (mod_name snprintf m) s ≡ some (mod_name snprintf b)) (sym e) tgt)
        (subst (λ g. find (mod_name snprintf b) g.mod_map ≡ some (some (make b))) (sym e)
          (main_fsm-find b d made))

  -- Where the names differ, and a fork module that `main` made is not the end module: with no more
  -- active forks than the number that it was made with, modulo 2^16, it waits and its timers resume the
  -- machine with one state for each fork, and each state leads to the run of the branch of its number.
  -- With more active forks it reads past its timers.
  pub main_forks :
      {D M E : Type 0} (app : App D M E) (again : Runner D M E)
      → (m : ForkObject) (active i : ℕ) (w : World D M E)
      → HasDistinctNames snprintf address flags states
      → IsMade flags (fork_mod m)
      → (address (fork_mod m) == address end_mod) ≡ false
      → w.fsm ≡ main_fsm snprintf address flags states
      → ((active ≤ fork_num flags m % 2 ^ 16)
          × (Fork.run (create_data (new_fork_module (fork_num flags m))) active
              ≡ some (mod_async, forks_from 0 active))
          × ((k : ℕ)
              → k < active
              → resume app again (object snprintf address (fork_mod m)) (mod_fork0 + k) i w
                ≡ again (object snprintf address (branch m k)) i (mod_fork0 + k) w))
        ⊎ ((fork_num flags m % 2 ^ 16 < active)
            × (Fork.run (create_data (new_fork_module (fork_num flags m))) active ≡ none))
  unfolding new_fork_module
  main_forks app again m active i w d made differ e =
      let make = object snprintf address in
      let f = main_fsm snprintf address flags states in
      elim (run_lem (new_fork_module (fork_num flags m)) active) [
        | inr more ↦ inr more
        | inl (fits, r) ↦ inl (
          fits,
          r,
          λ k lt.
              let within : k < fork_num flags m = omega (arith, fits, lt) in
              goes_on app again (fork_mod m) (branch m k) (mod_fork0 + k) i w d
                (branch-IsMade flags states m k made within) differ e
                (main_fsm-branches snprintf address flags states m k d made ∙ ground arith),
        )
      ]
