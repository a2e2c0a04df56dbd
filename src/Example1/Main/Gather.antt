-- ===== src/Example1/Main/Gather.antt =====
-- example1/main.cc with module/join_module.cc and framework/fsm.cc: the branches of a fork of the example
-- that arrive at their join.
use zerver.Prelude.{
  ℕ, suc, ◌^◌, ◌≤◌, ◌<◌, false, some, string_eq, List, [], ◌∷◌, map, ◌≡◌, refl, ap, ◌∙◌, subst,
  arith, ◌==◌, if◌then◌else◌, length, All,
}
use zerver.Framework.Module.{Module, ModState}
use zerver.Framework.Engine.{World, App, Runner, Outcome, done, ◌>>=◌, resume, run_fuel, after_run}
use zerver.Modules.Join.{JoinData, reset, run_alone}
use zerver.Modules.Join.Alone.{JoinEnv, arrive, arrive_all, some_failed, verdict, reset-arrive_all}
use zerver.Example1.Main.{
  MainModule, fs_join_mod, ps_join_mod, ps_join_mod2, if_rand_mod, empty_resp_mod, end_mod, Flags,
  States, Snprintf, mod_name, object, main_fsm,
}
use zerver.Example1.Main.Links.{IsMade}
use zerver.Example1.Main.Wiring.{HasDistinctNames}
use zerver.Example1.Main.Forks.{goes_on}
use zerver.Example1.Main.Targets.{two_way}
use zerver.Example1.Main.Table.{AreDistinct, next_mod}
use zerver.Example1.Main.Table.Next.{IsMadeNext, next_mod-IsMade, target_next}
use mathlib.Core.Option

-- The joins of the feature shards, of the predictors, and of the predictors for a feature shard.
pub data JoinObject : Type 0 where
  fs_join ps_join : JoinObject
  ps_join2 : ℕ → JoinObject

abbrev pub join_mod : JoinObject → MainModule
join_mod fs_join = fs_join_mod
join_mod ps_join = ps_join_mod
join_mod (ps_join2 i) = ps_join_mod2 i

abbrev pub after_join : JoinObject → ModState → MainModule
after_join fs_join s = two_way if_rand_mod empty_resp_mod s
after_join ps_join s = two_way if_rand_mod empty_resp_mod s
after_join (ps_join2 i) s = fs_join_mod

-- The last module of a branch, and the state that it ends in.
abbrev pub Arrival : Type 0
Arrival = MainModule × ModState

abbrev pub states_of : List Arrival → List ModState
states_of arrivals = map (λ a. a.1) arrivals

length-states_of : (arrivals : List Arrival) → length (states_of arrivals) ≡ length arrivals
length-states_of [] = refl
length-states_of (a ∷ arrivals) = ap suc (length-states_of arrivals)

next_mod-join :
    (flags : Flags) (states : States) (j : JoinObject) (s : ModState)
    → next_mod flags states (join_mod j) s ≡ some (after_join j s)
next_mod-join flags states fs_join s = refl
next_mod-join flags states ps_join s = refl
next_mod-join flags states (ps_join2 i) s = refl

module _ {D M : Type 0} (app : App D M JoinEnv) (again : Runner D M JoinEnv)
    (make : MainModule → Module) where
  -- The handlers of the last modules, one after another.
  abbrev pub resume_all : List Arrival → ℕ → World D M JoinEnv → Outcome (World D M JoinEnv)
  resume_all [] i w = done w
  resume_all ((m, s) ∷ arrivals) i w =
      resume app again (make m) s i w >>= λ w'. resume_all arrivals i w'

module _ (snprintf : Snprintf) (address : MainModule → ℕ) (flags : Flags) (states : States) where
  -- In the table the module leads to the join, and it is not the end module.
  abbrev pub LeadsTo : JoinObject → Arrival → Type 0
  LeadsTo j (m, s) =
      IsMade flags m
      × (next_mod flags states m s ≡ some (join_mod j))
      × ((address m == address end_mod) ≡ false)

  -- The object of the join is run as a join module that waits for so many branches.
  abbrev pub RunsAsJoin : {D M : Type 0} → App D M JoinEnv → JoinObject → ℕ → Type 0
  RunsAsJoin {D} {M} app j active =
      (i : ℕ) (last : ModState) (w : World D M JoinEnv)
      → app.run (object snprintf address (join_mod j)) i last w
        ≡ ((run_alone active last w.env.join_data).0, record w { env = arrive active last w.env })

  -- The machine follows the table, for any `_run` that it calls.
  pub resume-next_mod :
      {D M E : Type 0} (app : App D M E) (again : Runner D M E)
      → (m b : MainModule) (s : ModState) (i : ℕ) (w : World D M E)
      → HasDistinctNames snprintf address flags states
      → AreDistinct states
      → IsMade flags m
      → next_mod flags states m s ≡ some b
      → (address m == address end_mod) ≡ false
      → w.fsm ≡ main_fsm snprintf address flags states
      → resume app again (object snprintf address m) s i w ≡ again (object snprintf address b) i s w
  resume-next_mod app again m b s i w d differ made next inner e =
      goes_on snprintf address flags states app again m b s i w d
        (subst (IsMadeNext flags) next (next_mod-IsMade flags states m s made)) inner e
        (target_next snprintf address flags states m s d differ made
          ∙ ap (Option.map (mod_name snprintf)) next)

  resume-join :
      {D M : Type 0} (app : App D M JoinEnv) (j : JoinObject) (active k i : ℕ) (a : Arrival)
      (w : World D M JoinEnv)
      → HasDistinctNames snprintf address flags states
      → AreDistinct states
      → RunsAsJoin app j active
      → LeadsTo j a
      → w.fsm ≡ main_fsm snprintf address flags states
      → resume app (run_fuel app (suc k)) (object snprintf address a.0) a.1 i w
        ≡ done (record w { env = arrive active a.1 w.env })
  unfolding run_fuel after_run run_alone
  resume-join app j active k i a w d differ joins (made, next, inner) e =
      resume-next_mod app (run_fuel app (suc k)) a.0 (join_mod j) a.1 i w d differ made next inner e
      ∙ ap (after_run app (run_fuel app k) (object snprintf address (join_mod j)) i) (joins i a.1 w)

  resume_all-arrive_all :
      {D M : Type 0} (app : App D M JoinEnv) (j : JoinObject) (active k i : ℕ)
      (arrivals : List Arrival) (w : World D M JoinEnv)
      → HasDistinctNames snprintf address flags states
      → AreDistinct states
      → RunsAsJoin app j active
      → All (LeadsTo j) arrivals
      → w.fsm ≡ main_fsm snprintf address flags states
      → resume_all app (run_fuel app (suc k)) (object snprintf address) arrivals i w
        ≡ done (record w { env = arrive_all active (states_of arrivals) w.env })
  resume_all-arrive_all app j active k i [] w d differ joins h e = refl
  resume_all-arrive_all app j active k i (a ∷ arrivals) w d differ joins h e =
      ap
        (λ o.
          o >>= λ w'. resume_all app (run_fuel app (suc k)) (object snprintf address) arrivals i w')
        (resume-join app j active k i a w d differ joins h.0 e)
      ∙ resume_all-arrive_all app j active k i arrivals (record w { env = arrive active a.1 w.env })
          d differ joins h.1 e

  -- Where the names differ, and so do the states of the headers, and an object of a join is run as a join
  -- module that waits for some branches, fewer than 2^16, and is not the end module: the last modules of
  -- branches, which the table leads to the join, end one after another after `reset`, no more of them
  -- than it waits for. Each handler returns, and the timer of the join is set only by the last that it
  -- waits for, and once. Its handler then goes on behind the join, with success if every branch ended
  -- in it, and else with failure.
  pub main_gathers :
      {D M : Type 0} (app : App D M JoinEnv) (j : JoinObject) (active k i : ℕ) (d : JoinData)
      (arrivals : List Arrival) (w : World D M JoinEnv)
      → HasDistinctNames snprintf address flags states
      → AreDistinct states
      → IsMade flags (join_mod j)
      → (address (join_mod j) == address end_mod) ≡ false
      → RunsAsJoin app j active
      → 0 < active
      → active < 2 ^ 16
      → All (LeadsTo j) arrivals
      → length arrivals ≤ active
      → w.fsm ≡ main_fsm snprintf address flags states
      → w.env ≡ record { join_data = reset d; fired = [] }
      → let outcome = verdict (some_failed (states_of arrivals)) in
        (u : World D M JoinEnv) × (resume_all app
            (run_fuel app (suc k))
            (object snprintf address)
            arrivals
            i
            w
          ≡ done u)
        × (u.env.fired ≡ (if length arrivals == active then outcome ∷ [] else []))
        × (resume app (run_fuel app (suc k)) (object snprintf address (join_mod j)) outcome i u
            ≡ run_fuel app (suc k) (object snprintf address (after_join j outcome)) i outcome u)
  main_gathers app j active k i d arrivals w names differ made inner joins some_ small h le e env =
      let ends = states_of arrivals in
      let u = record w { env = arrive_all active ends w.env } in
      (
        u,
        resume_all-arrive_all app j active k i arrivals w names differ joins h e,
        ap (λ v. (arrive_all active ends v).fired) env
            ∙ reset-arrive_all active d ends some_ small
                (omega (arith, length-states_of arrivals, le))
            ∙ ap (λ n. if n == active then verdict (some_failed ends) ∷ [] else [])
                (length-states_of arrivals),
        resume-next_mod app (run_fuel app (suc k)) (join_mod j)
            (after_join j (verdict (some_failed ends))) (verdict (some_failed ends)) i u names
            differ made (next_mod-join flags states j (verdict (some_failed ends))) inner e,
      )
