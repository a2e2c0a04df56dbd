-- ===== src/Example1/Main/Branches.antt =====
-- example1/main.cc: each fork of the example with its join, from the branches to the module behind them.
use zerver.Prelude.{
  ℕ, suc, ◌^◌, ◌%◌, ◌<◌, true, false, some, string_eq, List, [], ◌∷◌, ◌≡◌, ◌≢◌, refl, ap, ◌∙◌,
  arith, ◌==◌, if◌then◌else◌, length, All, ◌⊎◌, inl, inr,
}
use native.Mathlib.Nat.{mod-eq_of_lt}
use zerver.Framework.Module.{mod_succeed}
use zerver.Framework.Engine.{World, App, done, resume, run_fuel}
use zerver.Modules.Join.{JoinData, reset}
use zerver.Modules.Join.Alone.{JoinEnv, some_failed, verdict}
use zerver.Example1.Main.{
  MainModule, fs_mod, ps_mod, ps_mod2, ps_backfill_mod, ps_backfill_mod2, ps_join_mod2, end_mod,
  fs_join_mod, ps_fork_mod2, Flags, States, Snprintf, object, max_ps_fork_num, main_fsm,
}
use zerver.Example1.Main.Links.{IsMade}
use zerver.Example1.Main.Made.{ForkObject, fs_fork, ps_fork, ps_fork2, fork_mod, fork_num}
use zerver.Example1.Main.Wiring.{HasDistinctNames}
use zerver.Example1.Main.Targets.{two_way-else}
use zerver.Example1.Main.Table.{AreDistinct, next_mod}
use zerver.Example1.Main.Gather.{
  JoinObject, fs_join, ps_join, ps_join2, join_mod, after_join, Arrival, states_of, resume_all,
  LeadsTo, RunsAsJoin, main_gathers,
}

abbrev pub join_of : ForkObject → JoinObject
join_of fs_fork = fs_join
join_of ps_fork = ps_join
join_of (ps_fork2 i) = ps_join2 i

-- The number that the join module is made with, converted to a uint16_t.
unfoldable pub join_num : Flags → JoinObject → ℕ
join_num flags fs_join = flags.fs_max_shard_num % 2 ^ 16
join_num flags ps_join = max_ps_fork_num flags % 2 ^ 16
join_num flags (ps_join2 i) = flags.max_sub_model_id_size % 2 ^ 16

-- How the branch of a number ends: a predictor succeeds, or else its backfill ends; a feature shard does
-- not succeed, or else the join of its predictors ends.
abbrev pub EndsBranch : ForkObject → ℕ → Arrival → Type 0
EndsBranch fs_fork k (m, s) = ((m ≡ fs_mod k) × (s ≢ mod_succeed)) ⊎ (m ≡ ps_join_mod2 k)
EndsBranch ps_fork k (m, s) = ((m ≡ ps_mod k) × (s ≡ mod_succeed)) ⊎ (m ≡ ps_backfill_mod k)
EndsBranch (ps_fork2 i) k (m, s) =
    ((m ≡ ps_mod2 i k) × (s ≡ mod_succeed)) ⊎ (m ≡ ps_backfill_mod2 i k)

-- The arrival is the end of a branch of the fork, and its module is not the end module.
abbrev pub IsBranchEnd : Flags → (MainModule → ℕ) → ForkObject → Arrival → Type 0
IsBranchEnd flags address m a =
    (k : ℕ) × (k < fork_num flags m) × EndsBranch m k a × ((address a.0 == address end_mod) ≡ false)

module _ (flags : Flags) (states : States) where
  Leads : JoinObject → Arrival → Type 0
  Leads j (m, s) = IsMade flags m × (next_mod flags states m s ≡ some (join_mod j))

  EndsBranch-Leads :
      (m : ForkObject) (k : ℕ) (a : Arrival)
      → IsMade flags (fork_mod m)
      → k < fork_num flags m
      → EndsBranch m k a
      → Leads (join_of m) a
  unfolding Leads
  EndsBranch-Leads fs_fork k (b, s) made lt (inl (e, ne)) =
      rw e (lt, ap (λ x. some x) (two_way-else (ps_fork_mod2 k) fs_join_mod s ne))
  EndsBranch-Leads fs_fork k (b, s) made lt (inr e) = rw e (lt, refl)
  EndsBranch-Leads ps_fork k (b, s) made lt (inl (e, f)) = rw (e, f) (lt, refl)
  EndsBranch-Leads ps_fork k (b, s) made lt (inr e) = rw e (lt, refl)
  EndsBranch-Leads (ps_fork2 i) k (b, s) made lt (inl (e, f)) = rw (e, f) ((made, lt), refl)
  EndsBranch-Leads (ps_fork2 i) k (b, s) made lt (inr e) = rw e ((made, lt), refl)

module _ (snprintf : Snprintf) (address : MainModule → ℕ) (flags : Flags) (states : States) where
  IsBranchEnd-LeadsTo :
      (m : ForkObject) (arrivals : List Arrival)
      → IsMade flags (fork_mod m)
      → All (IsBranchEnd flags address m) arrivals
      → All (LeadsTo snprintf address flags states (join_of m)) arrivals
  unfolding Leads
  IsBranchEnd-LeadsTo m [] made h = tt
  IsBranchEnd-LeadsTo m (a ∷ arrivals) made ((k, lt, ends, inner), h) =
      let leads = EndsBranch-Leads flags states m k a made lt ends in
      ((leads.0, leads.1, inner), IsBranchEnd-LeadsTo m arrivals made h)

  join_of-IsMade :
      (m : ForkObject) → IsMade flags (fork_mod m) → IsMade flags (join_mod (join_of m))
  join_of-IsMade fs_fork made = tt
  join_of-IsMade ps_fork made = tt
  join_of-IsMade (ps_fork2 i) made = made

  join_num-fork_num :
      (m : ForkObject) → fork_num flags m < 2 ^ 16 → join_num flags (join_of m) ≡ fork_num flags m
  unfolding join_num
  join_num-fork_num fs_fork small = mod-eq_of_lt small
  join_num-fork_num ps_fork small = mod-eq_of_lt small
  join_num-fork_num (ps_fork2 i) small = mod-eq_of_lt small

  -- Where the names differ, and so do the states of the headers: a fork that `main` made, of some branches,
  -- fewer than 2^16, and its join, which is run as a join module that waits for the number that it was
  -- made with, and is not the end module. As many branches as the fork was made with end one after
  -- another after `reset`, in any order. Each handler returns, and the timer of the join is set exactly
  -- once, for success if every branch ended in it, and else for failure; and its handler goes on behind
  -- the join.
  pub main_branches_join :
      {D M : Type 0} (app : App D M JoinEnv) (m : ForkObject) (k i : ℕ) (d : JoinData)
      (arrivals : List Arrival) (w : World D M JoinEnv)
      → HasDistinctNames snprintf address flags states
      → AreDistinct states
      → IsMade flags (fork_mod m)
      → (address (join_mod (join_of m)) == address end_mod) ≡ false
      → RunsAsJoin snprintf address flags states app (join_of m) (join_num flags (join_of m))
      → 0 < fork_num flags m
      → fork_num flags m < 2 ^ 16
      → All (IsBranchEnd flags address m) arrivals
      → length arrivals ≡ fork_num flags m
      → w.fsm ≡ main_fsm snprintf address flags states
      → w.env ≡ record { join_data = reset d; fired = [] }
      → let outcome = verdict (some_failed (states_of arrivals)) in
        (u : World D M JoinEnv) × (resume_all app
            (run_fuel app (suc k))
            (object snprintf address)
            arrivals
            i
            w
          ≡ done u)
        × (u.env.fired ≡ outcome ∷ [])
        × (resume app
              (run_fuel app (suc k))
              (object snprintf address (join_mod (join_of m)))
              outcome
              i
              u
            ≡ run_fuel app
                (suc k)
                (object snprintf address (after_join (join_of m) outcome))
                i
                outcome
                u)
  main_branches_join app m k i d arrivals w names differ made inner joins some_ small h all_ e env =
      let n = join_num-fork_num m small in
      let (u, returns, fired, goes) =
        main_gathers snprintf address flags states app (join_of m) (join_num flags (join_of m)) k i
          d arrivals w names differ (join_of-IsMade m made) inner joins (omega (arith, n, some_))
          (omega (arith, n, small)) (IsBranchEnd-LeadsTo m arrivals made h) (omega (arith, n, all_))
          e env in
      let here : (length arrivals == join_num flags (join_of m)) ≡ true = ground (arith, n, all_) in
      (
        u,
        returns,
        fired ∙ ap (λ b. if b then verdict (some_failed (states_of arrivals)) ∷ [] else []) here,
        goes,
      )
