-- ===== src/Modules/Join/Alone.antt =====
-- module/join_module.cc: branches that arrive at a join one after another.
use zerver.Prelude.{
  ℕ, ◌+◌, ◌^◌, ◌≤◌, ◌<◌, Bool, false, ◌||◌, not, none, some, List, [], ◌∷◌, ◌++◌, ◌≡◌, ap, arith,
  ◌==◌, if◌then◌else◌, length, ◌∙◌,
}
use zerver.Framework.Module.{ModState, mod_succeed, mod_failed}
use zerver.Modules.Join.{JoinData, reset, enter, check, module_joined, failed_join, run_alone}

-- The data of a join, and the states that its timer was set for.
pub record JoinEnv : Type 0 where
  pub join_data : JoinData
  pub fired : List ModState

abbrev pub arrive : ℕ → ModState → JoinEnv → JoinEnv
arrive active s e = record {
  join_data = (run_alone active s e.join_data).2;
  fired = elim (run_alone active s e.join_data).1 [ none ↦ e.fired | some t ↦ e.fired ++ t ∷ [] ];
}

abbrev pub arrive_all : ℕ → List ModState → JoinEnv → JoinEnv
arrive_all active [] e = e
arrive_all active (s ∷ ss) e = arrive_all active ss (arrive active s e)

abbrev pub some_failed : List ModState → Bool
some_failed [] = false
some_failed (s ∷ ss) = not (s == mod_succeed) || some_failed ss

abbrev pub verdict : Bool → ModState
verdict failed = if failed then mod_failed else mod_succeed

abbrev pub counted : ℕ → Bool → List ModState → JoinEnv
counted n failed fired = record {
  join_data = record { module_joined_num = n; failed_join = failed };
  fired = fired;
}

arrive-counted :
    (active n : ℕ) (failed : Bool) (s : ModState)
    → active < 2 ^ 16
    → n < active
    → arrive active s (counted n failed [])
      ≡ counted
          (n + 1)
          (failed || not (s == mod_succeed))
          (if n + 1 == active then verdict (failed || not (s == mod_succeed)) ∷ [] else [])
unfolding run_alone enter check module_joined failed_join
arrive-counted active n failed s small lt = ground arith

arrive_all-counted :
    (active n : ℕ) (failed : Bool) (ss : List ModState)
    → active < 2 ^ 16
    → n < active
    → n + length ss ≤ active
    → arrive_all active ss (counted n failed [])
      ≡ counted
          (n + length ss)
          (failed || some_failed ss)
          (if n + length ss == active then verdict (failed || some_failed ss) ∷ [] else [])
arrive_all-counted active n failed [] small lt le = ground arith
arrive_all-counted active n failed (s ∷ []) small lt le =
    ground (arith, arrive-counted active n failed s small lt)
arrive_all-counted active n failed (s ∷ t ∷ ss) small lt le =
    let failed' = failed || not (s == mod_succeed) in
    let none_yet : (if n + 1 == active then verdict failed' ∷ [] else []) ≡ [] = ground arith in
    let first = arrive-counted active n failed s small lt ∙ ap (counted (n + 1) failed') none_yet in
    let rest =
      arrive_all-counted active (n + 1) failed' (t ∷ ss) small (omega arith) (omega arith) in
    ap (λ e. arrive_all active (t ∷ ss) e) first ∙ rest ∙ ground arith

-- Branches arrive at a join one after another, after `reset`, no more of them than it waits for, which
-- are some and fewer than 2^16. Its timer is set only by the last that it waits for, and once.
pub reset-arrive_all :
    (active : ℕ) (d : JoinData) (ss : List ModState)
    → 0 < active
    → active < 2 ^ 16
    → length ss ≤ active
    → (arrive_all active ss (record { join_data = reset d; fired = [] })).fired
      ≡ (if length ss == active then verdict (some_failed ss) ∷ [] else [])
unfolding reset
reset-arrive_all active d ss some_ small le =
    ap (λ (e : JoinEnv). e.fired) (arrive_all-counted active 0 false ss small some_ (omega arith))
    ∙ ground arith
