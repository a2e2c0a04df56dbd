-- ===== src/Modules/Join.antt =====
-- module/join_module.h and module/join_module.cc. The branches that a fork began may be run by several
-- threads, so `run` is two steps: the section under the lock, and the test behind it. A timer that is
-- set to expire at once is the state that it resumes the machine with. `get_active_join_num` is
-- virtual: its answer is an argument.
pub mod Threads
pub mod Once
pub mod Alone
use zerver.Prelude.{
  ℕ, zero, suc, ◌+◌, ◌%◌, ◌^◌, Bool, true, false, not, ◌||◌, Option, none, some, List, [], ◌∷◌, map,
  ◌==◌, if◌then◌else◌, get_elem?, set,
}
use zerver.Framework.Module.{ModState, mod_succeed, mod_failed, mod_async}

pub record JoinData : Type 0 where
  pub module_joined_num : ℕ
  pub failed_join : Bool

unfoldable pub reset : JoinData → JoinData
reset d = record d { module_joined_num = 0; failed_join = false }

-- `++module_joined_num_` on a uint16_t.
unfoldable pub module_joined : JoinData → ℕ × JoinData
module_joined d =
    let joined = (d.module_joined_num + 1) % 2 ^ 16 in
    (joined, record d { module_joined_num = joined })

unfoldable pub failed_join : JoinData → JoinData
failed_join d = record d { failed_join = true }

-- The section under the lock: what `module_joined` gave, and the data.
unfoldable pub enter : ModState → JoinData → ℕ × JoinData
unfolding module_joined failed_join
enter last_mod_state d = module_joined (if last_mod_state == mod_succeed then d else failed_join d)

-- The test behind the lock: the state that `on_joined` is to resume the machine with, if any.
unfoldable pub check : ℕ → ℕ → JoinData → Option ModState
check active module_joined d =
    if module_joined == active
    then some (if d.failed_join then mod_failed else mod_succeed)
    else none

-- `on_joined` resumes with the state that the timer was set with.
unfoldable pub on_joined : ModState → Bool → ModState
on_joined state ec = state

-- A thread in `run`: before the lock, behind it with its number, or back with what it has set.
pub data Phase : Type 0 where
  outside : Phase
  inside : ℕ → Phase
  returned : ℕ → Option ModState → Phase

pub record Thread : Type 0 where
  pub last : ModState
  pub phase : Phase

pub record Shared : Type 0 where
  pub join_data : JoinData
  pub threads : List Thread

abbrev pub begin : List ModState → List Thread
begin states = map (λ s. record { last = s; phase = outside }) states

unfoldable pub advance : ℕ → Thread → JoinData → Thread × JoinData
unfolding enter check
advance active t d = elim t.phase [
  | outside ↦ let (joined, d') = enter t.last d in (record t { phase = inside joined }, d')
  | inside joined ↦ (record t { phase = returned joined (check active joined d) }, d)
  | returned joined fired ↦ (t, d)
]

-- The thread with an index takes its next step.
unfoldable pub step : ℕ → Shared → ℕ → Shared
unfolding advance
step active s i = elim (get_elem? s.threads i) [
  | none ↦ s
  | some t ↦
      let (t', d) = advance active t s.join_data in
      record { join_data = d; threads = set s.threads i t' }
]

-- Any interleaving: the order in which the threads take their steps.
unfoldable pub run : ℕ → Shared → List ℕ → Shared
run active s [] = s
run active s (i ∷ schedule) = run active (step active s i) schedule

-- `run` of one thread that no other comes between: the state that it returns, the state that it sets the
-- timer for, if it does, and the data.
unfoldable pub run_alone : ℕ → ModState → JoinData → ModState × Option ModState × JoinData
unfolding enter check
run_alone active last_mod_state d =
    let (joined, d') = enter last_mod_state d in (mod_async, check active joined d', d')
