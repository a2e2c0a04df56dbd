-- ===== src/Modules/Fork.antt =====
-- module/fork_module.h and module/fork_module.cc. A timer that expires at once is a completion in the
-- list that `run` gives, in the order in which the timers are set; a timer past the end of the array is
-- `none`. `get_active_fork_num` is virtual: its answer, a uint16_t, is an argument.
use zerver.Prelude.{
  ℕ, zero, suc, ◌+◌, ◌≤◌, ◌<◌, ◌%◌, ◌^◌, Bool, Option, none, some, List, [], ◌∷◌, ◌≡◌, arith, ltb,
  ◌&&◌, if◌then◌else◌, Bool-cases, inl, inr, ◌⊎◌,
}
use zerver.Framework.Module.{ModState, mod_async}

abbrev pub mod_fork0 : ModState
mod_fork0 = 840

pub record ForkModule : Type 0 where
  pub fork_num : ℕ

-- The constructor, whose argument is a uint16_t: a caller's `int` is converted.
unfoldable pub new_fork_module : ℕ → ForkModule
new_fork_module fork_num = record { fork_num = fork_num % 2 ^ 16 }

-- The data of a context: an array of `fork_num` timers.
pub record ForkData : Type 0 where
  pub timers : ℕ

unfoldable pub create_data : ForkModule → ForkData
create_data m = record { timers = m.fork_num }

-- The loop of `run` from round `i` on, with the rounds that are left.
unfoldable pub set_timers : ForkData → ℕ → ℕ → Option (List ModState)
set_timers d i zero = some []
set_timers d i (suc left) =
    let rest = set_timers d (suc i) left in
    if ltb i d.timers
    then elim rest [ none ↦ none | some forks ↦ some ((mod_fork0 + i) ∷ forks) ]
    else none

unfoldable pub run : ForkData → ℕ → Option (ModState × List ModState)
unfolding set_timers
run d active = elim (set_timers d 0 active) [ none ↦ none | some forks ↦ some (mod_async, forks) ]

-- `on_forked` resumes the machine with the state that its timer was set with, whatever the error code.
unfoldable pub on_forked : ModState → Bool → ModState
on_forked fork_index ec = fork_index

-- The states Mod_Fork0 + i, ..., one for each fork.
abbrev pub forks_from : ℕ → ℕ → List ModState
forks_from i zero = []
forks_from i (suc left) = (mod_fork0 + i) ∷ forks_from (suc i) left

set_timers_lem :
    (d : ForkData) (i left : ℕ)
    → set_timers d i left
      ≡ (if ltb d.timers (i + left) && ltb 0 left then none else some (forks_from i left))
unfolding set_timers
set_timers_lem d i zero = ground arith
set_timers_lem d i (suc left) = ground (arith, set_timers_lem d (suc i) left)

-- A fork module waits, and each of its active forks is resumed once, in order, with a state of its own;
-- it reads past its timers exactly if more forks are active than it was made with.
pub run_lem :
    (m : ForkModule) (active : ℕ)
    → ((active ≤ m.fork_num) × (run (create_data m) active ≡ some (mod_async, forks_from 0 active)))
      ⊎ ((m.fork_num < active) × (run (create_data m) active ≡ none))
unfolding run create_data
run_lem m active = elim (Bool-cases (ltb m.fork_num active)) [
  | inl more ↦ inr (ground arith, ground (arith, set_timers_lem (create_data m) 0 active))
  | inr fits ↦ inl (ground arith, ground (arith, set_timers_lem (create_data m) 0 active))
]
