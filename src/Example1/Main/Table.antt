-- ===== src/Example1/Main/Table.antt =====
-- example1/main.cc with framework/fsm.cc: the machine as the table of its transitions, whose main
-- lines the comment above `main` draws.
pub mod Special
pub mod Next
use zerver.Prelude.{
  ℕ, zero, suc, ◌+◌, ◌-◌, ◌<◌, ◌≤◌, Bool, true, false, ◌&&◌, Option, none, some, String, string_eq,
  ◌≡◌, ◌≢◌, refl, sym, ap, ◌∙◌, subst, arith, ◌==◌, inl, inr, IsIn, IsIn-append_right, rounds,
  Option-cases, if◌then◌else◌, ◌⊎◌, ==_iff, Bool-cases, ltb, leb,
}
use mathlib.Core.Option
use zerver.Prelude.Maps.{find}
use zerver.Framework.Module.{ModState, mod_else, mod_succeed}
use zerver.Framework.Fsm.{get_next_module}
use zerver.Framework.Fsm.Links.{linked, target, get_next_module-target, get_next_module-none}
use zerver.Framework.Fsm.Calls.{link}
use zerver.Modules.Fork.{mod_fork0}
use zerver.Example1.Main.{
  MainModule, req_mod, gen_fs_req_mod, fs_fork_mod, fs_join_mod, gen_ps_req_mod, ps_fork_mod,
  ps_join_mod, if_rand_mod, resp_mod, rand_resp_mod, empty_resp_mod, end_mod, fs_mod, ps_fork_mod2,
  ps_join_mod2, ps_mod, ps_backfill_mod, ps_mod2, ps_backfill_mod2, Flags, States, Snprintf,
  mod_name, object, ps_branch2, fs_branch, ps_branch, before_fs, before_ps, responses, main_calls,
  main_fsm,
}
use zerver.Example1.Main.Links.{IsMade, IsWired}
use zerver.Example1.Main.Made.{
  IsIn-before_fs, IsIn-fs_branch, IsIn-before_ps, IsIn-ps_branch, IsIn-responses, IsIn-ps_branch2,
  ForkObject, fs_fork, ps_fork, ps_fork2, fork_mod, branch, fork_num, branch-IsMade,
}
use zerver.Example1.Main.Wiring.{HasDistinctNames, main_fsm-branches}
use zerver.Example1.Main.Forks.{main_fsm-find}
use zerver.Example1.Main.Targets.{
  two_way, linked-IsWired, has_link, unlinked_state, target-two_way, target-always,
}

-- The states of the headers differ, where one module has links for them, and none is `Mod_else`.
pub record AreDistinct (states : States) : Type 0 where
  pub fs-ne-ps : states.mod_req_succeed_to_fs ≢ states.mod_req_succeed_to_ps
  pub fs-ne-random : states.mod_req_succeed_to_fs ≢ states.mod_req_succeed_to_random
  pub ps-ne-random : states.mod_req_succeed_to_ps ≢ states.mod_req_succeed_to_random
  pub fs-ne-else : states.mod_req_succeed_to_fs ≢ mod_else
  pub ps-ne-else : states.mod_req_succeed_to_ps ≢ mod_else
  pub random-ne-else : states.mod_req_succeed_to_random ≢ mod_else
  pub rand-ne-not_rand : states.mod_rand_resp ≢ states.mod_not_rand_resp
  pub rand-ne-else : states.mod_rand_resp ≢ mod_else
  pub not_rand-ne-else : states.mod_not_rand_resp ≢ mod_else

abbrev pub after_req : States → ModState → MainModule
after_req states s =
    if s == states.mod_req_succeed_to_fs
    then gen_fs_req_mod
    else if s == states.mod_req_succeed_to_ps
    then gen_ps_req_mod
    else if s == states.mod_req_succeed_to_random
    then rand_resp_mod
    else end_mod

abbrev pub after_if_rand : States → ModState → Option MainModule
after_if_rand states s =
    if s == states.mod_not_rand_resp
    then some resp_mod
    else if s == states.mod_rand_resp
    then some rand_resp_mod
    else none

abbrev pub after_fork : Flags → ForkObject → ModState → Option MainModule
after_fork flags m s =
    if leb mod_fork0 s && ltb s (mod_fork0 + fork_num flags m)
    then some (branch m (s - mod_fork0))
    else none

-- The table: what follows a module that ends in a state, if anything does.
abbrev pub next_mod : Flags → States → MainModule → ModState → Option MainModule
next_mod flags states req_mod s = some (after_req states s)
next_mod flags states gen_fs_req_mod s = some (two_way fs_fork_mod empty_resp_mod s)
next_mod flags states fs_fork_mod s = after_fork flags fs_fork s
next_mod flags states (fs_mod i) s = some (two_way (ps_fork_mod2 i) fs_join_mod s)
next_mod flags states (ps_fork_mod2 i) s = after_fork flags (ps_fork2 i) s
next_mod flags states (ps_mod2 i j) s = some (two_way (ps_join_mod2 i) (ps_backfill_mod2 i j) s)
next_mod flags states (ps_backfill_mod2 i j) s = some (ps_join_mod2 i)
next_mod flags states (ps_join_mod2 i) s = some fs_join_mod
next_mod flags states fs_join_mod s = some (two_way if_rand_mod empty_resp_mod s)
next_mod flags states gen_ps_req_mod s = some (two_way ps_fork_mod empty_resp_mod s)
next_mod flags states ps_fork_mod s = after_fork flags ps_fork s
next_mod flags states (ps_mod i) s = some (two_way ps_join_mod (ps_backfill_mod i) s)
next_mod flags states (ps_backfill_mod i) s = some ps_join_mod
next_mod flags states ps_join_mod s = some (two_way if_rand_mod empty_resp_mod s)
next_mod flags states if_rand_mod s = after_if_rand states s
next_mod flags states resp_mod s = some end_mod
next_mod flags states rand_resp_mod s = some end_mod
next_mod flags states empty_resp_mod s = some end_mod
next_mod flags states end_mod s = none
