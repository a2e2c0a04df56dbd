-- ===== src/Example1/Main.antt =====
-- example1/main.cc: the machine that `main` sets up. The headers of the modules' classes are not in the
-- repository: a class is known by the objects that `main` makes of it, and the states of these headers
-- are parameters. So are `snprintf` and the addresses that `new` gives. The flags are taken not to be
-- negative, and their product to fit an `int`.
pub mod Links
pub mod Made
pub mod Wiring
pub mod Forks
pub mod Else
pub mod Joins
pub mod Targets
pub mod Table
pub mod Gather
pub mod Branches
pub mod Ends
use zerver.Prelude.{ℕ, ◌+◌, ◌*◌, String, List, [], ◌∷◌, ◌++◌, rounds}
use zerver.Framework.Module.{Module, ModState, mod_else, mod_succeed}
use zerver.Framework.Fsm.{Fsm, new_fsm, set_start_module, set_end_module}
use zerver.Framework.Fsm.Calls.{Call, add, link, apply_calls}
use zerver.Modules.Fork.{mod_fork0}

-- The objects, with the loop variables `i` and `j`.
pub data MainModule : Type 0 where
  req_mod gen_fs_req_mod fs_fork_mod fs_join_mod gen_ps_req_mod : MainModule
  ps_fork_mod ps_join_mod if_rand_mod resp_mod rand_resp_mod empty_resp_mod end_mod : MainModule
  fs_mod ps_fork_mod2 ps_join_mod2 ps_mod ps_backfill_mod : ℕ → MainModule
  ps_mod2 ps_backfill_mod2 : ℕ → ℕ → MainModule

pub record Flags : Type 0 where
  pub fs_max_shard_num : ℕ
  pub ps_max_shard_num : ℕ
  pub max_sub_model_id_size : ℕ

-- The states that the headers of the example define.
pub record States : Type 0 where
  pub mod_req_succeed_to_fs : ModState
  pub mod_req_succeed_to_ps : ModState
  pub mod_req_succeed_to_random : ModState
  pub mod_rand_resp : ModState
  pub mod_not_rand_resp : ModState

-- The format of `snprintf` with its arguments.
abbrev pub Snprintf : Type 0
Snprintf = String → List ℕ → String

unfoldable pub mod_name : Snprintf → MainModule → String
mod_name snprintf req_mod = "req_mod"
mod_name snprintf gen_fs_req_mod = "gen_fs_req_mod"
mod_name snprintf fs_fork_mod = "fs_fork_mod"
mod_name snprintf fs_join_mod = "fs_join_mod"
mod_name snprintf gen_ps_req_mod = "gen_ps_req_mod"
mod_name snprintf ps_fork_mod = "ps_fork_mod"
mod_name snprintf ps_join_mod = "ps_join_mod"
mod_name snprintf if_rand_mod = "if_rand_mod"
mod_name snprintf resp_mod = "resp_mod"
mod_name snprintf rand_resp_mod = "rand_resp_mod"
mod_name snprintf empty_resp_mod = "empty_resp_mod"
mod_name snprintf end_mod = "end_mod"
mod_name snprintf (fs_mod i) = snprintf "fs_mod%d" (i ∷ [])
mod_name snprintf (ps_fork_mod2 i) = snprintf "ps_fork_mod2_%d" (i ∷ [])
mod_name snprintf (ps_join_mod2 i) = snprintf "ps_join_mod2_%d" (i ∷ [])
mod_name snprintf (ps_mod i) = snprintf "ps_mod_%d" (i ∷ [])
mod_name snprintf (ps_backfill_mod i) = snprintf "ps_backfill_mod_%d" (i ∷ [])
mod_name snprintf (ps_mod2 i j) = snprintf "ps_mod2_%d_%d" (i ∷ j ∷ [])
mod_name snprintf (ps_backfill_mod2 i j) = snprintf "ps_backfill_mod2_%d_%d" (i ∷ j ∷ [])

-- The object that `new` makes, with its name.
abbrev pub object : Snprintf → (MainModule → ℕ) → MainModule → Module
object snprintf address m = record { address = address m; name = mod_name snprintf m }

abbrev pub Calls : Type 0
Calls = List (Call MainModule)

-- The body of the loop over `j` for a feature shard's sub-models.
unfoldable pub ps_branch2 : ℕ → ℕ → Calls
ps_branch2 i j =
    add (ps_mod2 i j)
    ∷ link (ps_fork_mod2 i) (ps_mod2 i j) (mod_fork0 + j)
    ∷ link (ps_mod2 i j) (ps_join_mod2 i) mod_succeed
    ∷ add (ps_backfill_mod2 i j)
    ∷ link (ps_mod2 i j) (ps_backfill_mod2 i j) mod_else
    ∷ link (ps_backfill_mod2 i j) (ps_join_mod2 i) mod_succeed
    ∷ link (ps_backfill_mod2 i j) (ps_join_mod2 i) mod_else
    ∷ []

-- The body of the loop over the shards of the feature servers.
unfoldable pub fs_branch : Flags → ℕ → Calls
unfolding ps_branch2
fs_branch flags i =
    (add (fs_mod i)
      ∷ link fs_fork_mod (fs_mod i) (mod_fork0 + i)
      ∷ add (ps_fork_mod2 i)
      ∷ link (fs_mod i) (ps_fork_mod2 i) mod_succeed
      ∷ add (ps_join_mod2 i)
      ∷ [])
    ++ (rounds (ps_branch2 i) 0 flags.max_sub_model_id_size
        ++ (link (ps_join_mod2 i) fs_join_mod mod_succeed
            ∷ link (ps_join_mod2 i) fs_join_mod mod_else
            ∷ link (fs_mod i) fs_join_mod mod_else
            ∷ []))

-- The body of the loop over the predictors that are asked without feature servers.
unfoldable pub ps_branch : ℕ → Calls
ps_branch i =
    add (ps_mod i)
    ∷ link ps_fork_mod (ps_mod i) (mod_fork0 + i)
    ∷ add (ps_backfill_mod i)
    ∷ link (ps_mod i) ps_join_mod mod_succeed
    ∷ link (ps_mod i) (ps_backfill_mod i) mod_else
    ∷ link (ps_backfill_mod i) ps_join_mod mod_succeed
    ∷ link (ps_backfill_mod i) ps_join_mod mod_else
    ∷ []

-- MAX_PS_FORK_NUM.
abbrev pub max_ps_fork_num : Flags → ℕ
max_ps_fork_num flags = flags.max_sub_model_id_size * flags.ps_max_shard_num

-- What stands before the loop over the feature shards, between the two loops, and behind them.
unfoldable pub before_fs : States → Calls
before_fs states =
    add req_mod
    ∷ add gen_fs_req_mod
    ∷ link req_mod gen_fs_req_mod states.mod_req_succeed_to_fs
    ∷ add fs_fork_mod
    ∷ link gen_fs_req_mod fs_fork_mod mod_succeed
    ∷ add fs_join_mod
    ∷ []

unfoldable pub before_ps : States → Calls
before_ps states =
    add gen_ps_req_mod
    ∷ link req_mod gen_ps_req_mod states.mod_req_succeed_to_ps
    ∷ add ps_fork_mod
    ∷ link gen_ps_req_mod ps_fork_mod mod_succeed
    ∷ add ps_join_mod
    ∷ []

unfoldable pub responses : States → Calls
responses states =
    add if_rand_mod
    ∷ link fs_join_mod if_rand_mod mod_succeed
    ∷ link ps_join_mod if_rand_mod mod_succeed
    ∷ add resp_mod
    ∷ link if_rand_mod resp_mod states.mod_not_rand_resp
    ∷ add rand_resp_mod
    ∷ link if_rand_mod rand_resp_mod states.mod_rand_resp
    ∷ link req_mod rand_resp_mod states.mod_req_succeed_to_random
    ∷ add empty_resp_mod
    ∷ link fs_join_mod empty_resp_mod mod_else
    ∷ link ps_join_mod empty_resp_mod mod_else
    ∷ add end_mod
    ∷ link resp_mod end_mod mod_succeed
    ∷ link resp_mod end_mod mod_else
    ∷ link rand_resp_mod end_mod mod_succeed
    ∷ link rand_resp_mod end_mod mod_else
    ∷ link empty_resp_mod end_mod mod_succeed
    ∷ link empty_resp_mod end_mod mod_else
    ∷ link req_mod end_mod mod_else
    ∷ link gen_fs_req_mod empty_resp_mod mod_else
    ∷ link gen_ps_req_mod empty_resp_mod mod_else
    ∷ []

-- The calls of `add_module` and `link_module`, in their order.
unfoldable pub main_calls : Flags → States → Calls
unfolding before_fs fs_branch before_ps ps_branch responses
main_calls flags states =
    before_fs states
    ++ (rounds (fs_branch flags) 0 flags.fs_max_shard_num
        ++ (before_ps states ++ (rounds ps_branch 0 (max_ps_fork_num flags) ++ responses states)))

-- The machine of the server when `main` calls `run`.
unfoldable pub main_fsm : Snprintf → (MainModule → ℕ) → Flags → States → Fsm
unfolding main_calls
main_fsm snprintf address flags states =
    let make = object snprintf address in
    let f = apply_calls make (main_calls flags states) new_fsm in
    set_end_module (set_start_module f (make req_mod)) (make end_mod)
