-- ===== src/Examples/Main.antt =====
-- Tests of example1/main.cc: a server with two shards and two sub-models.
use Prim.Native.Char.{Char, code}
use zerver.Prelude.{
  ℕ, zero, suc, ◌+◌, ◌<◌, String, Bool, true, false, some, List, [], ◌∷◌, ◌≡◌, refl, arith, ◌==◌,
  if◌then◌else◌, string_eq,
}
use zerver.Framework.Module.{mod_async, mod_succeed}
use zerver.Framework.Fsm.{Fsm}
use zerver.Framework.Fsm.Calls.Ranks.{has_distinct_names}
use zerver.Framework.Engine.{World, App, done, run_fuel, resume}
use zerver.Modules.Fork
use zerver.Modules.Fork.{new_fork_module, create_data, mod_fork0, forks_from}
use zerver.Example1.Main.{
  fs_fork_mod, ps_mod2, Flags, States, Snprintf, mod_name, object, main_calls, main_fsm,
}
use zerver.Example1.Main.Links.{rank}
use zerver.Example1.Main.Made.{fs_fork, branch}
use zerver.Example1.Main.Wiring.{HasDistinctNames, IsServing, main_resume-total}
use zerver.Example1.Main.Forks.{main_forks}
use zerver.Example1.Main.{ps_backfill_mod2}
use zerver.Example1.Main.{ps_mod, ps_backfill_mod, ps_join_mod, empty_resp_mod}
use zerver.Modules.Join.{JoinData, reset, run_alone}
use zerver.Modules.Join.Alone.{JoinEnv, arrive}
use zerver.Example1.Main.Gather.{ps_join, Arrival, resume_all, main_gathers}
use zerver.Prelude.{none}
use zerver.Prelude.{◌≤◌, ◌⊎◌}
use zerver.Example1.Main.Made.{ps_fork}
use zerver.Example1.Main.{req_mod}
use zerver.Example1.Main.Ends.{main_closes}
use zerver.Prelude.{inl, inr}
use zerver.Example1.Main.Branches.{join_num, main_branches_join}
use zerver.Example1.Main.Table.{AreDistinct}
use zerver.Example1.Main.Table.Next.{main_fsm-next_mod}
use zerver.Framework.Fsm.{get_next_module}
use zerver.Framework.Module.{mod_failed}
use zerver.Examples.Machine.{first_context}

digit : ℕ → Char
digit zero = "0"
digit (suc zero) = "1"
digit (suc (suc zero)) = "2"
digit (suc (suc (suc n))) = "3"

-- `%d` for numbers below four; the flag is whether the letter behind a `%` is to be left out.
unfoldable print : Bool → String → List ℕ → String
unfolding digit
print skip String.[] ns = String.[]
print true (String.◌∷◌ c s) ns = print false s ns
print false (String.◌∷◌ c s) [] = String.◌∷◌ c (print false s [])
print false (String.◌∷◌ c s) (n ∷ ns) = elim (code c == 37) [
  | true ↦ String.◌∷◌ (digit n) (print true s ns)
  | false ↦ String.◌∷◌ c (print false s (n ∷ ns))
]

abbrev snprintf : Snprintf
unfolding print
snprintf format ns = print false format ns

prints : snprintf "ps_mod2_%d_%d" (2 ∷ 1 ∷ []) ≡ "ps_mod2_2_1"
unfolding snprintf
prints = refl

abbrev flags : Flags
flags = record { fs_max_shard_num = 2; ps_max_shard_num = 1; max_sub_model_id_size = 2 }

abbrev states : States
states = record {
  mod_req_succeed_to_fs = 100;
  mod_req_succeed_to_ps = 101;
  mod_req_succeed_to_random = 102;
  mod_rand_resp = 103;
  mod_not_rand_resp = 104;
}

abbrev fsm : Fsm
fsm = main_fsm snprintf rank flags states

names : HasDistinctNames snprintf rank flags states
unfolding has_distinct_names main_calls mod_name snprintf
names = refl

-- The request module has the address 11; it waits, and every other module succeeds.
abbrev app : App ℕ ℕ ℕ
app = record {
  ops = record {
    create_fsm_data = 0;
    reset_fsm_data = λ d. 0;
    create_data = λ m. some m.address;
    reset_data = λ d. 0;
    data_recollectable = λ d. true;
  };
  rand = λ e. (e, suc e);
  run = λ m i last w. (if m.address == 11 then mod_async else mod_succeed, w);
}

app-IsServing : IsServing snprintf rank flags states app
app-IsServing = record {
  keeps_fsm = λ mo i last w. refl;
  keeps_contexts = λ mo i last w. refl;
  waits = λ i last w. refl;
}

abbrev world : World ℕ ℕ ℕ
world = record { fsm = fsm; contexts = first_context ∷ []; env = 3 }

main_resume-total_example :
    (u : World ℕ ℕ ℕ) × (resume app
        (run_fuel app 12)
        (object snprintf rank (ps_mod2 1 0))
        mod_succeed
        0
        world
      ≡ done u)
main_resume-total_example =
    main_resume-total snprintf rank flags states app names app-IsServing (ps_mod2 1 0) mod_succeed 0
      world (omega arith) refl (omega arith)

main_forks_example :
    ((2 ≤ 2)
      × (Fork.run (create_data (new_fork_module 2)) 2 ≡ some (mod_async, forks_from 0 2))
      × ((k : ℕ)
          → k < 2
          → resume app (run_fuel app 5) (object snprintf rank fs_fork_mod) (mod_fork0 + k) 0 world
            ≡ run_fuel app 5 (object snprintf rank (branch fs_fork k)) 0 (mod_fork0 + k) world))
    ⊎ ((2 < 2) × (Fork.run (create_data (new_fork_module 2)) 2 ≡ none))
main_forks_example =
    main_forks snprintf rank flags states app (run_fuel app 5) fs_fork 2 0 world names tt refl refl

states-AreDistinct : AreDistinct states
states-AreDistinct = record {
  fs-ne-ps = λ e. omega (arith, e);
  fs-ne-random = λ e. omega (arith, e);
  ps-ne-random = λ e. omega (arith, e);
  fs-ne-else = λ e. omega (arith, e);
  ps-ne-else = λ e. omega (arith, e);
  random-ne-else = λ e. omega (arith, e);
  rand-ne-not_rand = λ e. omega (arith, e);
  rand-ne-else = λ e. omega (arith, e);
  not_rand-ne-else = λ e. omega (arith, e);
}

-- A predictor that has failed.
main_fsm-next_mod_example :
    get_next_module fsm (object snprintf rank (ps_mod2 1 0)) mod_failed
    ≡ (some (object snprintf rank (ps_backfill_mod2 1 0)), fsm)
main_fsm-next_mod_example =
    main_fsm-next_mod snprintf rank flags states (ps_mod2 1 0) mod_failed names states-AreDistinct
      (omega arith, omega arith)

-- The join of the predictors waits for two branches; every other module succeeds.
abbrev join_app : App ℕ ℕ JoinEnv
join_app = record {
  ops = record {
    create_fsm_data = 0;
    reset_fsm_data = λ d. 0;
    create_data = λ m. none;
    reset_data = λ d. 0;
    data_recollectable = λ d. true;
  };
  rand = λ e. (7, e);
  run = λ m i last w.
      if m.address == rank ps_join_mod
      then ((run_alone 2 last w.env.join_data).0, record w { env = arrive 2 last w.env })
      else (mod_succeed, w);
}

abbrev old_data : JoinData
old_data = record { module_joined_num = 5; failed_join = true }

abbrev join_world : World ℕ ℕ JoinEnv
join_world = record {
  fsm = fsm;
  contexts = first_context ∷ [];
  env = record { join_data = reset old_data; fired = [] };
}

-- A predictor succeeds; the backfill of another, which ends later, fails.
abbrev arrivals : List Arrival
arrivals = (ps_mod 0, mod_succeed) ∷ (ps_backfill_mod 1, mod_failed) ∷ []

main_gathers_example :
    (u : World ℕ ℕ JoinEnv) × (resume_all join_app
        (run_fuel join_app 1)
        (object snprintf rank)
        arrivals
        0
        join_world
      ≡ done u)
    × (u.env.fired ≡ mod_failed ∷ [])
    × (resume join_app (run_fuel join_app 1) (object snprintf rank ps_join_mod) mod_failed 0 u
        ≡ run_fuel join_app 1 (object snprintf rank empty_resp_mod) 0 mod_failed u)
main_gathers_example =
    main_gathers snprintf rank flags states join_app ps_join 2 0 0 old_data arrivals join_world
      names states-AreDistinct tt refl (λ i last w. refl) (omega arith) (omega arith)
      ((omega arith, refl, refl), ((omega arith, refl, refl), tt)) (omega arith) refl refl

-- The same arrivals are the ends of the two branches of the fork of the predictors.
main_branches_join_example :
    (u : World ℕ ℕ JoinEnv) × (resume_all join_app
        (run_fuel join_app 1)
        (object snprintf rank)
        arrivals
        0
        join_world
      ≡ done u)
    × (u.env.fired ≡ mod_failed ∷ [])
    × (resume join_app (run_fuel join_app 1) (object snprintf rank ps_join_mod) mod_failed 0 u
        ≡ run_fuel join_app 1 (object snprintf rank empty_resp_mod) 0 mod_failed u)
unfolding join_num
main_branches_join_example =
    main_branches_join snprintf rank flags states join_app ps_fork 0 0 old_data arrivals join_world
      names states-AreDistinct tt refl (λ i last w. refl) (omega arith) (omega arith)
      ((0, omega arith, inl (refl, refl), refl), ((1, omega arith, inr refl, refl), tt)) refl refl
      refl

-- The request module has put the context at its exit.
abbrev closed_world : World ℕ ℕ ℕ
closed_world = record world { contexts = record first_context { exited = true } ∷ [] }

main_closes_example :
    resume app (run_fuel app 1) (object snprintf rank req_mod) mod_failed 0 closed_world
    ≡ done closed_world
main_closes_example =
    main_closes snprintf rank flags states app mod_failed 0 0 closed_world
      (record first_context { exited = true }) names states-AreDistinct refl refl refl refl refl
      refl refl
