-- ===== src/Examples/Engine.antt =====
-- Tests of the engine: runs of the machine.
use zerver.Prelude.{ℕ, false, some, [], ◌∷◌, ◌≡◌, refl, arith, string_eq, nat_eq}
use zerver.Prelude.Maps.{find, insert, assign}
use zerver.Framework.Module.{mod_start, mod_succeed, mod_failed}
use zerver.Framework.Fsm.{
  add_module, link_module, set_start_module, set_end_module, get_next_module,
}
use zerver.Framework.Fsm.Links.{linked, target}
use zerver.Framework.Context.{
  FsmContext, new_context, exit, init, init_modules, reset, reset_modules,
}
use zerver.Framework.Engine.{World, done, run_fuel, after_run, resume, set_context}
use zerver.Framework.Engine.Exits.{resume-exits, resume-moves}
use zerver.Framework.Engine.Runs.{Runs, waits, run_fuel-Runs, Runs-run_fuel}
use zerver.Framework.Engine.Total.{run_fuel-total, resume-total}
use zerver.Framework.Context.ModuleData.{created, reset_data, add_module-HasUniqueKeys}
use zerver.Framework.Fsm.{new_fsm}
use zerver.Prelude.{String, false}
use zerver.Examples.Machine.{end_mod}
use zerver.Framework.Engine.Accept.{on_accepted, on_accepted-waits}
use zerver.Examples.Machine.{
  req_mod, work_mod, machine, three, first_context, world, machine-IsClosed, machine-IsWorkflow,
}

-- The work module is followed by the end module, and that by the next request in a second context.
runs_on :
    run_fuel three 3 work_mod 0 mod_succeed world
    ≡ done (record world {
      contexts =
          first_context
          ∷ record {
            exited = false;
            conn = 5;
            fsm_data = some 0;
            module_data_map = ("req_mod", some 0) ∷ ("work_mod", some 0) ∷ ("end_mod", some 0) ∷ [];
            uuid = 9;
          }
          ∷ [];
      env = 10;
    })
unfolding run_fuel after_run new_context set_start_module set_end_module add_module link_module find
    assign insert get_next_module init init_modules reset reset_modules
runs_on = refl

run_fuel-total_example :
    (u : World ℕ ℕ ℕ) × (run_fuel three 3 work_mod 0 mod_succeed world ≡ done u)
unfolding machine-IsWorkflow
run_fuel-total_example =
    run_fuel-total three machine machine-IsWorkflow 3 work_mod 0 mod_succeed world refl
      (omega arith) (omega arith)

req_mod_waits : Runs three req_mod 0 mod_start world world
req_mod_waits = waits refl

Runs-run_fuel_example : (k : ℕ) × (run_fuel three k req_mod 0 mod_start world ≡ done world)
Runs-run_fuel_example = Runs-run_fuel three req_mod_waits

run_fuel-Runs_example : Runs three req_mod 0 mod_start world world
unfolding run_fuel after_run
run_fuel-Runs_example =
    run_fuel-Runs three 1 req_mod 0 mod_start world world (λ mo i last w. refl) machine-IsClosed
      refl

resume-moves_example :
    resume three (run_fuel three 2) req_mod mod_succeed 0 world
    ≡ run_fuel three 2 work_mod 0 mod_succeed world
unfolding set_start_module set_end_module linked target add_module link_module find assign insert
resume-moves_example =
    resume-moves three (run_fuel three 2) req_mod work_mod mod_succeed "work_mod" 0 world refl refl
      refl

resume-exits_example :
    resume three (run_fuel three 2) req_mod mod_failed 0 world
    ≡ done (set_context world 0 (exit first_context))
unfolding set_start_module set_end_module linked target add_module link_module find assign insert
resume-exits_example =
    resume-exits three (run_fuel three 2) req_mod mod_failed 0 world first_context refl refl refl

resume-total_example :
    (u : World ℕ ℕ ℕ) × (resume three (run_fuel three 3) req_mod mod_succeed 0 world ≡ done u)
unfolding machine-IsWorkflow
resume-total_example =
    resume-total three machine machine-IsWorkflow 3 req_mod mod_succeed 0 world refl (omega arith)
      (omega arith)

on_accepted-waits_example :
    (c : FsmContext ℕ ℕ) × (c.conn ≡ 6)
    × (c.exited ≡ false)
    × (c.uuid ≡ 9)
    × (c.fsm_data ≡ some 0)
    × ((name : String)
        → find name c.module_data_map
          ≡ reset_data three.ops (created three.ops (find name machine.mod_map)))
    × (on_accepted three (run_fuel three 1) 6 false world
        ≡ done
            (three.run req_mod 1 mod_start
              (record world { contexts = first_context ∷ c ∷ []; env = 10 })).1)
unfolding machine-IsWorkflow set_start_module set_end_module link_module
on_accepted-waits_example =
    on_accepted-waits three machine machine-IsWorkflow 0 6 false world refl (
      add_module-HasUniqueKeys (add_module (add_module new_fsm req_mod) work_mod) end_mod (
        add_module-HasUniqueKeys (add_module new_fsm req_mod) work_mod
          (add_module-HasUniqueKeys new_fsm req_mod tt)))
