-- ===== src/Examples/Links.antt =====
-- Tests of the links of the machine and of the contexts for it.
use zerver.Prelude.{ℕ, String, Option, none, some, List, ◌≡◌, refl, string_eq, nat_eq, ◌⊎◌}
use zerver.Prelude.Maps.{find, insert, assign}
use zerver.Framework.Module.{Module, mod_succeed, mod_failed}
use zerver.Framework.Fsm.{
  Fsm, add_module, link_module, set_start_module, set_end_module, get_next_module,
}
use zerver.Framework.Fsm.Links.{linked, target}
use zerver.Framework.Fsm.Closed.{get_next_module-IsClosed}
use zerver.Framework.Context.{
  new_context, init, init_from, inherited, register_fsm_data_factory, init_modules,
}
use zerver.Framework.Context.Reset.{NoNull}
use zerver.Framework.Context.Init.{init-dangling, init-NoNull}
use zerver.Examples.Machine.{req_mod, end_mod, machine, three, machine-IsClosed, machine-IsWorkflow}

abbrev loose_mod : Module
loose_mod = record { address = 9; name = "loose_mod" }

-- A machine with a link to a module that is not registered.
abbrev dangling : Fsm
dangling = link_module machine end_mod loose_mod mod_failed

get_next_module-IsClosed_example :
    ((target machine "req_mod" mod_succeed ≡ none)
      × (get_next_module machine req_mod mod_succeed ≡ (none, machine)))
    ⊎ ((t : String) × (next : Module) × (target machine "req_mod" mod_succeed ≡ some t)
        × (find t machine.mod_map ≡ some (some next))
        × (get_next_module machine req_mod mod_succeed ≡ (some next, machine)))
get_next_module-IsClosed_example =
    get_next_module-IsClosed machine req_mod mod_succeed machine-IsClosed

init-dangling_example :
    init three.ops (get_next_module dangling end_mod mod_failed).1 (new_context 5) ≡ none
unfolding set_start_module set_end_module linked target add_module link_module find assign insert
init-dangling_example =
    init-dangling three.ops dangling end_mod mod_failed "loose_mod" (new_context 5) refl refl

init-NoNull_example :
    (m : List (String × Option ℕ)) × (init three.ops machine (new_context 5)
      ≡ some (record (new_context 5) { fsm_data = some 7; module_data_map = m }))
    × NoNull m
unfolding new_context machine-IsWorkflow
init-NoNull_example = init-NoNull three.ops machine (new_context 5) machine-IsWorkflow.no_null tt

-- The last factory that was registered makes the data of a request; without one `init` calls through a
-- null pointer. Modules that inherit the virtual functions have no data.
factory_test :
    init_from (inherited 0 (λ d. d)) (register_fsm_data_factory 8 (some 7)) machine (new_context 5)
    ≡ some (record (new_context {D = ℕ} {M = ℕ} 5) { fsm_data = some 8 })
unfolding init_from inherited register_fsm_data_factory init init_modules new_context
    set_start_module set_end_module add_module link_module find assign insert
factory_test = refl

no_factory_test : init_from three.ops none machine (new_context 5) ≡ none
unfolding init_from
no_factory_test = refl
