-- ===== src/Framework/Fsm.antt =====
-- framework/fsm.h and framework/fsm.cc: the modules of a state machine and the links between them.
-- `Framework/Engine.antt` models the part that runs modules.
pub mod Links
pub mod Closed
pub mod Calls
use zerver.Prelude.{String, Option, none, some, List, [], ◌∷◌, ◌++◌}
use zerver.Prelude.Maps.{find, insert, assign, is_some}
use zerver.Prelude.{if◌then◌else◌, nat_eq, string_eq}
use zerver.Framework.Module.{Module, ModState, mod_else}

-- A null `Module*` in the map is `none`. Nothing sets `start_mod_` and `end_mod_` before the setters
-- are called: `none`.
pub record Fsm : Type 0 where
  pub mod_trans_map : List (String × List (ModState × String))
  pub mod_map : List (String × Option Module)
  pub start_mod : Option Module
  pub end_mod : Option Module

abbrev pub new_fsm : Fsm
new_fsm = record { mod_trans_map = []; mod_map = []; start_mod = none; end_mod = none }

unfoldable pub add_module : Fsm → Module → Fsm
add_module f mo =
    if is_some (find mo.name f.mod_map)
    then f
    else (record f { mod_map = assign mo.name (some mo) f.mod_map })

unfoldable pub set_start_module : Fsm → Module → Fsm
set_start_module f mo = record f { start_mod = some mo }

unfoldable pub set_end_module : Fsm → Module → Fsm
set_end_module f mo = record f { end_mod = some mo }

unfoldable pub link_module : Fsm → Module → Module → ModState → Fsm
link_module f from to state = elim (find from.name f.mod_trans_map) [
  | some trans ↦ record f {
    mod_trans_map = assign from.name (insert state to.name trans) f.mod_trans_map;
  }
  | none ↦ record f { mod_trans_map = insert from.name (insert state to.name []) f.mod_trans_map }
]

-- `mod_map_[name]`: a name that is not there is entered with a null pointer.
unfoldable pub index_module : Fsm → String → Option Module × Fsm
index_module f name = elim (find name f.mod_map) [
  | some mo ↦ (mo, f)
  | none ↦ (none, record f { mod_map = assign name none f.mod_map })
]

-- The search of one module's links: by the state, else by `Mod_else`.
unfoldable pub find_target : List (ModState × String) → ModState → Option String
find_target trans state = elim (find state trans) [
  | some name ↦ some name
  | none ↦ find mod_else trans
]

unfoldable pub get_next_module : Fsm → Module → ModState → Option Module × Fsm
unfolding index_module find_target
get_next_module f mo state = elim (find mo.name f.mod_trans_map) [
  | none ↦ (none, f)
  | some trans ↦ elim (find_target trans state) [
    | some name ↦ index_module f name
    | none ↦ (none, f)
  ]
]

-- The modules that `delete` is called on; `delete` of a null pointer does nothing.
unfoldable pub deleted : List (String × Option Module) → List Module
deleted [] = []
deleted ((name, none) ∷ m) = deleted m
deleted ((name, some mo) ∷ m) = mo ∷ deleted m

-- The destructor: what it deletes, and the machine that is left.
unfoldable pub destroy : Fsm → List Module × Fsm
unfolding deleted
destroy f = (deleted f.mod_map, record f { mod_map = [] })
