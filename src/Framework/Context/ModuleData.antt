-- ===== src/Framework/Context/ModuleData.antt =====
-- framework/data.cc: the data of each module after `init` and `reset`.
use zerver.Prelude.{
  String, Option, none, some, List, [], ◌∷◌, ◌≡◌, refl, arith, inl, inr, string_eq, Option-cases,
  map,
}
use zerver.Prelude.Maps.{find, assign, or_else, find-assign, HasUniqueKeys, assign-HasUniqueKeys}
use zerver.Framework.Module.{Module}
use zerver.Framework.Fsm.{Fsm, add_module}
use zerver.Framework.Context.{DataOps, init_modules}
use zerver.Framework.Context.Reset.{reset_entry}

-- Registration keeps the names of the modules apart.
pub add_module-HasUniqueKeys :
    (f : Fsm) (mo : Module) → HasUniqueKeys f.mod_map → HasUniqueKeys (add_module f mo).mod_map
unfolding add_module
add_module-HasUniqueKeys f mo h = ground (arith, assign-HasUniqueKeys mo.name (some mo) f.mod_map h)

module _ {D M : Type 0} (ops : DataOps D M) where
  -- The data of a name: what the module that is registered for it creates, if there is one and if it
  -- has data.
  abbrev pub created : Option (Option Module) → Option (Option M)
  created (some (some mo)) = elim (ops.create_data mo) [ none ↦ none | some d ↦ some (some d) ]
  created _ = none

  abbrev pub reset_data : Option (Option M) → Option (Option M)
  reset_data (some (some d)) = some (some (ops.reset_data d))
  reset_data o = o

  pub init_modules-find :
      (name : String) (mods : List (String × Option Module)) (acc m : List (String × Option M))
      → HasUniqueKeys mods
      → init_modules ops mods acc ≡ some m
      → find name m ≡ or_else (created (find name mods)) (find name acc)
  unfolding init_modules find
  init_modules-find name [] acc m u h = ground (arith, h)
  init_modules-find name ((j, none) ∷ mods) acc m u h = cc h
  init_modules-find name ((j, some mo) ∷ mods) acc m u h =
      elim (Option-cases (ops.create_data mo)) [
        | inl e ↦ ground (arith, e, init_modules-find name mods acc m u.1, string_eq.beq_iff j name)
        | inr (d, e) ↦ ground (
          arith,
          e,
          init_modules-find name mods (assign j (some d) acc) m u.1,
          find-assign name j (some d) acc,
          string_eq.beq_iff j name,
        )
      ]

  pub find-reset_entry :
      (name : String) (m : List (String × Option M))
      → find name (map (reset_entry ops) m) ≡ reset_data (find name m)
  unfolding find
  find-reset_entry name [] = refl
  find-reset_entry name ((j, none) ∷ m) = ground (arith, find-reset_entry name m)
  find-reset_entry name ((j, some d) ∷ m) = ground (arith, find-reset_entry name m)
