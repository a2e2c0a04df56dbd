-- ===== src/Framework/Context/Init.antt =====
-- framework/data.cc: what `init` makes of the modules of a machine.
use zerver.Prelude.{
  String, Option, none, some, List, [], ◌∷◌, ◌≡◌, refl, arith, inl, inr, string_eq, Option-cases,
}
use zerver.Prelude.Maps.{find, assign}
use zerver.Framework.Module.{Module, ModState}
use zerver.Framework.Fsm.{Fsm, get_next_module}
use zerver.Framework.Fsm.Links.{target}
use zerver.Framework.Fsm.Closed.{get_next_module-dangling}
use zerver.Framework.Context.{DataOps, FsmContext, init_modules, init}
use zerver.Framework.Context.Reset.{NoNull, NoNull-assign}

module _ {D M : Type 0} (ops : DataOps D M) where
  pub init_modules-NoNull :
      (mods : List (String × Option Module)) (acc : List (String × Option M))
      → NoNull mods
      → NoNull acc
      → (m : List (String × Option M)) × (init_modules ops mods acc ≡ some m) × NoNull m
  unfolding init_modules
  init_modules-NoNull [] acc h k = (acc, refl, k)
  init_modules-NoNull ((name, none) ∷ mods) acc h k = cc h.0
  init_modules-NoNull ((name, some mo) ∷ mods) acc h k = elim (Option-cases (ops.create_data mo)) [
    | inl e ↦ rw e (init_modules-NoNull mods acc h.1 k)
    | inr (d, e) ↦
        rw e (init_modules-NoNull mods (assign name (some d) acc) h.1 (NoNull-assign name d acc k))
  ]

  -- In a machine with no null pointer `init` succeeds: the context keeps its connection, its number
  -- and its flag, has the data of the factory, and no module's data is null.
  pub init-NoNull :
      (f : Fsm) (c : FsmContext D M)
      → NoNull f.mod_map
      → NoNull c.module_data_map
      → (m : List (String × Option M)) × (init ops f c
          ≡ some (record c { fsm_data = some ops.create_fsm_data; module_data_map = m }))
        × NoNull m
  unfolding init
  init-NoNull f c h k =
      let (m, e, n) = init_modules-NoNull f.mod_map c.module_data_map h k in
      (m, ground (arith, e), n)

  init_modules-null :
      (name : String) (mods : List (String × Option Module)) (acc : List (String × Option M))
      → find name mods ≡ some none
      → init_modules ops mods acc ≡ none
  unfolding init_modules find
  init_modules-null name [] acc h = cc
  init_modules-null name ((j, none) ∷ mods) acc h = refl
  init_modules-null name ((j, some mo) ∷ mods) acc h = init_modules-null name mods _ (ground arith)

  -- Once a transition has led to a name that is not registered, `init` calls through a null pointer
  -- for every later context of the server.
  pub init-dangling :
      (f : Fsm) (mo : Module) (state : ModState) (t : String) (c : FsmContext D M)
      → target f mo.name state ≡ some t
      → find t f.mod_map ≡ none
      → init ops (get_next_module f mo state).1 c ≡ none
  unfolding init
  init-dangling f mo state t c e absent = rw (
    init_modules-null t (get_next_module f mo state).1.mod_map c.module_data_map
        (get_next_module-dangling f mo state t e absent).1,
    init,
  )
