-- ===== src/Framework/Context.antt =====
-- framework/data.h and framework/data.cc: the context of one request. `none` as a result is a call
-- through a null pointer. The classes behind `IFsmData` and `IModuleData`, and the draw of `my_rand`,
-- which `Context.Rand` models, are parameters. The members `fsm_` and `io_service_` are left out: a server has
-- one of each.
pub mod Reset
pub mod Init
pub mod Rand
pub mod ModuleData
use zerver.Prelude.{
  ℕ, String, Bool, true, false, Option, none, some, List, [], ◌∷◌, if◌then◌else◌, string_eq,
}
use zerver.Prelude.Maps.{find, assign}
use zerver.Framework.Module.{Module}
use zerver.Framework.Fsm.{Fsm}

-- The virtual functions of `IFsmDataFactory`, `IFsmData`, `IModuleData` and `Module::create_data`.
pub record DataOps (D M : Type 0) : Type 0 where
  pub create_fsm_data : D
  pub reset_fsm_data : D → D
  pub create_data : Module → Option M
  pub reset_data : M → M
  pub data_recollectable : M → Bool

-- The virtual functions that a module and its data inherit, where no class overrides them: a module has
-- no data of its own; data need no reset and are recollectable.
unfoldable pub inherited : {D M : Type 0} → D → (D → D) → DataOps D M
inherited create reset = record {
  create_fsm_data = create;
  reset_fsm_data = reset;
  create_data = λ mo. none;
  reset_data = λ d. d;
  data_recollectable = λ d. true;
}

pub record FsmContext (D M : Type 0) : Type 0 where
  pub exited : Bool
  pub conn : ℕ
  pub fsm_data : Option D
  pub module_data_map : List (String × Option M)
  pub uuid : ℕ

module _ {D M : Type 0} where
  unfoldable pub new_context : ℕ → FsmContext D M
  new_context conn = record {
    exited = false;
    conn = conn;
    fsm_data = none;
    module_data_map = [];
    uuid = 0;
  }

  unfoldable pub exit : FsmContext D M → FsmContext D M
  exit c = record c { exited = true }

  -- `module_data_map_[name]`: a name that is not there is entered with a null pointer.
  unfoldable pub get_module_data : FsmContext D M → String → Option M × FsmContext D M
  get_module_data c name = elim (find name c.module_data_map) [
    | some d ↦ (d, c)
    | none ↦ (none, record c { module_data_map = assign name none c.module_data_map })
  ]

module _ {D M : Type 0} (ops : DataOps D M) where
  -- The loop of `init` over the modules.
  unfoldable pub init_modules :
      List (String × Option Module) → List (String × Option M) → Option (List (String × Option M))
  init_modules [] data_map = some data_map
  init_modules ((name, none) ∷ mods) data_map = none
  init_modules ((name, some mo) ∷ mods) data_map =
      init_modules mods
        (elim (ops.create_data mo) [ some d ↦ assign name (some d) data_map | none ↦ data_map ])

  unfoldable pub init : Fsm → FsmContext D M → Option (FsmContext D M)
  init f c = elim (init_modules f.mod_map c.module_data_map) [
    | none ↦ none
    | some data_map ↦
        some (record c { fsm_data = some ops.create_fsm_data; module_data_map = data_map })
  ]

  unfoldable pub all_recollectable : List (String × Option M) → Option Bool
  all_recollectable [] = some true
  all_recollectable ((name, none) ∷ m) = none
  all_recollectable ((name, some d) ∷ m) =
      let rest = all_recollectable m in if ops.data_recollectable d then rest else some false

  unfoldable pub recollectable : FsmContext D M → Option Bool
  recollectable c = all_recollectable c.module_data_map

  -- The loop of `reset` over the data of the modules.
  unfoldable pub reset_modules : List (String × Option M) → Option (List (String × Option M))
  reset_modules [] = some []
  reset_modules ((name, none) ∷ m) = none
  reset_modules ((name, some d) ∷ m) = elim (reset_modules m) [
    | none ↦ none
    | some m' ↦ some ((name, some (ops.reset_data d)) ∷ m')
  ]

  -- `reset`, with the number that `my_rand` draws.
  unfoldable pub reset : ℕ → FsmContext D M → Option (FsmContext D M)
  reset drawn c = elim c.fsm_data [
    | none ↦ none
    | some d ↦ elim (reset_modules c.module_data_map) [
      | none ↦ none
      | some m ↦ some (record c {
        exited = false;
        fsm_data = some (ops.reset_fsm_data d);
        uuid = drawn;
        module_data_map = m;
      })
    ]
  ]

-- `fsm_data_factory_`, which is null at first. What stands for a factory is what it creates.
unfoldable pub register_fsm_data_factory : {D : Type 0} → D → Option D → Option D
register_fsm_data_factory factory old = some factory

-- `init` as it begins, with a call through that pointer.
unfoldable pub init_from :
    {D M : Type 0} → DataOps D M → Option D → Fsm → FsmContext D M → Option (FsmContext D M)
init_from ops none f c = none
init_from ops (some factory) f c = init (record ops { create_fsm_data = factory }) f c
