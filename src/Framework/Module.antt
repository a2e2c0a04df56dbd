-- ===== src/Framework/Module.antt =====
-- framework/module.h and framework/types_def.h: a module and the states that it ends in.
use zerver.Prelude.{ℕ, Bool, String, ◌==◌}

-- typedef uint32_t ModState.
abbrev pub ModState : Type 0
ModState = ℕ

abbrev pub mod_else : ModState
mod_else = 0

abbrev pub mod_succeed : ModState
mod_succeed = 1

abbrev pub mod_failed : ModState
mod_failed = 2

abbrev pub mod_timeout : ModState
mod_timeout = 3

abbrev pub mod_async : ModState
mod_async = 4

abbrev pub mod_start : ModState
mod_start = 5

-- A `Module*` is its address with the name that the object holds. What `run` and `create_data` do
-- differs by class: they are parameters where they are called.
pub record Module : Type 0 where
  pub address : ℕ
  pub name : String

-- `a == b` on two pointers.
abbrev pub same_module : Module → Module → Bool
same_module a b = a.address == b.address
