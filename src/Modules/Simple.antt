-- ===== src/Modules/Simple.antt =====
-- module/simple_module.h and module/simple_module.cc: a module that runs to its end in one call.
-- `run_impl` is virtual: it is an argument.
use zerver.Prelude.{ℕ}
use zerver.Framework.Module.{ModState}

unfoldable pub run : {W : Type 0} → (ℕ → W → ModState × W) → ℕ → ModState → W → ModState × W
run run_impl context last_mod_state w = run_impl context w
