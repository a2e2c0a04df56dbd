-- ===== src/Example1/Serve.antt =====
-- example1/main.cc: the server that `main` runs. The class ProxyTcpServer is not in the repository: it is
-- taken for its base class. `strcasecmp` of the C library is a parameter.
use zerver.Prelude.{ℕ, zero, suc, Bool, Option, none, some, String}
use zerver.Prelude.Int.{ℤ, pos, negsuc}
use zerver.Framework.Server.{RunMode, run_thread, run_process, Server, ForkResult, construct, run}

-- FLAGS_run_mode.
unfoldable pub main_mode : (String → String → ℤ) → String → RunMode
main_mode strcasecmp run_mode = elim (strcasecmp run_mode "process") [
  | pos n ↦ elim n [ zero ↦ run_process | suc m ↦ run_thread ]
  | negsuc n ↦ run_thread
]

-- The server, with FLAGS_run_mode and FLAGS_task_num, once `run` has forked.
unfoldable pub serve : (String → String → ℤ) → Bool → String → ℕ → (ℕ → ForkResult) → Option Server
unfolding main_mode construct run
serve strcasecmp made run_mode task_num forks = elim (construct made task_num) [
  | none ↦ none
  | some s ↦ some (run (main_mode strcasecmp run_mode) forks s)
]
