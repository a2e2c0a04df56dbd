-- ===== src/Framework/Server/Losses.antt =====
-- framework/tcp_server.cc: a `fork` that fails while children are replaced.
use zerver.Prelude.{ℕ, zero, suc, ◌+◌, ◌≤◌, true, List, ◌++◌, ◌≡◌, refl, arith, length}
use zerver.Framework.Server.{
  Server, ForkResult, fork_failed, start_signal_wait, run_multi_thread, fork_childs,
  run_multi_process, reap, sigchld, replace, on_child_ended, handle_signal, Event, handle_all,
}
use zerver.Framework.Server.Children.{AreChildren, reap-length, ReapsChildren, handle_all-le}

-- A first `fork` that fails ends the replacement.
replace-fork_failed :
    (task_num : ℕ) (forks : ℕ → ForkResult) (s : Server)
    → forks 0 ≡ fork_failed
    → replace task_num forks s ≡ s
unfolding replace run_multi_thread run_multi_process fork_childs
replace-fork_failed zero forks s failed = refl
replace-fork_failed (suc n) forks s failed = ground (arith, failed)

-- A server of any mode that still accepts is told that children have ended, as `waitpid` reports, and
-- its first `fork` fails. Whatever signals it handles later, where `waitpid` reports its children only,
-- it has at least that many children fewer than before: those that were lost are never replaced.
pub fork_failure-lasts :
    (reaped : List ℕ) (forks : ℕ → ForkResult) (es : List Event) (s : Server)
    → s.acceptor_open ≡ true
    → AreChildren reaped s.child_pid
    → forks 0 ≡ fork_failed
    → ReapsChildren es (handle_signal sigchld reaped forks s)
    → length (handle_all es (handle_signal sigchld reaped forks s)).child_pid + length reaped
      ≤ length s.child_pid
unfolding handle_signal on_child_ended start_signal_wait
fork_failure-lasts reaped forks es s accepts h failed later =
    let (n, l) = reap-length reaped s.child_pid h in
    let left : Server = record s {
      child_pid = (reap reaped s.child_pid).1;
      reaped = s.reaped ++ reaped;
    } in
    ground (
      arith,
      accepts,
      l,
      replace-fork_failed (reap reaped s.child_pid).0 forks left failed,
      handle_all-le es (handle_signal sigchld reaped forks s) later,
    )
