-- ===== src/Framework/Server/Elders.antt =====
-- framework/tcp_server.cc: which processes a child signals when it ends.
use zerver.Prelude.{ℕ, zero, suc, ◌+◌, ◌<◌, false, [], ◌≡◌, subst, ap, arith, length, length-append}
use zerver.Framework.Server.{
  Server, ForkResult, in_child, start_signal_wait, start_accept, fork_childs, run_multi_process,
  kill_childs, sigterm, handle_signal,
}
use zerver.Framework.Server.Children.{AreForked, with_child, length-add}

-- A child that is forked after a number of others has them all in its set.
fork_childs-in_child :
    (elder rounds i j : ℕ) (forks : ℕ → ForkResult) (s : Server)
    → elder < rounds
    → i + elder ≡ j
    → AreForked forks elder i s.child_pid
    → forks j ≡ in_child
    → ((fork_childs rounds i forks s).killed ≡ s.killed)
      × (length (fork_childs rounds i forks s).child_pid ≡ length s.child_pid + elder)
unfolding fork_childs start_signal_wait start_accept
fork_childs-in_child elder zero i j forks s lt at h c = absurd (omega arith)
fork_childs-in_child zero (suc rounds) i j forks s lt at h c =
    let here : j ≡ i = omega arith in
    let e : forks i ≡ in_child = subst (λ n. forks n ≡ in_child) here c in
    (ground (arith, e), ground (arith, e))
fork_childs-in_child (suc elder) (suc rounds) i j forks s lt at (pid, e, new, h) c =
    let (k, n) =
      fork_childs-in_child elder rounds (suc i) j forks (with_child pid s) (omega arith)
        (omega arith) h c in
    (ground (arith, e, k), ground (arith, e, n, length-add pid s.child_pid))

-- A child inherits the set of children. A process with none, whose `fork` succeeds a number of times
-- and then returns in the child, sends a signal to that many processes when it is told to terminate:
-- to the children that were forked before it.
pub child_signals_elders :
    (elder rounds : ℕ) (forks after : ℕ → ForkResult) (s : Server)
    → elder < rounds
    → s.is_child ≡ false
    → s.child_pid ≡ []
    → s.killed ≡ []
    → AreForked forks elder 0 s.child_pid
    → forks elder ≡ in_child
    → length (handle_signal sigterm [] after (run_multi_process rounds forks s)).killed ≡ elder
unfolding handle_signal kill_childs start_signal_wait run_multi_process
child_signals_elders elder rounds forks after s lt parent empty none_ h c =
    let (k, n) = fork_childs-in_child elder rounds 0 elder forks s lt (omega arith) h c in
    let child : Server = fork_childs rounds 0 forks s in
    ground (
      arith,
      parent,
      length-append child.killed child.child_pid,
      ap length k,
      ap length none_,
      ap length empty,
    )
