-- ===== src/Examples/Server.antt =====
-- Tests of framework/tcp_server.cc: a server of two processes.
use zerver.Prelude.{
  ℕ, zero, suc, ◌+◌, ◌≤◌, true, ◌||◌, List, [], ◌∷◌, ◌≡◌, refl, arith, length, nat_eq,
}
use zerver.Prelude.Sets.{add, contains}
use zerver.Framework.Server.{
  Server, run_process, ForkResult, in_child, in_parent, fork_failed, on_child_ended, replace,
  kill_childs, on_exit, clear, new_server, start_signal_wait, Event, sigchld, sigterm,
  handle_signal, handle_all, run, run_multi_process, fork_childs, erase_pid, reap,
}
use zerver.Framework.Server.Children.{run-bounded, handle_signal-replaces}
use zerver.Framework.Server.Losses.{fork_failure-lasts}
use zerver.Framework.Server.Exit.{at_end, exit-reaped_or_killed}
use zerver.Framework.Server.Elders.{child_signals_elders}

abbrev forks_from : ℕ → ℕ → ForkResult
forks_from pid i = in_parent (pid + i)

abbrev events : List Event
events =
    record { signal = sigchld; reaped = 101 ∷ []; forks = forks_from 200 }
    ∷ record { signal = sigterm; reaped = []; forks = forks_from 300 }
    ∷ []

run-bounded_example :
    length (handle_all events (run run_process (forks_from 100) (new_server 2))).child_pid
    ≤ (new_server 2).task_number
unfolding new_server start_signal_wait run run_multi_process fork_childs add contains
run-bounded_example =
    run-bounded run_process (forks_from 100) events (new_server 2) refl ((refl, tt), (tt, tt))

abbrev parent : Server
parent = run run_process (forks_from 100) (new_server 2)

handle_signal-replaces_example :
    length (handle_signal sigchld (101 ∷ []) (forks_from 200) parent).child_pid
    ≡ length parent.child_pid
unfolding new_server start_signal_wait run run_multi_process fork_childs add contains erase_pid reap
handle_signal-replaces_example =
    handle_signal-replaces (101 ∷ []) (forks_from 200) parent refl refl refl (refl, tt)
      (200, refl, refl, tt)

-- The first child has ended, and no other can be forked; later the server is told to end.
abbrev no_fork : ℕ → ForkResult
no_fork i = fork_failed

fork_failure-lasts_example :
    length
        (handle_all
          (record { signal = sigterm; reaped = []; forks = no_fork } ∷ [])
          (handle_signal sigchld (100 ∷ []) no_fork parent)).child_pid
      + 1
    ≤ 2
unfolding new_server start_signal_wait run run_multi_process fork_childs add contains
fork_failure-lasts_example =
    fork_failure-lasts (100 ∷ []) no_fork
      (record { signal = sigterm; reaped = []; forks = no_fork } ∷ []) parent refl (refl, tt) refl
      (tt, tt)

exit-reaped_or_killed_example :
    (contains 101 (at_end 2 run_process (forks_from 100) events).reaped
      || contains 101 (at_end 2 run_process (forks_from 100) events).killed)
    ≡ true
unfolding new_server start_signal_wait run run_multi_process fork_childs add contains handle_all
    handle_signal on_child_ended replace reap erase_pid kill_childs on_exit clear
exit-reaped_or_killed_example = exit-reaped_or_killed 101 2 run_process (forks_from 100) events refl

abbrev second_child : ℕ → ForkResult
second_child zero = in_parent 100
second_child (suc i) = in_child

child_signals_elders_example :
    length
      (handle_signal sigterm []
        (forks_from 300)
        (run_multi_process 2 second_child (new_server 2))).killed
    ≡ 1
unfolding new_server start_signal_wait contains
child_signals_elders_example =
    child_signals_elders 1 2 second_child (forks_from 300) (new_server 2) (omega arith) refl refl
      refl (100, refl, refl, tt) refl
