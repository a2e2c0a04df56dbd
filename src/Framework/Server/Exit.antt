-- ===== src/Framework/Server/Exit.antt =====
-- framework/tcp_server.cc: the children of a process that ends.
use zerver.Prelude.{
  ℕ, zero, suc, true, false, ◌||◌, List, [], ◌∷◌, ◌++◌, ◌≡◌, refl, arith, nat_eq, inl, inr,
}
use zerver.Prelude.Sets.{contains, contains-add}
use zerver.Framework.Server.{
  RunMode, run_null, run_thread, run_process, Server, ForkResult, in_child, in_parent, fork_failed,
  start_signal_wait, start_accept, new_server, run_for_child, run_multi_thread, fork_childs,
  run_multi_process, erase_pid, kill_childs, on_exit, clear, reap, Signal, sigchld, replace,
  on_child_ended, handle_signal, Event, handle_all, run,
}
use zerver.Framework.Server.Children.{ForkResult-cases, with_child}

-- A process that was forked has been reaped, has been signalled, or is among the children; and the
-- children, and those that were signalled, were forked.
abbrev IsAccounted : ℕ → Server → Type 0
IsAccounted pid s =
    (contains pid s.forked ≡ true
      → (contains pid s.reaped || contains pid s.killed || contains pid s.child_pid) ≡ true)
    × ((contains pid s.killed || contains pid s.child_pid) ≡ true → contains pid s.forked ≡ true)

contains-append :
    (pid : ℕ) (ps qs : List ℕ) → contains pid (ps ++ qs) ≡ (contains pid ps || contains pid qs)
unfolding contains
contains-append pid [] qs = refl
contains-append pid (p ∷ ps) qs = ground (arith, contains-append pid ps qs)

contains-erase_pid :
    (pid p : ℕ) (pids : List ℕ)
    → contains pid pids ≡ true
    → (contains pid (erase_pid p pids) || nat_eq.beq pid p) ≡ true
unfolding contains erase_pid
contains-erase_pid pid p [] h = ground (arith, h)
contains-erase_pid pid p (q ∷ qs) h = ground (
  arith,
  contains-erase_pid pid p qs,
  nat_eq.beq_iff pid p,
  nat_eq.beq_iff p q,
  nat_eq.beq_iff pid q,
)

erase_pid-contains :
    (pid p : ℕ) (pids : List ℕ) → contains pid (erase_pid p pids) ≡ true → contains pid pids ≡ true
unfolding contains erase_pid
erase_pid-contains pid p [] h = h
erase_pid-contains pid p (q ∷ qs) h = ground (arith, erase_pid-contains pid p qs)

contains-reap :
    (pid : ℕ) (reaped child_pid : List ℕ)
    → contains pid child_pid ≡ true
    → (contains pid reaped || contains pid (reap reaped child_pid).1) ≡ true
unfolding contains reap
contains-reap pid [] child_pid h = h
contains-reap pid (p ∷ ps) child_pid h = ground (
  arith,
  contains-erase_pid pid p child_pid h,
  contains-reap pid ps (erase_pid p child_pid),
  nat_eq.beq_iff pid p,
  nat_eq.beq_iff p pid,
)

reap-contains :
    (pid : ℕ) (reaped child_pid : List ℕ)
    → contains pid (reap reaped child_pid).1 ≡ true
    → contains pid child_pid ≡ true
unfolding reap
reap-contains pid [] child_pid h = h
reap-contains pid (p ∷ ps) child_pid h =
    erase_pid-contains pid p child_pid (reap-contains pid ps (erase_pid p child_pid) h)

module _ (pid : ℕ) where
  with_child-IsAccounted :
      (p : ℕ) (s : Server) → IsAccounted pid s → IsAccounted pid (with_child p s)
  unfolding contains
  with_child-IsAccounted p s h = ground (arith, contains-add pid p s.child_pid)

  run_multi_thread-IsAccounted :
      (thread_num : ℕ) (f : ForkResult) (s : Server)
      → IsAccounted pid s
      → IsAccounted pid (run_multi_thread thread_num f s)
  unfolding run_multi_thread run_for_child start_signal_wait start_accept
  run_multi_thread-IsAccounted thread_num in_child s h = h
  run_multi_thread-IsAccounted thread_num (in_parent p) s h = with_child-IsAccounted p s h
  run_multi_thread-IsAccounted thread_num fork_failed s h = h

  fork_childs-IsAccounted :
      (left i : ℕ) (forks : ℕ → ForkResult) (s : Server)
      → IsAccounted pid s
      → IsAccounted pid (fork_childs left i forks s)
  unfolding fork_childs start_signal_wait start_accept
  fork_childs-IsAccounted zero i forks s h = h
  fork_childs-IsAccounted (suc left) i forks s h = elim (ForkResult-cases (forks i)) [
    | inl e ↦ rw (e, fork_childs) h
    | inr (inl (p, e)) ↦
        rw (e, fork_childs)
          (fork_childs-IsAccounted left (suc i) forks (with_child p s)
            (with_child-IsAccounted p s h))
    | inr (inr e) ↦ rw (e, fork_childs) h
  ]

  run_multi_process-IsAccounted :
      (process_num : ℕ) (forks : ℕ → ForkResult) (s : Server)
      → IsAccounted pid s
      → IsAccounted pid (run_multi_process process_num forks s)
  unfolding run_multi_process
  run_multi_process-IsAccounted n forks s h = ground (arith, fork_childs-IsAccounted n 0 forks s h)

  replace-IsAccounted :
      (task_num : ℕ) (forks : ℕ → ForkResult) (s : Server)
      → IsAccounted pid s
      → IsAccounted pid (replace task_num forks s)
  unfolding replace
  replace-IsAccounted zero forks s h = h
  replace-IsAccounted (suc n) forks s h = ground (
    arith,
    run_multi_thread-IsAccounted s.task_number (forks 0) s h,
    run_multi_process-IsAccounted (suc n) forks s h,
  )

  on_child_ended-IsAccounted :
      (reaped : List ℕ) (forks : ℕ → ForkResult) (s : Server)
      → IsAccounted pid s
      → IsAccounted pid (on_child_ended reaped forks s)
  unfolding on_child_ended
  on_child_ended-IsAccounted reaped forks s h =
      let left : Server = record s {
        child_pid = (reap reaped s.child_pid).1;
        reaped = s.reaped ++ reaped;
      } in
      let known : IsAccounted pid left = ground (
        arith,
        contains-append pid s.reaped reaped,
        contains-reap pid reaped s.child_pid,
        reap-contains pid reaped s.child_pid,
      ) in
      ground (arith, replace-IsAccounted (reap reaped s.child_pid).0 forks left known)

  kill_childs-IsAccounted : (s : Server) → IsAccounted pid s → IsAccounted pid (kill_childs s)
  unfolding kill_childs contains
  kill_childs-IsAccounted s h = ground (arith, contains-append pid s.killed s.child_pid)

  handle_signal-IsAccounted :
      (signal : Signal) (reaped : List ℕ) (forks : ℕ → ForkResult) (s : Server)
      → IsAccounted pid s
      → IsAccounted pid (handle_signal signal reaped forks s)
  unfolding handle_signal start_signal_wait
  handle_signal-IsAccounted sigchld reaped forks s h = on_child_ended-IsAccounted reaped forks s h
  handle_signal-IsAccounted _ reaped forks s h =
      kill_childs-IsAccounted (record s { acceptor_open = false; stopped = true }) h

  handle_all-IsAccounted :
      (es : List Event) (s : Server) → IsAccounted pid s → IsAccounted pid (handle_all es s)
  unfolding handle_all
  handle_all-IsAccounted [] s h = h
  handle_all-IsAccounted (e ∷ es) s h =
      handle_all-IsAccounted es (handle_signal e.signal e.reaped e.forks s)
        (handle_signal-IsAccounted e.signal e.reaped e.forks s h)

  run-IsAccounted :
      (mode : RunMode) (forks : ℕ → ForkResult) (s : Server)
      → IsAccounted pid s
      → IsAccounted pid (run mode forks s)
  unfolding run
  run-IsAccounted run_thread forks s h =
      run_multi_thread-IsAccounted s.task_number (forks 0) (record s { server_mode = run_thread }) h
  run-IsAccounted run_process forks s h =
      run_multi_process-IsAccounted s.task_number forks (record s { server_mode = run_process }) h
  run-IsAccounted run_null forks s h =
      run_multi_process-IsAccounted s.task_number forks (record s { server_mode = run_null }) h

-- A process from the constructor to its end: `run`, signals, the destructor, and `exit`.
abbrev pub at_end : ℕ → RunMode → (ℕ → ForkResult) → List Event → Server
at_end task_number mode forks es =
    on_exit (clear (handle_all es (run mode forks (new_server task_number))))

at_end-IsAccounted :
    (pid task_number : ℕ) (mode : RunMode) (forks : ℕ → ForkResult) (es : List Event)
    → IsAccounted pid (at_end task_number mode forks es)
unfolding new_server start_signal_wait on_exit clear contains
at_end-IsAccounted pid n mode forks es =
    let s = handle_all es (run mode forks (new_server n)) in
    kill_childs-IsAccounted pid (clear s) (
      handle_all-IsAccounted pid es (run mode forks (new_server n))
        (run-IsAccounted pid mode forks (new_server n) (ground arith)))

-- A process is constructed, run in any mode, handles any signals, and ends, whatever `fork` and `waitpid`
-- answer. It has signalled or reaped each process that it forked.
pub exit-reaped_or_killed :
    (pid task_number : ℕ) (mode : RunMode) (forks : ℕ → ForkResult) (es : List Event)
    → contains pid (at_end task_number mode forks es).forked ≡ true
    → (contains pid (at_end task_number mode forks es).reaped
        || contains pid (at_end task_number mode forks es).killed)
      ≡ true
unfolding on_exit kill_childs contains
exit-reaped_or_killed pid n mode forks es h =
    ground (arith, (at_end-IsAccounted pid n mode forks es).0 h)

-- Such a process has signalled only processes that it forked.
pub exit-killed-forked :
    (pid task_number : ℕ) (mode : RunMode) (forks : ℕ → ForkResult) (es : List Event)
    → contains pid (at_end task_number mode forks es).killed ≡ true
    → contains pid (at_end task_number mode forks es).forked ≡ true
exit-killed-forked pid n mode forks es h =
    (at_end-IsAccounted pid n mode forks es).1 (ground (arith, h))
