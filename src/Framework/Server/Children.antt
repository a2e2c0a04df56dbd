-- ===== src/Framework/Server/Children.antt =====
-- framework/tcp_server.cc: how many children a server has.
use zerver.Prelude.{
  ℕ, zero, suc, ◌+◌, ◌≤◌, true, false, List, [], ◌∷◌, ◌++◌, ◌≡◌, refl, ap, arith, nat_eq,
  if◌then◌else◌, length, inl, inr, ◌⊎◌,
}
use zerver.Prelude.Sets.{add, contains}
use zerver.Framework.Server.{
  RunMode, run_null, run_thread, run_process, Server, ForkResult, in_child, in_parent, fork_failed,
  start_signal_wait, start_accept, run_for_child, run_multi_thread, fork_childs, run_multi_process,
  erase_pid, kill_childs, reap, Signal, sigchld, sigquit, sigterm, sigint, replace, on_child_ended,
  handle_signal, Event, handle_all, run,
}

-- `waitpid` reports children of the process, each once.
abbrev pub AreChildren : List ℕ → List ℕ → Type 0
AreChildren [] child_pid = Unit
AreChildren (pid ∷ pids) child_pid =
    (contains pid child_pid ≡ true) × AreChildren pids (erase_pid pid child_pid)

-- From round `i` on `fork` succeeds that often, each time with a number that no child has.
abbrev pub AreForked : (ℕ → ForkResult) → ℕ → ℕ → List ℕ → Type 0
AreForked forks zero i child_pid = Unit
AreForked forks (suc left) i child_pid =
    (pid : ℕ) × (forks i ≡ in_parent pid)
    × (contains pid child_pid ≡ false)
    × AreForked forks left (suc i) (add pid child_pid)

pub length-add :
    (pid : ℕ) (pids : List ℕ)
    → length (add pid pids) ≡ length pids + (if contains pid pids then 0 else 1)
unfolding add contains
length-add pid [] = omega arith
length-add pid (p ∷ pids) = ground (arith, length-add pid pids)

length-erase_pid :
    (pid : ℕ) (pids : List ℕ)
    → contains pid pids ≡ true
    → length (erase_pid pid pids) + 1 ≡ length pids
unfolding erase_pid contains
length-erase_pid pid [] h = cc
length-erase_pid pid (p ∷ pids) h = ground (arith, length-erase_pid pid pids)

pub reap-length :
    (reaped child_pid : List ℕ)
    → AreChildren reaped child_pid
    → ((reap reaped child_pid).0 ≡ length reaped)
      × (length (reap reaped child_pid).1 + length reaped ≡ length child_pid)
unfolding reap
reap-length [] child_pid h = (refl, omega arith)
reap-length (pid ∷ pids) child_pid h =
    let (n, l) = reap-length pids (erase_pid pid child_pid) h.1 in
    (ap suc n, omega (arith, l, length-erase_pid pid child_pid h.0))

pub ForkResult-cases :
    (f : ForkResult) → (f ≡ in_child) ⊎ ((pid : ℕ) × (f ≡ in_parent pid)) ⊎ (f ≡ fork_failed)
ForkResult-cases in_child = inl refl
ForkResult-cases (in_parent pid) = inr (inl (pid, refl))
ForkResult-cases fork_failed = inr (inr refl)

-- The process after its child with the number has been forked.
abbrev pub with_child : ℕ → Server → Server
with_child pid s = record s { child_pid = add pid s.child_pid; forked = pid ∷ s.forked }

fork_childs-le :
    (left i : ℕ) (forks : ℕ → ForkResult) (s : Server)
    → length (fork_childs left i forks s).child_pid ≤ length s.child_pid + left
unfolding fork_childs start_signal_wait start_accept
fork_childs-le zero i forks s = omega arith
fork_childs-le (suc left) i forks s = elim (ForkResult-cases (forks i)) [
  | inl e ↦ ground (arith, e)
  | inr (inl (pid, e)) ↦
      ground
        (arith, e, fork_childs-le left (suc i) forks (with_child pid s), length-add pid s.child_pid)
  | inr (inr e) ↦ ground (arith, e)
]

run_multi_thread-le :
    (thread_num : ℕ) (f : ForkResult) (s : Server)
    → length (run_multi_thread thread_num f s).child_pid ≤ length s.child_pid + 1
unfolding run_multi_thread run_for_child start_signal_wait start_accept
run_multi_thread-le thread_num in_child s = omega arith
run_multi_thread-le thread_num (in_parent pid) s = ground (arith, length-add pid s.child_pid)
run_multi_thread-le thread_num fork_failed s = omega arith

replace-le :
    (task_num : ℕ) (forks : ℕ → ForkResult) (s : Server)
    → length (replace task_num forks s).child_pid ≤ length s.child_pid + task_num
unfolding replace run_multi_process
replace-le zero forks s = omega arith
replace-le (suc n) forks s =
    ground (arith, fork_childs-le (suc n) 0 forks s, run_multi_thread-le s.task_number (forks 0) s)

-- `waitpid` reports children, whatever the signal.
abbrev pub ReapsChildren : List Event → Server → Type 0
ReapsChildren [] s = Unit
ReapsChildren (e ∷ es) s =
    AreChildren e.reaped s.child_pid × ReapsChildren es (handle_signal e.signal e.reaped e.forks s)

on_child_ended-le :
    (reaped : List ℕ) (forks : ℕ → ForkResult) (s : Server)
    → AreChildren reaped s.child_pid
    → length (on_child_ended reaped forks s).child_pid ≤ length s.child_pid
unfolding on_child_ended
on_child_ended-le reaped forks s h =
    let (n, l) = reap-length reaped s.child_pid h in
    ground (
      arith,
      replace-le (reap reaped s.child_pid).0 forks
          (record s { child_pid = (reap reaped s.child_pid).1; reaped = s.reaped ++ reaped }),
    )

handle_signal-le :
    (signal : Signal) (reaped : List ℕ) (forks : ℕ → ForkResult) (s : Server)
    → AreChildren reaped s.child_pid
    → length (handle_signal signal reaped forks s).child_pid ≤ length s.child_pid
unfolding handle_signal kill_childs start_signal_wait
handle_signal-le sigchld reaped forks s h = on_child_ended-le reaped forks s h
handle_signal-le sigquit reaped forks s h = omega arith
handle_signal-le sigterm reaped forks s h = omega arith
handle_signal-le sigint reaped forks s h = omega arith

pub handle_all-le :
    (es : List Event) (s : Server)
    → ReapsChildren es s
    → length (handle_all es s).child_pid ≤ length s.child_pid
unfolding handle_all
handle_all-le [] s h = omega arith
handle_all-le (e ∷ es) s h = omega (
  arith,
  handle_all-le es (handle_signal e.signal e.reaped e.forks s) h.1,
  handle_signal-le e.signal e.reaped e.forks s h.0,
)

-- How many children a server with so many tasks is meant to have.
abbrev pub max_children : RunMode → ℕ → ℕ
max_children run_thread task_number = 1
max_children _ task_number = task_number

run-le :
    (mode : RunMode) (forks : ℕ → ForkResult) (s : Server)
    → length (run mode forks s).child_pid ≤ length s.child_pid + max_children mode s.task_number
unfolding run run_multi_process
run-le run_thread forks s =
    run_multi_thread-le s.task_number (forks 0) (record s { server_mode = run_thread })
run-le run_process forks s =
    ground (arith, fork_childs-le s.task_number 0 forks (record s { server_mode = run_process }))
run-le run_null forks s =
    ground (arith, fork_childs-le s.task_number 0 forks (record s { server_mode = run_null }))

-- A server that has no children yet is run in any mode and then handles any signals, where `waitpid`
-- reports children of the process only. A server of threads never has more than one child, and any
-- other never more children than tasks.
pub run-bounded :
    (mode : RunMode) (forks : ℕ → ForkResult) (es : List Event) (s : Server)
    → s.child_pid ≡ []
    → ReapsChildren es (run mode forks s)
    → length (handle_all es (run mode forks s)).child_pid ≤ max_children mode s.task_number
run-bounded mode forks es s empty h =
    omega (arith, handle_all-le es (run mode forks s) h, run-le mode forks s, ap length empty)

-- The loop in the parent, where every `fork` succeeds.
fork_childs-AreForked :
    (left i : ℕ) (forks : ℕ → ForkResult) (s : Server)
    → AreForked forks left i s.child_pid
    → length (fork_childs left i forks s).child_pid ≡ length s.child_pid + left
unfolding fork_childs
fork_childs-AreForked zero i forks s h = omega arith
fork_childs-AreForked (suc left) i forks s (pid, e, new, h) = ground (
  arith,
  e,
  fork_childs-AreForked left (suc i) forks (with_child pid s) h,
  length-add pid s.child_pid,
)

-- In the parent of a server of processes that accepts, as many children are forked as `waitpid` reports,
-- where every `fork` succeeds: their number stays.
pub handle_signal-replaces :
    (reaped : List ℕ) (forks : ℕ → ForkResult) (s : Server)
    → s.server_mode ≡ run_process
    → s.acceptor_open ≡ true
    → s.is_child ≡ false
    → AreChildren reaped s.child_pid
    → AreForked forks (length reaped) 0 (reap reaped s.child_pid).1
    → length (handle_signal sigchld reaped forks s).child_pid ≡ length s.child_pid
unfolding handle_signal on_child_ended replace run_multi_process start_signal_wait
handle_signal-replaces reaped forks s mode accepts parent h f =
    let (n, l) = reap-length reaped s.child_pid h in
    let s' : Server = record s {
      child_pid = (reap reaped s.child_pid).1;
      reaped = s.reaped ++ reaped;
    } in
    rw (n, accepts)
      (ground (arith, mode, parent, fork_childs-AreForked (length reaped) 0 forks s' f))
