-- ===== src/Framework/Server.antt =====
-- framework/tcp_server.h and framework/tcp_server.cc: one process of a server. What `fork` returns to
-- the process, and which children `waitpid` reports, are arguments. The results of its system calls,
-- `fork`, `waitpid` and `kill`, are kept for the proofs. `on_accepted` begins a request, which
-- `Framework/Engine.antt` models; the virtual `on_child_running` and `on_child_killing` are the
-- application's and are left out.
pub mod Children
pub mod Losses
pub mod Exit
pub mod Elders
use zerver.Prelude.{
  ℕ, zero, suc, ◌+◌, Bool, true, false, Option, none, some, List, [], ◌∷◌, ◌++◌, nat_eq, ltb,
  if◌then◌else◌,
}
use zerver.Prelude.Sets.{add}

pub data RunMode : Type 0 where
  run_null run_thread run_process : RunMode

-- `child_pid_` and `is_child` are globals of the file. `threads` are those that run the handlers, and
-- `signal_waits` the calls of `async_wait` that are pending. `forked`, `reaped` and `killed` are the
-- processes that `fork` made, that `waitpid` reported, and that a `SIGQUIT` was sent to.
pub record Server : Type 0 where
  pub task_number : ℕ
  pub server_mode : RunMode
  pub acceptor_open : Bool
  pub accepting : Bool
  pub stopped : Bool
  pub is_child : Bool
  pub child_pid : List ℕ
  pub threads : ℕ
  pub signal_waits : ℕ
  pub forked : List ℕ
  pub reaped : List ℕ
  pub killed : List ℕ

unfoldable pub start_signal_wait : Server → Server
start_signal_wait s = record s { signal_waits = suc s.signal_waits }

unfoldable pub start_accept : Server → Server
start_accept s = record s { accepting = true }

-- The constructor behind its `try` block. A task number below 1, also a negative one, is 0 here.
unfoldable pub new_server : ℕ → Server
unfolding start_signal_wait
new_server task_number = start_signal_wait (record {
  task_number = if ltb task_number 1 then 1 else task_number;
  server_mode = run_null;
  acceptor_open = true;
  accepting = false;
  stopped = false;
  is_child = false;
  child_pid = [];
  threads = 0;
  signal_waits = 0;
  forked = [];
  reaped = [];
  killed = [];
})

-- The constructor, with whether all objects of its `try` block could be made: else the process ends.
unfoldable pub construct : Bool → ℕ → Option Server
unfolding new_server
construct true task_number = some (new_server task_number)
construct false task_number = none

-- What `fork` returns: 0, the child's number, or -1.
pub data ForkResult : Type 0 where
  in_child : ForkResult
  in_parent : ℕ → ForkResult
  fork_failed : ForkResult

unfoldable pub run_for_child : ℕ → Server → Server
unfolding start_accept
run_for_child thread_num s = start_accept (record s { threads = thread_num })

unfoldable pub run_multi_thread : ℕ → ForkResult → Server → Server
unfolding run_for_child start_signal_wait
run_multi_thread thread_num in_child s = run_for_child thread_num (start_signal_wait s)
run_multi_thread thread_num (in_parent pid) s = record s {
  child_pid = add pid s.child_pid;
  forked = pid ∷ s.forked;
}
run_multi_thread thread_num fork_failed s = s

-- The loop of `run_multi_process` from round `i` on, with the rounds that are left.
unfoldable pub fork_childs : ℕ → ℕ → (ℕ → ForkResult) → Server → Server
unfolding start_signal_wait start_accept
fork_childs zero i forks s = s
fork_childs (suc left) i forks s = elim (forks i) [
  | in_child ↦ start_accept (start_signal_wait (record s { is_child = true }))
  | in_parent pid ↦
      fork_childs left (suc i) forks
        (record s { child_pid = add pid s.child_pid; forked = pid ∷ s.forked })
  | fork_failed ↦ s
]

unfoldable pub run_multi_process : ℕ → (ℕ → ForkResult) → Server → Server
unfolding fork_childs
run_multi_process process_num forks s = if s.is_child then s else fork_childs process_num 0 forks s

-- `run`, up to the call of `io_service_->run()`.
unfoldable pub run : RunMode → (ℕ → ForkResult) → Server → Server
unfolding run_multi_thread run_multi_process
run run_thread forks s =
    run_multi_thread s.task_number (forks 0) (record s { server_mode = run_thread })
run mode forks s = run_multi_process s.task_number forks (record s { server_mode = mode })

-- `erase` of a set, which holds an element once.
unfoldable pub erase_pid : ℕ → List ℕ → List ℕ
erase_pid pid [] = []
erase_pid pid (p ∷ pids) = if nat_eq.beq pid p then pids else p ∷ erase_pid pid pids

unfoldable pub kill_childs : Server → Server
kill_childs s = record s { child_pid = []; killed = s.killed ++ s.child_pid }

-- What `exit` calls, since the constructor has registered it.
unfoldable pub on_exit : Server → Server
unfolding kill_childs
on_exit s = kill_childs s

-- The destructor: the acceptor, the signal set and the service are deleted, with what waits on them.
unfoldable pub clear : Server → Server
clear s = record s { acceptor_open = false; accepting = false; signal_waits = 0 }

-- The loop over `waitpid`: how many children it reports, and the set that is left.
unfoldable pub reap : List ℕ → List ℕ → ℕ × List ℕ
unfolding erase_pid
reap [] child_pid = (0, child_pid)
reap (pid ∷ pids) child_pid =
    let (task_num, left) = reap pids (erase_pid pid child_pid) in (suc task_num, left)

-- The signals of the server's signal set; no process is told of a `SIGKILL`.
pub data Signal : Type 0 where
  sigchld sigquit sigterm sigint : Signal

-- New children for those that have ended.
unfoldable pub replace : ℕ → (ℕ → ForkResult) → Server → Server
unfolding run_multi_thread run_multi_process
replace zero forks s = s
replace (suc task_num) forks s = elim s.server_mode [
  | run_null ↦ s
  | run_thread ↦ run_multi_thread s.task_number (forks 0) s
  | run_process ↦ run_multi_process (suc task_num) forks s
]

-- The case of `SIGCHLD`, for the children that `waitpid` reports.
unfoldable pub on_child_ended : List ℕ → (ℕ → ForkResult) → Server → Server
unfolding reap replace
on_child_ended reaped forks s =
    let (task_num, left) = reap reaped s.child_pid in
    if s.acceptor_open
    then replace task_num forks (record s { child_pid = left; reaped = s.reaped ++ reaped })
    else s

unfoldable pub handle_signal : Signal → List ℕ → (ℕ → ForkResult) → Server → Server
unfolding on_child_ended kill_childs start_signal_wait
handle_signal sigchld reaped forks s = start_signal_wait (on_child_ended reaped forks s)
handle_signal _ reaped forks s =
    start_signal_wait (kill_childs (record s { acceptor_open = false; stopped = true }))

-- A signal, with what `waitpid` and `fork` answer while it is handled.
pub record Event : Type 0 where
  pub signal : Signal
  pub reaped : List ℕ
  pub forks : ℕ → ForkResult

unfoldable pub handle_all : List Event → Server → Server
handle_all [] s = s
handle_all (e ∷ es) s = handle_all es (handle_signal e.signal e.reaped e.forks s)
