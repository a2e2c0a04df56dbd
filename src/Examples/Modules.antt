-- ===== src/Examples/Modules.antt =====
-- Tests of module/: a fork, a join of three branches, and requests and responses with few events.
use zerver.Prelude.{
  ◌+◌, ◌≤◌, Bool, true, false, not, some, List, [], ◌∷◌, ◌≡◌, arith, length, All, ◌⊎◌,
}
use zerver.Framework.Module.{ModState, mod_succeed, mod_failed}
use zerver.Modules.Join.{JoinData, Shared, Thread, outside}
use zerver.Modules.Join
use zerver.Modules.Fork
use zerver.Modules.Fork.{new_fork_module, create_data, set_timers}
use zerver.Prelude.{none}
use zerver.Modules.Join.Threads.{total, fired, running}
use zerver.Modules.Join.Once.{verdict, IsOutcome, join_resumes_once}
use zerver.Modules.Session.{
  no_error, operation_aborted, other_error, Event, op_done, timer_due, run_op, run_timer, armed,
  queued,
}
use zerver.Modules.Session
use zerver.Modules.Session.Once.{Goes}
use zerver.Modules.Request
use zerver.Modules.Request.Endings.{request_ends}
use zerver.Modules.Request.Races.{
  accepts, request_resumes_once, request_succeeds, body_read_without_timer,
}
use zerver.Modules.Response
use zerver.Modules.Response.Once.{response_resumes_once}
use zerver.Modules.Tcp.{is_opened, pooled, fresh}
use zerver.Modules.Tcp
use zerver.Modules.Tcp.Once.{goes, fresh_resumes_once}
use zerver.Modules.Tcp.{
  connect_timer, reply_timer, write_req, socket_event_opened, socket_event_closed,
}
use zerver.Modules.Tcp.TimeOut.{time_out-resumes}
use zerver.Framework.Module.{mod_timeout}
use zerver.Prelude.{refl}
use zerver.Modules.Tcp.Endings.{endings, answered}
use zerver.Modules.Session.Endings.{IsIn, over}
use zerver.Modules.Tcp.Endings.Runs.{with_pooled, run-ends}

-- A branch that failed, between two that succeeded; the data are those of an earlier request.
abbrev branches : List ModState
branches = mod_succeed ∷ mod_failed ∷ mod_succeed ∷ []

abbrev used_data : JoinData
used_data = record { module_joined_num = 3; failed_join = true }

abbrev joined : Shared
joined =
    Join.run 3 (record { join_data = Join.reset used_data; threads = Join.begin branches })
      (2 ∷ 0 ∷ 0 ∷ 1 ∷ 2 ∷ 1 ∷ [])

join_resumes_once_example :
    (total fired joined.threads ≤ 1)
    × (total running joined.threads ≡ 0 → total fired joined.threads ≡ 1)
    × All (IsOutcome (verdict (Join.begin branches))) joined.threads
join_resumes_once_example =
    join_resumes_once branches used_data (2 ∷ 0 ∷ 0 ∷ 1 ∷ 2 ∷ 1 ∷ []) (omega arith) (omega arith)

abbrev answers : Request.Answers
answers = accepts 8 64 mod_succeed

abbrev read_events : List (Event Request.Answers)
read_events =
    op_done 0 no_error
    ∷ timer_due 0
    ∷ run_op 0 answers
    ∷ run_timer 0 answers
    ∷ run_op 0 answers
    ∷ []

-- The version is accepted, and the read of the head cut off by the version's timer.
request_ends_example :
    IsIn Request.Endings.endings
      (over Request.Endings.timed_out)
      (Session.run Request.handlers (Request.begin 4) read_events)
unfolding Session.step Session.dispatch_op Session.dispatch_timer Session.perform_all
    Session.perform Request.begin Request.run Request.handlers Request.on_read
    Request.on_read_version Request.on_read_time_out Request.cancel_time_out_timer
request_ends_example = request_ends 4 read_events

request_resumes_once_example :
    (length (Session.run Request.handlers (Request.begin 4) read_events).resumed ≤ 1)
    × (All (Goes Request.handlers (λ m. true) (λ a. not a.cancel_fails)) read_events
        → length (Session.run Request.handlers (Request.begin 4) read_events).ops
            + length (Session.run Request.handlers (Request.begin 4) read_events).resumed
          ≡ 1)
request_resumes_once_example = request_resumes_once 4 read_events

request_succeeds_example :
    Session.run Request.handlers (Request.begin 4) (
      op_done 0 no_error
      ∷ run_op 0 answers
      ∷ op_done 0 no_error
      ∷ run_op 0 answers
      ∷ op_done 0 no_error
      ∷ run_op 0 answers
      ∷ [])
    ≡ record {
      ops = [];
      timers = (1, queued operation_aborted) ∷ (2, queued operation_aborted) ∷ [];
      state = tt;
      exited = false;
      resumed = mod_succeed ∷ [];
    }
request_succeeds_example = request_succeeds 4 8 64 mod_succeed

body_read_without_timer_example :
    Session.run Request.handlers (Request.begin 4) (
      op_done 0 no_error
      ∷ run_op 0 answers
      ∷ run_timer 0 answers
      ∷ op_done 0 no_error
      ∷ timer_due 0
      ∷ run_timer 0 answers
      ∷ run_op 0 answers
      ∷ [])
    ≡ record {
      ops = (Request.read_body 64, armed) ∷ [];
      timers = [];
      state = tt;
      exited = false;
      resumed = [];
    }
body_read_without_timer_example = body_read_without_timer 4 8 64 mod_succeed answers answers

abbrev write_events : List (Event Bool)
write_events = timer_due 0 ∷ run_timer 0 false ∷ run_op 0 false ∷ []

response_resumes_once_example :
    (length (Session.run Response.handlers (Response.begin (some 100)) write_events).resumed ≤ 1)
    × (All (Goes Response.handlers (λ m. true) not) write_events
        → length (Session.run Response.handlers (Response.begin (some 100)) write_events).ops
            + length
                (Session.run Response.handlers (Response.begin (some 100)) write_events).resumed
          ≡ 1)
response_resumes_once_example = response_resumes_once 100 write_events

abbrev tcp_answers : Tcp.Answers
tcp_answers = record {
  accepted = true;
  cancel_fails = false;
  socket_cancel_fails = false;
  req_len = 32;
  resp_body_len = 64;
}

abbrev tcp_events : List (Event Tcp.Answers)
tcp_events =
    op_done 0 no_error
    ∷ run_op 0 tcp_answers
    ∷ op_done 0 no_error
    ∷ run_op 0 tcp_answers
    ∷ op_done 0 no_error
    ∷ run_op 0 tcp_answers
    ∷ []

fresh_resumes_once_example :
    (length (Session.run Tcp.handlers (Tcp.begin (fresh 2) tcp_answers) tcp_events).resumed ≤ 1)
    × (All (Goes Tcp.handlers is_opened goes) tcp_events
        → length (Session.run Tcp.handlers (Tcp.begin (fresh 2) tcp_answers) tcp_events).ops
            + length (Session.run Tcp.handlers (Tcp.begin (fresh 2) tcp_answers) tcp_events).resumed
          ≡ 1)
fresh_resumes_once_example = fresh_resumes_once 2 tcp_answers tcp_events

-- The response is accepted.
run-ends_example :
    IsIn
      (endings 2)
      (over (answered true))
      (Session.run Tcp.handlers (Tcp.begin (pooled 2) tcp_answers) tcp_events)
unfolding Session.step Session.dispatch_op Session.perform_all Session.perform Tcp.begin Tcp.run
    Tcp.handlers Tcp.on_op Tcp.on_write_req Tcp.on_recv_resp_head Tcp.on_recv_resp_body Tcp.guarded
    Tcp.recollect_client Tcp.send_request
run-ends_example = run-ends 2 (pooled 2) (write_req 32) tcp_answers tcp_events with_pooled

-- A request is being written; the connect timer has been cancelled, and the other one runs out.
abbrev writing : Session.Session Tcp.Op Tcp.Timer Tcp.TcpData
writing = record {
  ops = (write_req 32, armed) ∷ [];
  timers = (connect_timer, queued operation_aborted) ∷ (reply_timer, armed) ∷ [];
  state = record Tcp.new_data { client = some 2; socket_event = socket_event_opened };
  exited = false;
  resumed = [];
}

time_out-resumes_example :
    ((false ≡ false)
      × ((Session.run Tcp.handlers writing
            (timer_due 1 ∷ run_timer 1 tcp_answers ∷ run_op 0 tcp_answers ∷ [])).ops
          ≡ [])
      × ((Session.run Tcp.handlers writing
            (timer_due 1 ∷ run_timer 1 tcp_answers ∷ run_op 0 tcp_answers ∷ [])).resumed
          ≡ mod_timeout ∷ [])
      × ((Session.run Tcp.handlers writing
            (timer_due 1 ∷ run_timer 1 tcp_answers ∷ run_op 0 tcp_answers ∷ [])).state
          ≡ record writing.state { socket_event = socket_event_closed }))
    ⊎ ((false ≡ true)
        × (Session.run Tcp.handlers writing (timer_due 1 ∷ run_timer 1 tcp_answers ∷ [])
            ≡ record writing { timers = (connect_timer, queued operation_aborted) ∷ [] }))
time_out-resumes_example =
    time_out-resumes writing (write_req 32) 1 reply_timer 2 tcp_answers tcp_answers refl refl refl
      refl

-- A fork module that is made for 65537 forks has one timer.
truncated_fork_test : Fork.run (create_data (new_fork_module 65_537)) 2 ≡ none
unfolding Fork.run set_timers create_data new_fork_module
truncated_fork_test = refl
