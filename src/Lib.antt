-- ===== src/Lib.antt =====
-- A model of xzerver, a framework for asynchronous servers, and what is proved of it.
--
-- A server holds one state machine (`Fsm`): modules, and links from a module and the state that it ends
-- in to the next module. A request is a context (`FsmContext`) that the modules run on; a module that
-- waits for an operation returns `Mod_Async`, and its handler resumes the machine later. Modules read a
-- request, write a response, ask another server over a pooled connection, and fork and join branches.
--
-- Prelude: Boolean tests, lists with indices, keys, maps and sets as lists, signed integers.
-- Framework/Module, Framework/Fsm: framework/module.h, fsm.h and fsm.cc, the modules and links.
--   `Fsm.Links` and `Fsm.Closed` prove what registration, links and `_get_next_module` do, and
--   `Fsm.Calls` what a sequence of calls that sets a machine up leaves.
-- Framework/Context: framework/data.h and data.cc, the context: `init`, `reset`, `recollectable`.
--   `Context.ModuleData` is about the data of the modules, and `Context.Rand` is `my_rand`.
-- Framework/Engine: framework/fsm.cc, `handle_request`, `_run`, `resume`, `_end_request` over the store
--   of contexts. `Engine.Runs` is the relation that the code implements, `Engine.Total` the machines for
--   which it returns, `Engine.Exits` the ways out of a module, and `Engine.Accept` is `on_accepted` of
--   framework/tcp_server.cc.
-- Framework/Server: framework/tcp_server.cc, one process of a server: what it forks, reaps and signals.
--   `Server.Children` counts its children, `Server.Losses` is about a `fork` that fails, `Server.Exit`
--   about the children of a process that ends, and `Server.Elders` about the signals of a child.
-- Client/LoadBalancer, Client/TcpClient, Client/TcpClientPool: the files of these names in client/.
--   `LoadBalancer.Recovery` is about all addresses of a balancer, `LoadBalancer.Status` describes each by
--   a state machine of its own, and `LoadBalancer.Choice` and `LoadBalancer.Served` are about the address
--   that is given.
--   `TcpClientPool.Deques`, `Checks` and `Sizes` are about one deque, `Lending` and `Moves` about the
--   clients in all of them, and `Reference` compares the loops with a search and a filter.
-- Modules/Fork, Join, Simple: the files of these names in module/. A join is run by several threads; in
--   `Join.Alone`, as in the machine of example1/main.cc, by one handler after another.
-- Modules/Session: the asynchronous operations of one module, with the order of events left open.
-- Modules/Request, Response, Tcp: the handlers of request_module.cc, response_module.cc and
--   tcp_module.cc, as the effects that they have on a session. `Tcp.Sharing` joins the handlers of
--   tcp_module.cc with the pool: several requests that take clients from one pool and give them back.
--   `Tcp.TimeOut` is about the timers of one request. `Session.Endings` is for modules that have one
--   operation under way until they end; `Tcp.Endings` and `Request.Endings` are the tables that they follow.
-- Example1/Main: example1/main.cc, the machine that it sets up, for any flags. `Main.Links` and
--   `Main.Made` list its links and objects, `Main.Targets` what they are followed to. `Main.Table` is the
--   table of transitions, whose main lines the comment above `main` draws; `Main.Wiring`, `Main.Forks`, `Main.Else`,
--   `Main.Joins`, `Main.Gather` and `Main.Branches` are about what the framework does with the machine, the
--   last two with the joins of module/join_module.cc, and `Main.Ends` is about a request that is not read.
-- Example1/Serve: example1/main.cc, the server that it runs.
-- Example1/Data: example1/Data.h, Data.cc and FsmData.h, the data of a request.
-- Examples: tests, and the theorems at concrete inputs.
--
-- A pointer to a context or to a client is an index into a list, the store; a null pointer is `none`,
-- and a call through one is `none` or `crash`. A std::map is a list of pairs in the order of entry: the
-- order shows only in the order of virtual calls and of deletions. Virtual functions, system calls, the
-- time and random numbers are arguments. A call under a mutex is one step.
--
-- `_run` calls itself, also for the next request of a connection, so it takes fuel. Where the links lead
-- to lower ranks and the start module waits, two above the rank of the module is enough: 12 to resume
-- the machine of example1/main.cc after any of its modules.
-- All other loops are by recursion on their data.
--
-- Not modelled: framework/tcp_connection.h, a wrapper of a socket; framework/p_log.h; the unfinished
-- module/parallel_module.h; the accessors that the macros of macro_define/ write. Of example1/ most
-- headers are not in the repository: the states that they define are parameters, their modules are known
-- by what main.cc makes of them, and KaraModule and GuruModule, which main.cc does not use, are left out.
-- Bytes of messages and their parsing are the application's, and so are answers of virtual functions.
pub mod Prelude
pub mod Framework
pub mod Client
pub mod Modules
pub mod Example1
mod Examples
