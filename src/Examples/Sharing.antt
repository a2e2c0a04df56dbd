-- ===== src/Examples/Sharing.antt =====
-- Tests of module/tcp_module.cc with client/tcp_client_pool.cc: two requests that share a pool.
use zerver.Prelude.{arith, ℕ, ◌≤◌, true, false, some, List, [], ◌∷◌, ◌++◌, length, ◌≡◌, refl}
use zerver.Prelude.Int.{pos}
use zerver.Client.TcpClient.{Poll, no_error, is_error}
use zerver.Client.TcpClient
use zerver.Prelude.Maps.{find, assign}
use zerver.Client.TcpClientPool.{
  new_tcp_client_pool, get_client, take_client, try_client, recollect,
}
use zerver.Modules.Session.{op_done, run_op}
use zerver.Modules.Session
use zerver.Modules.Tcp
use zerver.Client.TcpClientPool.Lending
use zerver.Client.TcpClientPool.Deques.{peer_of, IsLent}
use zerver.Modules.Tcp.Sharing.Lends.{run-lends}
use zerver.Modules.Tcp.Sharing.Busy.{run-exclusive}
use zerver.Modules.Tcp.{Answers, begin, handlers}
use zerver.Modules.Tcp.Sharing.{Request, Event, made, begun, happened, step, run, served}
use zerver.Modules.Tcp.Sharing.Owners.{owners, holders, run-holders}

abbrev fine : ℕ → Poll
fine p = record {
  poll_rc = pos 0;
  poll_error = TcpClient.no_error;
  peek_rc = pos 0;
  peek_error = TcpClient.no_error;
}

abbrev accepting : Answers
accepting = record {
  accepted = true;
  cancel_fails = false;
  socket_cancel_fails = false;
  req_len = 32;
  resp_body_len = 64;
}

-- The connect, the write, and both reads of a request.
abbrev answered : ℕ → List Event
answered i =
    happened i (op_done 0 Session.no_error) 0
    ∷ happened i (run_op 0 accepting) 0
    ∷ happened i (op_done 0 Session.no_error) 0
    ∷ happened i (run_op 0 accepting) 0
    ∷ happened i (op_done 0 Session.no_error) 0
    ∷ happened i (run_op 0 accepting) 0
    ∷ happened i (op_done 0 Session.no_error) 0
    ∷ happened i (run_op 0 accepting) 0
    ∷ []

-- The first request is answered, and its client is given back.
abbrev first : List Event
first = begun (some 7) fine made accepting 0 ∷ answered 0

abbrev second : Event
second = begun (some 7) fine made accepting 10

-- Once the first request is answered, its client is the only one, and the second request holds it.
abbrev shared : List Event
shared = first ++ second ∷ []

run-holders_example : holders 0 (served 60 5 shared) ≤ 1
run-holders_example = run-holders 60 5 shared 0

lent : (owners 0 (served 60 5 shared).requests ≡ 1) × (length (served 60 5 shared).pool.clients ≡ 1)
unfolding run step Session.step begin handlers get_client take_client try_client recollect find
    assign new_tcp_client_pool TcpClient.new_tcp_client TcpClient.on_recollect is_error
lent = (refl, refl)

-- The request that `begin` makes over the pooled client.
abbrev request : Request
request = begin (Tcp.pooled 0) accepting

-- The second request is writing.
run-exclusive_example :
    (c : ℕ) × (request.state.client ≡ some c)
    × (owners c (served 60 5 shared).requests ≡ 1)
    × (Lending.pooled c (served 60 5 shared).pool.free_clients ≡ 0)
unfolding run step Session.step begin handlers get_client take_client try_client recollect find
    assign new_tcp_client_pool TcpClient.new_tcp_client TcpClient.on_recollect is_error
run-exclusive_example = run-exclusive 60 5 shared 1 request refl (omega arith)

run-lends_example :
    IsLent 5 fine (get_client fine (served 60 5 first).pool 7).1.clients 0
    × (peer_of (get_client fine (served 60 5 first).pool 7).1.clients 0 ≡ some 7)
    × (Lending.pooled 0 (get_client fine (served 60 5 first).pool 7).1.free_clients ≡ 0)
    × (owners 0 (served 60 5 first).requests ≡ 0)
unfolding run step Session.step begin handlers get_client take_client try_client recollect find
    assign new_tcp_client_pool TcpClient.new_tcp_client TcpClient.on_recollect is_error
run-lends_example = run-lends 60 5 first fine 7 0 refl
