-- ===== src/Examples/Client.antt =====
-- Tests of client/: a balancer of two addresses, and a pool of four clients of two peers.
use zerver.Prelude.{
  ℕ, ◌≤◌, true, false, none, some, List, [], ◌∷◌, ◌≡◌, refl, arith, string_eq, nat_eq,
}
use zerver.Prelude.Maps.{find}
use zerver.Prelude.Sets.{contains}
use zerver.Prelude.Int.{pos, negsuc}
use zerver.Client.LoadBalancer.{
  LoadBalancer, connect_failed, recover_time, new_load_balancer, revive, server_connect_fail,
  clear_bad_ips, get_alive_ip_by_hash, get_alive_ip_random, Event,
}
use zerver.Client.LoadBalancer
use zerver.Client.LoadBalancer.Recovery.{
  is_alive, IsValid, new_load_balancer-IsValid, run-IsValid, run-recovers,
}
use zerver.Client.LoadBalancer.Status.{up_early, HasStatus, run-HasStatus}
use zerver.Client.LoadBalancer.Served.{run-get_alive_ip_by_hash}
use zerver.Client.TcpClient.{TcpClient, Poll, is_error, no_error}
use zerver.Client.TcpClientPool.{TcpClientPool, take_client, get_client, check_clients, recollect}
use zerver.Client.TcpClientPool.Deques.{count}
use zerver.Client.TcpClientPool.Lending.{
  pooled, get_client-IsValid, check_clients-IsValid, recollect-IsValid, get_client-some,
  get_client-none, get_client-other,
}
use zerver.Client.TcpClientPool.Lending
use zerver.Client.TcpClientPool.{deque_of}
use zerver.Client.TcpClientPool.Reference.{
  is_usable, is_fresh, filter_deques, take_client-eq-find_first, check_clients-eq-filter,
  get_client-recollect,
}
use zerver.Prelude.{find_first}

abbrev balancer : LoadBalancer
balancer = new_load_balancer ("10.0.0.1" ∷ "10.0.0.2" ∷ []) 80

abbrev history : List Event
history = connect_failed "10.0.0.1" ∷ recover_time ∷ connect_failed "10.0.0.2" ∷ recover_time ∷ []

balancer-IsValid : IsValid balancer
balancer-IsValid = new_load_balancer-IsValid ("10.0.0.1" ∷ "10.0.0.2" ∷ []) 80

run-IsValid_example : IsValid (LoadBalancer.run balancer history)
unfolding new_load_balancer contains
run-IsValid_example = run-IsValid balancer history (refl, (tt, (refl, (tt, tt)))) balancer-IsValid

run-recovers_example :
    is_alive
      (LoadBalancer.run
        (server_connect_fail balancer "10.0.0.1")
        (recover_time ∷ connect_failed "10.0.0.2" ∷ recover_time ∷ []))
      "10.0.0.1"
    ≡ true
unfolding new_load_balancer contains server_connect_fail LoadBalancer.run LoadBalancer.step
run-recovers_example =
    run-recovers (server_connect_fail balancer "10.0.0.1") "10.0.0.1"
      (recover_time ∷ connect_failed "10.0.0.2" ∷ recover_time ∷ [])
      (run-IsValid balancer (connect_failed "10.0.0.1" ∷ []) (refl, tt) balancer-IsValid) refl
      (tt, (refl, (tt, tt))) (omega arith)

-- The first address fails, waits, fails again, and is in use at the next timer.
abbrev relapse : List Event
relapse = connect_failed "10.0.0.1" ∷ recover_time ∷ connect_failed "10.0.0.1" ∷ recover_time ∷ []

run-HasStatus_example : HasStatus (LoadBalancer.run balancer relapse) "10.0.0.1" up_early
unfolding contains
run-HasStatus_example = run-HasStatus ("10.0.0.1" ∷ "10.0.0.2" ∷ []) 80 "10.0.0.1" relapse refl

-- The hash is -1, which stands for the second address; that has failed.
run-get_alive_ip_by_hash_example :
    get_alive_ip_by_hash (LoadBalancer.run balancer (connect_failed "10.0.0.2" ∷ [])) (negsuc 0)
    ≡ none
run-get_alive_ip_by_hash_example =
    run-get_alive_ip_by_hash ("10.0.0.1" ∷ "10.0.0.2" ∷ []) 80 (negsuc 0) "10.0.0.2"
      (connect_failed "10.0.0.2" ∷ []) refl

abbrev fine : ℕ → Poll
fine p = record { poll_rc = pos 0; poll_error = no_error; peek_rc = pos 0; peek_error = no_error }

abbrev client : ℕ → ℕ → TcpClient
client peer_id touched = record {
  times = 0;
  peer_id = peer_id;
  is_closed = false;
  last_touch_time = touched;
}

-- Client 0 is closed, 1 and 2 are of the same peer, and 3 is lent.
abbrev pool : TcpClientPool
pool = record {
  max_times = 5;
  check_time = 60;
  clients = record (client 7 0) { is_closed = true } ∷ client 7 0 ∷ client 7 90 ∷ client 8 50 ∷ [];
  free_clients = (7, 0 ∷ 1 ∷ 2 ∷ []) ∷ [];
}

pool-IsValid : Lending.IsValid pool
unfolding pooled find
pool-IsValid = record { once = λ p. ground arith; filed = λ k p h. ground arith }

once : (q : ℕ) → count q (0 ∷ 1 ∷ 2 ∷ []) ≤ 1
once q = ground arith

take_client-eq-find_first_example :
    ((take_client 5 fine pool.clients (0 ∷ 1 ∷ 2 ∷ [])).0
      ≡ (find_first (is_usable 5 fine pool.clients) (0 ∷ 1 ∷ 2 ∷ [])).0)
    × ((take_client 5 fine pool.clients (0 ∷ 1 ∷ 2 ∷ [])).1
        ≡ (find_first (is_usable 5 fine pool.clients) (0 ∷ 1 ∷ 2 ∷ [])).1)
take_client-eq-find_first_example =
    take_client-eq-find_first 5 fine pool.clients (0 ∷ 1 ∷ 2 ∷ []) once

check_clients-eq-filter_example :
    (check_clients 100 fine pool).free_clients
    ≡ filter_deques (is_fresh 60 100 fine pool.clients) pool.free_clients
check_clients-eq-filter_example = check_clients-eq-filter 100 fine pool

-- Client 3 is given back, and asked for.
get_client-recollect_example :
    ((get_client fine (recollect 100 pool (some 3)) 8).0 ≡ some 3)
    × (deque_of 8 (get_client fine (recollect 100 pool (some 3)) 8).1.free_clients ≡ [])
unfolding is_error find
get_client-recollect_example = get_client-recollect 100 fine pool 3 (client 8 50) refl refl refl
