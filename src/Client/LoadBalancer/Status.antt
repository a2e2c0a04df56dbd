-- ===== src/Client/LoadBalancer/Status.antt =====
-- client/load_balancer.cc: the three containers of the balancer as a state machine for each address.
use zerver.Prelude.{
  ℕ, String, Bool, true, false, List, [], ◌∷◌, ◌≡◌, arith, if◌then◌else◌, string_eq,
}
use zerver.Prelude.Sets.{contains, contains-add, find-erase}
use zerver.Client.LoadBalancer.{
  LoadBalancer, Event, connect_failed, recover_time, new_load_balancer, clear_bad_ips,
  server_connect_fail, step, run,
}
use zerver.Client.LoadBalancer.Recovery.{is_alive, find-revive}

-- Where a configured address stands: in use; bad; good, that is waiting for one more timer; bad after
-- it has failed while it was good; and in use but still among the good ones.
pub data Status : Type 0 where
  up bad good bad_again up_early : Status

-- What one failure of the address, and one timer, make of its status.
abbrev pub fail_status : Status → Status
fail_status up = bad
fail_status bad = bad
fail_status good = bad_again
fail_status bad_again = bad_again
fail_status up_early = bad_again

abbrev pub recover_status : Status → Status
recover_status up = up
recover_status bad = good
recover_status good = up
recover_status bad_again = up_early
recover_status up_early = up

-- The history of one address: failures of the others do not count.
abbrev pub run_status : String → Status → List Event → Status
run_status ip s [] = s
run_status ip s (connect_failed j ∷ es) =
    run_status ip (if string_eq.beq j ip then fail_status s else s) es
run_status ip s (recover_time ∷ es) = run_status ip (recover_status s) es

abbrev pub is_up : Status → Bool
is_up up = true
is_up up_early = true
is_up _ = false

abbrev pub is_bad : Status → Bool
is_bad bad = true
is_bad bad_again = true
is_bad _ = false

abbrev pub is_good : Status → Bool
is_good good = true
is_good bad_again = true
is_good up_early = true
is_good _ = false

-- The containers hold the address as its status says.
abbrev pub HasStatus : LoadBalancer → String → Status → Type 0
HasStatus b ip s =
    (is_alive b ip ≡ is_up s)
    × (contains ip b.bad_ips ≡ is_bad s)
    × (contains ip b.good_ips ≡ is_good s)

fail-HasStatus :
    (b : LoadBalancer) (j ip : String) (s : Status)
    → HasStatus b ip s
    → HasStatus (server_connect_fail b j) ip (if string_eq.beq j ip then fail_status s else s)
unfolding server_connect_fail
fail-HasStatus b j ip up h =
    ground (arith, find-erase ip j b.alive_ips, contains-add ip j b.bad_ips, string_eq.beq_iff j ip)
fail-HasStatus b j ip _ h =
    ground (arith, find-erase ip j b.alive_ips, contains-add ip j b.bad_ips, string_eq.beq_iff j ip)

clear-HasStatus :
    (b : LoadBalancer) (ip : String) (s : Status)
    → HasStatus b ip s
    → HasStatus (clear_bad_ips b) ip (recover_status s)
unfolding clear_bad_ips contains
clear-HasStatus b ip up h = ground (arith, find-revive ip b.good_ips b.alive_ips)
clear-HasStatus b ip _ h = ground (arith, find-revive ip b.good_ips b.alive_ips)

steps-HasStatus :
    (b : LoadBalancer) (ip : String) (s : Status) (es : List Event)
    → HasStatus b ip s
    → HasStatus (run b es) ip (run_status ip s es)
unfolding run step
steps-HasStatus b ip s [] h = h
steps-HasStatus b ip s (connect_failed j ∷ es) h =
    steps-HasStatus (server_connect_fail b j) ip _ es (fail-HasStatus b j ip s h)
steps-HasStatus b ip s (recover_time ∷ es) h =
    steps-HasStatus (clear_bad_ips b) ip (recover_status s) es (clear-HasStatus b ip s h)

-- After any failures and timers, each address that a new balancer was configured with is alive, bad and
-- good exactly as its own state machine says, which starts in use and sees no failure of another address.
pub run-HasStatus :
    (ips : List String) (port : ℕ) (ip : String) (es : List Event)
    → contains ip ips ≡ true
    → HasStatus (run (new_load_balancer ips port) es) ip (run_status ip up es)
unfolding new_load_balancer contains
run-HasStatus ips port ip es known =
    steps-HasStatus (new_load_balancer ips port) ip up es (ground (arith, find-revive ip ips []))
