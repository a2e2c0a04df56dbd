-- ===== src/Client/LoadBalancer.antt =====
-- client/load_balancer.h and client/load_balancer.cc. The mutex makes each call a step of its own. The
-- order of an unordered container is that of its list; `rand()` is an argument. Vectors of addresses
-- are taken to be shorter than 2^31, so that an index fits an `int`.
pub mod Choice
pub mod Recovery
pub mod Status
pub mod Served
use zerver.Prelude.{
  ℕ, zero, suc, ◌%◌, String, Bool, true, false, Option, none, some, List, [], ◌∷◌, length,
  get_elem?, if◌then◌else◌, string_eq,
}
use zerver.Prelude.Maps.{assign}
use zerver.Prelude.Sets.{contains, add, erase}
use zerver.Prelude.Int.{ℤ, to_size}

pub record LoadBalancer : Type 0 where
  pub port : ℕ
  pub ips : List String
  pub bad_ips : List String
  pub good_ips : List String
  pub alive_ips : List (String × ℕ)

-- The loop `alive_ips_[*it] = 1`.
unfoldable pub revive : List String → List (String × ℕ) → List (String × ℕ)
revive [] alive = alive
revive (ip ∷ ips) alive = revive ips (assign ip 1 alive)

unfoldable pub new_load_balancer : List String → ℕ → LoadBalancer
unfolding revive
new_load_balancer ips port = record {
  port = port;
  ips = ips;
  bad_ips = [];
  good_ips = [];
  alive_ips = revive ips [];
}

-- `good_ips_.swap(bad_ips_); bad_ips_.clear()` leaves the bad addresses as the good ones.
unfoldable pub clear_bad_ips : LoadBalancer → LoadBalancer
clear_bad_ips b = record b {
  alive_ips = revive b.good_ips b.alive_ips;
  good_ips = b.bad_ips;
  bad_ips = [];
}

-- `none`: the result is false, `ip` is cleared and `port` is not written.
unfoldable pub get_alive_ip_by_hash : LoadBalancer → ℤ → Option (String × ℕ)
get_alive_ip_by_hash b hash_val = elim b.ips [
  | [] ↦ none
  | first ∷ rest ↦ elim (get_elem? b.ips (to_size hash_val % length b.ips)) [
    | none ↦ none
    | some ip ↦ if contains ip b.bad_ips then none else some (ip, b.port)
  ]
]

-- The empty string stands for an index that is out of range, also for a negative one.
unfoldable pub get_ip_by_index : LoadBalancer → ℤ → String
get_ip_by_index b index = elim (get_elem? b.ips (to_size index)) [ none ↦ "" | some ip ↦ ip ]

-- The loop that steps an iterator `n` times.
unfoldable pub nth_entry : List (String × ℕ) → ℕ → Option String
nth_entry [] n = none
nth_entry ((ip, one) ∷ alive) zero = some ip
nth_entry ((ip, one) ∷ alive) (suc n) = nth_entry alive n

unfoldable pub get_alive_ip_random : LoadBalancer → ℕ → Option (String × ℕ)
unfolding nth_entry
get_alive_ip_random b rand = elim b.alive_ips [
  | [] ↦ none
  | first ∷ rest ↦ elim (nth_entry b.alive_ips (rand % length b.alive_ips)) [
    | none ↦ none
    | some ip ↦ some (ip, b.port)
  ]
]

unfoldable pub server_connect_fail : LoadBalancer → String → LoadBalancer
server_connect_fail b ip = record b { alive_ips = erase ip b.alive_ips; bad_ips = add ip b.bad_ips }

-- What happens to a balancer: a connection fails, or the timer of `call_later` runs out.
pub data Event : Type 0 where
  connect_failed : String → Event
  recover_time : Event

unfoldable pub step : LoadBalancer → Event → LoadBalancer
unfolding server_connect_fail clear_bad_ips
step b (connect_failed ip) = server_connect_fail b ip
step b recover_time = clear_bad_ips b

unfoldable pub run : LoadBalancer → List Event → LoadBalancer
run b [] = b
run b (e ∷ es) = run (step b e) es
