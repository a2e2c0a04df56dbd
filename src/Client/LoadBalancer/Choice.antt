-- ===== src/Client/LoadBalancer/Choice.antt =====
-- client/load_balancer.cc: which address a caller is given.
use zerver.Prelude.{
  ℕ, zero, suc, ◌%◌, ◌^◌, ◌<◌, ◌≤◌, String, true, none, some, List, [], ◌∷◌, ◌≡◌, refl, ap, arith,
  string_eq, ◌⊎◌, inl, inr, length, get_elem?, Option-cases, Bool-cases, List-cases, get_elem?-lt,
}
use native.Mathlib.Nat.{mod-eq_of_lt}
use zerver.Prelude.Maps.{find, is_some}
use zerver.Prelude.Sets.{contains}
use zerver.Prelude.Int.{negsuc, to_size}
use zerver.Client.LoadBalancer.{LoadBalancer, get_ip_by_index, nth_entry, get_alive_ip_random}
use zerver.Client.LoadBalancer.Recovery.{is_alive}

pub contains-get_elem? :
    (ips : List String) (i : ℕ) (ip : String) → get_elem? ips i ≡ some ip → contains ip ips ≡ true
unfolding contains
contains-get_elem? [] i ip h = cc
contains-get_elem? (j ∷ ips) zero ip h = ground (arith, string_eq.beq_iff j ip)
contains-get_elem? (j ∷ ips) (suc i) ip h = ground (arith, contains-get_elem? ips i ip h)

-- The empty string is given for a negative `int`, where there are at most 2^31 addresses.
pub get_ip_by_index-negative :
    (b : LoadBalancer) (n : ℕ)
    → n < 2 ^ 31
    → length b.ips ≤ 2 ^ 31
    → get_ip_by_index b (negsuc n) ≡ ""
unfolding get_ip_by_index
get_ip_by_index-negative b n h k = elim (Option-cases (get_elem? b.ips (to_size (negsuc n)))) [
  | inl e ↦ rw (e, get_ip_by_index)
  | inr (ip, e) ↦ absurd (omega (arith, get_elem?-lt b.ips (to_size (negsuc n)) e))
]

nth_entry-some :
    (alive : List (String × ℕ)) (n : ℕ)
    → n < length alive
    → (ip : String) × (nth_entry alive n ≡ some ip) × (is_some (find ip alive) ≡ true)
unfolding nth_entry find
nth_entry-some [] n h = elim h [ ]
nth_entry-some ((ip, v) ∷ alive) zero h = (ip, refl, ground (arith, string_eq.beq_iff ip ip))
nth_entry-some ((j, v) ∷ alive) (suc n) h =
    let (ip, e, f) = nth_entry-some alive n (omega arith) in (ip, e, ground arith)

nth_entry-find :
    (alive : List (String × ℕ)) (ip : String)
    → is_some (find ip alive) ≡ true
    → (n : ℕ) × (n < length alive) × (nth_entry alive n ≡ some ip)
unfolding nth_entry find
nth_entry-find [] ip h = cc
nth_entry-find ((j, v) ∷ alive) ip h = elim (Bool-cases (string_eq.beq j ip)) [
  | inl e ↦ (0, omega arith, ap some ((string_eq.beq_iff j ip).0 e))
  | inr e ↦
      let (n, lt, found) = nth_entry-find alive ip (ground arith) in (suc n, omega arith, found)
]

-- The random choice fails only if no address is alive, and else gives an alive address and the port.
pub get_alive_ip_random_lem :
    (b : LoadBalancer) (rand : ℕ)
    → ((b.alive_ips ≡ []) × (get_alive_ip_random b rand ≡ none))
      ⊎ ((ip : String) × (is_alive b ip ≡ true) × (get_alive_ip_random b rand ≡ some (ip, b.port)))
unfolding get_alive_ip_random
get_alive_ip_random_lem b rand = elim (List-cases b.alive_ips) [
  | inl e ↦ inl (e, rw (e, get_alive_ip_random))
  | inr (x, r, e) ↦
      let (ip, found, there) =
        nth_entry-some b.alive_ips (rand % length b.alive_ips) (omega (arith, ap length e)) in
      inr (ip, there, ground (arith, e, found))
]

-- Every alive address is given for some number that `rand` can draw.
pub get_alive_ip_random-reaches :
    (b : LoadBalancer) (ip : String)
    → is_alive b ip ≡ true
    → (rand : ℕ) × (rand < length b.alive_ips) × (get_alive_ip_random b rand ≡ some (ip, b.port))
unfolding get_alive_ip_random
get_alive_ip_random-reaches b ip h =
    let (n, lt, found) = nth_entry-find b.alive_ips ip h in
    elim (List-cases b.alive_ips) [
      | inl e ↦ absurd (omega (arith, ap length e))
      | inr (x, r, e) ↦ (n, lt, ground (arith, e, found, mod-eq_of_lt lt))
    ]
