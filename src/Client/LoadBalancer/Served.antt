-- ===== src/Client/LoadBalancer/Served.antt =====
-- client/load_balancer.cc: which address a hash is given after any history.
use zerver.Prelude.{
  ℕ, ◌%◌, String, none, some, List, [], ◌∷◌, ◌≡◌, refl, sym, subst, arith, if◌then◌else◌, string_eq,
  length, get_elem?, List-cases, inl, inr,
}
use zerver.Prelude.Sets.{contains}
use zerver.Prelude.Int.{ℤ, to_size}
use zerver.Client.LoadBalancer.{
  LoadBalancer, Event, connect_failed, recover_time, new_load_balancer, clear_bad_ips,
  server_connect_fail, get_alive_ip_by_hash, step, run,
}
use zerver.Client.LoadBalancer.Choice.{contains-get_elem?}
use zerver.Client.LoadBalancer.Status.{up, run_status, is_bad, run-HasStatus}

-- Nothing that happens changes the configured addresses or the port.
run-configured :
    (b : LoadBalancer) (es : List Event) → ((run b es).ips ≡ b.ips) × ((run b es).port ≡ b.port)
unfolding run step server_connect_fail clear_bad_ips
run-configured b [] = (refl, refl)
run-configured b (connect_failed ip ∷ es) = run-configured (server_connect_fail b ip) es
run-configured b (recover_time ∷ es) = run-configured (clear_bad_ips b) es

hash-choice :
    (b : LoadBalancer) (hash_val : ℤ) (ip : String)
    → get_elem? b.ips (to_size hash_val % length b.ips) ≡ some ip
    → get_alive_ip_by_hash b hash_val ≡ (if contains ip b.bad_ips then none else some (ip, b.port))
unfolding get_alive_ip_by_hash
hash-choice b hash_val ip at = elim (List-cases b.ips) [
  | inl e ↦
      absurd (cc (sym (subst (λ l. get_elem? l (to_size hash_val % length l) ≡ some ip) e at)))
  | inr (x, r, e) ↦ ground (arith, e, at)
]

-- After any failures and timers, a hash is given the address that a new balancer has at the hash, as a
-- `size_t`, modulo the number of addresses, with its port, unless that address is then bad by its own
-- state machine: it is given the same address again as soon as that has recovered, and never another.
pub run-get_alive_ip_by_hash :
    (ips : List String) (port : ℕ) (hash_val : ℤ) (ip : String) (es : List Event)
    → get_elem? ips (to_size hash_val % length ips) ≡ some ip
    → get_alive_ip_by_hash (run (new_load_balancer ips port) es) hash_val
      ≡ (if is_bad (run_status ip up es) then none else some (ip, port))
unfolding new_load_balancer
run-get_alive_ip_by_hash ips port hash_val ip es at =
    let b = run (new_load_balancer ips port) es in
    let (same_ips, same_port) = run-configured (new_load_balancer ips port) es in
    let there : get_elem? b.ips (to_size hash_val % length b.ips) ≡ some ip =
      subst (λ l. get_elem? l (to_size hash_val % length l) ≡ some ip) (sym same_ips) at in
    let status =
      run-HasStatus ips port ip es (contains-get_elem? ips (to_size hash_val % length ips) ip at) in
    ground (arith, hash-choice b hash_val ip there, status, same_port)
