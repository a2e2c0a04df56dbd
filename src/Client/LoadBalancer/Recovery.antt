-- ===== src/Client/LoadBalancer/Recovery.antt =====
-- client/load_balancer.cc: how an address that failed comes back.
use zerver.Prelude.{
  ℕ, String, Bool, true, false, List, [], ◌∷◌, ◌≡◌, refl, sym, arith, ◌||◌, if◌then◌else◌,
  string_eq, ◌⊎◌, All, subst, suc, ◌≤◌,
}
use zerver.Prelude.Maps.{find, assign, is_some, find-assign, find-nil}
use zerver.Prelude.Sets.{contains, erase, contains-add, find-erase}
use zerver.Client.LoadBalancer.{
  LoadBalancer, Event, connect_failed, recover_time, revive, new_load_balancer, clear_bad_ips,
  server_connect_fail, step, run,
}

abbrev pub is_alive : LoadBalancer → String → Bool
is_alive b ip = is_some (find ip b.alive_ips)

pub find-revive :
    (ip : String) (ips : List String) (alive : List (String × ℕ))
    → is_some (find ip (revive ips alive)) ≡ (contains ip ips || is_some (find ip alive))
unfolding revive contains
find-revive ip [] alive = refl
find-revive ip (j ∷ ips) alive =
    ground (
      arith,
      find-revive ip ips (assign j 1 alive),
      find-assign ip j 1 alive,
      string_eq.beq_iff j ip,
    )

-- The timer revives the good addresses, and no other.
pub is_alive-clear_bad_ips :
    (b : LoadBalancer) (ip : String)
    → is_alive (clear_bad_ips b) ip ≡ (contains ip b.good_ips || is_alive b ip)
unfolding clear_bad_ips
is_alive-clear_bad_ips b ip = find-revive ip b.good_ips b.alive_ips

pub is_alive-server_connect_fail :
    (b : LoadBalancer) (failed ip : String)
    → is_alive (server_connect_fail b failed) ip
      ≡ (if string_eq.beq failed ip then false else is_alive b ip)
unfolding server_connect_fail
is_alive-server_connect_fail b failed ip =
    ground (arith, find-erase ip failed b.alive_ips, string_eq.beq_iff failed ip)

-- Where an address stands: each configured one is alive, bad or good, none is both alive and bad, and
-- only configured ones are anywhere.
pub record IsValid (b : LoadBalancer) : Type 0 where
  pub placed :
      (ip : String)
      → contains ip b.ips ≡ true
      → (is_alive b ip || contains ip b.bad_ips || contains ip b.good_ips) ≡ true
  pub apart : (ip : String) → is_alive b ip ≡ true → contains ip b.bad_ips ≡ false
  pub known :
      (ip : String)
      → (is_alive b ip || contains ip b.bad_ips || contains ip b.good_ips) ≡ true
      → contains ip b.ips ≡ true

pub new_load_balancer-IsValid :
    (ips : List String) (port : ℕ) → IsValid (new_load_balancer ips port)
unfolding new_load_balancer contains
new_load_balancer-IsValid ips port = record {
  placed = λ ip h. ground (arith, find-revive ip ips []);
  apart = λ ip h. refl;
  known = λ ip h. ground (arith, find-revive ip ips [], find-nil {0, 0} {V = ℕ} ip);
}

fail-IsValid :
    (b : LoadBalancer) (failed : String)
    → contains failed b.ips ≡ true
    → IsValid b
    → IsValid (server_connect_fail b failed)
unfolding server_connect_fail
fail-IsValid b failed k v = record {
  placed = λ ip h.
      ground
        (arith, find-erase ip failed b.alive_ips, contains-add ip failed b.bad_ips, v.placed ip h);
  apart = λ ip h.
      ground
        (arith, find-erase ip failed b.alive_ips, contains-add ip failed b.bad_ips, v.apart ip);
  known = λ ip h. ground (
    arith,
    find-erase ip failed b.alive_ips,
    contains-add ip failed b.bad_ips,
    v.known ip,
    string_eq.beq_iff failed ip,
  );
}

clear-IsValid : (b : LoadBalancer) → IsValid b → IsValid (clear_bad_ips b)
unfolding clear_bad_ips contains
clear-IsValid b v = record {
  placed = λ ip h. ground (arith, find-revive ip b.good_ips b.alive_ips, v.placed ip h);
  apart = λ ip h. refl;
  known = λ ip h. ground (arith, find-revive ip b.good_ips b.alive_ips, v.known ip);
}

-- Failures are of configured addresses only.
abbrev pub IsKnown : List String → Event → Type 0
IsKnown ips (connect_failed ip) = contains ip ips ≡ true
IsKnown ips recover_time = Unit

pub ips-step : (b : LoadBalancer) (e : Event) → (step b e).ips ≡ b.ips
unfolding step
ips-step b (connect_failed ip) = refl
ips-step b recover_time = refl

step-IsValid : (b : LoadBalancer) (e : Event) → IsKnown b.ips e → IsValid b → IsValid (step b e)
unfolding step
step-IsValid b (connect_failed ip) k v = fail-IsValid b ip k v
step-IsValid b recover_time k v = clear-IsValid b v

-- Where it holds at first, it holds after any failures of configured addresses and any timers: each
-- configured address is alive, bad or good, no alive address is bad, and no other address is alive, bad
-- or good.
pub run-IsValid :
    (b : LoadBalancer) (es : List Event) → All (IsKnown b.ips) es → IsValid b → IsValid (run b es)
unfolding run
run-IsValid b [] k v = v
run-IsValid b (e ∷ es) k v =
    run-IsValid (step b e) es (subst (λ ips. All (IsKnown ips) es) (sym (ips-step b e)) k.1)
      (step-IsValid b e k.0 v)

-- How often the timer runs out in a history.
abbrev pub recoveries : List Event → ℕ
recoveries [] = 0
recoveries (connect_failed ip ∷ es) = recoveries es
recoveries (recover_time ∷ es) = suc (recoveries es)

abbrev pub NotFailing : String → Event → Type 0
NotFailing ip (connect_failed j) = string_eq.beq j ip ≡ false
NotFailing ip recover_time = Unit

-- An address is alive, or n timers are enough to make it so.
Recovers : ℕ → LoadBalancer → String → Type 0
Recovers n b ip =
    (is_alive b ip ≡ true)
    ⊎ ((contains ip b.good_ips ≡ true) × (1 ≤ n))
    ⊎ ((contains ip b.bad_ips ≡ true) × (2 ≤ n))

fail-Recovers :
    (n : ℕ) (b : LoadBalancer) (j ip : String)
    → string_eq.beq j ip ≡ false
    → Recovers n b ip
    → Recovers n (server_connect_fail b j) ip
unfolding server_connect_fail Recovers
fail-Recovers n b j ip ne r =
    ground (arith, find-erase ip j b.alive_ips, contains-add ip j b.bad_ips)

clear-Recovers :
    (n : ℕ) (b : LoadBalancer) (ip : String)
    → Recovers (suc n) b ip
    → Recovers n (clear_bad_ips b) ip
unfolding clear_bad_ips Recovers
clear-Recovers n b ip r = ground (arith, find-revive ip b.good_ips b.alive_ips)

run-Recovers :
    (b : LoadBalancer) (ip : String) (es : List Event)
    → All (NotFailing ip) es
    → Recovers (recoveries es) b ip
    → is_alive (run b es) ip ≡ true
unfolding run step Recovers
run-Recovers b ip [] h r = ground arith
run-Recovers b ip (connect_failed j ∷ es) h r =
    run-Recovers (server_connect_fail b j) ip es h.1 (fail-Recovers (recoveries es) b j ip h.0 r)
run-Recovers b ip (recover_time ∷ es) h r =
    run-Recovers (clear_bad_ips b) ip es h.1 (clear-Recovers (recoveries es) b ip r)

-- In a valid balancer a configured address that fails no more is alive once the timer has run out twice,
-- or more often.
pub run-recovers :
    (b : LoadBalancer) (ip : String) (es : List Event)
    → IsValid b
    → contains ip b.ips ≡ true
    → All (NotFailing ip) es
    → 2 ≤ recoveries es
    → is_alive (run b es) ip ≡ true
unfolding Recovers
run-recovers b ip es v k h two = run-Recovers b ip es h (ground (arith, v.placed ip k))

-- An address is out of use, and stays so for n more timers at least.
Resting : ℕ → LoadBalancer → String → Type 0
Resting n b ip = (is_alive b ip ≡ false) × ((contains ip b.good_ips ≡ false) ⊎ (n ≡ 0)) × (n ≤ 1)

fail-Resting :
    (n : ℕ) (b : LoadBalancer) (j ip : String)
    → Resting n b ip
    → Resting n (server_connect_fail b j) ip
unfolding server_connect_fail Resting
fail-Resting n b j ip r = ground (arith, find-erase ip j b.alive_ips)

clear-Resting :
    (n : ℕ) (b : LoadBalancer) (ip : String) → Resting (suc n) b ip → Resting n (clear_bad_ips b) ip
unfolding clear_bad_ips Resting
clear-Resting n b ip r = ground (arith, find-revive ip b.good_ips b.alive_ips)

run-Resting :
    (b : LoadBalancer) (ip : String) (es : List Event)
    → Resting (recoveries es) b ip
    → is_alive (run b es) ip ≡ false
unfolding run step Resting
run-Resting b ip [] r = r.0
run-Resting b ip (connect_failed j ∷ es) r =
    run-Resting (server_connect_fail b j) ip es (fail-Resting (recoveries es) b j ip r)
run-Resting b ip (recover_time ∷ es) r =
    run-Resting (clear_bad_ips b) ip es (clear-Resting (recoveries es) b ip r)

-- An address that fails when it is not among the good ones is out of use until the timer has run out
-- twice, whatever else fails.
pub run-rests :
    (b : LoadBalancer) (ip : String) (es : List Event)
    → contains ip b.good_ips ≡ false
    → recoveries es ≤ 1
    → is_alive (run (server_connect_fail b ip) es) ip ≡ false
unfolding Resting server_connect_fail
run-rests b ip es g one =
    run-Resting (server_connect_fail b ip) ip es
      (ground (arith, find-erase ip ip b.alive_ips, string_eq.beq_iff ip ip))

-- An address that fails while it is among the good ones is back in use at the next timer, though it is
-- then among the good ones again; any other is not.
pub fail-then-clear :
    (b : LoadBalancer) (ip : String)
    → is_alive (clear_bad_ips (server_connect_fail b ip)) ip ≡ contains ip b.good_ips
unfolding clear_bad_ips server_connect_fail
fail-then-clear b ip = ground (
  arith,
  find-revive ip b.good_ips (erase ip b.alive_ips),
  find-erase ip ip b.alive_ips,
  string_eq.beq_iff ip ip,
)
