-- ===== src/Modules/Join/Threads.antt =====
-- module/join_module.cc: what is counted over the threads, and how a step changes it.
use zerver.Prelude.{
  ℕ, zero, suc, ◌+◌, Option, none, some, List, [], ◌∷◌, ◌≡◌, ap, arith, ◌==◌, if◌then◌else◌,
  get_elem?, set,
}
use zerver.Framework.Module.{mod_succeed}
use zerver.Modules.Join.{outside, inside, returned, Thread}

abbrev pub total : (Thread → ℕ) → List Thread → ℕ
total f [] = 0
total f (t ∷ ts) = f t + total f ts

pub total-set :
    (f : Thread → ℕ) (ts : List Thread) (i : ℕ) (t t' : Thread)
    → get_elem? ts i ≡ some t
    → total f (set ts i t') + f t ≡ total f ts + f t'
total-set f [] i t t' h = cc
total-set f (x ∷ ts) zero t t' h = omega (arith, ap (get_or_zero f) h)
  where
    get_or_zero : (Thread → ℕ) → Option Thread → ℕ
    get_or_zero g none = 0
    get_or_zero g (some y) = g y
total-set f (x ∷ ts) (suc i) t t' h = omega (arith, total-set f ts i t t' h)

-- A thread that has passed the lock.
abbrev pub arrived : Thread → ℕ
arrived t = elim t.phase [ outside ↦ 0 | inside k ↦ 1 | returned k r ↦ 1 ]

-- A thread that has passed the lock and brought another state than `Mod_Succeed`.
abbrev pub failing : Thread → ℕ
failing t = if t.last == mod_succeed then 0 else arrived t

-- A thread that brings such a state, wherever it is.
abbrev pub doomed : Thread → ℕ
doomed t = if t.last == mod_succeed then 0 else 1

-- A thread that was given the number k under the lock.
abbrev pub numbered : ℕ → Thread → ℕ
numbered k t = elim t.phase [
  | outside ↦ 0
  | inside j ↦ if j == k then 1 else 0
  | returned j r ↦ if j == k then 1 else 0
]

-- A thread that has set the timer.
abbrev pub fired : Thread → ℕ
fired t = elim t.phase [
  | outside ↦ 0
  | inside j ↦ 0
  | returned j r ↦ elim r [ none ↦ 0 | some s ↦ 1 ]
]

-- A thread that is still on its way.
abbrev pub running : Thread → ℕ
running t = elim t.phase [ outside ↦ 1 | inside j ↦ 1 | returned j r ↦ 0 ]
