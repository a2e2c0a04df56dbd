-- ===== src/Prelude/Lists.antt =====
-- Lists measured and indexed by native numbers, under the library's names.
use Prim.Native.Nat.{ℕ, zero, suc, ◌+◌, ◌<◌, ◌≤◌}
use mathlib.Core.Path.{◌≡◌, refl, sym, ap, subst}
use mathlib.Core.Logic.{◌≢◌, ◌⊎◌, inl, inr}
use mathlib.Core.List.{List, [], ◌∷◌, ◌++◌}
use mathlib.Core.Option.{Option, none, some, some-injective}
use native.Mathlib.Omega.{arith}
use zerver.Prelude.Tests.{◌==◌, ==_iff, Bool-cases, if◌then◌else◌}
use mathlib.Core.Bool.{Bool}

module _ {ℓ} {A : Type ℓ} where
  abbrev pub length : List A → ℕ
  length [] = 0
  length (x ∷ xs) = suc (length xs)

  abbrev pub get_elem? : List A → ℕ → Option A
  get_elem? [] i = none
  get_elem? (x ∷ xs) zero = some x
  get_elem? (x ∷ xs) (suc i) = get_elem? xs i

  -- A write out of bounds changes nothing.
  abbrev pub set : List A → ℕ → A → List A
  set [] i v = []
  set (x ∷ xs) zero v = v ∷ xs
  set (x ∷ xs) (suc i) v = x ∷ set xs i v

  pub length-append : (xs ys : List A) → length (xs ++ ys) ≡ length xs + length ys
  length-append [] ys = omega arith
  length-append (x ∷ xs) ys = omega (arith, length-append xs ys)

  -- A predicate that holds of every element.
  abbrev pub All {κ} : (A → Type κ) → List A → Type κ
  All P [] = Unit
  All P (x ∷ xs) = P x × All P xs

module _ {ℓ} {A : Type ℓ} where
  -- The library's `filter`, for a Boolean test.
  abbrev pub filter : (A → Bool) → List A → List A
  filter test [] = []
  filter test (x ∷ xs) = if test x then x ∷ filter test xs else filter test xs

  -- The first element that meets a test, with what stands behind it.
  abbrev pub find_first : (A → Bool) → List A → Option A × List A
  find_first test [] = (none, [])
  find_first test (x ∷ xs) = if test x then (some x, xs) else find_first test xs

  pub length-set : (xs : List A) (i : ℕ) (v : A) → length (set xs i v) ≡ length xs
  length-set [] i v = refl
  length-set (x ∷ xs) zero v = refl
  length-set (x ∷ xs) (suc i) v = ap suc (length-set xs i v)

  pub get_elem?-set_self :
      (xs : List A) (i : ℕ) (v : A) → i < length xs → get_elem? (set xs i v) i ≡ some v
  get_elem?-set_self [] i v h = elim h [ ]
  get_elem?-set_self (x ∷ xs) zero v h = refl
  get_elem?-set_self (x ∷ xs) (suc i) v h = get_elem?-set_self xs i v (omega arith)

  pub get_elem?-set_ne :
      (xs : List A) {i j : ℕ} (v : A) → i ≢ j → get_elem? (set xs i v) j ≡ get_elem? xs j
  get_elem?-set_ne [] v h = refl
  get_elem?-set_ne (x ∷ xs) {i = zero} {j = zero} v h = absurd (h refl)
  get_elem?-set_ne (x ∷ xs) {i = zero} {j = suc j} v h = refl
  get_elem?-set_ne (x ∷ xs) {i = suc i} {j = zero} v h = refl
  get_elem?-set_ne (x ∷ xs) {i = suc i} {j = suc j} v h = get_elem?-set_ne xs v (λ e. h (ap suc e))

  pub get_elem?-lt : (xs : List A) (i : ℕ) {x : A} → get_elem? xs i ≡ some x → i < length xs
  get_elem?-lt [] i h = cc
  get_elem?-lt (x ∷ xs) zero h = omega arith
  get_elem?-lt (x ∷ xs) (suc i) h = omega (arith, get_elem?-lt xs i h)

  pub get_elem?-some : (xs : List A) (i : ℕ) → i < length xs → (x : A) × (get_elem? xs i ≡ some x)
  get_elem?-some [] i h = elim h [ ]
  get_elem?-some (x ∷ xs) zero h = (x, refl)
  get_elem?-some (x ∷ xs) (suc i) h = get_elem?-some xs i (omega arith)

  pub get_elem?-append_left :
      (xs ys : List A) (i : ℕ) → i < length xs → get_elem? (xs ++ ys) i ≡ get_elem? xs i
  get_elem?-append_left [] ys i h = elim h [ ]
  get_elem?-append_left (x ∷ xs) ys zero h = refl
  get_elem?-append_left (x ∷ xs) ys (suc i) h = get_elem?-append_left xs ys i (omega arith)

  pub get_elem?-append_length :
      (xs : List A) (y : A) → get_elem? (xs ++ y ∷ []) (length xs) ≡ some y
  get_elem?-append_length [] y = refl
  get_elem?-append_length (x ∷ xs) y = get_elem?-append_length xs y

  pub set-append_length : (xs : List A) (y z : A) → set (xs ++ y ∷ []) (length xs) z ≡ xs ++ z ∷ []
  set-append_length [] y z = refl
  set-append_length (x ∷ xs) y z = ap (◌∷◌ x) (set-append_length xs y z)

  pub All-append {κ} : (P : A → Type κ) (xs ys : List A) → All P xs → All P ys → All P (xs ++ ys)
  All-append P [] ys hx hy = hy
  All-append P (x ∷ xs) ys hx hy = (hx.0, All-append P xs ys hx.1 hy)

  pub All-set {κ} :
      (P : A → Type κ) (xs : List A) (i : ℕ) (v : A) → All P xs → P v → All P (set xs i v)
  All-set P [] i v h p = tt
  All-set P (x ∷ xs) zero v h p = (p, h.1)
  All-set P (x ∷ xs) (suc i) v h p = (h.0, All-set P xs i v h.1 p)

  pub All-get_elem? {κ} :
      (P : A → Type κ) (xs : List A) (i : ℕ) (x : A) → All P xs → get_elem? xs i ≡ some x → P x
  All-get_elem? P [] i x h e = cc
  All-get_elem? P (y ∷ xs) zero x h e = subst P (some-injective y x e) h.0
  All-get_elem? P (y ∷ xs) (suc i) x h e = All-get_elem? P xs i x h.1 e

  pub set-get_elem? : (xs : List A) (i : ℕ) (v : A) → get_elem? xs i ≡ some v → set xs i v ≡ xs
  set-get_elem? [] i v h = refl
  set-get_elem? (x ∷ xs) zero v h = ap (λ y. y ∷ xs) (sym (some-injective x v h))
  set-get_elem? (x ∷ xs) (suc i) v h = ap (◌∷◌ x) (set-get_elem? xs i v h)

module _ {A : Type 0} where
  -- Membership that keeps the place.
  abbrev pub IsIn : A → List A → Type 0
  IsIn x [] = ⊥
  IsIn x (y ∷ ys) = (x ≡ y) ⊎ IsIn x ys

  pub IsIn-append_left : (x : A) (xs ys : List A) → IsIn x xs → IsIn x (xs ++ ys)
  IsIn-append_left x [] ys h = elim h [ ]
  IsIn-append_left x (y ∷ xs) ys (inl e) = inl e
  IsIn-append_left x (y ∷ xs) ys (inr h) = inr (IsIn-append_left x xs ys h)

  pub IsIn-append_right : (x : A) (xs ys : List A) → IsIn x ys → IsIn x (xs ++ ys)
  IsIn-append_right x [] ys h = h
  IsIn-append_right x (y ∷ xs) ys h = inr (IsIn-append_right x xs ys h)

  pub All-IsIn : (P : A → Type 0) (x : A) (xs : List A) → All P xs → IsIn x xs → P x
  All-IsIn P x [] h m = elim m [ ]
  All-IsIn P x (y ∷ xs) h (inl e) = subst P (sym e) h.0
  All-IsIn P x (y ∷ xs) h (inr m) = All-IsIn P x xs h.1 m

  -- The rounds of a counted loop, from round `i` on, with the rounds that are left.
  abbrev pub rounds : (ℕ → List A) → ℕ → ℕ → List A
  rounds body i zero = []
  rounds body i (suc left) = body i ++ rounds body (suc i) left

  pub IsIn-rounds :
      (x : A) (body : ℕ → List A) (i left k : ℕ)
      → i ≤ k
      → k < i + left
      → IsIn x (body k)
      → IsIn x (rounds body i left)
  IsIn-rounds x body i zero k le lt h = absurd (omega arith)
  IsIn-rounds x body i (suc left) k le lt h = elim (Bool-cases (i == k)) [
    | inl e ↦
        IsIn-append_left x (body i) (rounds body (suc i) left)
          (subst (λ n. IsIn x (body n)) (sym ((==_iff i k).0 e)) h)
    | inr d ↦
        IsIn-append_right x (body i) (rounds body (suc i) left)
          (IsIn-rounds x body (suc i) left k (ground (arith)) (omega arith) h)
  ]

  -- What holds of each round's list holds of all.
  pub All-rounds :
      (P : A → Type 0) (body : ℕ → List A) (i left : ℕ)
      → ((k : ℕ) → i ≤ k → k < i + left → All P (body k))
      → All P (rounds body i left)
  All-rounds P body i zero h = tt
  All-rounds P body i (suc left) h =
      All-append P (body i) (rounds body (suc i) left) (h i (omega arith) (omega arith))
        (All-rounds P body (suc i) left (λ k le lt. h k (omega arith) (omega arith)))
