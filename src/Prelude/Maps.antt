-- ===== src/Prelude/Maps.antt =====
-- std::map and boost::unordered_map as association lists with one entry for a key: `insert` keeps an
-- entry that is there, as `std::map::insert` does, and `assign` overwrites it, as `m[k] = v` does.
use zerver.Prelude.Tests.{if◌then◌else◌}
use zerver.Prelude.Keys.{Eq, beq_refl}
use mathlib.Core.Path.{◌≡◌, refl}
use mathlib.Core.Bool.{Bool, true, false}
use mathlib.Core.Option.{Option, none, some}
use mathlib.Core.List.{List, [], ◌∷◌}
use native.Mathlib.Omega.{arith}

abbrev pub or_else {ℓ} : {A : Type ℓ} → Option A → Option A → Option A
or_else none b = b
or_else (some a) b = some a

abbrev pub is_some {ℓ} : {A : Type ℓ} → Option A → Bool
is_some none = false
is_some (some a) = true

module _ {ℓ κ} {K : Type ℓ} {V : Type κ} ⦃e : Eq K⦄ where
  unfoldable pub find : K → List (K × V) → Option V
  find k [] = none
  find k ((j, v) ∷ m) = if e.beq j k then some v else find k m

  unfoldable pub insert : K → V → List (K × V) → List (K × V)
  insert k v [] = (k, v) ∷ []
  insert k v ((j, w) ∷ m) = if e.beq j k then (j, w) ∷ m else (j, w) ∷ insert k v m

  unfoldable pub assign : K → V → List (K × V) → List (K × V)
  assign k v [] = (k, v) ∷ []
  assign k v ((j, w) ∷ m) = if e.beq j k then (j, v) ∷ m else (j, w) ∷ assign k v m

  pub find-nil : (k : K) → find k [] ≡ none
  unfolding find
  find-nil k = refl

  pub find-insert :
      (j k : K) (v : V) (m : List (K × V))
      → find j (insert k v m) ≡ or_else (find j m) (if e.beq k j then some v else none)
  unfolding find insert
  find-insert j k v [] = refl
  find-insert j k v ((i, w) ∷ m) =
      ground (arith, e.beq_iff i k, e.beq_iff i j, e.beq_iff k j, find-insert j k v m)

  pub find-assign :
      (j k : K) (v : V) (m : List (K × V))
      → find j (assign k v m) ≡ (if e.beq k j then some v else find j m)
  unfolding find assign
  find-assign j k v [] = refl
  find-assign j k v ((i, w) ∷ m) =
      ground (arith, e.beq_iff i k, e.beq_iff i j, e.beq_iff k j, find-assign j k v m)

  pub find-assign_self : (k : K) (v : V) (m : List (K × V)) → find k (assign k v m) ≡ some v
  find-assign_self k v m = ground (arith, find-assign k k v m, beq_refl e k)

module _ {ℓ κ} {K : Type ℓ} {V : Type κ} ⦃e : Eq K⦄ where
  -- No key has two entries.
  abbrev pub HasUniqueKeys : List (K × V) → Type κ
  HasUniqueKeys [] = Unit
  HasUniqueKeys ((k, v) ∷ m) = (find k m ≡ none) × HasUniqueKeys m

  pub assign-HasUniqueKeys :
      (k : K) (v : V) (m : List (K × V)) → HasUniqueKeys m → HasUniqueKeys (assign k v m)
  unfolding assign find
  assign-HasUniqueKeys k v [] h = (refl, tt)
  assign-HasUniqueKeys k v ((j, w) ∷ m) h =
      ground
        (arith, find-assign j k v m, assign-HasUniqueKeys k v m h.1, e.beq_iff j k, e.beq_iff k j)
