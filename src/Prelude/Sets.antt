-- ===== src/Prelude/Sets.antt =====
-- boost::unordered_set as a list, and `erase` of both containers.
use zerver.Prelude.Tests.{if◌then◌else◌}
use zerver.Prelude.Keys.{Eq}
use zerver.Prelude.Maps.{find}
use mathlib.Core.Path.{◌≡◌, refl}
use mathlib.Core.Bool.{Bool, false, ◌||◌}
use mathlib.Core.Option.{none}
use mathlib.Core.List.{List, [], ◌∷◌}
use native.Mathlib.Omega.{arith}

module _ {ℓ} {K : Type ℓ} ⦃e : Eq K⦄ where
  unfoldable pub contains : K → List K → Bool
  contains k [] = false
  contains k (j ∷ s) = e.beq j k || contains k s

  -- An element that is there is not entered again.
  unfoldable pub add : K → List K → List K
  add k [] = k ∷ []
  add k (j ∷ s) = if e.beq j k then j ∷ s else j ∷ add k s

  pub contains-add : (j k : K) (s : List K) → contains j (add k s) ≡ e.beq k j || contains j s
  unfolding contains add
  contains-add j k [] = refl
  contains-add j k (i ∷ s) =
      ground (arith, e.beq_iff i k, e.beq_iff i j, e.beq_iff k j, contains-add j k s)

module _ {ℓ κ} {K : Type ℓ} {V : Type κ} ⦃e : Eq K⦄ where
  unfoldable pub erase : K → List (K × V) → List (K × V)
  erase k [] = []
  erase k ((j, v) ∷ m) = if e.beq j k then erase k m else (j, v) ∷ erase k m

  pub find-erase :
      (j k : K) (m : List (K × V)) → find j (erase k m) ≡ (if e.beq k j then none else find j m)
  unfolding find erase
  find-erase j k [] = ground arith
  find-erase j k ((i, v) ∷ m) =
      ground (arith, e.beq_iff i k, e.beq_iff i j, e.beq_iff k j, find-erase j k m)
