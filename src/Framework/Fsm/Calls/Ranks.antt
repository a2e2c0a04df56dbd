-- ===== src/Framework/Fsm/Calls/Ranks.antt =====
-- framework/fsm.cc: machines that are set up by calls that add no two objects under one name: a rank of
-- the objects is a rank of their names.
use zerver.Prelude.{
  ℕ, String, Bool, true, false, not, ◌&&◌, ◌||◌, some, List, [], ◌∷◌, ◌≡◌, ◌<◌, refl, ap, ◌∙◌,
  arith, if◌then◌else◌, string_eq, Bool-cases, inl, inr, IsIn,
}
use zerver.Framework.Module.{Module, ModState}
use zerver.Framework.Fsm.Links.{linked}
use zerver.Framework.Fsm.Calls.{Call, add, link}
use zerver.Framework.Fsm.Calls.Names.{built, built-IsLink}

module _ {M : Type 0} (object : M → Module) where
  pub adds_name : List (Call M) → String → Bool
  adds_name [] name = false
  adds_name (add x ∷ cs) name = string_eq.beq (object x).name name || adds_name cs name
  adds_name (link a b s ∷ cs) name = adds_name cs name

  -- No two calls of `add_module` are for objects of one name.
  unfoldable pub has_distinct_names : List (Call M) → Bool
  unfolding adds_name
  has_distinct_names [] = true
  has_distinct_names (add x ∷ cs) = not (adds_name cs (object x).name) && has_distinct_names cs
  has_distinct_names (link a b s ∷ cs) = has_distinct_names cs

  adds_name-IsIn :
      (cs : List (Call M)) (x : M) → IsIn (add x) cs → adds_name cs (object x).name ≡ true
  unfolding adds_name
  adds_name-IsIn [] x i = elim i [ ]
  adds_name-IsIn (add y ∷ cs) x (inl e) =
      let same : y ≡ x = ground arith in
      ground
        (arith, ap (λ z. (object z).name) same, string_eq.beq_iff (object y).name (object x).name)
  adds_name-IsIn (add y ∷ cs) x (inr i) = ground (arith, adds_name-IsIn cs x i)
  adds_name-IsIn (link a b s ∷ cs) x (inl e) = cc
  adds_name-IsIn (link a b s ∷ cs) x (inr i) = adds_name-IsIn cs x i

  -- Objects that are added under one name are the same.
  pub same_object :
      (cs : List (Call M)) (x y : M)
      → has_distinct_names cs ≡ true
      → IsIn (add x) cs
      → IsIn (add y) cs
      → (object x).name ≡ (object y).name
      → x ≡ y
  unfolding has_distinct_names
  same_object [] x y d i j e = elim i [ ]
  same_object (link a b s ∷ cs) x y d (inl i) j e = cc
  same_object (link a b s ∷ cs) x y d (inr i) (inl j) e = cc
  same_object (link a b s ∷ cs) x y d (inr i) (inr j) e = same_object cs x y d i j e
  same_object (add z ∷ cs) x y d (inl i) (inl j) e = ground arith
  same_object (add z ∷ cs) x y d (inl i) (inr j) e =
      let same : z ≡ x = ground arith in
      ground (arith, adds_name-IsIn cs y j, ap (λ w. (object w).name) same)
  same_object (add z ∷ cs) x y d (inr i) (inl j) e =
      let same : z ≡ y = ground arith in
      ground (arith, adds_name-IsIn cs x i, ap (λ w. (object w).name) same)
  same_object (add z ∷ cs) x y d (inr i) (inr j) e = same_object cs x y (ground arith) i j e

  -- The rank of a name: that of the first object that is added under it.
  pub rank_of : (M → ℕ) → List (Call M) → String → ℕ
  rank_of rank [] name = 0
  rank_of rank (add x ∷ cs) name =
      if string_eq.beq (object x).name name then rank x else rank_of rank cs name
  rank_of rank (link a b s ∷ cs) name = rank_of rank cs name

  rank_of-found :
      (rank : M → ℕ) (cs : List (Call M)) (x : M)
      → IsIn (add x) cs
      → (y : M) × IsIn (add y) cs
        × ((object y).name ≡ (object x).name)
        × (rank_of rank cs (object x).name ≡ rank y)
  unfolding rank_of
  rank_of-found rank [] x i = elim i [ ]
  rank_of-found rank (link a b s ∷ cs) x (inl e) = cc
  rank_of-found rank (link a b s ∷ cs) x (inr i) =
      let (y, j, n, r) = rank_of-found rank cs x i in (y, inr j, n, r)
  rank_of-found rank (add z ∷ cs) x i =
      elim (Bool-cases (string_eq.beq (object z).name (object x).name)) [
        | inl e ↦ (z, inl refl, (string_eq.beq_iff (object z).name (object x).name).0 e, rw e)
        | inr d ↦ elim i [
          | inl e ↦
              let same : z ≡ x = ground arith in
              ground (
                arith,
                ap (λ w. (object w).name) same,
                string_eq.beq_iff (object z).name (object x).name,
              )
          | inr later ↦ let (y, j, n, r) = rank_of-found rank cs x later in (y, inr j, n, rw d r)
        ]
      ]

  pub rank_of-add :
      (rank : M → ℕ) (cs : List (Call M)) (x : M)
      → has_distinct_names cs ≡ true
      → IsIn (add x) cs
      → rank_of rank cs (object x).name ≡ rank x
  rank_of-add rank cs x d i =
      let (y, j, n, r) = rank_of-found rank cs x i in r ∙ ap rank (same_object cs y x d j i n)

  -- If every link leads from an object that is added to one of lower rank, then so do the links of the
  -- machine between the ranks of the names.
  pub built-ranked :
      (rank : M → ℕ) (cs : List (Call M))
      → has_distinct_names cs ≡ true
      → ((a b : M) (s : ModState)
          → IsIn (link a b s) cs
          → IsIn (add a) cs × IsIn (add b) cs × (rank b < rank a))
      → (name : String) (s : ModState) (t : String) → linked (built object cs) name s ≡ some t
      → rank_of rank cs t < rank_of rank cs name
  built-ranked rank cs d falls name s t h =
      let (a, b, i, n, e) = built-IsLink object cs name s t h in
      let (from, to, lt) = falls a b s i in
      let at = rank_of-add rank cs a d from in
      let bt = rank_of-add rank cs b d to in
      omega (arith, ap (rank_of rank cs) n, ap (rank_of rank cs) e)
