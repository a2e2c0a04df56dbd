-- ===== src/Framework/Fsm/Calls.antt =====
-- framework/fsm.cc: machines that are set up by a sequence of calls of `add_module` and `link_module`,
-- as `main` of a server makes them.
pub mod Names
pub mod Ranks
use zerver.Prelude.{
  ℕ, String, Bool, true, false, not, ◌&&◌, ◌||◌, Option, none, some, List, [], ◌∷◌, ◌≡◌, ◌≢◌, refl,
  sym, ap, ◌∙◌, subst, arith, if◌then◌else◌, string_eq, nat_eq, Option-cases, Bool-cases, ◌⊎◌, inl,
  inr, IsIn, All,
}
use zerver.Prelude.Maps.{find, or_else, is_some, find-nil}
use zerver.Framework.Module.{Module, ModState}
use zerver.Framework.Fsm.{Fsm, new_fsm, add_module, link_module}
use zerver.Framework.Fsm.Links.{linked, find-add_module, linked-link_module}
use zerver.Framework.Fsm.Closed.{
  IsRegistered, IsClosed, add_module-IsRegistered, linked-add_module, mod_map-link_module,
}
use zerver.Framework.Context.Reset.{NoNull, NoNull-assign}

-- A call, on the objects that the set-up makes.
pub data Call (M : Type 0) : Type 0 where
  add : M → Call M
  link : M → M → ModState → Call M

module _ {M : Type 0} (object : M → Module) where
  unfoldable pub apply_calls : List (Call M) → Fsm → Fsm
  apply_calls [] f = f
  apply_calls (add m ∷ cs) f = apply_calls cs (add_module f (object m))
  apply_calls (link a b s ∷ cs) f = apply_calls cs (link_module f (object a) (object b) s)

  pub apply_calls-keeps :
      (cs : List (Call M)) (f : Fsm) (name : String) (m : Module)
      → find name f.mod_map ≡ some (some m)
      → find name (apply_calls cs f).mod_map ≡ some (some m)
  unfolding apply_calls
  apply_calls-keeps [] f name m h = h
  apply_calls-keeps (add x ∷ cs) f name m h =
      apply_calls-keeps cs (add_module f (object x)) name m
        (rw (find-add_module f (object x) name, h))
  apply_calls-keeps (link a b s ∷ cs) f name m h =
      apply_calls-keeps cs (link_module f (object a) (object b) s) name m
        (rw (mod_map-link_module f (object a) (object b) s, h))

  -- A module that stands under a name is one that was added, under its own name.
  abbrev pub IsAdded : List (Call M) → String → Module → Type 0
  IsAdded cs name m = (x : M) × IsIn (add x) cs × (m ≡ object x) × (name ≡ (object x).name)

  IsAdded-later :
      (c : Call M) (cs : List (Call M)) (name : String) (m : Module)
      → IsAdded cs name m
      → IsAdded (c ∷ cs) name m
  IsAdded-later c cs name m (x, i, e, n) = (x, inr i, e, n)

  pub find-apply_calls :
      (cs : List (Call M)) (f : Fsm) (name : String) (m : Module)
      → find name (apply_calls cs f).mod_map ≡ some (some m)
      → (find name f.mod_map ≡ some (some m)) ⊎ IsAdded cs name m
  unfolding apply_calls
  find-apply_calls [] f name m h = inl h
  find-apply_calls (add x ∷ cs) f name m h =
      elim (find-apply_calls cs (add_module f (object x)) name m h) [
        | inr later ↦ inr (IsAdded-later (add x) cs name m later)
        | inl here ↦ elim (Option-cases (find name f.mod_map)) [
          | inr (o, e) ↦ inl (ground (arith, e, find-add_module f (object x) name))
          | inl e ↦ inr (
            x,
            inl refl,
            ground (arith, e, find-add_module f (object x) name),
            ground (
              arith,
              e,
              find-add_module f (object x) name,
              string_eq.beq_iff (object x).name name,
            ),
          )
        ]
      ]
  find-apply_calls (link a b s ∷ cs) f name m h =
      elim (find-apply_calls cs (link_module f (object a) (object b) s) name m h) [
        | inr later ↦ inr (IsAdded-later (link a b s) cs name m later)
        | inl here ↦ inl (rw (mod_map-link_module f (object a) (object b) s) at here)
      ]

  -- A link that is found is one of the calls.
  abbrev pub IsLink : List (Call M) → String → ModState → String → Type 0
  IsLink cs name s t =
      (a : M) × (b : M) × IsIn (link a b s) cs × (name ≡ (object a).name) × (t ≡ (object b).name)

  IsLink-later :
      (c : Call M) (cs : List (Call M)) (name : String) (s : ModState) (t : String)
      → IsLink cs name s t
      → IsLink (c ∷ cs) name s t
  IsLink-later c cs name s t (a, b, i, e, n) = (a, b, inr i, e, n)

  same_state :
      (f : Fsm) (a b : M) (u : ModState) (name : String) (s : ModState) (t : String)
      → linked f name s ≡ none
      → linked (link_module f (object a) (object b) u) name s ≡ some t
      → s ≡ u
  same_state f a b u name s t e here =
      ground (arith, e, linked-link_module f (object a) (object b) u name s, nat_eq.beq_iff u s)

  pub linked-apply_calls :
      (cs : List (Call M)) (f : Fsm) (name : String) (s : ModState) (t : String)
      → linked (apply_calls cs f) name s ≡ some t
      → (linked f name s ≡ some t) ⊎ IsLink cs name s t
  unfolding apply_calls
  linked-apply_calls [] f name s t h = inl h
  linked-apply_calls (add x ∷ cs) f name s t h =
      elim (linked-apply_calls cs (add_module f (object x)) name s t h) [
        | inr later ↦ inr (IsLink-later (add x) cs name s t later)
        | inl here ↦ inl (rw (linked-add_module f (object x) name s) at here)
      ]
  linked-apply_calls (link a b u ∷ cs) f name s t h =
      elim (linked-apply_calls cs (link_module f (object a) (object b) u) name s t h) [
        | inr later ↦ inr (IsLink-later (link a b u) cs name s t later)
        | inl here ↦ elim (Option-cases (linked f name s)) [
          | inr (o, e) ↦
              inl (ground (arith, e, linked-link_module f (object a) (object b) u name s))
          | inl e ↦ inr (
            a,
            b,
            inl (ap (link a b) (same_state f a b u name s t e here)),
            ground (
              arith,
              e,
              linked-link_module f (object a) (object b) u name s,
              string_eq.beq_iff (object a).name name,
            ),
            ground (arith, e, linked-link_module f (object a) (object b) u name s),
          )
        ]
      ]

  linked_now :
      (f : Fsm) (a b : M) (s : ModState)
      → (t : String) × (linked (link_module f (object a) (object b) s) (object a).name s ≡ some t)
  linked_now f a b s = elim (Option-cases (linked f (object a).name s)) [
    | inr (t, e) ↦
        (t, ground (arith, e, linked-link_module f (object a) (object b) s (object a).name s))
    | inl e ↦ (
      (object b).name,
      ground (
        arith,
        e,
        linked-link_module f (object a) (object b) s (object a).name s,
        string_eq.beq_iff (object a).name (object a).name,
        nat_eq.beq_iff s s,
      ),
    )
  ]

  -- A link stays.
  linked-keeps :
      (cs : List (Call M)) (f : Fsm) (name : String) (s : ModState) (t : String)
      → linked f name s ≡ some t
      → linked (apply_calls cs f) name s ≡ some t
  unfolding apply_calls
  linked-keeps [] f name s t h = h
  linked-keeps (add x ∷ cs) f name s t h =
      linked-keeps cs (add_module f (object x)) name s t
        (rw (linked-add_module f (object x) name s) h)
  linked-keeps (link a b u ∷ cs) f name s t h =
      linked-keeps cs (link_module f (object a) (object b) u) name s t
        (ground (arith, h, linked-link_module f (object a) (object b) u name s))

  -- A link that is called for, or an earlier one for the same module and state, is there.
  pub linked-IsIn :
      (cs : List (Call M)) (f : Fsm) (a b : M) (s : ModState)
      → IsIn (link a b s) cs
      → (t : String) × (linked (apply_calls cs f) (object a).name s ≡ some t)
  unfolding apply_calls
  linked-IsIn [] f a b s i = elim i [ ]
  linked-IsIn (add x ∷ cs) f a b s (inl e) = cc
  linked-IsIn (add x ∷ cs) f a b s (inr i) = linked-IsIn cs (add_module f (object x)) a b s i
  linked-IsIn (link c d u ∷ cs) f a b s (inr i) =
      linked-IsIn cs (link_module f (object c) (object d) u) a b s i
  linked-IsIn (link c d u ∷ cs) f a b s (inl e) =
      let (t, now) = linked_now f c d u in
      let keeps = linked-keeps cs (link_module f (object c) (object d) u) (object c).name u t now in
      (t, ground (arith, e, keeps))
