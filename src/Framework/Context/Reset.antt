-- ===== src/Framework/Context/Reset.antt =====
-- framework/data.cc: what `reset` and `recollectable` do to the data of the modules.
use zerver.Prelude.{
  ℕ, String, true, false, Option, none, some, List, [], ◌∷◌, ◌≡◌, refl, arith, inl, inr, string_eq,
  Option-cases, All, map,
}
use zerver.Prelude.Maps.{find, assign, is_some, find-assign_self}
use zerver.Framework.Context.{DataOps, FsmContext, get_module_data, reset_modules, reset}

-- No entry of a map of pointers is null.
abbrev pub NoNull {ℓ} : {A : Type ℓ} → List (String × Option A) → Type 0
NoNull m = All (λ e. is_some e.1 ≡ true) m

pub NoNull-assign {ℓ} :
    {A : Type ℓ} (name : String) (d : A) (m : List (String × Option A))
    → NoNull m
    → NoNull (assign name (some d) m)
unfolding assign
NoNull-assign name d [] h = (refl, tt)
NoNull-assign name d ((j, e) ∷ m) h = ground (arith, NoNull-assign name d m)

module _ {D M : Type 0} (ops : DataOps D M) where
  abbrev pub reset_entry : String × Option M → String × Option M
  reset_entry (name, none) = (name, none)
  reset_entry (name, some d) = (name, some (ops.reset_data d))

  pub reset_modules_lem :
      (m : List (String × Option M)) → NoNull m → reset_modules ops m ≡ some (map reset_entry m)
  unfolding reset_modules
  reset_modules_lem [] h = refl
  reset_modules_lem ((name, none) ∷ m) h = cc h.0
  reset_modules_lem ((name, some d) ∷ m) h = rw (reset_modules_lem m h.1)

  pub reset_modules-NoNull :
      (m m' : List (String × Option M)) → reset_modules ops m ≡ some m' → NoNull m × NoNull m'
  unfolding reset_modules
  reset_modules-NoNull [] m' h = (tt, ground arith)
  reset_modules-NoNull ((name, none) ∷ m) m' h = cc
  reset_modules-NoNull ((name, some d) ∷ m) m' h = elim (Option-cases (reset_modules ops m)) [
    | inl e ↦ ground (arith, e)
    | inr (r, e) ↦ ground (arith, e, reset_modules-NoNull m r e)
  ]

  -- Where `init` has made the data and no module's data is null, `reset` succeeds. The context is then
  -- no longer at its exit, has the drawn number, the same connection, and all its data reset.
  pub reset_lem :
      (drawn : ℕ) (c : FsmContext D M) (d : D)
      → c.fsm_data ≡ some d
      → NoNull c.module_data_map
      → reset ops drawn c
        ≡ some (record {
          exited = false;
          conn = c.conn;
          fsm_data = some (ops.reset_fsm_data d);
          module_data_map = map reset_entry c.module_data_map;
          uuid = drawn;
        })
  unfolding reset
  reset_lem drawn c d e h = ground (arith, reset_modules_lem c.module_data_map h)

  reset_modules-null :
      (name : String) (m : List (String × Option M))
      → find name m ≡ some none
      → reset_modules ops m ≡ none
  unfolding reset_modules find
  reset_modules-null name [] h = cc
  reset_modules-null name ((j, none) ∷ m) h = refl
  reset_modules-null name ((j, some d) ∷ m) h = ground (arith, reset_modules-null name m)

  -- `get_module_data` for a module that has no data gives a null pointer and enters it, and the next
  -- `reset` calls through it.
  pub reset-get_module_data :
      (drawn : ℕ) (c : FsmContext D M) (name : String)
      → find name c.module_data_map ≡ none
      → ((get_module_data c name).0 ≡ none) × (reset ops drawn (get_module_data c name).1 ≡ none)
  unfolding get_module_data reset
  reset-get_module_data drawn c name h = ground (
    arith,
    find-assign_self name none c.module_data_map,
    reset_modules-null name (assign name none c.module_data_map),
  )
