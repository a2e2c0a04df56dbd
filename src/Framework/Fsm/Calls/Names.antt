-- ===== src/Framework/Fsm/Calls/Names.antt =====
-- framework/fsm.cc: machines that are set up by a sequence of calls: which modules stand in their maps,
-- and what follows where no two objects are added under one name.
use zerver.Prelude.{
  String, Option, none, some, List, [], ◌∷◌, ◌≡◌, ◌≢◌, sym, subst, arith, string_eq, inl, inr, IsIn,
}
use zerver.Prelude.Maps.{find, find-nil}
use zerver.Framework.Module.{Module, ModState}
use zerver.Framework.Fsm.{Fsm, new_fsm, add_module, link_module}
use zerver.Framework.Fsm.Links.{linked}
use zerver.Framework.Fsm.Closed.{
  IsRegistered, IsClosed, add_module-IsRegistered, mod_map-link_module,
}
use zerver.Framework.Context.Reset.{NoNull, NoNull-assign}
use zerver.Framework.Fsm.Calls.{
  Call, add, link, apply_calls, apply_calls-keeps, IsAdded, find-apply_calls, IsLink,
  linked-apply_calls,
}

find-NoNull :
    (name : String) (m : List (String × Option Module)) → NoNull m → find name m ≢ some none
unfolding find
find-NoNull name [] h = λ e. cc
find-NoNull name ((j, none) ∷ m) h = λ e. cc h.0
find-NoNull name ((j, some mo) ∷ m) h = λ e. ground (arith, find-NoNull name m h.1)

add_module-NoNull : (f : Fsm) (mo : Module) → NoNull f.mod_map → NoNull (add_module f mo).mod_map
unfolding add_module
add_module-NoNull f mo h = ground (arith, NoNull-assign mo.name mo f.mod_map h)

module _ {M : Type 0} (object : M → Module) where
  pub apply_calls-NoNull :
      (cs : List (Call M)) (f : Fsm) → NoNull f.mod_map → NoNull (apply_calls object cs f).mod_map
  unfolding apply_calls
  apply_calls-NoNull [] f h = h
  apply_calls-NoNull (add x ∷ cs) f h =
      apply_calls-NoNull cs (add_module f (object x)) (add_module-NoNull f (object x) h)
  apply_calls-NoNull (link a b s ∷ cs) f h =
      apply_calls-NoNull cs (link_module f (object a) (object b) s)
        (rw (mod_map-link_module f (object a) (object b) s) h)

  -- An object that is added has a module under its name.
  pub IsIn-IsRegistered :
      (cs : List (Call M)) (f : Fsm) (x : M)
      → NoNull f.mod_map
      → IsIn (add x) cs
      → IsRegistered (apply_calls object cs f) (object x).name
  unfolding apply_calls
  IsIn-IsRegistered [] f x n i = elim i [ ]
  IsIn-IsRegistered (add y ∷ cs) f x n (inr i) =
      IsIn-IsRegistered cs (add_module f (object y)) x (add_module-NoNull f (object y) n) i
  IsIn-IsRegistered (add y ∷ cs) f x n (inl e) =
      let (m, found) =
        add_module-IsRegistered f (object y) (find-NoNull (object y).name f.mod_map n) in
      let same : y ≡ x = ground arith in
      (
        m,
        subst
            (λ z.
              find (object z).name (apply_calls object cs (add_module f (object y))).mod_map
              ≡ some (some m))
            same (apply_calls-keeps object cs (add_module f (object y)) (object y).name m found),
      )
  IsIn-IsRegistered (link a b s ∷ cs) f x n (inl e) = cc
  IsIn-IsRegistered (link a b s ∷ cs) f x n (inr i) =
      IsIn-IsRegistered cs (link_module f (object a) (object b) s) x
        (rw (mod_map-link_module f (object a) (object b) s) n) i

  abbrev pub built : List (Call M) → Fsm
  built cs = apply_calls object cs new_fsm

  -- Every link of a machine that is built by calls is one of the calls.
  pub built-IsLink :
      (cs : List (Call M)) (name : String) (s : ModState) (t : String)
      → linked (built cs) name s ≡ some t
      → IsLink object cs name s t
  unfolding linked
  built-IsLink cs name s t h = elim (linked-apply_calls object cs new_fsm name s t h) [
    | inl e ↦ ground (arith, find-nil {0, 0} {V = List (ModState × String)} name)
    | inr l ↦ l
  ]

  pub built-IsAdded :
      (cs : List (Call M)) (name : String) (m : Module)
      → find name (built cs).mod_map ≡ some (some m)
      → IsAdded object cs name m
  built-IsAdded cs name m h = elim (find-apply_calls object cs new_fsm name m h) [
    | inl e ↦ ground (arith, find-nil {0, 0} {V = Option Module} name)
    | inr l ↦ l
  ]

  -- In any order of calls: a machine is closed whose links are between modules that are added.
  pub built-IsClosed :
      (cs : List (Call M))
      → ((a b : M) (s : ModState) → IsIn (link a b s) cs → IsIn (add b) cs)
      → IsClosed (built cs)
  built-IsClosed cs added name s t h =
      let (a, b, i, n, e) = built-IsLink cs name s t h in
      subst (λ u. IsRegistered (built cs) u) (sym e)
        (IsIn-IsRegistered cs new_fsm b tt (added a b s i))
