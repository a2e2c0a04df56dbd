-- ===== src/Framework/Fsm/Closed.antt =====
-- framework/fsm.cc: machines whose links all lead to registered modules, and what `_get_next_module`
-- does in these and in others.
use zerver.Prelude.{
  String, none, some, List, ◌≢◌, ◌≡◌, refl, arith, string_eq, nat_eq, Option-cases, ◌⊎◌, inl, inr,
}
use zerver.Prelude.Maps.{find, find-nil, find-assign_self}
use zerver.Framework.Module.{Module, ModState, mod_else}
use zerver.Framework.Fsm.{Fsm, new_fsm, add_module, link_module, index_module, get_next_module}
use zerver.Framework.Fsm.Links.{
  linked, target, find-add_module, linked-link_module, get_next_module_lem, get_next_module-target,
}

-- A name stands in the map with a module, not with a null pointer.
abbrev pub IsRegistered : Fsm → String → Type 0
IsRegistered f name = (mo : Module) × (find name f.mod_map ≡ some (some mo))

abbrev pub IsClosed : Fsm → Type 0
IsClosed f =
    (name : String) (state : ModState) (t : String)
    → linked f name state ≡ some t
    → IsRegistered f t

pub new_fsm-IsClosed : IsClosed new_fsm
unfolding linked
new_fsm-IsClosed name state t h =
    ground (arith, find-nil {0, 0} {V = List (ModState × String)} name)

-- A registered name stays registered, with the module that it has.
pub add_module-keeps :
    (f : Fsm) (mo m : Module) (name : String)
    → find name f.mod_map ≡ some (some m)
    → find name (add_module f mo).mod_map ≡ some (some m)
add_module-keeps f mo m name h = rw (find-add_module f mo name, h)

pub linked-add_module :
    (f : Fsm) (mo : Module) (name : String) (s : ModState)
    → linked (add_module f mo) name s ≡ linked f name s
unfolding add_module linked
linked-add_module f mo name s = ground arith

pub add_module-IsClosed : (f : Fsm) (mo : Module) → IsClosed f → IsClosed (add_module f mo)
add_module-IsClosed f mo c name s t h =
    let (m, found) = c name s t (rw (linked-add_module f mo name s) at h) in
    (m, add_module-keeps f mo m t found)

-- After `add_module` the module's name is registered, unless a null pointer stood there.
pub add_module-IsRegistered :
    (f : Fsm) (mo : Module)
    → find mo.name f.mod_map ≢ some none
    → IsRegistered (add_module f mo) mo.name
add_module-IsRegistered f mo h = elim (Option-cases (find mo.name f.mod_map)) [
  | inl e ↦ (mo, ground (arith, e, find-add_module f mo mo.name, string_eq.beq_iff mo.name mo.name))
  | inr (some m, e) ↦ (m, ground (arith, e, find-add_module f mo mo.name))
  | inr (none, e) ↦ absurd (h e)
]

linked_cases :
    (f : Fsm) (from to : Module) (state : ModState) (name : String) (s : ModState) (t : String)
    → linked (link_module f from to state) name s ≡ some t
    → (linked f name s ≡ some t) ⊎ (t ≡ to.name)
linked_cases f from to state name s t h = ground (arith, linked-link_module f from to state name s)

pub mod_map-link_module :
    (f : Fsm) (from to : Module) (state : ModState)
    → (link_module f from to state).mod_map ≡ f.mod_map
unfolding link_module
mod_map-link_module f from to state = ground arith

-- A link to a registered module keeps the machine closed.
pub link_module-IsClosed :
    (f : Fsm) (from to : Module) (state : ModState)
    → IsRegistered f to.name
    → IsClosed f
    → IsClosed (link_module f from to state)
link_module-IsClosed f from to state r c name s t h =
    rw (mod_map-link_module f from to state)
      (elim (linked_cases f from to state name s t h) [ inl old ↦ c name s t old | inr e ↦ rw e r ])

pub target-linked :
    (f : Fsm) (name : String) (s : ModState) (t : String)
    → target f name s ≡ some t
    → (s' : ModState) × (linked f name s' ≡ some t)
unfolding target
target-linked f name s t h = elim (Option-cases (linked f name s)) [
  | inl e ↦ (mod_else, rw e at h)
  | inr (u, e) ↦ (s, ground (arith, e))
]

-- In a closed machine `_get_next_module` changes nothing. It gives a null pointer exactly if there is
-- no link for the state and none for `Mod_else`, and else the module registered for the target.
pub get_next_module-IsClosed :
    (f : Fsm) (mo : Module) (state : ModState)
    → IsClosed f
    → ((target f mo.name state ≡ none) × (get_next_module f mo state ≡ (none, f)))
      ⊎ ((t : String) × (next : Module) × (target f mo.name state ≡ some t)
          × (find t f.mod_map ≡ some (some next))
          × (get_next_module f mo state ≡ (some next, f)))
unfolding index_module
get_next_module-IsClosed f mo state c = elim (Option-cases (target f mo.name state)) [
  | inl e ↦ inl (e, rw (get_next_module_lem f mo state, e))
  | inr (t, e) ↦
      let (s', l) = target-linked f mo.name state t e in
      let (next, found) = c mo.name s' t l in
      inr (t, next, e, found, rw (get_next_module_lem f mo state, e, index_module, found))
]

-- A link to a name that is not registered gives a null pointer, and enters the name with a null
-- pointer in the map of modules.
pub get_next_module-dangling :
    (f : Fsm) (mo : Module) (state : ModState) (t : String)
    → target f mo.name state ≡ some t
    → find t f.mod_map ≡ none
    → ((get_next_module f mo state).0 ≡ none)
      × (find t (get_next_module f mo state).1.mod_map ≡ some none)
unfolding index_module
get_next_module-dangling f mo state t e absent =
    rw (get_next_module_lem f mo state, e, index_module, absent)
      (refl, find-assign_self t none f.mod_map)

-- A new link is the one that `_get_next_module` follows: where the module had no link for the state, and
-- a module is registered under the name of the link's target, it gives that module.
pub get_next_module-link_module :
    (f : Fsm) (from to next : Module) (state : ModState)
    → linked f from.name state ≡ none
    → find to.name f.mod_map ≡ some (some next)
    → get_next_module (link_module f from to state) from state
      ≡ (some next, link_module f from to state)
unfolding target
get_next_module-link_module f from to next state free found =
    get_next_module-target (link_module f from to state) from next state to.name
      (ground (
        arith,
        linked-link_module f from to state from.name state,
        free,
        string_eq.beq_iff from.name from.name,
      ))
      (rw (mod_map-link_module f from to state) found)
