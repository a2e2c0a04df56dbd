-- ===== src/Framework/Fsm/Links.antt =====
-- framework/fsm.cc: what `add_module` and `link_module` enter, and what `_get_next_module` finds.
use zerver.Prelude.{
  String, Option, none, some, [], ◌≡◌, arith, if◌then◌else◌, string_eq, nat_eq, ◌&&◌, Option-cases,
  inl, inr,
}
use zerver.Prelude.Maps.{find, insert, or_else, find-nil, find-insert, find-assign}
use zerver.Framework.Module.{Module, ModState, mod_else}
use zerver.Framework.Fsm.{Fsm, add_module, link_module, index_module, find_target, get_next_module}

-- The name that `link_module` has entered for a module's name and a state.
unfoldable pub linked : Fsm → String → ModState → Option String
linked f name state = elim (find name f.mod_trans_map) [
  | some trans ↦ find state trans
  | none ↦ none
]

-- The target of a transition: the link for the state, else the link for `Mod_else`.
unfoldable pub target : Fsm → String → ModState → Option String
target f name state = or_else (linked f name state) (linked f name mod_else)

-- A name keeps the first module that is registered under it; any other name keeps its entry.
pub find-add_module :
    (f : Fsm) (mo : Module) (name : String)
    → find name (add_module f mo).mod_map
      ≡ or_else (find name f.mod_map) (if string_eq.beq mo.name name then some (some mo) else none)
unfolding add_module
find-add_module f mo name =
    ground (arith, find-assign name mo.name (some mo) f.mod_map, string_eq.beq_iff mo.name name)

-- A link keeps every link that is there, also one for the same module and state: the first wins.
pub linked-link_module :
    (f : Fsm) (from to : Module) (state : ModState) (name : String) (s : ModState)
    → linked (link_module f from to state) name s
      ≡ or_else
          (linked f name s)
          (if string_eq.beq from.name name && nat_eq.beq state s then some to.name else none)
unfolding link_module linked
linked-link_module f from to state name s = elim (Option-cases (find from.name f.mod_trans_map)) [
  | inl e ↦ ground (
    arith,
    e,
    find-insert name from.name (insert state to.name []) f.mod_trans_map,
    find-insert s state to.name [],
    find-nil {0, 0} {V = String} s,
    string_eq.beq_iff from.name name,
  )
  | inr (trans, e) ↦ ground (
    arith,
    e,
    find-assign name from.name (insert state to.name trans) f.mod_trans_map,
    find-insert s state to.name trans,
    string_eq.beq_iff from.name name,
  )
]

-- `_get_next_module` follows `target`; with no target it gives a null pointer and changes nothing.
pub get_next_module_lem :
    (f : Fsm) (mo : Module) (state : ModState)
    → get_next_module f mo state
      ≡ elim (target f mo.name state) [ some name ↦ index_module f name | none ↦ (none, f) ]
unfolding get_next_module target linked find_target
get_next_module_lem f mo state = ground arith

pub get_next_module-target :
    (f : Fsm) (mo next : Module) (state : ModState) (t : String)
    → target f mo.name state ≡ some t
    → find t f.mod_map ≡ some (some next)
    → get_next_module f mo state ≡ (some next, f)
unfolding index_module
get_next_module-target f mo next state t e found =
    rw (get_next_module_lem f mo state, e, index_module, found)

pub get_next_module-none :
    (f : Fsm) (mo : Module) (state : ModState)
    → target f mo.name state ≡ none
    → get_next_module f mo state ≡ (none, f)
get_next_module-none f mo state e = rw (get_next_module_lem f mo state, e)
