-- ===== src/Examples/Machine.antt =====
-- A machine of three modules: a request module, one that works, and the end module.
use zerver.Prelude.{
  ℕ, suc, String, true, false, some, [], ◌∷◌, ◌≡◌, ◌<◌, refl, arith, if◌then◌else◌, ◌==◌, string_eq,
  nat_eq, ◌⊎◌, inl, inr,
}
use zerver.Prelude.Maps.{find, insert, assign}
use zerver.Framework.Module.{Module, ModState, mod_async, mod_succeed, mod_else}
use zerver.Framework.Fsm.{Fsm, new_fsm, add_module, link_module, set_start_module, set_end_module}
use zerver.Framework.Fsm.Links.{linked}
use zerver.Framework.Fsm.Closed.{
  IsClosed, new_fsm-IsClosed, add_module-IsClosed, link_module-IsClosed,
}
use zerver.Framework.Context.{FsmContext}
use zerver.Framework.Engine.{World, App}
use zerver.Framework.Engine.Total.{IsWorkflow}

abbrev pub req_mod : Module
req_mod = record { address = 1; name = "req_mod" }

abbrev pub work_mod : Module
work_mod = record { address = 2; name = "work_mod" }

abbrev pub end_mod : Module
end_mod = record { address = 3; name = "end_mod" }

abbrev pub registered : Fsm
registered = add_module (add_module (add_module new_fsm req_mod) work_mod) end_mod

abbrev pub machine : Fsm
machine =
    set_end_module
      (set_start_module
        (link_module (link_module registered req_mod work_mod mod_succeed) work_mod end_mod
          mod_else)
        req_mod)
      end_mod

-- The request module waits, the work module succeeds, and the end module fails.
abbrev pub three : App ℕ ℕ ℕ
three = record {
  ops = record {
    create_fsm_data = 7;
    reset_fsm_data = λ d. 0;
    create_data = λ m. some m.address;
    reset_data = λ d. 0;
    data_recollectable = λ d. true;
  };
  rand = λ e. (e, suc e);
  run = λ m i last w. (if m.address == 1 then mod_async else mod_succeed, w);
}

abbrev pub first_context : FsmContext ℕ ℕ
first_context = record {
  exited = false;
  conn = 5;
  fsm_data = some 0;
  module_data_map = [];
  uuid = 0;
}

abbrev pub world : World ℕ ℕ ℕ
world = record { fsm = machine; contexts = first_context ∷ []; env = 9 }

pub registered-IsClosed : IsClosed registered
registered-IsClosed =
    add_module-IsClosed _ end_mod
      (add_module-IsClosed _ work_mod (add_module-IsClosed new_fsm req_mod new_fsm-IsClosed))

pub machine-IsClosed : IsClosed machine
unfolding set_start_module set_end_module linked add_module link_module find assign insert
machine-IsClosed =
    link_module-IsClosed (link_module registered req_mod work_mod mod_succeed) work_mod end_mod
      mod_else (end_mod, refl)
      (link_module-IsClosed registered req_mod work_mod mod_succeed (work_mod, refl)
        registered-IsClosed)

unfoldable pub rank : String → ℕ
rank name =
    if string_eq.beq name "req_mod" then 2 else if string_eq.beq name "work_mod" then 1 else 0

machine_links :
    (name : String) (s : ModState) (t : String)
    → linked machine name s ≡ some t
    → ((name ≡ "req_mod") × (t ≡ "work_mod")) ⊎ ((name ≡ "work_mod") × (t ≡ "end_mod"))
unfolding set_start_module set_end_module linked add_module link_module find assign insert
machine_links name s t h =
    ground (arith, string_eq.beq_iff "req_mod" name, string_eq.beq_iff "work_mod" name)

pub machine_ranked :
    (name : String) (s : ModState) (t : String)
    → linked machine name s ≡ some t
    → rank t < rank name
unfolding rank
machine_ranked name s t h = elim (machine_links name s t h) [
  | inl (n, e) ↦ rw (n, e) (omega arith)
  | inr (n, e) ↦ rw (n, e) (omega arith)
]

pub machine_named : (t : String) (m : Module) → find t machine.mod_map ≡ some (some m) → m.name ≡ t
unfolding set_start_module set_end_module add_module link_module find assign insert
machine_named t m h = ground (
  arith,
  string_eq.beq_iff "req_mod" t,
  string_eq.beq_iff "work_mod" t,
  string_eq.beq_iff "end_mod" t,
)

unfoldable pub machine-IsWorkflow : IsWorkflow three machine
unfolding set_start_module set_end_module add_module link_module find assign insert rank
machine-IsWorkflow = record {
  keeps_fsm = λ mo i last w. refl;
  keeps_contexts = λ mo i last w. refl;
  closed = machine-IsClosed;
  named = machine_named;
  no_null = (refl, (refl, (refl, tt)));
  start = req_mod;
  started = refl;
  start_waits = λ i last w. refl;
  rank = rank;
  ranked = machine_ranked;
}

abbrev pub second_context : FsmContext ℕ ℕ
second_context = record first_context {
  module_data_map = ("req_mod", some 0) ∷ ("work_mod", some 0) ∷ ("end_mod", some 0) ∷ [];
  uuid = 9;
}
