-- ===== src/Example1/Main/Targets.antt =====
-- example1/main.cc with framework/fsm.cc: the targets of modules whose links are for success or for all
-- else.
use zerver.Prelude.{
  ℕ, none, some, String, string_eq, ◌≡◌, ◌≢◌, sym, ap, ◌∙◌, subst, arith, ◌==◌, inl, inr, IsIn,
  Option-cases, if◌then◌else◌, ==_iff, Bool-cases,
}
use zerver.Framework.Module.{ModState, mod_else, mod_succeed}
use zerver.Framework.Fsm.{new_fsm, set_start_module, set_end_module}
use zerver.Framework.Fsm.Links.{linked, target}
use zerver.Framework.Fsm.Calls.{link, linked-IsIn}
use zerver.Framework.Fsm.Calls.Names.{built-IsLink}
use zerver.Framework.Fsm.Calls.Ranks.{same_object}
use zerver.Example1.Main.{
  MainModule, Flags, States, Snprintf, mod_name, object, main_calls, main_fsm,
}
use zerver.Example1.Main.Links.{IsMade, IsWired, IsTwoWay}
use zerver.Example1.Main.Made.{IsMade-add}
use zerver.Example1.Main.Wiring.{HasDistinctNames, link-Falls}

-- Where a module with two such links leads.
abbrev pub two_way : MainModule → MainModule → ModState → MainModule
two_way on_success on_else s = if s == mod_succeed then on_success else on_else

pub two_way-else : (x y : MainModule) (s : ModState) → s ≢ mod_succeed → two_way x y s ≡ y
two_way-else x y s ne = elim (Bool-cases (s == mod_succeed)) [
  | inl on ↦ absurd (ne ((==_iff s mod_succeed).0 on))
  | inr off ↦ rw off
]

module _ (snprintf : Snprintf) (address : MainModule → ℕ) (flags : Flags) (states : States) where
  -- A link in the machine is one of those that `main` makes.
  pub linked-IsWired :
      (m : MainModule) (s : ModState) (t : String)
      → HasDistinctNames snprintf address flags states
      → IsMade flags m
      → linked (main_fsm snprintf address flags states) (mod_name snprintf m) s ≡ some t
      → (b : MainModule) × (t ≡ mod_name snprintf b) × IsWired states m b s
  unfolding main_fsm set_start_module set_end_module linked
  linked-IsWired m s t d made h =
      let make = object snprintf address in
      let cs = main_calls flags states in
      let (a, b, there, n, e) = built-IsLink make cs (mod_name snprintf m) s t h in
      let falls = link-Falls snprintf address flags states a b s there in
      let same : m ≡ a =
        same_object make cs m a d (IsMade-add flags states m made)
          (IsMade-add flags states a falls.0) n in
      (b, e, subst (λ x. IsWired states x b s) (sym same) falls.3)

  pub has_link :
      (a b : MainModule) (s : ModState)
      → IsIn (link a b s) (main_calls flags states)
      → (t : String) × (linked (main_fsm snprintf address flags states) (mod_name snprintf a) s
          ≡ some t)
  unfolding main_fsm set_start_module set_end_module linked
  has_link a b s there =
      linked-IsIn (object snprintf address) (main_calls flags states) new_fsm a b s there

  -- A state for which the module has no link is none of those that it is linked for.
  pub unlinked_state :
      (m b : MainModule) (s u : ModState)
      → linked (main_fsm snprintf address flags states) (mod_name snprintf m) s ≡ none
      → IsIn (link m b u) (main_calls flags states)
      → s ≢ u
  unlinked_state m b s u free there eq =
      let f = main_fsm snprintf address flags states in
      let (t, taken) = has_link m b u there in
      absurd (cc (sym free ∙ ap (linked f (mod_name snprintf m)) eq ∙ taken))

  pub target-two_way :
      (m x y : MainModule) (s : ModState)
      → HasDistinctNames snprintf address flags states
      → IsMade flags m
      → IsIn (link m x mod_succeed) (main_calls flags states)
      → IsIn (link m y mod_else) (main_calls flags states)
      → ((b : MainModule) (u : ModState) → IsWired states m b u → IsTwoWay x y b u)
      → target (main_fsm snprintf address flags states) (mod_name snprintf m) s
        ≡ some (mod_name snprintf (two_way x y s))
  unfolding target
  target-two_way m x y s d made on_success on_else wired =
      let f = main_fsm snprintf address flags states in
      let name = mod_name snprintf m in
      elim (Option-cases (linked f name s)) [
        | inr (t, e) ↦
            let (b, n, w) = linked-IsWired m s t d made e in
            elim (wired b s w) [
              | inl (there, eq) ↦
                  let leads : two_way x y s ≡ x = rw eq (ground arith) in
                  rw e (ap some (n ∙ ap (mod_name snprintf) (there ∙ sym leads)))
              | inr (there, eq) ↦
                  let other : s ≢ mod_succeed = λ on. absurd (omega arith) in
                  rw e
                    (ap some (n ∙ ap (mod_name snprintf) (there ∙ sym (two_way-else x y s other))))
            ]
        | inl e ↦
            let (t, l) = has_link m y mod_else on_else in
            let (b, n, w) = linked-IsWired m mod_else t d made l in
            let other = unlinked_state m x s mod_succeed e on_success in
            elim (wired b mod_else w) [
              | inl (there, eq) ↦ absurd (omega arith)
              | inr (there, eq) ↦ rw e (
                  l ∙ ap some (n ∙ ap (mod_name snprintf) (there ∙ sym (two_way-else x y s other))))
            ]
      ]

  -- All links of the module lead to one other.
  pub target-always :
      (m x : MainModule) (s : ModState)
      → HasDistinctNames snprintf address flags states
      → IsMade flags m
      → IsIn (link m x mod_else) (main_calls flags states)
      → ((b : MainModule) (u : ModState) → IsWired states m b u → b ≡ x)
      → target (main_fsm snprintf address flags states) (mod_name snprintf m) s
        ≡ some (mod_name snprintf x)
  unfolding target
  target-always m x s d made on_else wired =
      let f = main_fsm snprintf address flags states in
      let name = mod_name snprintf m in
      elim (Option-cases (linked f name s)) [
        | inr (t, e) ↦
            let (b, n, w) = linked-IsWired m s t d made e in
            rw e (ap some (n ∙ ap (mod_name snprintf) (wired b s w)))
        | inl e ↦
            let (t, l) = has_link m x mod_else on_else in
            let (b, n, w) = linked-IsWired m mod_else t d made l in
            rw e (l ∙ ap some (n ∙ ap (mod_name snprintf) (wired b mod_else w)))
      ]
