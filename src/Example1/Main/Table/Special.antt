-- ===== src/Example1/Main/Table/Special.antt =====
-- example1/main.cc: the targets of the modules with links of their own kind: the request, the choice of
-- the response, the forks and the end.
use zerver.Prelude.{
  ℕ, ◌+◌, ◌-◌, ◌<◌, ◌≤◌, none, some, string_eq, ◌≡◌, sym, ap, ◌∙◌, arith, inl, inr, Option-cases,
  Bool-cases, leb,
}
use mathlib.Core.Option
use zerver.Framework.Module.{ModState, mod_else}
use zerver.Framework.Fsm.Links.{linked, target}
use zerver.Modules.Fork.{mod_fork0}
use zerver.Example1.Main.{
  MainModule, req_mod, gen_fs_req_mod, gen_ps_req_mod, if_rand_mod, resp_mod, rand_resp_mod,
  end_mod, Flags, States, Snprintf, mod_name, before_fs, before_ps, responses, main_fsm,
}
use zerver.Example1.Main.Links.{IsMade, IsWired}
use zerver.Example1.Main.Made.{
  IsIn-before_fs, IsIn-before_ps, IsIn-responses, ForkObject, fs_fork, ps_fork, ps_fork2, fork_mod,
}
use zerver.Example1.Main.Wiring.{HasDistinctNames, main_fsm-branches}
use zerver.Example1.Main.Targets.{linked-IsWired, has_link, unlinked_state}
use zerver.Example1.Main.Table.{AreDistinct, after_req, after_if_rand, after_fork}

module _ (states : States) (differ : AreDistinct states) where
  after_req-wired :
      (b : MainModule) (s : ModState) → IsWired states req_mod b s → b ≡ after_req states s
  after_req-wired b s (inl (there, eq)) = ground arith
  after_req-wired b s (inr (inl (there, eq))) = ground arith
  after_req-wired b s (inr (inr (inl (there, eq)))) = ground arith
  after_req-wired b s (inr (inr (inr (there, eq)))) = ground arith

  after_req-else : after_req states mod_else ≡ end_mod
  after_req-else = ground arith

  after_if_rand-wired :
      (b : MainModule) (s : ModState)
      → IsWired states if_rand_mod b s
      → after_if_rand states s ≡ some b
  after_if_rand-wired b s (inl (there, eq)) = ground arith
  after_if_rand-wired b s (inr (there, eq)) = ground arith

  not-IsWired-else : (b : MainModule) → ¬ IsWired states if_rand_mod b mod_else
  not-IsWired-else b (inl (there, eq)) = differ.not_rand-ne-else (sym eq)
  not-IsWired-else b (inr (there, eq)) = differ.rand-ne-else (sym eq)

fork_above :
    (states : States) (m : ForkObject) (b : MainModule) (s : ModState)
    → IsWired states (fork_mod m) b s
    → mod_fork0 ≤ s
fork_above states fs_fork b s (i, there, eq) = omega arith
fork_above states ps_fork b s (i, there, eq) = omega arith
fork_above states (ps_fork2 k) b s (i, there, eq) = omega arith

module _ (snprintf : Snprintf) (address : MainModule → ℕ) (flags : Flags) (states : States) where
  pub target_req :
      (s : ModState)
      → HasDistinctNames snprintf address flags states
      → AreDistinct states
      → target (main_fsm snprintf address flags states) (mod_name snprintf req_mod) s
        ≡ some (mod_name snprintf (after_req states s))
  unfolding target before_fs before_ps responses
  target_req s d differ =
      let f = main_fsm snprintf address flags states in
      let name = mod_name snprintf req_mod in
      let wired = linked-IsWired snprintf address flags states req_mod in
      elim (Option-cases (linked f name s)) [
        | inr (t, e) ↦
            let (b, n, w) = wired s t d tt e in
            rw e (ap some (n ∙ ap (mod_name snprintf) (after_req-wired states differ b s w)))
        | inl e ↦
            let to_fs =
              unlinked_state snprintf address flags states req_mod gen_fs_req_mod s
                states.mod_req_succeed_to_fs e
                (IsIn-before_fs flags states _ (search (inr, inl) depth 48)) in
            let to_ps =
              unlinked_state snprintf address flags states req_mod gen_ps_req_mod s
                states.mod_req_succeed_to_ps e
                (IsIn-before_ps flags states _ (search (inr, inl) depth 48)) in
            let to_random =
              unlinked_state snprintf address flags states req_mod rand_resp_mod s
                states.mod_req_succeed_to_random e
                (IsIn-responses flags states _ (search (inr, inl) depth 48)) in
            let (t, l) =
              has_link snprintf address flags states req_mod end_mod mod_else
                (IsIn-responses flags states _ (search (inr, inl) depth 48)) in
            let (b, n, w) = wired mod_else t d tt l in
            let there : b ≡ end_mod =
              after_req-wired states differ b mod_else w ∙ after_req-else states differ in
            let leads : after_req states s ≡ end_mod = ground arith in
            rw e (l ∙ ap some (n ∙ ap (mod_name snprintf) (there ∙ sym leads)))
      ]

  pub target_if_rand :
      (s : ModState)
      → HasDistinctNames snprintf address flags states
      → AreDistinct states
      → target (main_fsm snprintf address flags states) (mod_name snprintf if_rand_mod) s
        ≡ Option.map (mod_name snprintf) (after_if_rand states s)
  unfolding target responses
  target_if_rand s d differ =
      let f = main_fsm snprintf address flags states in
      let name = mod_name snprintf if_rand_mod in
      let wired = linked-IsWired snprintf address flags states if_rand_mod in
      elim (Option-cases (linked f name s)) [
        | inr (t, e) ↦
            let (b, n, w) = wired s t d tt e in
            rw (e, after_if_rand-wired states differ b s w) (ap some n)
        | inl e ↦
            let unlinked : linked f name mod_else ≡ none =
              elim (Option-cases (linked f name mod_else)) [
                | inl l ↦ l
                | inr (t, l) ↦
                    let (b, n, w) = wired mod_else t d tt l in
                    absurd (not-IsWired-else states differ b w)
              ] in
            let not_rand =
              unlinked_state snprintf address flags states if_rand_mod resp_mod s
                states.mod_not_rand_resp e
                (IsIn-responses flags states _ (search (inr, inl) depth 48)) in
            let rand =
              unlinked_state snprintf address flags states if_rand_mod rand_resp_mod s
                states.mod_rand_resp e
                (IsIn-responses flags states _ (search (inr, inl) depth 48)) in
            let nothing : after_if_rand states s ≡ none = ground arith in rw (e, unlinked, nothing)
      ]

  pub target_fork :
      (m : ForkObject) (s : ModState)
      → HasDistinctNames snprintf address flags states
      → IsMade flags (fork_mod m)
      → target (main_fsm snprintf address flags states) (mod_name snprintf (fork_mod m)) s
        ≡ Option.map (mod_name snprintf) (after_fork flags m s)
  unfolding target
  target_fork m s d made =
      let f = main_fsm snprintf address flags states in
      let name = mod_name snprintf (fork_mod m) in
      elim (Bool-cases (leb mod_fork0 s)) [
        | inl from ↦
            let i = s - mod_fork0 in
            let e : mod_fork0 + i ≡ s = ground arith in
            let known = main_fsm-branches snprintf address flags states m i d made in
            ap (target f name) (sym e) ∙ known ∙ ground arith
        | inr below ↦
            let unlinked : (u : ModState) → u < mod_fork0 → linked f name u ≡ none = λ u lt.
              elim (Option-cases (linked f name u)) [
                | inl e ↦ e
                | inr (t, e) ↦
                    let (b, n, w) =
                      linked-IsWired snprintf address flags states (fork_mod m) u t d made e in
                    absurd (omega (arith, fork_above states m b u w))
              ] in
            rw (unlinked s (ground arith), unlinked mod_else (omega arith), below)
      ]

  pub target_end :
      (s : ModState)
      → HasDistinctNames snprintf address flags states
      → target (main_fsm snprintf address flags states) (mod_name snprintf end_mod) s ≡ none
  unfolding target
  target_end s d =
      let f = main_fsm snprintf address flags states in
      let unlinked : (u : ModState) → linked f (mod_name snprintf end_mod) u ≡ none = λ u.
        elim (Option-cases (linked f (mod_name snprintf end_mod) u)) [
          | inl e ↦ e
          | inr (t, e) ↦ absurd (linked-IsWired snprintf address flags states end_mod u t d tt e).2
        ] in
      rw (unlinked s, unlinked mod_else)
