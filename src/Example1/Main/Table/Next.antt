-- ===== src/Example1/Main/Table/Next.antt =====
-- example1/main.cc with framework/fsm.cc: the machine follows the table.
use zerver.Prelude.{
  ℕ, ◌+◌, ◌-◌, ◌&&◌, Option, none, some, string_eq, ◌≡◌, ap, ◌∙◌, subst, arith, ◌==◌, inl, inr,
  IsIn-append_right, rounds, Option-cases, Bool-cases, ltb, leb,
}
use mathlib.Core.Option
use zerver.Framework.Module.{ModState, mod_succeed}
use zerver.Framework.Fsm.{get_next_module}
use zerver.Framework.Fsm.Links.{target, get_next_module-target, get_next_module-none}
use zerver.Modules.Fork.{mod_fork0}
use zerver.Example1.Main.{
  MainModule, req_mod, gen_fs_req_mod, fs_fork_mod, fs_join_mod, gen_ps_req_mod, ps_fork_mod,
  ps_join_mod, if_rand_mod, resp_mod, rand_resp_mod, empty_resp_mod, end_mod, fs_mod, ps_fork_mod2,
  ps_join_mod2, ps_mod, ps_backfill_mod, ps_mod2, ps_backfill_mod2, Flags, States, Snprintf,
  mod_name, object, ps_branch2, fs_branch, ps_branch, before_fs, before_ps, responses, main_fsm,
}
use zerver.Example1.Main.Links.{IsMade}
use zerver.Example1.Main.Made.{
  IsIn-before_fs, IsIn-fs_branch, IsIn-before_ps, IsIn-ps_branch, IsIn-responses, IsIn-ps_branch2,
  ForkObject, fs_fork, ps_fork, ps_fork2, fork_mod, fork_num, branch-IsMade,
}
use zerver.Example1.Main.Wiring.{HasDistinctNames}
use zerver.Example1.Main.Forks.{main_fsm-find}
use zerver.Example1.Main.Targets.{two_way, target-two_way, target-always}
use zerver.Example1.Main.Table.{AreDistinct, after_req, after_if_rand, after_fork, next_mod}
use zerver.Example1.Main.Table.Special.{target_req, target_if_rand, target_fork, target_end}

-- What follows, if anything does, is a module that `main` makes.
abbrev pub IsMadeNext : Flags → Option MainModule → Type 0
IsMadeNext flags none = Unit
IsMadeNext flags (some b) = IsMade flags b

module _ (flags : Flags) (states : States) where
  two_way-IsMade :
      (x y : MainModule) (s : ModState)
      → IsMade flags x
      → IsMade flags y
      → IsMade flags (two_way x y s)
  two_way-IsMade x y s h k = elim (Bool-cases (s == mod_succeed)) [
    | inl on ↦ rw on h
    | inr off ↦ rw off k
  ]

  after_fork-IsMade :
      (m : ForkObject) (s : ModState)
      → IsMade flags (fork_mod m)
      → IsMadeNext flags (after_fork flags m s)
  after_fork-IsMade m s h =
      elim (Bool-cases (leb mod_fork0 s && ltb s (mod_fork0 + fork_num flags m))) [
        | inl on ↦ rw on (branch-IsMade flags states m (s - mod_fork0) h (ground arith))
        | inr off ↦ rw off tt
      ]

  after_req-IsMade : (s : ModState) → IsMade flags (after_req states s)
  after_req-IsMade s = ground arith

  after_if_rand-IsMade : (s : ModState) → IsMadeNext flags (after_if_rand states s)
  after_if_rand-IsMade s = ground arith

  pub next_mod-IsMade :
      (m : MainModule) (s : ModState)
      → IsMade flags m
      → IsMadeNext flags (next_mod flags states m s)
  next_mod-IsMade req_mod s h = after_req-IsMade s
  next_mod-IsMade gen_fs_req_mod s h = two_way-IsMade fs_fork_mod empty_resp_mod s tt tt
  next_mod-IsMade fs_fork_mod s h = after_fork-IsMade fs_fork s h
  next_mod-IsMade (fs_mod i) s h = two_way-IsMade (ps_fork_mod2 i) fs_join_mod s h tt
  next_mod-IsMade (ps_fork_mod2 i) s h = after_fork-IsMade (ps_fork2 i) s h
  next_mod-IsMade (ps_mod2 i j) s h = two_way-IsMade (ps_join_mod2 i) (ps_backfill_mod2 i j) s h.0 h
  next_mod-IsMade (ps_backfill_mod2 i j) s h = h.0
  next_mod-IsMade (ps_join_mod2 i) s h = tt
  next_mod-IsMade fs_join_mod s h = two_way-IsMade if_rand_mod empty_resp_mod s tt tt
  next_mod-IsMade gen_ps_req_mod s h = two_way-IsMade ps_fork_mod empty_resp_mod s tt tt
  next_mod-IsMade ps_fork_mod s h = after_fork-IsMade ps_fork s h
  next_mod-IsMade (ps_mod i) s h = two_way-IsMade ps_join_mod (ps_backfill_mod i) s tt h
  next_mod-IsMade (ps_backfill_mod i) s h = tt
  next_mod-IsMade ps_join_mod s h = two_way-IsMade if_rand_mod empty_resp_mod s tt tt
  next_mod-IsMade if_rand_mod s h = after_if_rand-IsMade s
  next_mod-IsMade resp_mod s h = tt
  next_mod-IsMade rand_resp_mod s h = tt
  next_mod-IsMade empty_resp_mod s h = tt
  next_mod-IsMade end_mod s h = tt

module _ (snprintf : Snprintf) (address : MainModule → ℕ) (flags : Flags) (states : States) where
  pub target_next :
      (m : MainModule) (s : ModState)
      → HasDistinctNames snprintf address flags states
      → AreDistinct states
      → IsMade flags m
      → target (main_fsm snprintf address flags states) (mod_name snprintf m) s
        ≡ Option.map (mod_name snprintf) (next_mod flags states m s)
  unfolding before_fs before_ps responses fs_branch ps_branch ps_branch2
  target_next req_mod s d differ h = target_req snprintf address flags states s d differ
  target_next if_rand_mod s d differ h = target_if_rand snprintf address flags states s d differ
  target_next fs_fork_mod s d differ h = target_fork snprintf address flags states fs_fork s d h
  target_next ps_fork_mod s d differ h = target_fork snprintf address flags states ps_fork s d h
  target_next (ps_fork_mod2 i) s d differ h =
      target_fork snprintf address flags states (ps_fork2 i) s d h
  target_next end_mod s d differ h = target_end snprintf address flags states s d
  target_next gen_fs_req_mod s d differ h =
      target-two_way snprintf address flags states gen_fs_req_mod fs_fork_mod empty_resp_mod s d h
        (IsIn-before_fs flags states _ (search (inr, inl) depth 48))
        (IsIn-responses flags states _ (search (inr, inl) depth 48)) (λ b u w. w)
  target_next gen_ps_req_mod s d differ h =
      target-two_way snprintf address flags states gen_ps_req_mod ps_fork_mod empty_resp_mod s d h
        (IsIn-before_ps flags states _ (search (inr, inl) depth 48))
        (IsIn-responses flags states _ (search (inr, inl) depth 48)) (λ b u w. w)
  target_next fs_join_mod s d differ h =
      target-two_way snprintf address flags states fs_join_mod if_rand_mod empty_resp_mod s d h
        (IsIn-responses flags states _ (search (inr, inl) depth 48))
        (IsIn-responses flags states _ (search (inr, inl) depth 48)) (λ b u w. w)
  target_next ps_join_mod s d differ h =
      target-two_way snprintf address flags states ps_join_mod if_rand_mod empty_resp_mod s d h
        (IsIn-responses flags states _ (search (inr, inl) depth 48))
        (IsIn-responses flags states _ (search (inr, inl) depth 48)) (λ b u w. w)
  target_next (fs_mod i) s d differ h =
      target-two_way snprintf address flags states (fs_mod i) (ps_fork_mod2 i) fs_join_mod s d h
        (IsIn-fs_branch flags states _ i h (search (inr, inl) depth 48))
        (IsIn-fs_branch flags states _ i h (
          inr (
            inr (
              inr (
                inr (
                  inr (
                    IsIn-append_right _ (rounds (ps_branch2 i) 0 flags.max_sub_model_id_size) _
                      (search (inr, inl) depth 48))))))))
        (λ b u w. w)
  target_next (ps_mod i) s d differ h =
      target-two_way snprintf address flags states (ps_mod i) ps_join_mod (ps_backfill_mod i) s d h
        (IsIn-ps_branch flags states _ i h (search (inr, inl) depth 48))
        (IsIn-ps_branch flags states _ i h (search (inr, inl) depth 48)) (λ b u w. w)
  target_next (ps_mod2 i j) s d differ h =
      target-two_way snprintf address flags states (ps_mod2 i j) (ps_join_mod2 i)
        (ps_backfill_mod2 i j) s d h
        (IsIn-fs_branch flags states _ i h.0
          (IsIn-ps_branch2 flags states _ i j h.1 (search (inr, inl) depth 48)))
        (IsIn-fs_branch flags states _ i h.0
          (IsIn-ps_branch2 flags states _ i j h.1 (search (inr, inl) depth 48)))
        (λ b u w. w)
  target_next resp_mod s d differ h =
      target-always snprintf address flags states resp_mod end_mod s d h
        (IsIn-responses flags states _ (search (inr, inl) depth 48)) (λ b u w. w)
  target_next rand_resp_mod s d differ h =
      target-always snprintf address flags states rand_resp_mod end_mod s d h
        (IsIn-responses flags states _ (search (inr, inl) depth 48)) (λ b u w. w)
  target_next empty_resp_mod s d differ h =
      target-always snprintf address flags states empty_resp_mod end_mod s d h
        (IsIn-responses flags states _ (search (inr, inl) depth 48)) (λ b u w. w)
  target_next (ps_join_mod2 i) s d differ h =
      target-always snprintf address flags states (ps_join_mod2 i) fs_join_mod s d h
        (IsIn-fs_branch flags states _ i h (
          inr (
            inr (
              inr (
                inr (
                  inr (
                    IsIn-append_right _ (rounds (ps_branch2 i) 0 flags.max_sub_model_id_size) _
                      (search (inr, inl) depth 48))))))))
        (λ b u w. w)
  target_next (ps_backfill_mod i) s d differ h =
      target-always snprintf address flags states (ps_backfill_mod i) ps_join_mod s d h
        (IsIn-ps_branch flags states _ i h (search (inr, inl) depth 48)) (λ b u w. w)
  target_next (ps_backfill_mod2 i j) s d differ h =
      target-always snprintf address flags states (ps_backfill_mod2 i j) (ps_join_mod2 i) s d h
        (IsIn-fs_branch flags states _ i h.0
          (IsIn-ps_branch2 flags states _ i j h.1 (search (inr, inl) depth 48)))
        (λ b u w. w)

  -- Where the names differ, and so do the states of the headers: `_get_next_module` of the machine that
  -- `main` sets up gives, for every module that `main` made and every state, the module of the table, or
  -- a null pointer where the table has none, and leaves the machine as it is.
  pub main_fsm-next_mod :
      (m : MainModule) (s : ModState)
      → HasDistinctNames snprintf address flags states
      → AreDistinct states
      → IsMade flags m
      → get_next_module (main_fsm snprintf address flags states) (object snprintf address m) s ≡ (
        Option.map (object snprintf address) (next_mod flags states m s),
        main_fsm snprintf address flags states,
      )
  main_fsm-next_mod m s d differ h =
      let f = main_fsm snprintf address flags states in
      let to = target_next m s d differ h in
      elim (Option-cases (next_mod flags states m s)) [
        | inl e ↦ rw e (
            get_next_module-none f (object snprintf address m) s
              (to ∙ ap (Option.map (mod_name snprintf)) e))
        | inr (b, e) ↦ rw e (
            get_next_module-target f (object snprintf address m) (object snprintf address b) s
              (mod_name snprintf b) (to ∙ ap (Option.map (mod_name snprintf)) e)
              (main_fsm-find snprintf address flags states b d
                (subst (IsMadeNext flags) e (next_mod-IsMade flags states m s h))))
      ]
