-- ===== src/Example1/Main/Else.antt =====
-- example1/main.cc with framework/fsm.cc: modules that are followed by another, whatever their state.
use zerver.Prelude.{
  ap, ℕ, ◌<◌, Bool, true, false, some, String, string_eq, ◌∙◌, ◌≡◌, sym, subst, arith, ◌==◌, inl,
  inr, IsIn, IsIn-append_right, rounds, Option-cases,
}
use zerver.Framework.Module.{ModState, mod_else}
use zerver.Framework.Fsm.{new_fsm, set_start_module, set_end_module}
use zerver.Framework.Fsm.Links.{linked, target}
use zerver.Framework.Fsm.Closed.{target-linked}
use zerver.Framework.Fsm.Calls.{link, linked-IsIn}
use zerver.Framework.Fsm.Calls.Names.{built-IsLink}
use zerver.Framework.Fsm.Calls.Ranks.{same_object}
use zerver.Framework.Engine.{World, App, Runner, resume}
use zerver.Example1.Main.{
  MainModule, req_mod, gen_fs_req_mod, fs_fork_mod, fs_join_mod, gen_ps_req_mod, ps_fork_mod,
  ps_join_mod, if_rand_mod, resp_mod, rand_resp_mod, empty_resp_mod, end_mod, fs_mod, ps_fork_mod2,
  ps_join_mod2, ps_mod, ps_backfill_mod, ps_mod2, ps_backfill_mod2, Flags, States, Snprintf,
  mod_name, object, ps_branch2, fs_branch, ps_branch, responses, main_calls, main_fsm,
}
use zerver.Example1.Main.Links.{IsMade, rank}
use zerver.Example1.Main.Made.{
  IsMade-add, IsIn-fs_branch, IsIn-ps_branch, IsIn-responses, IsIn-ps_branch2,
}
use zerver.Example1.Main.Wiring.{HasDistinctNames, link-Falls}
use zerver.Example1.Main.Forks.{goes_on}

-- All modules but the end, the forks and the one that chooses the response.
abbrev pub leads_on : MainModule → Bool
leads_on end_mod = false
leads_on if_rand_mod = false
leads_on fs_fork_mod = false
leads_on ps_fork_mod = false
leads_on (ps_fork_mod2 i) = false
leads_on _ = true

module _ (flags : Flags) (states : States) where
  else-IsIn :
      (m : MainModule)
      → IsMade flags m
      → leads_on m ≡ true
      → (b : MainModule) × IsIn (link m b mod_else) (main_calls flags states)
  unfolding fs_branch ps_branch ps_branch2 responses
  else-IsIn req_mod h on = (end_mod, IsIn-responses flags states _ (search (inr, inl) depth 48))
  else-IsIn gen_fs_req_mod h on =
      (empty_resp_mod, IsIn-responses flags states _ (search (inr, inl) depth 48))
  else-IsIn gen_ps_req_mod h on =
      (empty_resp_mod, IsIn-responses flags states _ (search (inr, inl) depth 48))
  else-IsIn fs_join_mod h on =
      (empty_resp_mod, IsIn-responses flags states _ (search (inr, inl) depth 48))
  else-IsIn ps_join_mod h on =
      (empty_resp_mod, IsIn-responses flags states _ (search (inr, inl) depth 48))
  else-IsIn resp_mod h on = (end_mod, IsIn-responses flags states _ (search (inr, inl) depth 48))
  else-IsIn rand_resp_mod h on =
      (end_mod, IsIn-responses flags states _ (search (inr, inl) depth 48))
  else-IsIn empty_resp_mod h on =
      (end_mod, IsIn-responses flags states _ (search (inr, inl) depth 48))
  else-IsIn (fs_mod i) h on = (
    fs_join_mod,
    IsIn-fs_branch flags states _ i h (
        inr (
          inr (
            inr (
              inr (
                inr (
                  IsIn-append_right _ (rounds (ps_branch2 i) 0 flags.max_sub_model_id_size) _
                    (search (inr, inl) depth 48))))))),
  )
  else-IsIn (ps_join_mod2 i) h on = (
    fs_join_mod,
    IsIn-fs_branch flags states _ i h (
        inr (
          inr (
            inr (
              inr (
                inr (
                  IsIn-append_right _ (rounds (ps_branch2 i) 0 flags.max_sub_model_id_size) _
                    (search (inr, inl) depth 48))))))),
  )
  else-IsIn (ps_mod2 i j) (h, k) on = (
    ps_backfill_mod2 i j,
    IsIn-fs_branch flags states _ i h
        (IsIn-ps_branch2 flags states _ i j k (search (inr, inl) depth 48)),
  )
  else-IsIn (ps_backfill_mod2 i j) (h, k) on = (
    ps_join_mod2 i,
    IsIn-fs_branch flags states _ i h
        (IsIn-ps_branch2 flags states _ i j k (search (inr, inl) depth 48)),
  )
  else-IsIn (ps_mod i) h on =
      (ps_backfill_mod i, IsIn-ps_branch flags states _ i h (search (inr, inl) depth 48))
  else-IsIn (ps_backfill_mod i) h on =
      (ps_join_mod, IsIn-ps_branch flags states _ i h (search (inr, inl) depth 48))
  else-IsIn end_mod h on = cc
  else-IsIn if_rand_mod h on = cc
  else-IsIn fs_fork_mod h on = cc
  else-IsIn ps_fork_mod h on = cc
  else-IsIn (ps_fork_mod2 i) h on = cc

module _ (snprintf : Snprintf) (address : MainModule → ℕ) (flags : Flags) (states : States) where
  else_linked :
      (m : MainModule)
      → IsMade flags m
      → leads_on m ≡ true
      → (t : String) × (linked
            (main_fsm snprintf address flags states)
            (mod_name snprintf m)
            mod_else
          ≡ some t)
  unfolding main_fsm set_start_module set_end_module linked
  else_linked m made on =
      let (b, there) = else-IsIn flags states m made on in
      linked-IsIn (object snprintf address) (main_calls flags states) new_fsm m b mod_else there

  has_target :
      (m : MainModule) (s : ModState)
      → IsMade flags m
      → leads_on m ≡ true
      → (t : String) × (target (main_fsm snprintf address flags states) (mod_name snprintf m) s
          ≡ some t)
  unfolding target
  has_target m s made on =
      let (t, e) = else_linked m made on in
      elim (Option-cases
        (linked (main_fsm snprintf address flags states) (mod_name snprintf m) s)) [
          | inl free ↦ (t, rw free e)
          | inr (u, taken) ↦ (u, ground (arith, taken))
        ]

  target-IsMade :
      (m : MainModule) (s : ModState) (t : String)
      → HasDistinctNames snprintf address flags states
      → IsMade flags m
      → target (main_fsm snprintf address flags states) (mod_name snprintf m) s ≡ some t
      → (b : MainModule) × (t ≡ mod_name snprintf b) × IsMade flags b × (rank b < rank m)
  unfolding main_fsm set_start_module set_end_module linked
  target-IsMade m s t d made h =
      let make = object snprintf address in
      let cs = main_calls flags states in
      let (s', l) =
        target-linked (main_fsm snprintf address flags states) (mod_name snprintf m) s t h in
      let (a, b, there, n, e) = built-IsLink make cs (mod_name snprintf m) s' t l in
      let falls = link-Falls snprintf address flags states a b s' there in
      let same : m ≡ a =
        same_object make cs m a d (IsMade-add flags states m made)
          (IsMade-add flags states a falls.0) n in
      (b, e, falls.1, subst (λ x. rank b < rank x) (sym same) falls.2)

  -- Where the names differ: after any module that `main` made but the forks, the one that chooses the
  -- response and the end module, whatever state it ends in, the machine goes on with a module that `main`
  -- made and that is of lower rank.
  pub main_leads_on :
      {D M E : Type 0} (app : App D M E) (again : Runner D M E)
      → (m : MainModule) (s : ModState) (i : ℕ) (w : World D M E)
      → HasDistinctNames snprintf address flags states
      → IsMade flags m
      → leads_on m ≡ true
      → (address m == address end_mod) ≡ false
      → w.fsm ≡ main_fsm snprintf address flags states
      → (next : MainModule) × IsMade flags next
        × (rank next < rank m)
        × (resume app again (object snprintf address m) s i w
            ≡ again (object snprintf address next) i s w)
  main_leads_on app again m s i w d made on differ e =
      let (t, tgt) = has_target m s made on in
      let (b, n, made', falls) = target-IsMade m s t d made tgt in
      (
        b,
        made',
        falls,
        goes_on snprintf address flags states app again m b s i w d made' differ e
            (tgt ∙ ap some n),
      )
