-- ===== src/Example1/Main/Joins.antt =====
-- example1/main.cc with framework/fsm.cc: the branches of the predictors come back to their join.
use zerver.Prelude.{ℕ, false, some, string_eq, ◌≡◌, ◌==◌, inl, inr, IsIn, if◌then◌else◌, Bool-cases}
use zerver.Framework.Module.{ModState, mod_else, mod_succeed}
use zerver.Framework.Fsm.Links.{target}
use zerver.Framework.Fsm.Calls.{link}
use zerver.Framework.Engine.{World, App, Runner, resume}
use zerver.Example1.Main.{
  MainModule, end_mod, ps_join_mod, ps_join_mod2, ps_mod, ps_backfill_mod, ps_mod2,
  ps_backfill_mod2, Flags, States, Snprintf, mod_name, object, ps_branch2, fs_branch, ps_branch,
  main_calls, main_fsm,
}
use zerver.Example1.Main.Links.{IsMade, IsWired, IsTwoWay}
use zerver.Example1.Main.Targets.{two_way, target-two_way, target-always}
use zerver.Example1.Main.Made.{IsIn-fs_branch, IsIn-ps_branch, IsIn-ps_branch2}
use zerver.Example1.Main.Wiring.{HasDistinctNames}
use zerver.Example1.Main.Forks.{goes_on}

-- The predictors that are asked without feature servers, and for a feature shard.
pub data Predictor : Type 0 where
  alone : ℕ → Predictor
  of_shard : ℕ → ℕ → Predictor

abbrev pub predictor_mod : Predictor → MainModule
predictor_mod (alone i) = ps_mod i
predictor_mod (of_shard i j) = ps_mod2 i j

abbrev pub backfill_mod : Predictor → MainModule
backfill_mod (alone i) = ps_backfill_mod i
backfill_mod (of_shard i j) = ps_backfill_mod2 i j

abbrev pub join_mod : Predictor → MainModule
join_mod (alone i) = ps_join_mod
join_mod (of_shard i j) = ps_join_mod2 i

-- Where a predictor's module leads.
abbrev pub after_predictor : Predictor → ModState → MainModule
after_predictor p s = two_way (join_mod p) (backfill_mod p) s

module _ (flags : Flags) (states : States) where
  predictor_links :
      (p : Predictor)
      → IsMade flags (predictor_mod p)
      → IsIn (link (predictor_mod p) (join_mod p) mod_succeed) (main_calls flags states)
        × IsIn (link (predictor_mod p) (backfill_mod p) mod_else) (main_calls flags states)
        × IsIn (link (backfill_mod p) (join_mod p) mod_else) (main_calls flags states)
  unfolding fs_branch ps_branch ps_branch2
  predictor_links (alone i) h = (
    IsIn-ps_branch flags states _ i h (search (inr, inl) depth 24),
    IsIn-ps_branch flags states _ i h (search (inr, inl) depth 24),
    IsIn-ps_branch flags states _ i h (search (inr, inl) depth 24),
  )
  predictor_links (of_shard i j) (h, k) =
      let in_ : (c : _) → IsIn c (ps_branch2 i j) → IsIn c (main_calls flags states) =
        λ c m. IsIn-fs_branch flags states c i h (IsIn-ps_branch2 flags states c i j k m) in
      (
        in_ _ (search (inr, inl) depth 24),
        in_ _ (search (inr, inl) depth 24),
        in_ _ (search (inr, inl) depth 24),
      )

  joins-IsMade :
      (p : Predictor)
      → IsMade flags (predictor_mod p)
      → IsMade flags (backfill_mod p) × IsMade flags (join_mod p)
  joins-IsMade (alone i) h = (h, tt)
  joins-IsMade (of_shard i j) h = (h, h.0)

  predictor_wired :
      (p : Predictor) (b : MainModule) (s : ModState)
      → IsWired states (predictor_mod p) b s
      → IsTwoWay (join_mod p) (backfill_mod p) b s
  predictor_wired (alone i) b s w = w
  predictor_wired (of_shard i j) b s w = w

  backfill_wired :
      (p : Predictor) (b : MainModule) (s : ModState)
      → IsWired states (backfill_mod p) b s
      → b ≡ join_mod p
  backfill_wired (alone i) b s w = w
  backfill_wired (of_shard i j) b s w = w

module _ (snprintf : Snprintf) (address : MainModule → ℕ) (flags : Flags) (states : States) where
  target-predictor :
      (p : Predictor) (s : ModState)
      → HasDistinctNames snprintf address flags states
      → IsMade flags (predictor_mod p)
      → target (main_fsm snprintf address flags states) (mod_name snprintf (predictor_mod p)) s
        ≡ some (mod_name snprintf (after_predictor p s))
  target-predictor p s d made =
      let (on_success, on_else, _) = predictor_links flags states p made in
      target-two_way snprintf address flags states (predictor_mod p) (join_mod p) (backfill_mod p) s
        d made on_success on_else (predictor_wired flags states p)

  target-backfill :
      (p : Predictor) (s : ModState)
      → HasDistinctNames snprintf address flags states
      → IsMade flags (predictor_mod p)
      → target (main_fsm snprintf address flags states) (mod_name snprintf (backfill_mod p)) s
        ≡ some (mod_name snprintf (join_mod p))
  target-backfill p s d made =
      target-always snprintf address flags states (backfill_mod p) (join_mod p) s d
        (joins-IsMade flags states p made).0 (predictor_links flags states p made).2
        (backfill_wired flags states p)

  after-IsMade :
      (p : Predictor) (s : ModState)
      → IsMade flags (predictor_mod p)
      → IsMade flags (after_predictor p s)
  after-IsMade p s made = elim (Bool-cases (s == mod_succeed)) [
    | inl on ↦ rw on (joins-IsMade flags states p made).1
    | inr off ↦ rw off (joins-IsMade flags states p made).0
  ]

  -- Where the names differ, and neither a predictor's module that `main` made nor its backfill is the end
  -- module: a predictor that succeeds is followed by the join of its fork, one that ends in any other
  -- state by its backfill, and that, whatever its state, by the same join.
  pub main_joins :
      {D M E : Type 0} (app : App D M E) (again : Runner D M E)
      → (p : Predictor) (s : ModState) (i : ℕ) (w : World D M E)
      → HasDistinctNames snprintf address flags states
      → IsMade flags (predictor_mod p)
      → (address (predictor_mod p) == address end_mod) ≡ false
      → (address (backfill_mod p) == address end_mod) ≡ false
      → w.fsm ≡ main_fsm snprintf address flags states
      → (resume app again (object snprintf address (predictor_mod p)) s i w
          ≡ again
              (object snprintf address (if s == mod_succeed then join_mod p else backfill_mod p))
              i
              s
              w)
        × (resume app again (object snprintf address (backfill_mod p)) s i w
            ≡ again (object snprintf address (join_mod p)) i s w)
  main_joins app again p s i w d made one two e = (
    goes_on snprintf address flags states app again (predictor_mod p) (after_predictor p s) s i w d
        (after-IsMade p s made) one e (target-predictor p s d made),
    goes_on snprintf address flags states app again (backfill_mod p) (join_mod p) s i w d
        (joins-IsMade flags states p made).1 two e (target-backfill p s d made),
  )
