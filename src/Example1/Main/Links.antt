-- ===== src/Example1/Main/Links.antt =====
-- example1/main.cc: what `main` adds, and where its links lead.
use zerver.Prelude.{
  ℕ, ◌+◌, ◌<◌, ◌≡◌, refl, arith, ◌⊎◌, inl, inr, All, All-append, rounds, All-rounds,
}
use zerver.Framework.Module.{ModState, mod_else, mod_succeed}
use zerver.Framework.Fsm.Calls.{Call, add, link}
use zerver.Modules.Fork.{mod_fork0}
use zerver.Example1.Main.{
  MainModule, req_mod, gen_fs_req_mod, fs_fork_mod, fs_join_mod, gen_ps_req_mod, ps_fork_mod,
  ps_join_mod, if_rand_mod, resp_mod, rand_resp_mod, empty_resp_mod, end_mod, fs_mod, ps_fork_mod2,
  ps_join_mod2, ps_mod, ps_backfill_mod, ps_mod2, ps_backfill_mod2, Flags, States, ps_branch2,
  fs_branch, ps_branch, max_ps_fork_num, before_fs, before_ps, responses, main_calls,
}

-- The objects that `main` makes: the loop variables stay below the bounds.
abbrev pub IsMade : Flags → MainModule → Type 0
IsMade flags (fs_mod i) = i < flags.fs_max_shard_num
IsMade flags (ps_fork_mod2 i) = i < flags.fs_max_shard_num
IsMade flags (ps_join_mod2 i) = i < flags.fs_max_shard_num
IsMade flags (ps_mod2 i j) = (i < flags.fs_max_shard_num) × (j < flags.max_sub_model_id_size)
IsMade flags (ps_backfill_mod2 i j) =
    (i < flags.fs_max_shard_num) × (j < flags.max_sub_model_id_size)
IsMade flags (ps_mod i) = i < max_ps_fork_num flags
IsMade flags (ps_backfill_mod i) = i < max_ps_fork_num flags
IsMade flags _ = Unit

-- How many links lead from a module to the end, at most.
abbrev pub rank : MainModule → ℕ
rank end_mod = 0
rank resp_mod = 1
rank rand_resp_mod = 1
rank empty_resp_mod = 1
rank if_rand_mod = 2
rank fs_join_mod = 3
rank ps_join_mod = 3
rank (ps_backfill_mod i) = 4
rank (ps_mod i) = 5
rank ps_fork_mod = 6
rank gen_ps_req_mod = 7
rank (ps_join_mod2 i) = 4
rank (ps_backfill_mod2 i j) = 5
rank (ps_mod2 i j) = 6
rank (ps_fork_mod2 i) = 7
rank (fs_mod i) = 8
rank fs_fork_mod = 9
rank gen_fs_req_mod = 10
rank req_mod = 11

-- A link for success, or one for all else.
abbrev pub IsTwoWay : MainModule → MainModule → MainModule → ModState → Type 0
IsTwoWay on_success on_else b s =
    ((b ≡ on_success) × (s ≡ mod_succeed)) ⊎ ((b ≡ on_else) × (s ≡ mod_else))

-- Where the links of each module lead, and for which states. A fork module has one for the number of
-- each branch.
abbrev pub IsWired : States → MainModule → MainModule → ModState → Type 0
IsWired states req_mod b s =
    ((b ≡ gen_fs_req_mod) × (s ≡ states.mod_req_succeed_to_fs))
    ⊎ ((b ≡ gen_ps_req_mod) × (s ≡ states.mod_req_succeed_to_ps))
    ⊎ ((b ≡ rand_resp_mod) × (s ≡ states.mod_req_succeed_to_random))
    ⊎ ((b ≡ end_mod) × (s ≡ mod_else))
IsWired states gen_fs_req_mod b s = IsTwoWay fs_fork_mod empty_resp_mod b s
IsWired states fs_fork_mod b s = (i : ℕ) × (b ≡ fs_mod i) × (s ≡ mod_fork0 + i)
IsWired states (fs_mod i) b s = IsTwoWay (ps_fork_mod2 i) fs_join_mod b s
IsWired states (ps_fork_mod2 k) b s = (i : ℕ) × (b ≡ ps_mod2 k i) × (s ≡ mod_fork0 + i)
IsWired states (ps_mod2 i j) b s = IsTwoWay (ps_join_mod2 i) (ps_backfill_mod2 i j) b s
IsWired states (ps_backfill_mod2 i j) b s = b ≡ ps_join_mod2 i
IsWired states (ps_join_mod2 i) b s = b ≡ fs_join_mod
IsWired states fs_join_mod b s = IsTwoWay if_rand_mod empty_resp_mod b s
IsWired states gen_ps_req_mod b s = IsTwoWay ps_fork_mod empty_resp_mod b s
IsWired states ps_fork_mod b s = (i : ℕ) × (b ≡ ps_mod i) × (s ≡ mod_fork0 + i)
IsWired states (ps_mod i) b s = IsTwoWay ps_join_mod (ps_backfill_mod i) b s
IsWired states (ps_backfill_mod i) b s = b ≡ ps_join_mod
IsWired states ps_join_mod b s = IsTwoWay if_rand_mod empty_resp_mod b s
IsWired states if_rand_mod b s =
    ((b ≡ resp_mod) × (s ≡ states.mod_not_rand_resp))
    ⊎ ((b ≡ rand_resp_mod) × (s ≡ states.mod_rand_resp))
IsWired states resp_mod b s = b ≡ end_mod
IsWired states rand_resp_mod b s = b ≡ end_mod
IsWired states empty_resp_mod b s = b ≡ end_mod
IsWired states end_mod b s = ⊥

-- A call that links objects that are made, the first of higher rank, as it is wired.
abbrev pub Falls : Flags → States → Call MainModule → Type 0
Falls flags states (add m) = Unit
Falls flags states (link a b s) =
    IsMade flags a × IsMade flags b × (rank b < rank a) × IsWired states a b s

module _ (flags : Flags) (states : States) where
  ps_branch2-Falls :
      (i j : ℕ)
      → i < flags.fs_max_shard_num
      → j < flags.max_sub_model_id_size
      → All (Falls flags states) (ps_branch2 i j)
  unfolding ps_branch2
  ps_branch2-Falls i j h k = (
    tt,
    (
      (h, (h, k), omega arith, (j, refl, refl)),
      (
        ((h, k), h, omega arith, inl (refl, refl)),
        (
          tt,
          (
            ((h, k), (h, k), omega arith, inr (refl, refl)),
            (((h, k), h, omega arith, refl), (((h, k), h, omega arith, refl), tt)),
          ),
        ),
      ),
    ),
  )

  fs_branch-Falls :
      (i : ℕ) → i < flags.fs_max_shard_num → All (Falls flags states) (fs_branch flags i)
  unfolding fs_branch
  fs_branch-Falls i h = (
    tt,
    (
      (tt, h, omega arith, (i, refl, refl)),
      (
        tt,
        (
          (h, h, omega arith, inl (refl, refl)),
          (
            tt,
            All-append (Falls flags states) (rounds (ps_branch2 i) 0 flags.max_sub_model_id_size) _
                (All-rounds (Falls flags states) (ps_branch2 i) 0 flags.max_sub_model_id_size
                  (λ j le lt. ps_branch2-Falls i j h (omega arith)))
                (
                  (h, tt, omega arith, refl),
                  ((h, tt, omega arith, refl), ((h, tt, omega arith, inr (refl, refl)), tt)),
                ),
          ),
        ),
      ),
    ),
  )

  ps_branch-Falls : (i : ℕ) → i < max_ps_fork_num flags → All (Falls flags states) (ps_branch i)
  unfolding ps_branch
  ps_branch-Falls i h = (
    tt,
    (
      (tt, h, omega arith, (i, refl, refl)),
      (
        tt,
        (
          (h, tt, omega arith, inl (refl, refl)),
          (
            (h, h, omega arith, inr (refl, refl)),
            ((h, tt, omega arith, refl), ((h, tt, omega arith, refl), tt)),
          ),
        ),
      ),
    ),
  )

  before_fs-Falls : All (Falls flags states) (before_fs states)
  unfolding before_fs
  before_fs-Falls = (
    tt,
    (
      tt,
      (
        (tt, tt, omega arith, inl (refl, refl)),
        (tt, ((tt, tt, omega arith, inl (refl, refl)), (tt, tt))),
      ),
    ),
  )

  before_ps-Falls : All (Falls flags states) (before_ps states)
  unfolding before_ps
  before_ps-Falls = (
    tt,
    (
      (tt, tt, omega arith, inr (inl (refl, refl))),
      (tt, ((tt, tt, omega arith, inl (refl, refl)), (tt, tt))),
    ),
  )

  responses-Falls : All (Falls flags states) (responses states)
  unfolding responses
  responses-Falls = (
    tt,
    (
      (tt, tt, omega arith, inl (refl, refl)),
      (
        (tt, tt, omega arith, inl (refl, refl)),
        (
          tt,
          (
            (tt, tt, omega arith, inl (refl, refl)),
            (
              tt,
              (
                (tt, tt, omega arith, inr (refl, refl)),
                (
                  (tt, tt, omega arith, inr (inr (inl (refl, refl)))),
                  (
                    tt,
                    (
                      (tt, tt, omega arith, inr (refl, refl)),
                      (
                        (tt, tt, omega arith, inr (refl, refl)),
                        (
                          tt,
                          (
                            (tt, tt, omega arith, refl),
                            (
                              (tt, tt, omega arith, refl),
                              (
                                (tt, tt, omega arith, refl),
                                (
                                  (tt, tt, omega arith, refl),
                                  (
                                    (tt, tt, omega arith, refl),
                                    (
                                      (tt, tt, omega arith, refl),
                                      (
                                        (tt, tt, omega arith, inr (inr (inr (refl, refl)))),
                                        (
                                          (tt, tt, omega arith, inr (refl, refl)),
                                          ((tt, tt, omega arith, inr (refl, refl)), tt),
                                        ),
                                      ),
                                    ),
                                  ),
                                ),
                              ),
                            ),
                          ),
                        ),
                      ),
                    ),
                  ),
                ),
              ),
            ),
          ),
        ),
      ),
    ),
  )

  pub main_calls-Falls : All (Falls flags states) (main_calls flags states)
  unfolding main_calls
  main_calls-Falls =
      let P = Falls flags states in
      let fs = rounds (fs_branch flags) 0 flags.fs_max_shard_num in
      let ps = rounds ps_branch 0 (max_ps_fork_num flags) in
      All-append P (before_fs states) _ before_fs-Falls (
        All-append P fs _
          (All-rounds P (fs_branch flags) 0 flags.fs_max_shard_num
            (λ i le lt. fs_branch-Falls i (omega arith)))
          (All-append P (before_ps states) _ before_ps-Falls (
            All-append P ps _
              (All-rounds P ps_branch 0 (max_ps_fork_num flags)
                (λ i le lt. ps_branch-Falls i (omega arith)))
              responses-Falls)))
