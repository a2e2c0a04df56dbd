-- ===== src/Example1/Main/Made.antt =====
-- example1/main.cc: every object that `main` makes is added, and every branch of a fork is linked.
use zerver.Prelude.{
  ℕ, ◌+◌, ◌<◌, ◌≡◌, refl, subst, arith, inl, inr, IsIn, IsIn-append_left, IsIn-append_right, rounds,
  IsIn-rounds,
}
use zerver.Framework.Module.{ModState}
use zerver.Framework.Fsm.Calls.{Call, add, link}
use zerver.Modules.Fork.{mod_fork0}
use zerver.Example1.Main.{
  MainModule, req_mod, gen_fs_req_mod, fs_fork_mod, fs_join_mod, gen_ps_req_mod, ps_fork_mod,
  ps_join_mod, if_rand_mod, resp_mod, rand_resp_mod, empty_resp_mod, end_mod, fs_mod, ps_fork_mod2,
  ps_join_mod2, ps_mod, ps_backfill_mod, ps_mod2, ps_backfill_mod2, Flags, States, ps_branch2,
  fs_branch, ps_branch, max_ps_fork_num, before_fs, before_ps, responses, main_calls,
}
use zerver.Example1.Main.Links.{IsMade, IsWired}

module _ (flags : Flags) (states : States) (c : Call MainModule) where
  pub IsIn-before_fs : IsIn c (before_fs states) → IsIn c (main_calls flags states)
  unfolding main_calls
  IsIn-before_fs h = IsIn-append_left c (before_fs states) _ h

  pub IsIn-fs_branch :
      (i : ℕ)
      → i < flags.fs_max_shard_num
      → IsIn c (fs_branch flags i)
      → IsIn c (main_calls flags states)
  unfolding main_calls
  IsIn-fs_branch i lt h =
      let fs = rounds (fs_branch flags) 0 flags.fs_max_shard_num in
      IsIn-append_right c (before_fs states) _ (
        IsIn-append_left c fs _ (
          IsIn-rounds c (fs_branch flags) 0 flags.fs_max_shard_num i (omega arith) (omega arith) h))

  pub IsIn-before_ps : IsIn c (before_ps states) → IsIn c (main_calls flags states)
  unfolding main_calls
  IsIn-before_ps h =
      let fs = rounds (fs_branch flags) 0 flags.fs_max_shard_num in
      IsIn-append_right c (before_fs states) _
        (IsIn-append_right c fs _ (IsIn-append_left c (before_ps states) _ h))

  pub IsIn-ps_branch :
      (i : ℕ) → i < max_ps_fork_num flags → IsIn c (ps_branch i) → IsIn c (main_calls flags states)
  unfolding main_calls
  IsIn-ps_branch i lt h =
      let fs = rounds (fs_branch flags) 0 flags.fs_max_shard_num in
      let ps = rounds ps_branch 0 (max_ps_fork_num flags) in
      IsIn-append_right c (before_fs states) _ (
        IsIn-append_right c fs _ (
          IsIn-append_right c (before_ps states) _ (
            IsIn-append_left c ps _
              (IsIn-rounds c ps_branch 0 (max_ps_fork_num flags) i (omega arith) (omega arith) h))))

  pub IsIn-responses : IsIn c (responses states) → IsIn c (main_calls flags states)
  unfolding main_calls
  IsIn-responses h =
      let fs = rounds (fs_branch flags) 0 flags.fs_max_shard_num in
      let ps = rounds ps_branch 0 (max_ps_fork_num flags) in
      IsIn-append_right c (before_fs states) _ (
        IsIn-append_right c fs _
          (IsIn-append_right c (before_ps states) _ (IsIn-append_right c ps _ h)))

  pub IsIn-ps_branch2 :
      (i j : ℕ)
      → j < flags.max_sub_model_id_size
      → IsIn c (ps_branch2 i j)
      → IsIn c (fs_branch flags i)
  unfolding fs_branch
  IsIn-ps_branch2 i j lt h =
      let subs = rounds (ps_branch2 i) 0 flags.max_sub_model_id_size in
      inr (
        inr (
          inr (
            inr (
              inr (
                IsIn-append_left c subs _ (
                  IsIn-rounds c (ps_branch2 i) 0 flags.max_sub_model_id_size j (omega arith)
                    (omega arith) h))))))

module _ (flags : Flags) (states : States) where
  pub IsMade-add : (m : MainModule) → IsMade flags m → IsIn (add m) (main_calls flags states)
  unfolding before_fs before_ps responses fs_branch ps_branch ps_branch2
  IsMade-add req_mod h = IsIn-before_fs flags states _ (inl refl)
  IsMade-add gen_fs_req_mod h = IsIn-before_fs flags states _ (search (inr, inl) depth 24)
  IsMade-add fs_fork_mod h = IsIn-before_fs flags states _ (search (inr, inl) depth 24)
  IsMade-add fs_join_mod h = IsIn-before_fs flags states _ (search (inr, inl) depth 24)
  IsMade-add gen_ps_req_mod h = IsIn-before_ps flags states _ (search (inr, inl) depth 24)
  IsMade-add ps_fork_mod h = IsIn-before_ps flags states _ (search (inr, inl) depth 24)
  IsMade-add ps_join_mod h = IsIn-before_ps flags states _ (search (inr, inl) depth 24)
  IsMade-add if_rand_mod h = IsIn-responses flags states _ (search (inr, inl) depth 24)
  IsMade-add resp_mod h = IsIn-responses flags states _ (search (inr, inl) depth 24)
  IsMade-add rand_resp_mod h = IsIn-responses flags states _ (search (inr, inl) depth 24)
  IsMade-add empty_resp_mod h = IsIn-responses flags states _ (search (inr, inl) depth 24)
  IsMade-add end_mod h = IsIn-responses flags states _ (search (inr, inl) depth 24)
  IsMade-add (fs_mod i) h = IsIn-fs_branch flags states _ i h (search (inr, inl) depth 24)
  IsMade-add (ps_fork_mod2 i) h = IsIn-fs_branch flags states _ i h (search (inr, inl) depth 24)
  IsMade-add (ps_join_mod2 i) h = IsIn-fs_branch flags states _ i h (search (inr, inl) depth 24)
  IsMade-add (ps_mod i) h = IsIn-ps_branch flags states _ i h (search (inr, inl) depth 24)
  IsMade-add (ps_backfill_mod i) h = IsIn-ps_branch flags states _ i h (search (inr, inl) depth 24)
  IsMade-add (ps_mod2 i j) (h, k) =
      IsIn-fs_branch flags states _ i h
        (IsIn-ps_branch2 flags states _ i j k (search (inr, inl) depth 24))
  IsMade-add (ps_backfill_mod2 i j) (h, k) =
      IsIn-fs_branch flags states _ i h
        (IsIn-ps_branch2 flags states _ i j k (search (inr, inl) depth 24))

-- The fork modules.
pub data ForkObject : Type 0 where
  fs_fork ps_fork : ForkObject
  ps_fork2 : ℕ → ForkObject

abbrev pub fork_mod : ForkObject → MainModule
fork_mod fs_fork = fs_fork_mod
fork_mod ps_fork = ps_fork_mod
fork_mod (ps_fork2 k) = ps_fork_mod2 k

-- The module that a fork's number leads to.
abbrev pub branch : ForkObject → ℕ → MainModule
branch fs_fork i = fs_mod i
branch ps_fork i = ps_mod i
branch (ps_fork2 k) i = ps_mod2 k i

-- The number that the fork module is made with.
abbrev pub fork_num : Flags → ForkObject → ℕ
fork_num flags fs_fork = flags.fs_max_shard_num
fork_num flags ps_fork = max_ps_fork_num flags
fork_num flags (ps_fork2 k) = flags.max_sub_model_id_size

module _ (flags : Flags) (states : States) where
  pub fork_mod-link :
      (m : ForkObject) (i : ℕ)
      → IsMade flags (fork_mod m)
      → i < fork_num flags m
      → IsIn (link (fork_mod m) (branch m i) (mod_fork0 + i)) (main_calls flags states)
  unfolding fs_branch ps_branch ps_branch2
  fork_mod-link fs_fork i h lt = IsIn-fs_branch flags states _ i lt (search (inr, inl) depth 24)
  fork_mod-link ps_fork i h lt = IsIn-ps_branch flags states _ i lt (search (inr, inl) depth 24)
  fork_mod-link (ps_fork2 k) i h lt =
      IsIn-fs_branch flags states _ k h
        (IsIn-ps_branch2 flags states _ k i lt (search (inr, inl) depth 24))

  pub IsWired-branch :
      (m : ForkObject) (b : MainModule) (s : ModState)
      → IsWired states (fork_mod m) b s
      → IsMade flags b
      → (i : ℕ) × (b ≡ branch m i) × (s ≡ mod_fork0 + i) × (i < fork_num flags m)
  IsWired-branch fs_fork b s (i, e, n) h = (i, e, n, subst (IsMade flags) e h)
  IsWired-branch ps_fork b s (i, e, n) h = (i, e, n, subst (IsMade flags) e h)
  IsWired-branch (ps_fork2 k) b s (i, e, n) h = (i, e, n, (subst (IsMade flags) e h).1)

  pub branch-IsMade :
      (m : ForkObject) (i : ℕ)
      → IsMade flags (fork_mod m)
      → i < fork_num flags m
      → IsMade flags (branch m i)
  branch-IsMade fs_fork i h lt = lt
  branch-IsMade ps_fork i h lt = lt
  branch-IsMade (ps_fork2 k) i h lt = (h, lt)
