-- ===== src/Modules/Join/Once.antt =====
-- module/join_module.cc: which thread resumes the machine, and with what state.
use zerver.Prelude.{
  ℕ, zero, suc, ◌+◌, ◌^◌, ◌≤◌, ◌<◌, ◌&&◌, Option, none, some, List, [], ◌∷◌, ◌≡◌, refl, sym, subst,
  ◌∙◌, arith, ◌⊎◌, inl, inr, ◌==◌, ltb, leb, if◌then◌else◌, get_elem?, set, length, length-set, All,
  All-set, Option-cases, set-get_elem?,
}
use mathlib.Core.Option.{some-injective}
use zerver.Framework.Module.{ModState, mod_succeed, mod_failed}
use zerver.Modules.Join.{
  JoinData, reset, enter, check, Phase, outside, inside, returned, Thread, Shared, begin, advance,
  step, run,
}
use zerver.Modules.Join.Threads.{
  total, total-set, arrived, failing, doomed, numbered, fired, running,
}

Phase-cases :
    (p : Phase)
    → (p ≡ outside)
      ⊎ ((k : ℕ) × (p ≡ inside k))
      ⊎ ((k : ℕ) × (r : Option ModState) × (p ≡ returned k r))
Phase-cases outside = inl refl
Phase-cases (inside k) = inr (inl (k, refl))
Phase-cases (returned k r) = inr (inr (k, r, refl))

arrived-le : (ts : List Thread) → total arrived ts ≤ length ts
arrived-le [] = omega arith
arrived-le (t ∷ ts) = ground (arith, arrived-le ts)

failing-doomed :
    (ts : List Thread)
    → (total failing ts ≤ total doomed ts)
      × (total doomed ts + total arrived ts ≤ total failing ts + length ts)
failing-doomed [] = omega arith
failing-doomed (t ∷ ts) = ground (arith, failing-doomed ts)

numbered-get_elem? :
    (k : ℕ) (ts : List Thread) (i : ℕ) (t : Thread)
    → get_elem? ts i ≡ some t
    → numbered k t ≤ total (numbered k) ts
numbered-get_elem? k [] i t h = cc
numbered-get_elem? k (x ∷ ts) zero t h =
    let same : x ≡ t = some-injective x t h in
    subst (λ y. numbered k y ≤ total (numbered k) (x ∷ ts)) same (omega arith)
numbered-get_elem? k (x ∷ ts) (suc i) t h = omega (arith, numbered-get_elem? k ts i t h)

-- The state that the branches earn together: success if all of them succeeded.
abbrev pub verdict : List Thread → ModState
verdict ts = if total doomed ts == 0 then mod_succeed else mod_failed

module _ (active : ℕ) (outcome : ModState) (small : active < 2 ^ 16) where
  -- A thread that has returned has set the timer exactly if it was the last, with the common state.
  abbrev Settled : Thread → Type 0
  Settled t = elim t.phase [
    | outside ↦ Unit
    | inside k ↦ Unit
    | returned k r ↦ r ≡ (if k == active then some outcome else none)
  ]

  record Inv (s : Shared) : Type 0 where
    all_here : length s.threads ≡ active
    decided : verdict s.threads ≡ outcome
    counted : s.join_data.module_joined_num ≡ total arrived s.threads
    flagged : s.join_data.failed_join ≡ ltb 0 (total failing s.threads)
    distinct :
        (k : ℕ)
        → total (numbered k) s.threads
          ≡ (if ltb 0 k && leb k (total arrived s.threads) then 1 else 0)
    settled : All Settled s.threads

  enter-Inv :
      (s : Shared) (i : ℕ) (t : Thread)
      → get_elem? s.threads i ≡ some t
      → t.phase ≡ outside
      → Inv s
      → Inv (record {
        join_data = (enter t.last s.join_data).1;
        threads = set s.threads i (record t { phase = inside (enter t.last s.join_data).0 });
      })
  unfolding enter
  enter-Inv s i t e ph v =
      let t' : Thread = record t { phase = inside (enter t.last s.join_data).0 } in
      let arr = total-set arrived s.threads i t t' e in
      let bound = arrived-le (set s.threads i t') in
      let len = length-set s.threads i t' in
      record {
        all_here = len ∙ v.all_here;
        decided = ground (arith, total-set doomed s.threads i t t' e, v.decided);
        counted = ground (arith, arr, bound, len, v.counted, v.all_here);
        flagged = ground (arith, total-set failing s.threads i t t' e, v.flagged);
        distinct = λ k. ground (
          arith,
          arr,
          bound,
          len,
          v.counted,
          v.all_here,
          v.distinct k,
          total-set (numbered k) s.threads i t t' e,
        );
        settled = All-set Settled s.threads i t' v.settled tt;
      }

  check-Inv :
      (s : Shared) (i : ℕ) (t : Thread) (k : ℕ)
      → get_elem? s.threads i ≡ some t
      → t.phase ≡ inside k
      → Inv s
      → Inv (record s {
        threads = set s.threads i (record t { phase = returned k (check active k s.join_data) });
      })
  unfolding check
  check-Inv s i t k e ph v =
      let t' : Thread = record t { phase = returned k (check active k s.join_data) } in
      record {
        all_here = length-set s.threads i t' ∙ v.all_here;
        decided = ground (arith, total-set doomed s.threads i t t' e, v.decided);
        counted = ground (arith, total-set arrived s.threads i t t' e, v.counted);
        flagged = ground (arith, total-set failing s.threads i t t' e, v.flagged);
        distinct = λ j. ground (
          arith,
          total-set arrived s.threads i t t' e,
          total-set (numbered j) s.threads i t t' e,
          v.distinct j,
        );
        settled = All-set Settled s.threads i t' v.settled (
            ground (
              arith,
              numbered-get_elem? k s.threads i t e,
              v.distinct k,
              failing-doomed s.threads,
              arrived-le s.threads,
              v.flagged,
              v.decided,
              v.all_here,
            ));
      }

  advance-Inv :
      (s : Shared) (i : ℕ) (t : Thread)
      → get_elem? s.threads i ≡ some t
      → Inv s
      → Inv (record {
        join_data = (advance active t s.join_data).1;
        threads = set s.threads i (advance active t s.join_data).0;
      })
  unfolding advance
  advance-Inv s i t e v =
      let put = λ (x : Thread × JoinData).
        let after : Shared = record { join_data = x.1; threads = set s.threads i x.0 } in after in
      elim (Phase-cases t.phase) [
        | inl ph ↦ subst (λ x. Inv (put x)) (sym (rw (ph, advance))) (enter-Inv s i t e ph v)
        | inr (inl (k, ph)) ↦
            subst (λ x. Inv (put x)) (sym (rw (ph, advance))) (check-Inv s i t k e ph v)
        | inr (inr (k, r, ph)) ↦
            let same : advance active t s.join_data ≡ (t, s.join_data) = ground arith in
            subst (λ x. Inv (put x)) (sym same)
              (subst (λ ts. Inv (record s { threads = ts })) (sym (set-get_elem? s.threads i t e))
                v)
      ]

  step-Inv : (s : Shared) (i : ℕ) → Inv s → Inv (step active s i)
  unfolding step
  step-Inv s i v = elim (Option-cases (get_elem? s.threads i)) [
    | inl e ↦ rw (e, step) v
    | inr (t, e) ↦ rw (e, step) (advance-Inv s i t e v)
  ]

  run-Inv : (s : Shared) (schedule : List ℕ) → Inv s → Inv (run active s schedule)
  unfolding run
  run-Inv s [] v = v
  run-Inv s (i ∷ schedule) v = run-Inv (step active s i) schedule (step-Inv s i v)

  fired-le : (ts : List Thread) → All Settled ts → total fired ts ≤ total (numbered active) ts
  fired-le [] h = omega arith
  fired-le (t ∷ ts) h = ground (arith, fired-le ts h.1, h.0)

  fired-running :
      (ts : List Thread)
      → All Settled ts
      → total running ts ≡ 0
      → (total fired ts ≡ total (numbered active) ts) × (total arrived ts ≡ length ts)
  fired-running [] h r = omega arith
  fired-running (t ∷ ts) h r = ground (arith, fired-running ts h.1, h.0)

-- The state that a thread has set, if it has, is this one.
abbrev pub IsOutcome : ModState → Thread → Type 0
IsOutcome outcome t = elim t.phase [
  | outside ↦ Unit
  | inside k ↦ Unit
  | returned k r ↦ elim r [ none ↦ Unit | some state ↦ state ≡ outcome ]
]

Settled-IsOutcome :
    (active : ℕ) (outcome : ModState) (small : active < 2 ^ 16) (ts : List Thread)
    → All (Settled active outcome small) ts
    → All (IsOutcome outcome) ts
Settled-IsOutcome active outcome small [] h = tt
Settled-IsOutcome active outcome small (t ∷ ts) h =
    (ground (arith, h.0), Settled-IsOutcome active outcome small ts h.1)

begin_totals :
    (states : List ModState)
    → (length (begin states) ≡ length states)
      × (total arrived (begin states) ≡ 0)
      × (total failing (begin states) ≡ 0)
begin_totals [] = omega arith
begin_totals (s ∷ states) = ground (arith, begin_totals states)

begin-numbered : (k : ℕ) (states : List ModState) → total (numbered k) (begin states) ≡ 0
begin-numbered k [] = refl
begin-numbered k (s ∷ states) = ground (arith, begin-numbered k states)

begin-Settled :
    (active : ℕ) (outcome : ModState) (small : active < 2 ^ 16) (states : List ModState)
    → All (Settled active outcome small) (begin states)
begin-Settled active outcome small [] = tt
begin-Settled active outcome small (s ∷ states) = (tt, begin-Settled active outcome small states)

begin-Inv :
    (states : List ModState) (d : JoinData) (small : length states < 2 ^ 16)
    → Inv
        (length states)
        (verdict (begin states))
        small
        (record { join_data = reset d; threads = begin states })
unfolding reset
begin-Inv states d small = record {
  all_here = (begin_totals states).0;
  decided = refl;
  counted = omega (arith, begin_totals states);
  flagged = ground (arith, begin_totals states);
  distinct = λ k. ground (arith, begin_totals states, begin-numbered k states);
  settled = begin-Settled _ _ small states;
}

-- As many threads as the module joins, fewer than 2^16, run it with the states of their branches, after
-- `reset` and in any interleaving. At most one of them resumes the machine; once all have returned
-- exactly one has; and it does so with success if every branch succeeded, and else with failure.
pub join_resumes_once :
    (states : List ModState) (d : JoinData) (schedule : List ℕ)
    → 0 < length states
    → length states < 2 ^ 16
    → let start : Shared = record { join_data = reset d; threads = begin states } in
      let ts = (run (length states) start schedule).threads in
      (total fired ts ≤ 1)
      × (total running ts ≡ 0 → total fired ts ≡ 1)
      × All (IsOutcome (verdict (begin states))) ts
join_resumes_once states d schedule some_ small =
    let outcome = verdict (begin states) in
    let active = length states in
    let start : Shared = record { join_data = reset d; threads = begin states } in
    let v = run-Inv active outcome small start schedule (begin-Inv states d small) in
    let ts = (run active start schedule).threads in
    (
      ground (arith, fired-le active outcome small ts v.settled, v.distinct active),
      λ all_back. ground (
        arith,
        fired-running active outcome small ts v.settled all_back,
        v.distinct active,
        v.all_here,
      ),
      Settled-IsOutcome active outcome small ts v.settled,
    )
