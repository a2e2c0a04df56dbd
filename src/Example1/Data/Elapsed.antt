-- ===== src/Example1/Data/Elapsed.antt =====
-- example1/Data.h: how `elapsed_ms_from_now` rounds.
use zerver.Prelude.{ℕ, ◌+◌, ◌-◌, ◌*◌, ◌/◌, ◌≤◌, ◌<◌, ◌≡◌, ◌∙◌, ap, arith}
use zerver.Prelude.Int.{
  pos, sub_ℕ, ◌+ℤ◌, scale, quot, to_int, pos_part, neg_part, sub_ℕ_parts, sub_ℕ-pos, to_int-pos,
}
use zerver.Prelude.Time.{Timeval}
use zerver.Example1.Data.{elapsed_ms}

abbrev pub micros : Timeval → ℕ
micros t = t.tv_sec * 1_000_000 + t.tv_usec

sum_ms :
    (now time : Timeval)
    → now.tv_usec < 1_000_000
    → time.tv_usec < 1_000_000
    → micros time ≤ micros now
    → now.tv_sec < time.tv_sec + 2_000_000
    → elapsed_ms now time
      ≡ pos (
          (now.tv_sec - time.tv_sec) * 1000
          + (now.tv_usec - time.tv_usec) / 1000
          - (time.tv_usec - now.tv_usec) / 1000)
unfolding elapsed_ms ◌+ℤ◌ scale quot
sum_ms now time h k le near =
    let s = sub_ℕ_parts now.tv_sec time.tv_sec in
    let u = sub_ℕ_parts now.tv_usec time.tv_usec in
    let ps =
      sub_ℕ_parts (1000 * pos_part (sub_ℕ now.tv_sec time.tv_sec))
        (1000 * neg_part (sub_ℕ now.tv_sec time.tv_sec)) in
    let pu =
      sub_ℕ_parts (pos_part (sub_ℕ now.tv_usec time.tv_usec) / 1000)
        (neg_part (sub_ℕ now.tv_usec time.tv_usec) / 1000) in
    rw (ps.0, ps.1, pu.0, pu.1, s.0, s.1, u.0, u.1)
      (ap to_int (sub_ℕ-pos _ _ (omega arith)) ∙ to_int-pos _ (omega arith) ∙ ap pos (omega arith))

-- For a clock that was not set back, and times less than 2,000,000 seconds apart: the result is not
-- negative, and differs from the time that has passed by less than a millisecond, in one direction or
-- the other.
pub elapsed_ms_bounds :
    (now time : Timeval)
    → now.tv_usec < 1_000_000
    → time.tv_usec < 1_000_000
    → micros time ≤ micros now
    → now.tv_sec < time.tv_sec + 2_000_000
    → (ms : ℕ) × (elapsed_ms now time ≡ pos ms)
      × (ms * 1000 < (micros now - micros time) + 1000)
      × ((micros now - micros time) < ms * 1000 + 1000)
unfolding elapsed_ms
elapsed_ms_bounds now time h k le near = (
  (now.tv_sec - time.tv_sec) * 1000
      + (now.tv_usec - time.tv_usec) / 1000
      - (time.tv_usec - now.tv_usec) / 1000,
  sum_ms now time h k le near,
  omega arith,
  omega arith,
)
