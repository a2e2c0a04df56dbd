-- ===== src/Prelude/Time.antt =====
-- The time of `gettimeofday`.
use Prim.Native.Nat.{ℕ}

pub record Timeval : Type 0 where
  pub tv_sec : ℕ
  pub tv_usec : ℕ
