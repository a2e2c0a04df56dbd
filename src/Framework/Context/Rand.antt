-- ===== src/Framework/Context/Rand.antt =====
-- framework/data.cc, `my_rand`: the numbers that one thread draws. `rand_r` of the C library, which takes
-- a seed and gives a number and the next seed, is a parameter.
use zerver.Prelude.{
  ℕ, ◌*◌, ◌%◌, ◌^◌, Option, none, some, List, [], ◌∷◌, ◌≡◌, refl, ap, length, arith,
}
use zerver.Prelude.Time.{Timeval}

-- A new seed, as an `unsigned int` of 32 bits.
unfoldable pub first_seed : Timeval → ℕ
first_seed tv = (tv.tv_sec * tv.tv_usec) % 2 ^ 32

module _ (rand_r : ℕ → ℕ × ℕ) where
  -- `my_rand`, with the time and the seed of the thread, which is null at first.
  unfoldable pub my_rand : Timeval → Option ℕ → ℕ × Option ℕ
  unfolding first_seed
  my_rand now none = let (drawn, next) = rand_r (first_seed now) in (drawn, some next)
  my_rand now (some seed) = let (drawn, next) = rand_r seed in (drawn, some next)

  -- What a thread draws at the times of a list.
  abbrev pub draws : List Timeval → Option ℕ → List ℕ
  draws [] seed = []
  draws (now ∷ times) seed = let (drawn, next) = my_rand now seed in drawn ∷ draws times next

  draws-some :
      (seed : ℕ) (times times' : List Timeval)
      → length times ≡ length times'
      → draws times (some seed) ≡ draws times' (some seed)
  unfolding my_rand
  draws-some seed [] [] h = refl
  draws-some seed (t ∷ ts) [] h = ground (arith, h)
  draws-some seed [] (t ∷ ts) h = ground (arith, h)
  draws-some seed (t ∷ ts) (t' ∷ ts') h =
      ap (λ l. (rand_r seed).0 ∷ l) (draws-some (rand_r seed).1 ts ts' (omega (arith, h)))

  -- Two threads whose first draws come at times with the same product of seconds and microseconds modulo
  -- 2^32, as at the same time or each at a whole second, draw the same numbers from then on, at whatever
  -- times, whatever `rand_r` is.
  pub draws-same :
      (now now' : Timeval) (times times' : List Timeval)
      → (now.tv_sec * now.tv_usec) % 2 ^ 32 ≡ (now'.tv_sec * now'.tv_usec) % 2 ^ 32
      → length times ≡ length times'
      → draws (now ∷ times) none ≡ draws (now' ∷ times') none
  unfolding my_rand first_seed
  draws-same now now' times times' same h =
      let (drawn, next) = rand_r ((now'.tv_sec * now'.tv_usec) % 2 ^ 32) in
      rw same (ap (λ l. drawn ∷ l) (draws-some next times times' h))
