-- ===== src/Ss/Limits/Rates.antt =====
-- The rates and bursts that `SyncUsers` of internal/ss/limits.go leaves.
use small_x.Base.{
  ℤ, pos, negsuc, ℕ, zero, suc, ◌+◌, ◌*◌, ◌/◌, ◌%◌, ◌-◌, ◌≤◌, ◌<◌, ◌≡◌, refl, sym, subst, List,
  Option, none, some, ◌⊎◌, inl, inr, arith, signed64, ltb, Bool-cases,
}
use small_x.Ss.Types.{UserConfig}
use small_x.Ss.Limits.{SessionLimiter}
use small_x.Ss.Limits.Speed.{
  RateLib, sync_users, get_speed_limiter, view-sync_users, wanted, setting_of, last_user, view,
  speed_limit_to_bytes, burst_of, div8,
}

-- The rate and the burst for a limit of `n` megabits for a second, whose product with a million is
-- the 64-bit word `w`: none when the word is below 8 or has its sign bit set; otherwise an eighth of
-- it, and a burst of the same size, of 64 KiB at least.
abbrev pub IsRate : ℕ → Option (ℕ × ℕ) → Type 0
IsRate w v =
    (((w < 8) ⊎ (9_223_372_036_854_775_808 ≤ w)) × (v ≡ none))
    ⊎ ((8 ≤ w)
        × (w < 9_223_372_036_854_775_808)
        × ((r : ℕ) × (b : ℕ) × (v ≡ some (r, b))
            × (8 * r ≤ w)
            × (w < 8 * r + 8)
            × ((b ≡ r) × (65_536 ≤ r) ⊎ (b ≡ 65_536) × (r < 65_536))))

-- What a user asks for: a limit of 0 or below is none.
abbrev IsRateOf : ℤ → Option (ℕ × ℕ) → Type 0
IsRateOf (pos n) v = IsRate ((n * 1_000_000) % 18_446_744_073_709_551_616) v
IsRateOf (negsuc n) v = v ≡ none

abbrev pub IsLimitOf : Option UserConfig → Option (ℕ × ℕ) → Type 0
IsLimitOf none v = v ≡ none
IsLimitOf (some u) v = IsRateOf u.speed_limit v

setting_of_zero : (k : ℕ) → k ≡ 0 → setting_of (pos k) ≡ none
setting_of_zero zero h = refl
setting_of_zero (suc k) h = absurd (omega (arith, h))

setting_of_positive : (k : ℕ) → 1 ≤ k → setting_of (pos k) ≡ some (k, burst_of k)
setting_of_positive zero h = absurd (omega (arith, h))
setting_of_positive (suc k) h = refl

burst_of-cases : (r : ℕ) → (burst_of r ≡ r) × (65_536 ≤ r) ⊎ (burst_of r ≡ 65_536) × (r < 65_536)
burst_of-cases r = elim (Bool-cases (ltb r 65_536)) [
  | inl low ↦ inr (rw low refl, ground (arith, low))
  | inr high ↦ inl (rw high refl, ground (arith, high))
]

-- A product with its sign bit set is below 0, and so is its eighth, or it is 0.
negative-none : (n : ℕ) → setting_of (div8 (negsuc n)) ≡ none
negative-none n = at_eighth ((n + 1) / 8)
  where
    at_eighth : (k : ℕ) → setting_of (elim k [ zero ↦ pos 0 | suc m ↦ negsuc m ]) ≡ none
    at_eighth zero = refl
    at_eighth (suc m) = refl

signed64_low : (w : ℕ) → w < 9_223_372_036_854_775_808 → signed64 w ≡ pos w
signed64_low w h = ground (arith, h)

signed64_high : (w : ℕ) → 9_223_372_036_854_775_808 ≤ w → (n : ℕ) × (signed64 w ≡ negsuc n)
signed64_high w h = (18_446_744_073_709_551_616 - w - 1, ground (arith, h))

setting_of-IsRate :
    (w : ℕ) → w < 18_446_744_073_709_551_616 → IsRate w (setting_of (div8 (signed64 w)))
setting_of-IsRate w h = elim (Bool-cases (ltb w 9_223_372_036_854_775_808)) [
  | inl low ↦
      let small : w < 9_223_372_036_854_775_808 = ground (arith, low) in
      rw (signed64_low w small) (elim (Bool-cases (ltb w 8)) [
        | inl tiny ↦
            let under : w < 8 = ground (arith, tiny) in
            inl (inl under, setting_of_zero (w / 8) (omega (arith, under)))
        | inr some_bytes ↦
            let over : 8 ≤ w = ground (arith, some_bytes) in
            inr (
              over,
              small,
              (
                w / 8,
                burst_of (w / 8),
                setting_of_positive (w / 8) (omega (arith, over)),
                omega arith,
                omega arith,
                burst_of-cases (w / 8),
              ),
            )
      ])
  | inr high ↦
      let large : 9_223_372_036_854_775_808 ≤ w = ground (arith, high) in
      let (n, e) = signed64_high w large in inl (inr large, rw e (negative-none n))
]

speed-IsRateOf : (speed : ℤ) → IsRateOf speed (setting_of (speed_limit_to_bytes speed))
unfolding speed_limit_to_bytes
speed-IsRateOf (negsuc n) = refl
speed-IsRateOf (pos n) = elim (Bool-cases (ltb 0 n)) [
  | inl positive ↦
      let same : n * 1000 * 1000 ≡ n * 1_000_000 = omega arith in
      rw (positive, same)
        (setting_of-IsRate ((n * 1_000_000) % 18_446_744_073_709_551_616) (omega arith))
  | inr zero_limit ↦
      let none_asked : n ≡ 0 = ground (arith, zero_limit) in
      rw none_asked (inl (inl (omega arith), refl))
]

wanted-IsLimitOf : (u : Option UserConfig) → IsLimitOf u (wanted u)
wanted-IsLimitOf none = refl
wanted-IsLimitOf (some u) = speed-IsRateOf u.speed_limit

-- After `SyncUsers`, whatever limiters there were before: the limiter of a user is the one that the
-- last entry with its id asks for, and there is none without such an entry or for a limit of 0 or
-- below. A limit of `n` megabits for a second gives the word `w` of `n` millions modulo 2 ^ 64: no
-- limiter when it is below 8 or at least 2 ^ 63, otherwise a rate of `w / 8` bytes and a burst of as
-- many, or of 64 KiB when these are more.
pub get_speed_limiter-sync_users :
    (rates : RateLib) (users : List UserConfig) (l : SessionLimiter rates.Limiter) (id : ℤ)
    → IsLimitOf
        (last_user id users)
        (view rates (get_speed_limiter rates (sync_users rates users l) id))
get_speed_limiter-sync_users rates users l id =
    subst (IsLimitOf (last_user id users)) (sym (view-sync_users rates users l id))
      (wanted-IsLimitOf (last_user id users))
