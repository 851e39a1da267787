-- ===== src/Ss/Copy/Bursts.antt =====
-- The bursts that `SyncUsers` sets in internal/ss/limits.go, and `waitForLimit` of service.go.
use small_x.Base.{
  ℤ, pos, negsuc, ℕ, zero, suc, ◌*◌, ◌≤◌, ◌≡◌, refl, sym, ap, ◌∙◌, List, true, Option, none, some,
  arith,
}
use small_x.Ss.Types.{UserConfig}
use small_x.Ss.Limits.{SessionLimiter}
use small_x.Ss.Limits.Speed.{
  RateLib, sync_users, get_speed_limiter, view-sync_users, wanted, setting_of, last_user, view,
  speed_limit_to_bytes,
}
use small_x.Ss.Copy.{Waits, wait_for_limit, wait_for_limit}

setting_burst : (speed : ℤ) (r b : ℕ) → setting_of speed ≡ some (r, b) → 64 * 1024 ≤ b
setting_burst (negsuc k) r b h = cc
setting_burst (pos zero) r b h = cc
setting_burst (pos (suc k)) r b h = ground arith

wanted_burst : (u : Option UserConfig) (r b : ℕ) → wanted u ≡ some (r, b) → 64 * 1024 ≤ b
wanted_burst none r b h = cc
wanted_burst (some u) r b h = setting_burst (speed_limit_to_bytes u.speed_limit) r b h

pub wait_for_limit_fine :
    (rates : RateLib) (waits : Waits rates) (limiter : Option rates.Limiter) (n : ℕ)
    → ((l : rates.Limiter) → limiter ≡ some l → 64 * 1024 ≤ rates.burst l)
    → n ≤ 64 * 1024
    → wait_for_limit rates waits limiter n ≡ true
unfolding wait_for_limit
wait_for_limit_fine rates waits none n bursts h = refl
wait_for_limit_fine rates waits (some l) n bursts h =
    ground (arith, waits.wait_n_fine l n (omega (arith, bursts l refl)))

pub synced_burst :
    (rates : RateLib) (users : List UserConfig) (l : SessionLimiter rates.Limiter) (id : ℤ)
    (lim : rates.Limiter)
    → get_speed_limiter rates (sync_users rates users l) id ≡ some lim
    → 64 * 1024 ≤ rates.burst lim
synced_burst rates users l id lim e =
    wanted_burst (last_user id users) (rates.limit lim) (rates.burst lim)
      (sym (view-sync_users rates users l id) ∙ ap (view rates) e)
