-- ===== src/Ss/Limits/Speed.antt =====
-- `SyncUsers`, `GetSpeedLimiter` and `speedLimitToBytes` of limits.go. The rate limiters come from
-- golang.org/x/time/rate: they are a parameter, with what its documentation says of the setters.
use small_x.Base.{
  not, is_none, ℤ, pos, negsuc, ℕ, zero, suc, ◌+◌, ◌*◌, ◌/◌, ◌%◌, ◌≤◌, ◌≡◌, refl, List, [], ◌∷◌,
  Bool, if◌then◌else◌, any, int_keys, Option, none, some, arith, int_eq, int_eq_iff, ltb, signed64,
  word64,
}
use small_x.Base.Map.{lookup, insert, delete, lookup-insert, lookup-delete}
use small_x.Ss.Types.{UserConfig}
use small_x.Ss.Limits.{SessionLimiter}

-- `rate.Limit` is a float, which holds every number of bytes below 2 ^ 53 exactly.
pub record RateLib : Type 1 where
  pub Limiter : Type 0
  pub new_limiter : ℕ → ℕ → Limiter
  pub set_limit : Limiter → ℕ → Limiter
  pub set_burst : Limiter → ℕ → Limiter
  pub limit : Limiter → ℕ
  pub burst : Limiter → ℕ
  pub limit-new : (r b : ℕ) → limit (new_limiter r b) ≡ r
  pub burst-new : (r b : ℕ) → burst (new_limiter r b) ≡ b
  pub limit-set_limit : (l : Limiter) (r : ℕ) → limit (set_limit l r) ≡ r
  pub burst-set_limit : (l : Limiter) (r : ℕ) → burst (set_limit l r) ≡ burst l
  pub limit-set_burst : (l : Limiter) (b : ℕ) → limit (set_burst l b) ≡ limit l
  pub burst-set_burst : (l : Limiter) (b : ℕ) → burst (set_burst l b) ≡ b

-- `x / 8` on a signed number: towards 0.
abbrev pub div8 : ℤ → ℤ
div8 (pos n) = pos (n / 8)
div8 (negsuc n) = elim ((n + 1) / 8) [ zero ↦ pos 0 | suc k ↦ negsuc k ]

-- The product is a 64-bit word.
unfoldable pub speed_limit_to_bytes : ℤ → ℤ
speed_limit_to_bytes (pos n) =
    if ltb 0 n then div8 (signed64 ((n * 1000 * 1000) % word64)) else pos 0
speed_limit_to_bytes (negsuc n) = pos 0

-- A limit of at most 9223372036854 megabits for a second, where the product fits in 63 bits, gives
-- exactly 125000 bytes for each megabit.
pub speed_limit_to_bytes_exact :
    (n : ℕ) → n ≤ 9_223_372_036_854 → speed_limit_to_bytes (pos n) ≡ pos (n * 125_000)
unfolding speed_limit_to_bytes
speed_limit_to_bytes_exact n h = ground arith

-- `bytesPerSecond` and `burst` for a positive number of bytes.
abbrev pub burst_of : ℕ → ℕ
burst_of bytes = if ltb bytes (64 * 1024) then 64 * 1024 else bytes

-- `seen[userID]`.
abbrev pub is_seen : ℤ → List UserConfig → Bool
is_seen id users = any (λ u. int_eq u.id id) users

-- The specification: the last user of a list with an id, and the setting that a user asks for.
abbrev pub last_user : ℤ → List UserConfig → Option UserConfig
last_user id [] = none
last_user id (u ∷ us) = elim (last_user id us) [
  | some v ↦ some v
  | none ↦ if int_eq u.id id then some u else none
]

abbrev pub setting_of : ℤ → Option (ℕ × ℕ)
setting_of (negsuc k) = none
setting_of (pos zero) = none
setting_of (pos (suc k)) = some (suc k, burst_of (suc k))

abbrev pub wanted : Option UserConfig → Option (ℕ × ℕ)
wanted none = none
wanted (some u) = setting_of (speed_limit_to_bytes u.speed_limit)

seen-last_user :
    (id : ℤ) (users : List UserConfig) → is_seen id users ≡ not (is_none (last_user id users))
seen-last_user id [] = refl
seen-last_user id (u ∷ us) = ground (arith, seen-last_user id us)

module _ (lib : RateLib) where
  open lib use {Limiter, new_limiter, set_limit, set_burst, limit, burst}

  -- The setters on the user's limiter, or a new one.
  unfoldable pub put_limiter : ℤ → ℕ → Option Limiter → List (ℤ × Limiter) → List (ℤ × Limiter)
  put_limiter id bytes (some l) m = insert id (set_burst (set_limit l bytes) (burst_of bytes)) m
  put_limiter id bytes none m = insert id (new_limiter bytes (burst_of bytes)) m

  -- The body of the loop over the users.
  unfoldable pub set_speed : ℤ → ℤ → List (ℤ × Limiter) → List (ℤ × Limiter)
  set_speed id (negsuc k) m = delete id m
  set_speed id (pos zero) m = delete id m
  set_speed id (pos (suc k)) m = put_limiter id (suc k) (lookup id m) m

  unfoldable pub sync_user : UserConfig → List (ℤ × Limiter) → List (ℤ × Limiter)
  sync_user user m = set_speed user.id (speed_limit_to_bytes user.speed_limit) m

  unfoldable pub sync_loop : List UserConfig → List (ℤ × Limiter) → List (ℤ × Limiter)
  sync_loop [] m = m
  sync_loop (user ∷ users) m = sync_loop users (sync_user user m)

  -- The loop that deletes the limiters of users that are gone.
  unfoldable pub retain_seen : List UserConfig → List (ℤ × Limiter) → List (ℤ × Limiter)
  retain_seen users [] = []
  retain_seen users ((id, l) ∷ m) =
      let rest = retain_seen users m in if is_seen id users then (id, l) ∷ rest else rest

  unfoldable pub sync_users : List UserConfig → SessionLimiter Limiter → SessionLimiter Limiter
  sync_users users l = record l {
    speed_limiter = retain_seen users (sync_loop users l.speed_limiter);
  }

  unfoldable pub get_speed_limiter : SessionLimiter Limiter → ℤ → Option Limiter
  get_speed_limiter l id = lookup id l.speed_limiter

  -- What can be read of a limiter.
  abbrev pub view : Option Limiter → Option (ℕ × ℕ)
  view none = none
  view (some l) = some (limit l, burst l)

  view-put_limiter :
      (id : ℤ) (bytes : ℕ) (old : Option Limiter) (m : List (ℤ × Limiter)) (j : ℤ)
      → view (lookup j (put_limiter id bytes old m))
        ≡ (if int_eq id j then some (bytes, burst_of bytes) else view (lookup j m))
  unfolding put_limiter
  view-put_limiter id bytes none m j = ground (
    arith,
    lookup-insert id j (new_limiter bytes (burst_of bytes)) m,
    lib.limit-new bytes (burst_of bytes),
    lib.burst-new bytes (burst_of bytes),
  )
  view-put_limiter id bytes (some l) m j =
      let l' = set_limit l bytes in
      ground (
        arith,
        lookup-insert id j (set_burst l' (burst_of bytes)) m,
        lib.limit-set_limit l bytes,
        lib.limit-set_burst l' (burst_of bytes),
        lib.burst-set_burst l' (burst_of bytes),
      )

  view-set_speed :
      (id : ℤ) (speed : ℤ) (m : List (ℤ × Limiter)) (j : ℤ)
      → view (lookup j (set_speed id speed m))
        ≡ (if int_eq id j then setting_of speed else view (lookup j m))
  unfolding set_speed
  view-set_speed id (negsuc k) m j = ground (arith, lookup-delete {V = Limiter} id j m)
  view-set_speed id (pos zero) m j = ground (arith, lookup-delete {V = Limiter} id j m)
  view-set_speed id (pos (suc k)) m j = view-put_limiter id (suc k) (lookup id m) m j

  view-sync_loop :
      (users : List UserConfig) (m : List (ℤ × Limiter)) (j : ℤ)
      → view (lookup j (sync_loop users m))
        ≡ (if is_seen j users then wanted (last_user j users) else view (lookup j m))
  unfolding sync_loop sync_user
  view-sync_loop [] m j = refl
  view-sync_loop (u ∷ us) m j = ground (
    arith,
    view-sync_loop us (sync_user u m) j,
    view-set_speed u.id (speed_limit_to_bytes u.speed_limit) m j,
    seen-last_user j us,
  )

  lookup-retain_seen :
      (users : List UserConfig) (m : List (ℤ × Limiter)) (j : ℤ)
      → lookup j (retain_seen users m) ≡ (if is_seen j users then lookup j m else none)
  unfolding retain_seen lookup
  lookup-retain_seen users [] j = ground arith
  lookup-retain_seen users ((id, l) ∷ m) j =
      ground (arith, lookup-retain_seen users m j, int_eq_iff id j)

  -- What can be read of the limiters after `SyncUsers`, in the words of the code.
  pub view-sync_users :
      (users : List UserConfig) (l : SessionLimiter Limiter) (id : ℤ)
      → view (get_speed_limiter (sync_users users l) id) ≡ wanted (last_user id users)
  unfolding get_speed_limiter sync_users
  view-sync_users users l id = ground (
    arith,
    lookup-retain_seen users (sync_loop users l.speed_limiter) id,
    view-sync_loop users l.speed_limiter id,
    seen-last_user id users,
  )
