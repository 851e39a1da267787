-- ===== src/Ss/Online.antt =====
-- `onlineTracker` of internal/ss/service.go. The clock is an argument: nanoseconds of Go's monotonic
-- clock. Every method runs under the tracker's mutex.
pub mod Snapshots
pub mod History
use small_x.Base.{
  ℤ, ℕ, ◌-◌, List, [], ◌∷◌, Bool, not, Option, none, some, nat_eq, leb, ltb, if◌then◌else◌, is_none,
  int_keys, text_keys, Text, length,
}
use small_x.Base.Map.{lookup, insert, keys}
use small_x.Model.{AliveIp}

abbrev pub Devices : Type 0
Devices = List (Text × ℕ)

abbrev pub OnlineData : Type 0
OnlineData = List (ℤ × Devices)

-- `ttl` is five minutes in `NewService`.
pub record OnlineTracker : Type 0 where
  pub ttl : ℕ
  pub entries : OnlineData

abbrev pub or_nobody : Option Devices → Devices
or_nobody none = []
or_nobody (some m) = m

-- `if _, ok := o.data[userID]; !ok { o.data[userID] = make(...) }`.
unfoldable pub ensure_user : OnlineData → ℤ → OnlineData
ensure_user d id = if is_none (lookup id d) then insert id [] d else d

-- `o.seen(userID, ip)` at the time `now`.
unfoldable pub mark_seen : OnlineTracker → ℤ → Text → ℕ → OnlineTracker
mark_seen o id ip now =
    let d = ensure_user o.entries id in
    record o { entries = insert id (insert ip now (or_nobody (lookup id d))) d }

-- `now.Sub(ts) > o.ttl`: a negative difference is not.
abbrev pub is_expired : ℕ → ℕ → ℕ → Bool
is_expired ttl now ts = ltb ttl (now - ts)

-- The inner loop: it deletes expired devices and lists the others.
unfoldable pub live_devices : ℕ → ℕ → Devices → Devices
live_devices ttl now [] = []
live_devices ttl now ((ip, ts) ∷ m) =
    let rest = live_devices ttl now m in if is_expired ttl now ts then rest else (ip, ts) ∷ rest

unfoldable pub live_users : ℕ → ℕ → OnlineData → OnlineData
live_users ttl now [] = []
live_users ttl now ((id, m) ∷ d) =
    let items = live_devices ttl now m in
    let rest = live_users ttl now d in if nat_eq (length items) 0 then rest else (id, items) ∷ rest

unfoldable pub online_report : ℕ → ℕ → OnlineData → List AliveIp
online_report ttl now [] = []
online_report ttl now ((id, m) ∷ d) =
    let ips = keys (live_devices ttl now m) in
    let rest = online_report ttl now d in
    if ltb 0 (length ips) then record { id = id; ips = ips } ∷ rest else rest

-- `o.snapshot()` at the time `now`.
unfoldable pub snapshot : OnlineTracker → ℕ → OnlineTracker × List AliveIp
snapshot o now =
    (record o { entries = live_users o.ttl now o.entries }, online_report o.ttl now o.entries)
