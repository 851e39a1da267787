-- ===== src/Ss/Limits.antt =====
-- internal/ss/limits.go: connection counts, IP references and speed limiters of each user.
-- Every method runs under one mutex, so it is one step from a state to the next. The counts are
-- numbers that the code never lets fall below 0. The limiters come from golang.org/x/time/rate.
pub mod Counts
pub mod Acquire
pub mod Sessions
pub mod Maps
pub mod Shape
pub mod Snapshot
pub mod Speed
pub mod Rates
pub mod Outcomes
use small_x.Base.{
  ℤ, pos, ℕ, suc, ◌+◌, ◌-◌, ◌*◌, ◌/◌, ◌%◌, Text, List, [], ◌∷◌, Bool, true, false, ◌&&◌, not,
  Option, none, some, Result, ok, err, length, ltb, leb, nat_eq, leb_int, is_positive,
  if◌then◌else◌, Eq, ◌==◌, int_keys, text_keys, signed64, word64, is_none,
}
use small_x.Base.Map.{lookup, insert, delete}
use small_x.Ss.Types.{UserConfig}

pub data LimitError : Type 0 where
  tcp_limit_reached device_limit_reached : LimitError

-- `R` is the type of a rate limiter.
pub record SessionLimiter (R : Type 0) : Type 0 where
  pub tcp_counts : List (ℤ × ℕ)
  pub ip_refs : List (ℤ × List (Text × ℕ))
  pub speed_limiter : List (ℤ × R)

-- What the closure that `acquire` returns holds.
pub record Lease : Type 0 where
  pub user_id : ℤ
  pub ip : Text
  pub tcp : Bool

-- A read of a missing key of a Go map gives the zero value.
abbrev pub or_zero : Option ℕ → ℕ
or_zero none = 0
or_zero (some n) = n

abbrev pub or_empty {ℓ} : {A : Type ℓ} → Option (List A) → List A
or_empty none = []
or_empty (some m) = m

-- `refs[ip]--`, or the deletion of a count of 1.
abbrev pub drop_ref : Text → List (Text × ℕ) → List (Text × ℕ)
drop_ref ip refs =
    let n = or_zero (lookup ip refs) in if ltb 1 n then insert ip (n - 1) refs else delete ip refs

unfoldable pub new_session_limiter : {R : Type 0} → SessionLimiter R
new_session_limiter = record { tcp_counts = []; ip_refs = []; speed_limiter = [] }

module _ {R : Type 0} where
  -- `l.tcpCounts[id]`.
  unfoldable pub tcp_count : SessionLimiter R → ℤ → ℕ
  tcp_count l id = or_zero (lookup id l.tcp_counts)

  -- `l.ipRefs[id]`, empty where it is nil.
  unfoldable pub refs_of : SessionLimiter R → ℤ → List (Text × ℕ)
  refs_of l id = or_empty (lookup id l.ip_refs)

  -- `l.ipRefs[id][ip]`.
  unfoldable pub ip_count : SessionLimiter R → ℤ → Text → ℕ
  ip_count l id ip = or_zero (lookup ip (refs_of l id))

  -- `if l.ipRefs[id] == nil { l.ipRefs[id] = make(...) }`, in both branches of `acquire`.
  unfoldable pub ensure_refs : SessionLimiter R → ℤ → SessionLimiter R
  ensure_refs l id =
      if is_none (lookup id l.ip_refs) then record l { ip_refs = insert id [] l.ip_refs } else l

  -- `refs[ip]++`.
  unfoldable pub add_ref : SessionLimiter R → ℤ → Text → SessionLimiter R
  add_ref l id ip = record l {
    ip_refs = insert id (insert ip (ip_count l id ip + 1) (refs_of l id)) l.ip_refs;
  }

  -- The new entry's guard: a device that is not counted yet finds the limit reached.
  unfoldable pub device_full : SessionLimiter R → UserConfig → Text → Bool
  device_full l user ip =
      nat_eq (ip_count l user.id ip) 0
      && leb_int user.device_limit (pos (length (refs_of l user.id)))

  -- `if tcp { l.tcpCounts[id]++ }`.
  unfoldable pub count_tcp : SessionLimiter R → ℤ → Bool → SessionLimiter R
  count_tcp l id tcp =
      if tcp then record l { tcp_counts = insert id (tcp_count l id + 1) l.tcp_counts } else l

  unfoldable pub tcp_full : SessionLimiter R → UserConfig → Bool → Bool
  tcp_full l user tcp =
      tcp
      && is_positive user.tcp_conn_limit
      && leb_int user.tcp_conn_limit (pos (tcp_count l user.id))

  unfoldable pub admit :
      SessionLimiter R → UserConfig → Text → Bool → SessionLimiter R × Result LimitError Lease
  admit l user ip tcp = (
    count_tcp (add_ref l user.id ip) user.id tcp,
    ok (record { user_id = user.id; ip = ip; tcp = tcp }),
  )

  -- The state after the call is part of the result also where the call fails.
  unfoldable pub acquire :
      SessionLimiter R
      → UserConfig
      → Text
      → Bool
      → Bool
      → SessionLimiter R × Result LimitError Lease
  acquire l user ip tcp enforce_device_limit =
      let l' = ensure_refs l user.id in
      if tcp_full l user tcp
      then (l, err tcp_limit_reached)
      else if enforce_device_limit && is_positive user.device_limit
      then if device_full l' user ip then (l', err device_limit_reached) else admit l' user ip tcp
      else admit l' user ip tcp

  unfoldable pub acquire_tcp :
      SessionLimiter R → UserConfig → Text → Bool → SessionLimiter R × Result LimitError Lease
  acquire_tcp l user ip enforce = acquire l user ip true enforce

  unfoldable pub acquire_udp :
      SessionLimiter R → UserConfig → Text → Bool → SessionLimiter R × Result LimitError Lease
  acquire_udp l user ip enforce = acquire l user ip false enforce

  -- The `if tcp` block of `release`: the decrement, then the deletion of a count of 0.
  unfoldable pub uncount_tcp : SessionLimiter R → ℤ → Bool → SessionLimiter R
  uncount_tcp l id tcp =
      let n = tcp_count l id in
      let counts = if ltb 0 n then insert id (n - 1) l.tcp_counts else l.tcp_counts in
      if tcp
      then record l {
        tcp_counts = if nat_eq (or_zero (lookup id counts)) 0 then delete id counts else counts;
      }
      else l

  unfoldable pub uncount_ip : SessionLimiter R → ℤ → Text → SessionLimiter R
  uncount_ip l id ip = elim (lookup id l.ip_refs) [
    | none ↦ l
    | some refs ↦ record l {
      ip_refs =
          if nat_eq (length (drop_ref ip refs)) 0
          then delete id (insert id (drop_ref ip refs) l.ip_refs)
          else insert id (drop_ref ip refs) l.ip_refs;
    }
  ]

  unfoldable pub release : SessionLimiter R → Lease → SessionLimiter R
  release l lease = uncount_ip (uncount_tcp l lease.user_id lease.tcp) lease.user_id lease.ip
