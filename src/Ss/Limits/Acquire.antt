-- ===== src/Ss/Limits/Acquire.antt =====
-- The outcomes of `acquire` in limits.go.
use small_x.Base.{
  ℤ, ◌+◌, ◌≡◌, refl, Text, Bool, true, false, ◌&&◌, arith, if◌then◌else◌, ◌==◌, int_keys, text_keys,
  ◌⊎◌, inl, inr, ok, err, is_positive, Bool-cases,
}
use small_x.Base.Map.{insert}
use small_x.Ss.Types.{UserConfig}
use small_x.Ss.Limits.Counts.{
  tcp_count-count_tcp, refs_of-count_tcp, ip_count-count_tcp, tcp_count-add_ref, refs_of-add_ref,
  ip_count-add_ref, refs_of-ensure_refs, tcp_count-ensure_refs, ip_count-ensure_refs,
  ensure_refs-full,
}
use small_x.Ss.Limits.{
  SessionLimiter, Lease, tcp_limit_reached, device_limit_reached, acquire, admit, tcp_full,
  device_full, ensure_refs, tcp_count, ip_count, refs_of, add_ref,
}

module _ {R : Type 0} (l : SessionLimiter R) (user : UserConfig) (ip : Text)
    (tcp enforce : Bool) where
  abbrev pub lease_of : Lease
  lease_of = record { user_id = user.id; ip = ip; tcp = tcp }

  device_full-ensure_refs : device_full (ensure_refs l user.id) user ip ≡ device_full l user ip
  unfolding device_full ip_count
  device_full-ensure_refs = rw (refs_of-ensure_refs l user.id user.id)

  -- `acquire` refuses a TCP session of a user whose count has reached a positive limit, refuses a
  -- new device of a user whose devices have reached a positive limit that is enforced, and admits
  -- every other session. A refusal leaves the limiter exactly as it was.
  pub acquire_cases :
      ((tcp_full l user tcp ≡ true) × (acquire l user ip tcp enforce ≡ (l, err tcp_limit_reached)))
      ⊎ ((tcp_full l user tcp ≡ false)
          × ((enforce && is_positive user.device_limit) && device_full l user ip ≡ true)
          × (acquire l user ip tcp enforce ≡ (l, err device_limit_reached)))
      ⊎ ((tcp_full l user tcp ≡ false)
          × ((enforce && is_positive user.device_limit) && device_full l user ip ≡ false)
          × (acquire l user ip tcp enforce ≡ admit (ensure_refs l user.id) user ip tcp))
  unfolding acquire
  acquire_cases = elim (Bool-cases (tcp_full l user tcp)) [
    | inl full ↦ inl (full, rw full)
    | inr room ↦
        elim (Bool-cases ((enforce && is_positive user.device_limit) && device_full l user ip)) [
          | inl refused ↦ inr (
              inl (
                room,
                refused,
                ground (arith, device_full-ensure_refs, ensure_refs-full l user ip),
              ))
          | inr free ↦ inr (inr (room, free, ground (arith, device_full-ensure_refs)))
        ]
  ]

  -- What an admitted session adds: one to the TCP count if it is a TCP session, one to its device.
  pub tcp_count-admit :
      (j : ℤ)
      → tcp_count (admit (ensure_refs l user.id) user ip tcp).0 j
        ≡ (if tcp && user.id == j then tcp_count l user.id + 1 else tcp_count l j)
  unfolding admit
  tcp_count-admit j =
      let l' = ensure_refs l user.id in
      ground (
        arith,
        tcp_count-count_tcp (add_ref l' user.id ip) user.id tcp j,
        tcp_count-add_ref l' user.id ip j,
        tcp_count-add_ref l' user.id ip user.id,
        tcp_count-ensure_refs l user.id j,
        tcp_count-ensure_refs l user.id user.id,
      )

  pub ip_count-admit :
      (j : ℤ) (p : Text)
      → ip_count (admit (ensure_refs l user.id) user ip tcp).0 j p
        ≡ (if (user.id == j) && (ip == p) then ip_count l user.id ip + 1 else ip_count l j p)
  unfolding admit
  ip_count-admit j p =
      let l' = ensure_refs l user.id in
      ground (
        arith,
        ip_count-count_tcp (add_ref l' user.id ip) user.id tcp j p,
        ip_count-add_ref l' user.id ip j p,
        ip_count-ensure_refs l user.id j p,
        ip_count-ensure_refs l user.id user.id ip,
      )

  pub refs_of-admit :
      (j : ℤ)
      → refs_of (admit (ensure_refs l user.id) user ip tcp).0 j ≡ (
          if user.id == j
          then insert ip (ip_count l user.id ip + 1) (refs_of l user.id)
          else refs_of l j)
  unfolding admit
  refs_of-admit j =
      let l' = ensure_refs l user.id in
      ground (
        arith,
        refs_of-count_tcp (add_ref l' user.id ip) user.id tcp j,
        refs_of-add_ref l' user.id ip j,
        refs_of-ensure_refs l user.id j,
        refs_of-ensure_refs l user.id user.id,
        ip_count-ensure_refs l user.id user.id ip,
      )

  pub admit-lease : (admit (ensure_refs l user.id) user ip tcp).1 ≡ ok lease_of
  unfolding admit
  admit-lease = refl
