-- ===== src/Ss/Limits/Outcomes.antt =====
-- What `acquire` of internal/ss/limits.go decides, by the counts.
use small_x.Base.{
  ℤ, pos, negsuc, ℕ, ◌+◌, ◌≤◌, ◌<◌, ◌≡◌, refl, Text, Bool, true, false, ◌&&◌, arith, if◌then◌else◌,
  ◌==◌, int_keys, text_keys, ◌⊎◌, inl, inr, Result, ok, err, is_positive, leb_int, length,
  Bool-cases, ltb, leb, subst, sym,
}
use small_x.Ss.Types.{UserConfig}
use small_x.Ss.Limits.{
  SessionLimiter, LimitError, Lease, tcp_limit_reached, device_limit_reached, acquire, tcp_full,
  device_full, tcp_count, ip_count, refs_of, admit, ensure_refs,
}
use small_x.Ss.Limits.Acquire.{acquire_cases, tcp_count-admit, ip_count-admit, admit-lease}

-- A limit of 1 at least that a count has reached.
abbrev pub Reached : ℤ → ℕ → Type 0
Reached (pos k) n = (1 ≤ k) × (k ≤ n)
Reached (negsuc k) n = ⊥

-- A limit of 0 or below, or one above the count.
abbrev pub HasRoom : ℤ → ℕ → Type 0
HasRoom (pos k) n = (k ≡ 0) ⊎ (n < k)
HasRoom (negsuc k) n = Unit

Reached-cases :
    (limit : ℤ) (n : ℕ)
    → ((is_positive limit && leb_int limit (pos n) ≡ true) × Reached limit n)
      ⊎ ((is_positive limit && leb_int limit (pos n) ≡ false) × HasRoom limit n)
Reached-cases (pos k) n = elim (Bool-cases (ltb 0 k)) [
  | inl positive ↦ elim (Bool-cases (leb k n)) [
    | inl full ↦ inl (rw (positive, full) refl, (ground (arith, positive), ground (arith, full)))
    | inr room ↦ inr (rw (positive, room) refl, inr (ground (arith, room)))
  ]
  | inr no_limit ↦ inr (rw no_limit refl, inl (ground (arith, no_limit)))
]
Reached-cases (negsuc k) n = inr (refl, tt)

module _ {R : Type 0} (l : SessionLimiter R) (user : UserConfig) (ip : Text) where
  -- One session more of the user on the device, over TCP or not, and nothing else.
  abbrev pub IsAdmitted : Bool → SessionLimiter R × Result LimitError Lease → Type 0
  IsAdmitted tcp r =
      (r.1 ≡ ok (record { user_id = user.id; ip = ip; tcp = tcp }))
      × ((j : ℤ)
          → tcp_count r.0 j
            ≡ (if tcp && user.id == j then tcp_count l user.id + 1 else tcp_count l j))
      × ((j : ℤ) (p : Text)
          → ip_count r.0 j p
            ≡ (if (user.id == j) && (ip == p) then ip_count l user.id ip + 1 else ip_count l j p))

  tcp_full-Reached :
      (tcp : Bool)
      → tcp_full l user tcp ≡ true
      → (tcp ≡ true) × Reached user.tcp_conn_limit (tcp_count l user.id)
  unfolding tcp_full
  tcp_full-Reached false h = absurd cc
  tcp_full-Reached true h = elim (Reached-cases user.tcp_conn_limit (tcp_count l user.id)) [
    | inl (full, reached) ↦ (refl, reached)
    | inr (other, room) ↦ absurd (cc (h, other))
  ]

  tcp_room :
      (tcp : Bool)
      → tcp_full l user tcp ≡ false
      → (tcp ≡ false) ⊎ HasRoom user.tcp_conn_limit (tcp_count l user.id)
  unfolding tcp_full
  tcp_room false h = inl refl
  tcp_room true h = elim (Reached-cases user.tcp_conn_limit (tcp_count l user.id)) [
    | inl (full, reached) ↦ absurd (cc (h, full))
    | inr (other, room) ↦ inr room
  ]

  abbrev refuses : Bool → Bool
  refuses enforce = (enforce && is_positive user.device_limit) && device_full l user ip

  device_full-Reached :
      (enforce : Bool)
      → refuses enforce ≡ true
      → (enforce ≡ true)
        × (ip_count l user.id ip ≡ 0)
        × Reached user.device_limit (length (refs_of l user.id))
  unfolding device_full
  device_full-Reached false h = absurd cc
  device_full-Reached true h = elim (Reached-cases user.device_limit (length (refs_of l user.id))) [
    | inl (full, reached) ↦ (refl, ground (arith, h), reached)
    | inr (other, room) ↦ absurd (ground (arith, h, other))
  ]

  device_room :
      (enforce : Bool)
      → refuses enforce ≡ false
      → (enforce ≡ false)
        ⊎ (1 ≤ ip_count l user.id ip)
        ⊎ HasRoom user.device_limit (length (refs_of l user.id))
  unfolding device_full
  device_room false h = inl refl
  device_room true h = elim (Reached-cases user.device_limit (length (refs_of l user.id))) [
    | inl (full, reached) ↦ inr (inl (ground (arith, h, full)))
    | inr (other, room) ↦ inr (inr room)
  ]

  admit-IsAdmitted :
      (tcp enforce : Bool) → IsAdmitted tcp (admit (ensure_refs l user.id) user ip tcp)
  admit-IsAdmitted tcp enforce = (
    admit-lease l user ip tcp enforce,
    tcp_count-admit l user ip tcp enforce,
    ip_count-admit l user ip tcp enforce,
  )

  -- `acquire` decides by the counts alone. A TCP session is refused exactly when the user has a
  -- positive limit and at least so many TCP sessions. Otherwise a session is refused exactly when
  -- device limits are enforced, the user has a positive one, the device has no session of the user,
  -- and at least as many devices of the user as the limit have an entry. Otherwise it is admitted,
  -- with a lease for the user and the device: the TCP count of the user goes up by one if it is a TCP
  -- session, the count of the device goes up by one, and all other counts stay. A refusal leaves the
  -- limiter exactly as it was.
  pub acquire_lem :
      (tcp enforce : Bool)
      → ((tcp ≡ true)
          × Reached user.tcp_conn_limit (tcp_count l user.id)
          × (acquire l user ip tcp enforce ≡ (l, err tcp_limit_reached)))
        ⊎ (((tcp ≡ false) ⊎ HasRoom user.tcp_conn_limit (tcp_count l user.id))
            × (enforce ≡ true)
            × (ip_count l user.id ip ≡ 0)
            × Reached user.device_limit (length (refs_of l user.id))
            × (acquire l user ip tcp enforce ≡ (l, err device_limit_reached)))
        ⊎ (((tcp ≡ false) ⊎ HasRoom user.tcp_conn_limit (tcp_count l user.id))
            × ((enforce ≡ false)
                ⊎ (1 ≤ ip_count l user.id ip)
                ⊎ HasRoom user.device_limit (length (refs_of l user.id)))
            × IsAdmitted tcp (acquire l user ip tcp enforce))
  acquire_lem tcp enforce = elim (acquire_cases l user ip tcp enforce) [
    | inl (full, e) ↦
        let (over_tcp, reached) = tcp_full-Reached tcp full in inl (over_tcp, reached, e)
    | inr (inl (room, refused, e)) ↦
        let (on, new_one, reached) = device_full-Reached enforce refused in
        inr (inl (tcp_room tcp room, on, new_one, reached, e))
    | inr (inr (room, free, e)) ↦ inr (
        inr (
          tcp_room tcp room,
          device_room enforce free,
          subst (IsAdmitted tcp) (sym e) (admit-IsAdmitted tcp enforce),
        ))
  ]
