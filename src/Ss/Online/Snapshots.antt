-- ===== src/Ss/Online/Snapshots.antt =====
-- What one call does to the tracker: its invariant, and what a snapshot reports.
use small_x.Base.{
  subst, ap, ℤ, ℕ, ◌≡◌, refl, ◌∙◌, sym, List, [], ◌∷◌, Bool, true, false, ◌&&◌, not, Option, none,
  some, if◌then◌else◌, is_none, int_keys, text_keys, Text, length, length-map, any, arith, int_eq,
  text_eq, int_eq_iff, text_eq_iff, inl, inr, Option-cases, Bool-cases,
}
use small_x.Base.Map.{lookup, insert, IsUnique, lookup-insert, insert-IsUnique, any-keys-lookup}
use small_x.Model.{AliveIp}
use small_x.Ss.Online.{
  Devices, OnlineData, OnlineTracker, or_nobody, ensure_user, mark_seen, is_expired, live_devices,
  live_users, online_report,
}

-- The time at which a device of a user was last marked, as the tracker has it.
unfoldable pub time_of : OnlineData → ℤ → Text → Option ℕ
time_of d id ip = lookup ip (or_nobody (lookup id d))

abbrev pub is_fresh : ℕ → ℕ → Option ℕ → Bool
is_fresh ttl now none = false
is_fresh ttl now (some ts) = not (is_expired ttl now ts)

-- One entry for each user, and one for each of its devices.
pub record IsWell (d : OnlineData) : Type 0 where
  pub users : IsUnique d
  pub devices : (id : ℤ) (m : Devices) → lookup id d ≡ some m → IsUnique m

abbrev pub reports : ℤ → Text → List AliveIp → Bool
reports id ip out = any (λ r. int_eq r.id id && any (λ p. text_eq p ip) r.ips) out

eq-nil : (m : Devices) → length m ≡ 0 → m ≡ []
eq-nil [] h = refl
eq-nil (x ∷ m) h = absurd (omega arith)

devices_of : (d : OnlineData) (id : ℤ) → IsWell d → IsUnique (or_nobody (lookup id d))
devices_of d id w = elim (Option-cases (lookup id d)) [
  | inl absent ↦ rw absent tt
  | inr (m, here) ↦ rw here (w.devices id m here)
]

module _ (ttl now : ℕ) where
  lookup-live_absent :
      (m : Devices) (ip : Text) → lookup ip m ≡ none → lookup ip (live_devices ttl now m) ≡ none
  unfolding live_devices lookup
  lookup-live_absent [] ip h = refl
  lookup-live_absent ((q, ts) ∷ m) ip h = ground (arith, lookup-live_absent m ip)

  lookup-live_devices :
      (m : Devices) (ip : Text)
      → IsUnique m
      → lookup ip (live_devices ttl now m)
        ≡ (if is_fresh ttl now (lookup ip m) then lookup ip m else none)
  unfolding live_devices lookup
  lookup-live_devices [] ip u = refl
  lookup-live_devices ((q, ts) ∷ m) ip u =
      ground (arith, text_eq_iff q ip, lookup-live_devices m ip u.1, lookup-live_absent m ip)

  live_devices-IsUnique : (m : Devices) → IsUnique m → IsUnique (live_devices ttl now m)
  unfolding live_devices
  live_devices-IsUnique [] u = tt
  live_devices-IsUnique ((q, ts) ∷ m) u =
      ground (arith, live_devices-IsUnique m u.1, lookup-live_absent m q u.0)

  live_users_absent :
      (d : OnlineData) (id : ℤ) → lookup id d ≡ none → lookup id (live_users ttl now d) ≡ none
  unfolding live_users lookup
  live_users_absent [] id h = refl
  live_users_absent ((j, m) ∷ d) id h = ground (arith, live_users_absent d id)

  live_users-IsUnique : (d : OnlineData) → IsUnique d → IsUnique (live_users ttl now d)
  unfolding live_users
  live_users-IsUnique [] u = tt
  live_users-IsUnique ((j, m) ∷ d) u =
      ground (arith, live_users-IsUnique d u.1, live_users_absent d j u.0)

  -- What a snapshot keeps for a user: its live devices.
  lookup-live_users :
      (d : OnlineData) (id : ℤ)
      → IsUnique d
      → or_nobody (lookup id (live_users ttl now d))
        ≡ live_devices ttl now (or_nobody (lookup id d))
  unfolding live_users lookup live_devices
  lookup-live_users [] id u = refl
  lookup-live_users ((j, m) ∷ d) id u =
      let items = live_devices ttl now m in
      ground
        (arith, int_eq_iff j id, lookup-live_users d id u.1, live_users_absent d id, eq-nil items)

  online_report_absent :
      (d : OnlineData) (id : ℤ) (ip : Text)
      → lookup id d ≡ none
      → reports id ip (online_report ttl now d) ≡ false
  unfolding online_report lookup
  online_report_absent [] id ip h = refl
  online_report_absent ((j, m) ∷ d) id ip h = ground (arith, online_report_absent d id ip)

  reports-online_report :
      (d : OnlineData) (id : ℤ) (ip : Text)
      → IsUnique d
      → reports id ip (online_report ttl now d)
        ≡ not (is_none (lookup ip (live_devices ttl now (or_nobody (lookup id d)))))
  unfolding online_report lookup live_devices
  reports-online_report [] id ip u = refl
  reports-online_report ((j, m) ∷ d) id ip u =
      let items = live_devices ttl now m in
      ground (
        arith,
        int_eq_iff j id,
        reports-online_report d id ip u.1,
        online_report_absent d id ip,
        any-keys-lookup ip items,
        length-map items (λ (p : Text × ℕ). p.0),
        eq-nil items,
      )

  -- The devices that a snapshot keeps, and those that it reports, are the fresh ones.
  pub time_of-live_users :
      (d : OnlineData) (id : ℤ) (ip : Text)
      → IsWell d
      → time_of (live_users ttl now d) id ip
        ≡ (if is_fresh ttl now (time_of d id ip) then time_of d id ip else none)
  unfolding time_of
  time_of-live_users d id ip w =
      rw (lookup-live_users d id w.users)
        (lookup-live_devices (or_nobody (lookup id d)) ip (devices_of d id w))

  pub reports-fresh :
      (d : OnlineData) (id : ℤ) (ip : Text)
      → IsWell d
      → reports id ip (online_report ttl now d) ≡ is_fresh ttl now (time_of d id ip)
  unfolding time_of
  reports-fresh d id ip w =
      let m = or_nobody (lookup id d) in
      ground
        (arith, reports-online_report d id ip w.users, lookup-live_devices m ip (devices_of d id w))

  pub live_users-IsWell : (d : OnlineData) → IsWell d → IsWell (live_users ttl now d)
  live_users-IsWell d w = record {
    users = live_users-IsUnique d w.users;
    devices = λ id m e.
        subst IsUnique (sym (lookup-live_users d id w.users) ∙ ap or_nobody e)
          (live_devices-IsUnique (or_nobody (lookup id d)) (devices_of d id w));
  }

lookup-ensure_user :
    (d : OnlineData) (id j : ℤ) → or_nobody (lookup j (ensure_user d id)) ≡ or_nobody (lookup j d)
unfolding ensure_user
lookup-ensure_user d id j = ground (arith, int_eq_iff id j, lookup-insert {V = Devices} id j [] d)

pub time_of-mark_seen :
    (o : OnlineTracker) (id : ℤ) (ip : Text) (now : ℕ) (j : ℤ) (p : Text)
    → time_of (mark_seen o id ip now).entries j p
      ≡ (if int_eq id j && text_eq ip p then some now else time_of o.entries j p)
unfolding mark_seen time_of
time_of-mark_seen o id ip now j p =
    let d = ensure_user o.entries id in
    let m = or_nobody (lookup id d) in
    ground (
      arith,
      int_eq_iff id j,
      lookup-insert id j (insert ip now m) d,
      lookup-insert ip p now m,
      lookup-ensure_user o.entries id id,
      lookup-ensure_user o.entries id j,
    )

written :
    (id j : ℤ) (m r : Devices) (d : OnlineData)
    → int_eq id j ≡ true
    → lookup j (insert id m d) ≡ some r
    → m ≡ r
written id j m r d same e = ground (arith, lookup-insert id j m d)

insert-IsWell :
    (d : OnlineData) (id : ℤ) (m : Devices) → IsWell d → IsUnique m → IsWell (insert id m d)
insert-IsWell d id m w u = record {
  users = insert-IsUnique id m d w.users;
  devices = λ j r e. elim (Bool-cases (int_eq id j)) [
    | inl same ↦ subst IsUnique (written id j m r d same e) u
    | inr other ↦ w.devices j r (ground (arith, lookup-insert id j m d))
  ];
}

ensure_user-IsWell : (d : OnlineData) (id : ℤ) → IsWell d → IsWell (ensure_user d id)
unfolding ensure_user
ensure_user-IsWell d id w = elim (Bool-cases (is_none (lookup id d))) [
  | inl new ↦ rw new (insert-IsWell d id [] w tt)
  | inr old ↦ rw old w
]

pub mark_seen-IsWell :
    (o : OnlineTracker) (id : ℤ) (ip : Text) (now : ℕ)
    → IsWell o.entries
    → IsWell (mark_seen o id ip now).entries
unfolding mark_seen
mark_seen-IsWell o id ip now w =
    let v = ensure_user-IsWell o.entries id w in
    let d = ensure_user o.entries id in
    insert-IsWell d id (insert ip now (or_nobody (lookup id d))) v
      (insert-IsUnique ip now (or_nobody (lookup id d)) (devices_of d id v))
