-- ===== src/Ss/Limits/Counts.antt =====
-- What each block of `acquire` and `release` does to the counts that can be read.
use small_x.Base.{
  ◌≤◌, ◌∙◌, is_positive, int_eq_iff, text_eq_iff, ℤ, ℕ, ◌+◌, ◌-◌, ◌≡◌, refl, Text, List, [], ◌∷◌,
  Bool, true, ◌&&◌, none, length, arith, if◌then◌else◌, ◌==◌, int_keys, text_keys, Option-cases,
  inl, inr, nat_eq,
}
use small_x.Base.Map.{
  lookup, insert, delete, lookup-insert, lookup-delete, lookup-insert_self, length-insert_old,
}
use small_x.Ss.Limits.{
  SessionLimiter, Lease, or_zero, or_empty, tcp_count, refs_of, ip_count, ensure_refs, add_ref,
  count_tcp, uncount_tcp, uncount_ip, drop_ref, release, device_full,
}
use small_x.Ss.Types.{UserConfig}

lookup-drop_ref :
    (ip p : Text) (refs : List (Text × ℕ))
    → or_zero (lookup p (drop_ref ip refs))
      ≡ (if ip == p then or_zero (lookup ip refs) - 1 else or_zero (lookup p refs))
lookup-drop_ref ip p refs = ground (
  arith,
  text_eq_iff ip p,
  lookup-insert ip p (or_zero (lookup ip refs) - 1) refs,
  lookup-delete ip p refs,
)

lookup-empty : (p : Text) (refs : List (Text × ℕ)) → length refs ≡ 0 → lookup p refs ≡ none
unfolding lookup
lookup-empty p [] h = refl
lookup-empty p (x ∷ refs) h = absurd (omega arith)

-- The write of a user's entry, with the deletion of an empty one.
lookup-store :
    (id j : ℤ) (p : Text) (refs : List (Text × ℕ)) (m : List (ℤ × List (Text × ℕ)))
    → or_zero (
        lookup p (
          or_empty (
            lookup j
              (if nat_eq (length refs) 0 then delete id (insert id refs m) else insert id refs m))))
      ≡ (if id == j then or_zero (lookup p refs) else or_zero (lookup p (or_empty (lookup j m))))
lookup-store id j p refs m = ground (
  arith,
  lookup-empty p refs,
  lookup-empty p [] refl,
  lookup-insert id j refs m,
  lookup-delete id j (insert id refs m),
)

module _ {R : Type 0} (l : SessionLimiter R) (id : ℤ) where
  pub tcp_count-count_tcp :
      (tcp : Bool) (j : ℤ)
      → tcp_count (count_tcp l id tcp) j
        ≡ (if tcp && id == j then tcp_count l id + 1 else tcp_count l j)
  unfolding count_tcp tcp_count
  tcp_count-count_tcp tcp j = ground (arith, lookup-insert id j (tcp_count l id + 1) l.tcp_counts)

  pub ip_count-count_tcp :
      (tcp : Bool) (j : ℤ) (p : Text) → ip_count (count_tcp l id tcp) j p ≡ ip_count l j p
  unfolding count_tcp ip_count refs_of
  ip_count-count_tcp tcp j p = ground arith

  pub refs_of-count_tcp : (tcp : Bool) (j : ℤ) → refs_of (count_tcp l id tcp) j ≡ refs_of l j
  unfolding count_tcp refs_of
  refs_of-count_tcp tcp j = ground arith

  pub tcp_count-add_ref : (ip : Text) (j : ℤ) → tcp_count (add_ref l id ip) j ≡ tcp_count l j
  unfolding add_ref tcp_count
  tcp_count-add_ref ip j = refl

  pub refs_of-add_ref :
      (ip : Text) (j : ℤ)
      → refs_of (add_ref l id ip) j
        ≡ (if id == j then insert ip (ip_count l id ip + 1) (refs_of l id) else refs_of l j)
  unfolding add_ref refs_of
  refs_of-add_ref ip j =
      ground (arith, lookup-insert id j (insert ip (ip_count l id ip + 1) (refs_of l id)) l.ip_refs)

  pub ip_count-add_ref :
      (ip : Text) (j : ℤ) (p : Text)
      → ip_count (add_ref l id ip) j p
        ≡ (if (id == j) && (ip == p) then ip_count l id ip + 1 else ip_count l j p)
  unfolding ip_count
  ip_count-add_ref ip j p = ground (
    arith,
    int_eq_iff id j,
    text_eq_iff ip p,
    refs_of-add_ref ip j,
    lookup-insert ip p (ip_count l id ip + 1) (refs_of l id),
  )

  pub tcp_count-uncount_ip : (ip : Text) (j : ℤ) → tcp_count (uncount_ip l id ip) j ≡ tcp_count l j
  unfolding uncount_ip tcp_count
  tcp_count-uncount_ip ip j = ground arith

  pub ip_count-uncount_tcp :
      (tcp : Bool) (j : ℤ) (p : Text) → ip_count (uncount_tcp l id tcp) j p ≡ ip_count l j p
  unfolding uncount_tcp ip_count refs_of
  ip_count-uncount_tcp tcp j p = ground arith

  pub tcp_count-uncount_tcp :
      (tcp : Bool) (j : ℤ)
      → tcp_count (uncount_tcp l id tcp) j
        ≡ (if tcp && id == j then tcp_count l id - 1 else tcp_count l j)
  unfolding uncount_tcp tcp_count
  tcp_count-uncount_tcp tcp j = ground (
    arith,
    int_eq_iff id j,
    lookup-insert id j (tcp_count l id - 1) l.tcp_counts,
    lookup-insert id id (tcp_count l id - 1) l.tcp_counts,
    lookup-delete id j (insert id (tcp_count l id - 1) l.tcp_counts),
    lookup-delete id j l.tcp_counts,
  )

  pub ip_count-uncount_ip :
      (ip : Text) (j : ℤ) (p : Text)
      → ip_count (uncount_ip l id ip) j p
        ≡ (if (id == j) && (ip == p) then ip_count l id ip - 1 else ip_count l j p)
  unfolding ip_count refs_of uncount_ip
  ip_count-uncount_ip ip j p = elim (Option-cases (lookup id l.ip_refs)) [
    | inl absent ↦
        rw (absent, uncount_ip)
          (ground (arith, absent, int_eq_iff id j, text_eq_iff ip p, lookup-empty ip [] refl))
    | inr (refs, here) ↦
        rw (here, uncount_ip)
          (ground (
            arith,
            here,
            int_eq_iff id j,
            text_eq_iff ip p,
            lookup-drop_ref ip p refs,
            lookup-store id j p (drop_ref ip refs) l.ip_refs,
          ))
  ]

module _ {R : Type 0} (l : SessionLimiter R) where
  -- A release takes one from the counts of its user and device, and from no other.
  pub tcp_count-release :
      (h : Lease) (j : ℤ)
      → tcp_count (release l h) j
        ≡ (if h.tcp && h.user_id == j then tcp_count l h.user_id - 1 else tcp_count l j)
  unfolding release
  tcp_count-release h j =
      tcp_count-uncount_ip (uncount_tcp l h.user_id h.tcp) h.user_id h.ip j
      ∙ tcp_count-uncount_tcp l h.user_id h.tcp j

  pub ip_count-release :
      (h : Lease) (j : ℤ) (p : Text)
      → ip_count (release l h) j p ≡ (
          if (h.user_id == j) && (h.ip == p) then ip_count l h.user_id h.ip - 1 else ip_count l j p)
  unfolding release
  ip_count-release h j p = ground (
    arith,
    ip_count-uncount_ip (uncount_tcp l h.user_id h.tcp) h.user_id h.ip j p,
    ip_count-uncount_tcp l h.user_id h.tcp j p,
    ip_count-uncount_tcp l h.user_id h.tcp h.user_id h.ip,
  )

  pub tcp_count-ensure_refs : (id j : ℤ) → tcp_count (ensure_refs l id) j ≡ tcp_count l j
  unfolding ensure_refs tcp_count
  tcp_count-ensure_refs id j = ground arith

  pub refs_of-ensure_refs : (id j : ℤ) → refs_of (ensure_refs l id) j ≡ refs_of l j
  unfolding ensure_refs refs_of
  refs_of-ensure_refs id j = ground (arith, int_eq_iff id j, lookup-insert id j [] l.ip_refs)

  pub ip_count-ensure_refs :
      (id j : ℤ) (p : Text) → ip_count (ensure_refs l id) j p ≡ ip_count l j p
  unfolding ip_count
  ip_count-ensure_refs id j p = rw (refs_of-ensure_refs id j)

  -- A device guard that fires leaves the limiter as it was: the user had an entry.
  pub ensure_refs-full :
      (user : UserConfig) (ip : Text)
      → is_positive user.device_limit ≡ true
      → device_full (ensure_refs l user.id) user ip ≡ true
      → ensure_refs l user.id ≡ l
  unfolding device_full ensure_refs refs_of
  ensure_refs-full user ip pos full =
      ground (arith, lookup-insert_self {V = List (Text × ℕ)} user.id [] l.ip_refs)

length-delete_le : (k : Text) (m : List (Text × ℕ)) → length (delete k m) ≤ length m
unfolding delete
length-delete_le k [] = omega arith
length-delete_le k (x ∷ m) = ground (arith, length-delete_le k m)

length-drop_ref : (ip : Text) (refs : List (Text × ℕ)) → length (drop_ref ip refs) ≤ length refs
length-drop_ref ip refs = elim (Option-cases (lookup ip refs)) [
  | inl absent ↦ rw absent (length-delete_le ip refs)
  | inr (n, here) ↦
      ground (arith, here, length-insert_old ip (n - 1) n refs here, length-delete_le ip refs)
]

-- A release never adds a device.
pub length-refs_of-release :
    {R : Type 0} (l : SessionLimiter R) (h : Lease) (j : ℤ)
    → length (refs_of (release l h) j) ≤ length (refs_of l j)
unfolding release uncount_tcp uncount_ip refs_of
length-refs_of-release l h j = elim (Option-cases (lookup h.user_id l.ip_refs)) [
  | inl absent ↦ ground (arith, absent)
  | inr (refs, here) ↦
      let kept = drop_ref h.ip refs in
      ground (
        arith,
        here,
        int_eq_iff h.user_id j,
        length-drop_ref h.ip refs,
        lookup-insert h.user_id j kept l.ip_refs,
        lookup-delete h.user_id j (insert h.user_id kept l.ip_refs),
      )
]
