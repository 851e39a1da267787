-- ===== src/Ss/Limits/Snapshot.antt =====
-- `SnapshotAliveIPs` of limits.go.
use small_x.Base.{
  All, map, is_none, ℤ, ℕ, ◌≡◌, refl, Text, List, [], ◌∷◌, Bool, true, ◌&&◌, not, if◌then◌else◌,
  any, int_keys, text_keys, inl, inr, arith, int_eq, text_eq, int_eq_iff, length, Option-cases, ltb,
  nat_eq, leb_int,
}
use small_x.Base.Map.{lookup, keys, any-keys-lookup}
use small_x.Base.Sort.{
  IsSorted, sort-IsSorted, leb_int-total, leb_int_trans, sort, text_leb, any-sort,
}
use small_x.Model.{AliveIp}
use small_x.Ss.Limits.{SessionLimiter, refs_of, ip_count, or_zero}
use small_x.Ss.Limits.Shape.{refs_of-shape}
use small_x.Ss.Limits.Maps.{IsWell, IsPositive}

-- The loop over the sorted user ids.
unfoldable pub alive_of : {R : Type 0} → SessionLimiter R → List ℤ → List AliveIp
alive_of l [] = []
alive_of l (id ∷ ids) =
    let rest = alive_of l ids in
    if nat_eq (length (refs_of l id)) 0
    then rest
    else record { id = id; ips = sort text_leb (keys (refs_of l id)) } ∷ rest

unfoldable pub snapshot_alive_ips : {R : Type 0} → SessionLimiter R → List AliveIp
snapshot_alive_ips l = alive_of l (sort leb_int (keys l.ip_refs))

-- The report names the device `ip` for the user `id`.
abbrev pub reports : ℤ → Text → List AliveIp → Bool
reports id ip out = any (λ r. int_eq r.id id && any (λ p. text_eq p ip) r.ips) out

positive-lookup :
    (ip : Text) (m : List (Text × ℕ))
    → IsPositive m
    → not (is_none (lookup ip m)) ≡ ltb 0 (or_zero (lookup ip m))
positive-lookup ip m p = elim (Option-cases (lookup ip m)) [
  | inl absent ↦ rw absent
  | inr (n, here) ↦ rw here (ground (arith, p ip n here))
]

lookup-no_entries : (ip : Text) (m : List (Text × ℕ)) → length m ≡ 0 → is_none (lookup ip m) ≡ true
unfolding lookup
lookup-no_entries ip [] h = refl
lookup-no_entries ip (x ∷ m) h = absurd (omega arith)

reports-alive_of :
    {R : Type 0} (l : SessionLimiter R) (id : ℤ) (ip : Text) (ids : List ℤ)
    → reports id ip (alive_of l ids)
      ≡ any (λ j. int_eq j id) ids && not (is_none (lookup ip (refs_of l id)))
unfolding alive_of
reports-alive_of l id ip [] = refl
reports-alive_of l id ip (j ∷ ids) =
    let refs = refs_of l j in
    ground (
      arith,
      reports-alive_of l id ip ids,
      int_eq_iff j id,
      lookup-no_entries ip refs,
      any-sort text_leb (λ (p : Text). text_eq p ip) (keys refs),
      any-keys-lookup ip refs,
    )

refs_of_absent :
    {R : Type 0} (l : SessionLimiter R) (id : ℤ) (ip : Text)
    → is_none (lookup id l.ip_refs) ≡ true
    → is_none (lookup ip (refs_of l id)) ≡ true
unfolding refs_of lookup
refs_of_absent l id ip h = ground arith

All-alive_of :
    {R : Type 0} (l : SessionLimiter R) (a : ℤ) (ids : List ℤ)
    → All (λ j. leb_int a j ≡ true) ids
    → All (λ j. leb_int a j ≡ true) (map (λ r. r.id) (alive_of l ids))
unfolding alive_of
All-alive_of l a [] h = tt
All-alive_of l a (j ∷ ids) h = ground (arith, All-alive_of l a ids h.1)

alive_of-IsSorted :
    {R : Type 0} (l : SessionLimiter R) (ids : List ℤ)
    → IsSorted leb_int ids
    → IsSorted leb_int (map (λ r. r.id) (alive_of l ids))
unfolding alive_of
alive_of-IsSorted l [] h = tt
alive_of-IsSorted l (j ∷ ids) h =
    ground (arith, All-alive_of l j ids h.0, alive_of-IsSorted l ids h.1)

-- The report lists the users in ascending order of their ids.
pub snapshot_alive_ips-IsSorted :
    {R : Type 0} (l : SessionLimiter R) → IsSorted leb_int (map (λ r. r.id) (snapshot_alive_ips l))
unfolding snapshot_alive_ips
snapshot_alive_ips-IsSorted l =
    alive_of-IsSorted l _ (sort-IsSorted leb_int leb_int-total leb_int_trans (keys l.ip_refs))

-- For a limiter whose maps have one entry for a key, no count of 0 and no user without a device, the
-- report names exactly the devices with a positive count, of exactly the users that hold them.
pub snapshot_alive_ips-counts :
    {R : Type 0} (l : SessionLimiter R)
    → IsWell l
    → (id : ℤ) (ip : Text) → reports id ip (snapshot_alive_ips l) ≡ ltb 0 (ip_count l id ip)
unfolding snapshot_alive_ips ip_count
snapshot_alive_ips-counts l w id ip = ground (
  arith,
  reports-alive_of l id ip (sort leb_int (keys l.ip_refs)),
  any-sort leb_int (λ (j : ℤ). int_eq j id) (keys l.ip_refs),
  any-keys-lookup id l.ip_refs,
  refs_of_absent l id ip,
  positive-lookup ip (refs_of l id) (refs_of-shape l w id).1,
)
