-- ===== src/Ss/Limits/Shape.antt =====
-- The shape of the limiter's maps: one entry for a key, no count of 0, no user without a device.
use small_x.Base.{
  int_eq, ℤ, ℕ, ◌≡◌, Text, List, [], Bool, true, false, int_keys, text_keys, some, inl, inr, arith,
  Option-cases,
}
use small_x.Base.Map.{lookup, IsUnique, lookup-insert, insert-IsUnique}
use small_x.Ss.Types.{UserConfig}
use small_x.Ss.Limits.{
  SessionLimiter, Lease, acquire, release, admit, ensure_refs, tcp_count, refs_of,
  new_session_limiter, add_ref, count_tcp, uncount_tcp, uncount_ip,
}
use native.Mathlib.Numerals.{add-one}
use small_x.Ss.Limits.Counts.{refs_of-ensure_refs}
use small_x.Ss.Limits.Acquire.{acquire_cases}
use small_x.Ss.Limits.Maps.{
  IsPositive, GoodUsers, IsWell, insert-GoodRefs, insert-GoodUsers, store-GoodUsers,
  insert-GoodCounts, lower-GoodCounts,
}

module _ {R : Type 0} (l : SessionLimiter R) (w : IsWell l) where
  pub refs_of-shape : (id : ℤ) → IsUnique (refs_of l id) × IsPositive (refs_of l id)
  unfolding refs_of lookup
  refs_of-shape id = elim (Option-cases (lookup id l.ip_refs)) [
    | inl absent ↦ rw absent (tt, λ k n e. cc)
    | inr (refs, here) ↦
        rw here ((w.users.devices id refs here).unique, (w.users.devices id refs here).positive)
  ]

  ensure_refs-IsUnique : (id : ℤ) → IsUnique (ensure_refs l id).ip_refs
  unfolding ensure_refs
  ensure_refs-IsUnique id =
      ground (arith, w.users.unique, insert-IsUnique id [] l.ip_refs w.users.unique)

  ensure_refs-lookup :
      (id j : ℤ) (refs : List (Text × ℕ))
      → int_eq id j ≡ false
      → lookup j (ensure_refs l id).ip_refs ≡ some refs
      → lookup j l.ip_refs ≡ some refs
  unfolding ensure_refs
  ensure_refs-lookup id j refs other e =
      ground (arith, lookup-insert {V = List (Text × ℕ)} id j [] l.ip_refs)

  ensure_refs-tcp_counts : (id : ℤ) → (ensure_refs l id).tcp_counts ≡ l.tcp_counts
  unfolding ensure_refs
  ensure_refs-tcp_counts id = ground arith

  add_ref-GoodUsers : (id : ℤ) (ip : Text) → GoodUsers (add_ref (ensure_refs l id) id ip).ip_refs
  unfolding add_ref
  add_ref-GoodUsers id ip =
      let (u, p) = refs_of-shape id in
      insert-GoodUsers id _ (ensure_refs l id).ip_refs (ensure_refs-IsUnique id)
        (λ j r other e. w.users.devices j r (ensure_refs-lookup id j r other e))
        (rw (refs_of-ensure_refs l id id) (insert-GoodRefs ip _ (refs_of l id) u p))

  admit-IsWell :
      (user : UserConfig) (ip : Text) (tcp : Bool)
      → IsWell (admit (ensure_refs l user.id) user ip tcp).0
  unfolding admit add_ref count_tcp
  admit-IsWell user ip true = record {
    users = add_ref-GoodUsers user.id ip;
    counters =
        rw (add-one, ensure_refs-tcp_counts user.id)
          (insert-GoodCounts user.id _ l.tcp_counts w.counters);
  }
  admit-IsWell user ip false = record {
    users = add_ref-GoodUsers user.id ip;
    counters = rw (ensure_refs-tcp_counts user.id) w.counters;
  }

  uncount_ip-IsWell : (id : ℤ) (ip : Text) → IsWell (uncount_ip l id ip)
  unfolding uncount_ip
  uncount_ip-IsWell id ip = elim (Option-cases (lookup id l.ip_refs)) [
    | inl absent ↦ rw (absent, uncount_ip) w
    | inr (refs, here) ↦
        rw (here, uncount_ip)
          (record {
            users = store-GoodUsers id ip refs l.ip_refs w.users (w.users.devices id refs here);
            counters = w.counters;
          })
  ]

  uncount_tcp-IsWell : (id : ℤ) (tcp : Bool) → IsWell (uncount_tcp l id tcp)
  unfolding uncount_tcp tcp_count
  uncount_tcp-IsWell id true = record {
    users = w.users;
    counters = lower-GoodCounts id l.tcp_counts w.counters;
  }
  uncount_tcp-IsWell id false = w

  -- `acquire` keeps the shape on every branch.
  pub acquire-IsWell :
      (user : UserConfig) (ip : Text) (tcp enforce : Bool)
      → IsWell (acquire l user ip tcp enforce).0
  acquire-IsWell user ip tcp enforce = elim (acquire_cases l user ip tcp enforce) [
    | inl (_, e) ↦ rw e w
    | inr (inl (_, _, e)) ↦ rw e w
    | inr (inr (_, _, e)) ↦ rw e (admit-IsWell user ip tcp)
  ]

pub release-IsWell :
    {R : Type 0} (l : SessionLimiter R) → IsWell l → (h : Lease) → IsWell (release l h)
unfolding release
release-IsWell l w h =
    uncount_ip-IsWell (uncount_tcp l h.user_id h.tcp) (uncount_tcp-IsWell l w h.user_id h.tcp)
      h.user_id h.ip

pub new_session_limiter-IsWell : {R : Type 0} → IsWell (new_session_limiter {R = R})
unfolding new_session_limiter lookup
new_session_limiter-IsWell = record {
  users = record { unique = tt; devices = λ id refs e. absurd (ground arith) };
  counters = record { unique = tt; positive = λ k n e. absurd (ground arith) };
}
