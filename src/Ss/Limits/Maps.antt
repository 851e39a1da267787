-- ===== src/Ss/Limits/Maps.antt =====
-- The shape of the limiter's maps, and the updates that keep it.
use small_x.Base.{
  subst, Bool-cases, int_eq, ℤ, ℕ, suc, ◌+◌, ◌-◌, ◌<◌, ◌≡◌, Text, List, [], ◌∷◌, false,
  if◌then◌else◌, int_keys, text_keys, some, inl, inr, arith, int_eq_iff, length, ltb, nat_eq, Eq,
}
use small_x.Base.Map.{
  lookup, insert, delete, IsUnique, lookup-insert, lookup-delete, insert-IsUnique, delete-IsUnique,
}
use small_x.Ss.Limits.{SessionLimiter, or_zero, drop_ref}

-- Every count of a map is at least 1.
abbrev pub IsPositive {ℓ} : {K : Type ℓ} ⦃e : Eq K⦄ → List (K × ℕ) → Type ℓ
IsPositive {K} m = (k : K) (n : ℕ) → lookup k m ≡ some n → 0 < n

pub record GoodRefs (refs : List (Text × ℕ)) : Type 0 where
  pub unique : IsUnique refs
  pub nonempty : 0 < length refs
  pub positive : IsPositive refs

pub record GoodUsers (m : List (ℤ × List (Text × ℕ))) : Type 0 where
  pub unique : IsUnique m
  pub devices : (id : ℤ) (refs : List (Text × ℕ)) → lookup id m ≡ some refs → GoodRefs refs

pub record GoodCounts (m : List (ℤ × ℕ)) : Type 0 where
  pub unique : IsUnique m
  pub positive : IsPositive m

pub record IsWell {R : Type 0} (l : SessionLimiter R) : Type 0 where
  pub users : GoodUsers l.ip_refs
  pub counters : GoodCounts l.tcp_counts

length-insert_pos : (ip : Text) (n : ℕ) (refs : List (Text × ℕ)) → 0 < length (insert ip n refs)
unfolding insert
length-insert_pos ip n [] = omega arith
length-insert_pos ip n (r ∷ refs) = ground arith

drop_ref-IsUnique :
    (ip : Text) (refs : List (Text × ℕ)) → IsUnique refs → IsUnique (drop_ref ip refs)
drop_ref-IsUnique ip refs u =
    ground
      (arith, insert-IsUnique ip (or_zero (lookup ip refs) - 1) refs u, delete-IsUnique ip refs u)

drop_ref-IsPositive :
    (ip : Text) (refs : List (Text × ℕ)) → IsPositive refs → IsPositive (drop_ref ip refs)
drop_ref-IsPositive ip refs p k m e =
    ground (
      arith,
      p k m,
      lookup-insert ip k (or_zero (lookup ip refs) - 1) refs,
      lookup-delete ip k refs,
    )

pub insert-GoodRefs :
    (ip : Text) (n : ℕ) (refs : List (Text × ℕ))
    → IsUnique refs
    → IsPositive refs
    → GoodRefs (insert ip (n + 1) refs)
insert-GoodRefs ip n refs u p = record {
  unique = insert-IsUnique ip (n + 1) refs u;
  nonempty = length-insert_pos ip (n + 1) refs;
  positive = λ k m e. ground (arith, p k m, lookup-insert ip k (n + 1) refs);
}

pub insert-GoodUsers :
    (id : ℤ) (refs : List (Text × ℕ)) (m : List (ℤ × List (Text × ℕ)))
    → IsUnique m
    → ((j : ℤ) (r : List (Text × ℕ)) → int_eq id j ≡ false → lookup j m ≡ some r → GoodRefs r)
    → GoodRefs refs
    → GoodUsers (insert id refs m)
insert-GoodUsers id refs m u others good = record {
  unique = insert-IsUnique id refs m u;
  devices = λ j r e. elim (Bool-cases (int_eq id j)) [
    | inl same ↦ subst GoodRefs (ground (arith, lookup-insert id j refs m)) good
    | inr other ↦ others j r other (ground (arith, lookup-insert id j refs m))
  ];
}

delete-GoodUsers :
    (id : ℤ) (refs : List (Text × ℕ)) (m : List (ℤ × List (Text × ℕ)))
    → GoodUsers m
    → GoodUsers (delete id (insert id refs m))
delete-GoodUsers id refs m g = record {
  unique = delete-IsUnique id _ (insert-IsUnique id refs m g.unique);
  devices = λ j r e.
      g.devices j r
        (ground (arith, lookup-delete id j (insert id refs m), lookup-insert id j refs m));
}

-- A release's write of the user's entry, which goes when its last device goes.
pub store-GoodUsers :
    (id : ℤ) (ip : Text) (refs : List (Text × ℕ)) (m : List (ℤ × List (Text × ℕ)))
    → GoodUsers m
    → GoodRefs refs
    → GoodUsers (
        if nat_eq (length (drop_ref ip refs)) 0
        then delete id (insert id (drop_ref ip refs) m)
        else insert id (drop_ref ip refs) m)
store-GoodUsers id ip refs m g good = elim (Bool-cases (nat_eq (length (drop_ref ip refs)) 0)) [
  | inl last ↦ rw last (delete-GoodUsers id (drop_ref ip refs) m g)
  | inr more ↦ rw more (
      insert-GoodUsers id (drop_ref ip refs) m g.unique (λ j r _ e. g.devices j r e)
        (record {
          unique = drop_ref-IsUnique ip refs good.unique;
          nonempty = ground arith;
          positive = drop_ref-IsPositive ip refs good.positive;
        }))
]

pub insert-GoodCounts :
    (id : ℤ) (n : ℕ) (m : List (ℤ × ℕ)) → GoodCounts m → GoodCounts (insert id (suc n) m)
insert-GoodCounts id n m g = record {
  unique = insert-IsUnique id (suc n) m g.unique;
  positive = λ k v e. ground (arith, g.positive k v, lookup-insert id k (suc n) m);
}

delete-GoodCounts : (id : ℤ) (m : List (ℤ × ℕ)) → GoodCounts m → GoodCounts (delete id m)
delete-GoodCounts id m g = record {
  unique = delete-IsUnique id m g.unique;
  positive = λ k v e. ground (arith, g.positive k v, lookup-delete id k m);
}

-- The end of the `if tcp` block of `release`: a count of 0 goes.
prune-GoodCounts :
    (id : ℤ) (m : List (ℤ × ℕ))
    → IsUnique m
    → ((k : ℤ) (v : ℕ) → int_eq id k ≡ false → lookup k m ≡ some v → 0 < v)
    → GoodCounts (if nat_eq (or_zero (lookup id m)) 0 then delete id m else m)
prune-GoodCounts id m u others = elim (Bool-cases (nat_eq (or_zero (lookup id m)) 0)) [
  | inl zeroed ↦ rw zeroed (record {
    unique = delete-IsUnique id m u;
    positive = λ k v e. ground (arith, others k v, lookup-delete id k m);
  })
  | inr left ↦
      rw left
        (record { unique = u; positive = λ k v e. ground (arith, others k v, int_eq_iff id k) })
]

pub lower-GoodCounts :
    (id : ℤ) (m : List (ℤ × ℕ))
    → GoodCounts m
    → let n = or_zero (lookup id m) in
      let counts = if ltb 0 n then insert id (n - 1) m else m in
      GoodCounts (if nat_eq (or_zero (lookup id counts)) 0 then delete id counts else counts)
lower-GoodCounts id m g = elim (Bool-cases (ltb 0 (or_zero (lookup id m)))) [
  | inl more ↦
      let less = or_zero (lookup id m) - 1 in
      rw more (
        prune-GoodCounts id (insert id less m) (insert-IsUnique id less m g.unique)
          (λ k v other e. ground (arith, g.positive k v, lookup-insert id k less m)))
  | inr none_left ↦ rw none_left (prune-GoodCounts id m g.unique (λ k v other e. g.positive k v e))
]
