-- ===== src/Base/Map.antt =====
-- Go's maps as association lists with one entry for a key: `m[k]`, `m[k] = v`, `delete(m, k)`,
-- `len(m)`, and their laws.
use small_x.Base.{
  All, subst, Bool-cases, inl, inr, any, not, is_none, Eq, ◌==◌, ==_refl, suc, ◌≡◌, refl, Option,
  none, some, List, [], ◌∷◌, map, length, arith, if◌then◌else◌,
}

module _ {ℓ κ} {K : Type ℓ} {V : Type κ} ⦃e : Eq K⦄ where
  unfoldable pub lookup : K → List (K × V) → Option V
  lookup k [] = none
  lookup k ((j, v) ∷ m) = if j == k then some v else lookup k m

  unfoldable pub insert : K → V → List (K × V) → List (K × V)
  insert k v [] = (k, v) ∷ []
  insert k v ((j, w) ∷ m) = if j == k then (j, v) ∷ m else (j, w) ∷ insert k v m

  unfoldable pub delete : K → List (K × V) → List (K × V)
  delete k [] = []
  delete k ((j, v) ∷ m) = if j == k then delete k m else (j, v) ∷ delete k m

  -- No key has two entries.
  abbrev pub IsUnique : List (K × V) → Type κ
  IsUnique [] = Unit
  IsUnique ((k, v) ∷ m) = (lookup k m ≡ none) × IsUnique m

  pub lookup-insert :
      (at asked : K) (v : V) (entries : List (K × V))
      → lookup asked (insert at v entries) ≡ (if at == asked then some v else lookup asked entries)
  unfolding insert lookup
  lookup-insert at asked v [] = refl
  lookup-insert at asked v ((key, old) ∷ entries) = ground (
    arith,
    lookup-insert at asked v entries,
    e.same_key_iff key at,
    e.same_key_iff key asked,
    e.same_key_iff at asked,
  )

  pub lookup-delete :
      (k j : K) (m : List (K × V)) → lookup j (delete k m) ≡ (if k == j then none else lookup j m)
  unfolding lookup delete
  lookup-delete k j [] = ground arith
  lookup-delete k j ((i, w) ∷ m) =
      ground
        (arith, e.same_key_iff k j, e.same_key_iff i k, e.same_key_iff i j, lookup-delete k j m)

  pub lookup-insert_self : (k : K) (v : V) (m : List (K × V)) → lookup k (insert k v m) ≡ some v
  lookup-insert_self k v m = ground (arith, lookup-insert k k v m, ==_refl k)

  pub lookup-delete_self : (k : K) (m : List (K × V)) → lookup k (delete k m) ≡ none
  lookup-delete_self k m = ground (arith, lookup-delete k k m, ==_refl k)

  pub insert-IsUnique : (k : K) (v : V) (m : List (K × V)) → IsUnique m → IsUnique (insert k v m)
  unfolding insert lookup
  insert-IsUnique k v [] u = (refl, tt)
  insert-IsUnique k v ((j, w) ∷ m) u = ground (
    arith,
    e.same_key_iff j k,
    e.same_key_iff k j,
    lookup-insert k j v m,
    insert-IsUnique k v m u.1,
  )

  pub delete-IsUnique : (k : K) (m : List (K × V)) → IsUnique m → IsUnique (delete k m)
  unfolding delete
  delete-IsUnique k [] u = tt
  delete-IsUnique k ((j, w) ∷ m) u = ground (arith, lookup-delete k j m, delete-IsUnique k m u.1)

  pub length-insert_new :
      (k : K) (v : V) (m : List (K × V))
      → lookup k m ≡ none
      → length (insert k v m) ≡ suc (length m)
  unfolding insert lookup
  length-insert_new k v [] h = refl
  length-insert_new k v ((j, w) ∷ m) h = ground (arith, length-insert_new k v m)

  pub length-insert_old :
      (k : K) (v w : V) (m : List (K × V)) → lookup k m ≡ some w → length (insert k v m) ≡ length m
  unfolding insert lookup
  length-insert_old k v w [] h = cc
  length-insert_old k v w ((j, x) ∷ m) h = ground (arith, length-insert_old k v w m)

  pub delete_absent : (k : K) (m : List (K × V)) → lookup k m ≡ none → delete k m ≡ m
  unfolding delete lookup
  delete_absent k [] h = refl
  delete_absent k ((j, x) ∷ m) h = ground (arith, delete_absent k m)

  -- A deletion of a key that is there leaves the other entries.
  pub length-delete :
      (k : K) (w : V) (m : List (K × V))
      → IsUnique m
      → lookup k m ≡ some w
      → suc (length (delete k m)) ≡ length m
  unfolding delete lookup
  length-delete k w [] u h = cc
  length-delete k w ((j, x) ∷ m) u h =
      ground (arith, e.same_key_iff j k, delete_absent k m, length-delete k w m u.1)

  abbrev pub keys : List (K × V) → List K
  keys m = map (λ p. p.0) m

-- A test for a key is a look-up.
pub any-keys-lookup {κ} :
    {K : Type 0} {V : Type κ} ⦃e : Eq K⦄ (k : K) (m : List (K × V))
    → any (λ j. j == k) (keys m) ≡ not (is_none (lookup k m))
unfolding lookup
any-keys-lookup ⦃e⦄ k [] = refl
any-keys-lookup ⦃e⦄ k ((j, v) ∷ m) = ground (arith, any-keys-lookup k m)

-- What holds of every value of a map holds of a value that was looked up.
pub lookup-All {ℓ κ μ} :
    {K : Type ℓ} {V : Type κ} ⦃e : Eq K⦄ (P : V → Type μ) (k : K) (m : List (K × V)) (v : V)
    → All (λ x. P x.1) m
    → lookup k m ≡ some v
    → P v
unfolding lookup
lookup-All P k [] v all h = absurd (ground arith)
lookup-All P k ((j, w) ∷ m) v all h = elim (Bool-cases (j == k)) [
  | inl same ↦ let e : w ≡ v = ground (arith, same) in subst P e all.0
  | inr other ↦ lookup-All P k m v all.1 (ground (arith, other))
]
