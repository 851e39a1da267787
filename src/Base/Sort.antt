-- ===== src/Base/Sort.antt =====
-- Go's `sort.Ints` and `sort.Strings`: the ascending order of the elements.
use small_x.Base.{
  ℤ, ◌≡◌, refl, Bool, true, false, ◌||◌, ◌&&◌, List, [], ◌∷◌, any, All, if◌then◌else◌, arith, Text,
  leb_int, ltb, nat_eq, ◌⊎◌, inl, inr, Bool-cases, pos, negsuc,
}

module _ {ℓ} {A : Type ℓ} (leq : A → A → Bool) where
  unfoldable pub insert_sorted : A → List A → List A
  insert_sorted a [] = a ∷ []
  insert_sorted a (b ∷ l) = if leq a b then a ∷ b ∷ l else b ∷ insert_sorted a l

  unfoldable pub sort : List A → List A
  sort [] = []
  sort (a ∷ l) = insert_sorted a (sort l)

  abbrev pub IsSorted : List A → Type 0
  IsSorted [] = Unit
  IsSorted (a ∷ l) = All (λ b. leq a b ≡ true) l × IsSorted l

  any-insert_sorted :
      (p : A → Bool) (a : A) (l : List A) → any p (insert_sorted a l) ≡ p a || any p l
  unfolding insert_sorted
  any-insert_sorted p a [] = refl
  any-insert_sorted p a (b ∷ l) = ground (arith, any-insert_sorted p a l)

  -- Sorting changes no test for an element.
  pub any-sort : (p : A → Bool) (l : List A) → any p (sort l) ≡ any p l
  unfolding sort
  any-sort p [] = refl
  any-sort p (a ∷ l) = ground (arith, any-insert_sorted p a (sort l), any-sort p l)

  module _ (total : (a b : A) → (leq a b ≡ true) ⊎ (leq b a ≡ true))
      (trans : (a b c : A) → leq a b ≡ true → leq b c ≡ true → leq a c ≡ true) where
    All-below :
        (a b : A) (l : List A)
        → leq a b ≡ true
        → All (λ c. leq b c ≡ true) l
        → All (λ c. leq a c ≡ true) l
    All-below a b [] h s = tt
    All-below a b (c ∷ l) h s = (trans a b c h s.0, All-below a b l h s.1)

    All-insert_sorted :
        (a b : A) (l : List A)
        → leq b a ≡ true
        → All (λ c. leq b c ≡ true) l
        → All (λ c. leq b c ≡ true) (insert_sorted a l)
    unfolding insert_sorted
    All-insert_sorted a b [] h s = (h, tt)
    All-insert_sorted a b (c ∷ l) h s = ground (arith, All-insert_sorted a b l h s.1)

    insert_sorted-IsSorted : (a : A) (l : List A) → IsSorted l → IsSorted (insert_sorted a l)
    unfolding insert_sorted
    insert_sorted-IsSorted a [] s = (tt, tt)
    insert_sorted-IsSorted a (b ∷ l) s = elim (Bool-cases (leq a b)) [
      | inl below ↦ rw below ((below, All-below a b l below s.0), s)
      | inr above ↦
          rw above
            (All-insert_sorted a b l (flip above (total a b)) s.0, insert_sorted-IsSorted a l s.1)
    ]
      where
        flip : leq a b ≡ false → (leq a b ≡ true) ⊎ (leq b a ≡ true) → leq b a ≡ true
        flip f (inl t) = cc
        flip f (inr t) = t

    pub sort-IsSorted : (l : List A) → IsSorted (sort l)
    unfolding sort
    sort-IsSorted [] = tt
    sort-IsSorted (a ∷ l) = insert_sorted-IsSorted a (sort l) (sort-IsSorted l)

pub leb_int-total : (a b : ℤ) → (leb_int a b ≡ true) ⊎ (leb_int b a ≡ true)
leb_int-total (pos a) (pos b) = ground arith
leb_int-total (pos a) (negsuc b) = inr refl
leb_int-total (negsuc a) (pos b) = inl refl
leb_int-total (negsuc a) (negsuc b) = ground arith

pub leb_int_trans : (a b c : ℤ) → leb_int a b ≡ true → leb_int b c ≡ true → leb_int a c ≡ true
leb_int_trans a b c h k = ground arith

-- The byte-wise order of strings.
abbrev pub text_leb : Text → Text → Bool
text_leb [] t = true
text_leb (a ∷ s) [] = false
text_leb (a ∷ s) (b ∷ t) = ltb a b || (nat_eq a b && text_leb s t)
