-- ===== src/Ss/HostPort/Split.antt =====
-- `SplitHostPort` takes apart what `JoinHostPort` put together.
use small_x.Base.{
  drop-behind, ℕ, suc, ◌+◌, ◌-◌, ◌≡◌, refl, ◌∙◌, ap, sym, Text, [], ◌∷◌, ◌++◌, true, false, ◌||◌,
  none, some, arith, Bool-cases, inl, inr, All, length, drop, take-append_left, length-append,
}
use mathlib.Core.List.{append_assoc}
use small_x.Base.Strings.{contains_byte, has_prefix_byte}
use small_x.Ss.HostPort.{
  join_host_port, split_host_port, split_at_colon, split_bracketed, split_checked, index_byte,
  last_index_byte, itoa, is_digit,
}
use small_x.Ss.HostPort.Decimal.{itoa-digits}

contains_byte-append :
    (c : ℕ) (s t : Text) → contains_byte c (s ++ t) ≡ contains_byte c s || contains_byte c t
unfolding contains_byte
contains_byte-append c [] t = refl
contains_byte-append c (a ∷ s) t = ground (arith, contains_byte-append c s t)

last_index_byte_absent : (c : ℕ) (s : Text) → contains_byte c s ≡ false → last_index_byte c s ≡ none
unfolding contains_byte last_index_byte
last_index_byte_absent c [] h = refl
last_index_byte_absent c (a ∷ s) h = ground (arith, last_index_byte_absent c s)

last_index_byte-append :
    (c : ℕ) (s t : Text)
    → contains_byte c t ≡ false
    → last_index_byte c (s ++ c ∷ t) ≡ some (length s)
unfolding last_index_byte
last_index_byte-append c [] t h = rw (last_index_byte_absent c t h) (ground arith)
last_index_byte-append c (a ∷ s) t h = rw (last_index_byte-append c s t h)

index_byte-append :
    (c : ℕ) (s t : Text) → contains_byte c s ≡ false → index_byte c (s ++ c ∷ t) ≡ some (length s)
unfolding index_byte contains_byte
index_byte-append c [] t h = ground arith
index_byte-append c (a ∷ s) t h = ground (arith, index_byte-append c s t)

has_prefix-append :
    (host port : Text)
    → contains_byte b'[' host ≡ false
    → has_prefix_byte b'[' (host ++ b':' ∷ port) ≡ false
unfolding has_prefix_byte contains_byte
has_prefix-append [] port h = refl
has_prefix-append (a ∷ host) port h = ground arith

module _ (host port : Text) (open_host : contains_byte b'[' host ≡ false)
    (close_host : contains_byte b']' host ≡ false) (colon_port : contains_byte b':' port ≡ false)
    (open_port : contains_byte b'[' port ≡ false)
    (close_port : contains_byte b']' port ≡ false) where
  split_plain :
      contains_byte b':' host ≡ false → split_host_port (host ++ b':' ∷ port) ≡ some (host, port)
  unfolding split_host_port split_at_colon split_checked contains_byte
  split_plain plain =
      let tail = b':' ∷ port in
      rw (last_index_byte-append b':' host port colon_port) (
        ground (
          arith,
          has_prefix-append host port open_host,
          take-append_left (length host) host tail refl,
          contains_byte-append b'[' host tail,
          contains_byte-append b']' host tail,
          drop-behind (suc (length host)) host b':' port refl,
        ))

  last_colon :
      last_index_byte b':' (b'[' ∷ (host ++ b']' ∷ b':' ∷ port)) ≡ some (suc (length host + 1))
  last_colon =
      ap (λ (t : Text). last_index_byte b':' (b'[' ∷ t))
        (sym (append_assoc host (b']' ∷ []) (b':' ∷ port)))
      ∙ last_index_byte-append b':' (b'[' ∷ (host ++ b']' ∷ [])) port colon_port
      ∙ ap (λ (n : ℕ). some (suc n)) (length-append host (b']' ∷ []))

  first_bracket : index_byte b']' (b'[' ∷ (host ++ b']' ∷ b':' ∷ port)) ≡ some (suc (length host))
  unfolding contains_byte
  first_bracket = index_byte-append b']' (b'[' ∷ host) (b':' ∷ port) close_host

  behind_bracket :
      (n : ℕ) → n ≡ length host + 2 → drop n (b'[' ∷ (host ++ b']' ∷ b':' ∷ port)) ≡ b':' ∷ port
  behind_bracket n h = drop-behind n (b'[' ∷ host) b']' (b':' ∷ port) (omega arith)

  behind_colon : (n : ℕ) → n ≡ length host + 3 → drop n (b'[' ∷ (host ++ b']' ∷ b':' ∷ port)) ≡ port
  behind_colon n h =
      ap (λ (t : Text). drop n (b'[' ∷ t)) (sym (append_assoc host (b']' ∷ []) (b':' ∷ port)))
      ∙ drop-behind n (b'[' ∷ (host ++ b']' ∷ [])) b':' port
          (omega (arith, length-append host (b']' ∷ [])))

  split_brackets : split_host_port (b'[' ∷ (host ++ b']' ∷ b':' ∷ port)) ≡ some (host, port)
  unfolding split_host_port split_at_colon split_bracketed split_checked has_prefix_byte
      contains_byte
  split_brackets =
      let n = length host in
      let tail = b']' ∷ b':' ∷ port in
      rw (last_colon, first_bracket)
        (ground (
          arith,
          take-append_left (suc n - 1) host tail (omega arith),
          contains_byte-append b'[' host tail,
          behind_bracket (suc n + 1) (omega arith),
          behind_colon (suc (suc (n + 1))) (omega arith),
        ))

  -- With brackets or without, if neither part has a bracket and the port has no colon.
  pub split_host_port-join : split_host_port (join_host_port host port) ≡ some (host, port)
  unfolding join_host_port
  split_host_port-join = elim (Bool-cases (contains_byte b':' host)) [
    | inl colon ↦ rw colon split_brackets
    | inr plain ↦ rw plain (split_plain plain)
  ]

digits_only :
    (c : ℕ) (s : Text)
    → is_digit c ≡ false
    → All (λ d. is_digit d ≡ true) s
    → contains_byte c s ≡ false
unfolding contains_byte
digits_only c [] h d = refl
digits_only c (a ∷ s) h d = ground (arith, digits_only c s h d.1)

-- A host without brackets and a port number come back from their joined form.
pub split_host_port-join_itoa :
    (host : Text) (n : ℕ)
    → contains_byte b'[' host ≡ false
    → contains_byte b']' host ≡ false
    → split_host_port (join_host_port host (itoa n)) ≡ some (host, itoa n)
split_host_port-join_itoa host n open_host close_host =
    let d = itoa-digits n in
    split_host_port-join host (itoa n) open_host close_host (digits_only b':' (itoa n) refl d)
      (digits_only b'[' (itoa n) refl d) (digits_only b']' (itoa n) refl d)
