-- ===== src/Ss/Cipher/Keys.antt =====
-- The master key and the session key of every supported cipher.
use small_x.Base.{
  ℕ, zero, suc, ◌+◌, ◌*◌, ◌≤◌, ◌≡◌, ◌⊎◌, inl, inr, refl, Text, List, [], ◌++◌, subst, sym, ◌∙◌,
  text_keys, some, length, length-append, length-take, nat_eq, true, replicate, arith, ok,
  Option-cases,
}
use small_x.Base.Strings.{codes, trim_space, to_lower}
use small_x.Base.Map.{lookup-All}
use small_x.Ss.Cipher.{
  CryptoLib, CipherDef, aes_gcm, chacha20_poly1305, lookup_cipher, cipher_defs, key_loop,
  derive_master_key, derive_session_aead, new_aead, overhead,
}

-- A key length that the constructor of the cipher takes.
pub record IsSupported (c : CipherDef) : Type 0 where
  pub size : (c.key_size ≡ 16) ⊎ (c.key_size ≡ 24) ⊎ (c.key_size ≡ 32)
  pub wide : (c.kind ≡ aes_gcm) ⊎ (c.kind ≡ chacha20_poly1305) × (c.key_size ≡ 32)

pub lookup_cipher-IsSupported :
    (name : Text) (c : CipherDef) → lookup_cipher name ≡ some c → IsSupported c
unfolding lookup_cipher
lookup_cipher-IsSupported name c h =
    lookup-All IsSupported (to_lower (trim_space name)) cipher_defs c
      (
        record { size = inl refl; wide = inl refl },
        (
          record { size = inr (inl refl); wide = inl refl },
          (
            record { size = inr (inr refl); wide = inl refl },
            (record { size = inr (inr refl); wide = inr (refl, refl) }, tt),
          ),
        ),
      )
      h

module _ (lib : CryptoLib) where
  open lib use {
    Aead, md5_sum, length-md5_sum, hkdf_gives, gcm_takes, chacha_takes, aead_overhead_16,
  }

  length-key_loop :
      (fuel size : ℕ) (password : Text) (out prev : List ℕ)
      → size ≤ length out + 16 * fuel
      → size ≤ length (key_loop lib fuel size password out prev)
  unfolding key_loop
  length-key_loop zero size password out prev h = omega arith
  length-key_loop (suc fuel) size password out prev h =
      let sum = md5_sum (prev ++ password) in
      let grown = length-append out sum in
      let sixteen = length-md5_sum (prev ++ password) in
      ground (
        arith,
        grown,
        sixteen,
        length-key_loop fuel size password (out ++ sum) sum (omega (arith, grown, sixteen)),
      )

  -- The loop ends with enough bytes: every password gives a master key of the cipher's key size.
  pub length-derive_master_key :
      (c : CipherDef) (password : Text) → length (derive_master_key lib c password) ≡ c.key_size
  unfolding derive_master_key
  length-derive_master_key c password = omega (
    arith,
    length-take c.key_size (key_loop lib c.key_size c.key_size password [] []),
    length-key_loop c.key_size c.key_size password [] [] (omega arith),
  )

  new_aead-some :
      (c : CipherDef) (key : List ℕ)
      → IsSupported c
      → length key ≡ c.key_size
      → (a : Aead) × (new_aead lib c key ≡ some a)
  unfolding new_aead
  new_aead-some c key s e = elim s.wide [
    | inl k ↦
        let (a, made) =
          gcm_takes key (subst (λ n. (n ≡ 16) ⊎ (n ≡ 24) ⊎ (n ≡ 32)) (sym e) s.size) in
        (a, rw k made)
    | inr (k, w) ↦ let (a, made) = chacha_takes key (e ∙ w) in (a, rw k made)
  ]

  bounded : (c : CipherDef) → IsSupported c → c.key_size ≤ 5100
  bounded c s = elim s.size [
    | inl e ↦ omega (arith, e)
    | inr (inl e) ↦ omega (arith, e)
    | inr (inr e) ↦ omega (arith, e)
  ]

  nat_eq_same : (m n : ℕ) → m ≡ n → nat_eq m n ≡ true
  nat_eq_same m n e = ground arith

  -- With a supported cipher, every password and every salt give a session.
  pub derive_session_aead_total :
      (name password : Text) (c : CipherDef) (salt : List ℕ)
      → lookup_cipher name ≡ some c
      → (a : Aead) × (derive_session_aead lib c (derive_master_key lib c password) salt ≡ ok a)
  unfolding derive_session_aead
  derive_session_aead_total name password c salt h =
      let s = lookup_cipher-IsSupported name c h in
      let key = derive_master_key lib c password in
      let (subkey, got, sized) = hkdf_gives key salt (codes "ss-subkey") c.key_size (bounded c s) in
      let (a, made) = new_aead-some c subkey s sized in
      (
        a,
        rw (nat_eq_same (length key) c.key_size (length-derive_master_key c password), got, made)
            refl,
      )

  pub overhead_16 : (c : CipherDef) → overhead lib c ≡ 16
  unfolding overhead
  overhead_16 c = elim (Option-cases (new_aead lib c (replicate c.key_size 0))) [
    | inl refused ↦ rw (overhead, refused) refl
    | inr (a, made) ↦ rw (overhead, made) (aead_overhead_16 a)
  ]
