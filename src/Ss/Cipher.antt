-- ===== src/Ss/Cipher.antt =====
-- internal/ss/cipher.go: the AEAD ciphers, the master key of a password and the key of a session.
-- The ciphers and hashes come from Go's crypto packages: they are a parameter, with what their
-- documentation says of lengths and of opening what was sealed.
pub mod Keys
use small_x.Base.{
  ℕ, zero, suc, ◌+◌, ◌≡◌, ◌≤◌, ◌⊎◌, Text, List, [], ◌∷◌, ◌++◌, Option, none, some, length, take,
  replicate, ltb, nat_eq, if◌then◌else◌, text_keys, Result, ok, err,
}
use small_x.Base.Strings.{codes, trim_space, to_lower}
use small_x.Base.Map.{lookup}

pub record CryptoLib : Type 1 where
  pub Aead : Type 0
  -- `newAESGCM` is `aes.NewCipher`, then `cipher.NewGCM`.
  pub new_cipher_gcm : List ℕ → Option Aead
  pub new_chacha20_poly1305 : List ℕ → Option Aead
  pub nonce_size : Aead → ℕ
  pub aead_overhead : Aead → ℕ
  pub seal : Aead → List ℕ → List ℕ → List ℕ
  pub open_sealed : Aead → List ℕ → List ℕ → Option (List ℕ)
  -- The first bytes of the HKDF stream with SHA-1: secret, salt, info, number.
  pub hkdf_sha1 : List ℕ → List ℕ → Text → ℕ → Option (List ℕ)
  pub md5_sum : List ℕ → List ℕ
  pub open_sealed-seal :
      (a : Aead) (n p : List ℕ) → length n ≡ nonce_size a → open_sealed a n (seal a n p) ≡ some p
  pub length-seal :
      (a : Aead) (n p : List ℕ) → length n ≡ nonce_size a → length (seal a n p) ≡ length p + 16
  pub aead_overhead_16 : (a : Aead) → aead_overhead a ≡ 16
  pub length-md5_sum : (s : List ℕ) → length (md5_sum s) ≡ 16
  -- HKDF with SHA-1 gives up to 255 * 20 bytes.
  pub hkdf_gives :
      (secret salt : List ℕ) (info : Text) (k : ℕ)
      → k ≤ 5100
      → (key : List ℕ) × (hkdf_sha1 secret salt info k ≡ some key) × (length key ≡ k)
  pub gcm_takes :
      (key : List ℕ)
      → (length key ≡ 16) ⊎ (length key ≡ 24) ⊎ (length key ≡ 32)
      → (a : Aead) × (new_cipher_gcm key ≡ some a)
  pub chacha_takes :
      (key : List ℕ) → length key ≡ 32 → (a : Aead) × (new_chacha20_poly1305 key ≡ some a)

-- The constructor in the field `newAEAD`.
pub data AeadKind : Type 0 where
  aes_gcm : AeadKind
  chacha20_poly1305 : AeadKind

pub record CipherDef : Type 0 where
  pub name : Text
  pub key_size : ℕ
  pub kind : AeadKind

pub data CipherError : Type 0 where
  invalid_master_key_size : CipherError
  key_stream_failed : CipherError
  aead_failed : CipherError

abbrev aes_128_gcm : CipherDef
aes_128_gcm = record { name = codes "aes-128-gcm"; key_size = 16; kind = aes_gcm }

abbrev aes_192_gcm : CipherDef
aes_192_gcm = record { name = codes "aes-192-gcm"; key_size = 24; kind = aes_gcm }

abbrev aes_256_gcm : CipherDef
aes_256_gcm = record { name = codes "aes-256-gcm"; key_size = 32; kind = aes_gcm }

abbrev chacha20_ietf_poly1305 : CipherDef
chacha20_ietf_poly1305 = record {
  name = codes "chacha20-ietf-poly1305";
  key_size = 32;
  kind = chacha20_poly1305;
}

abbrev pub cipher_defs : List (Text × CipherDef)
cipher_defs =
    (codes "aes-128-gcm", aes_128_gcm)
    ∷ (codes "aes-192-gcm", aes_192_gcm)
    ∷ (codes "aes-256-gcm", aes_256_gcm)
    ∷ (codes "chacha20-ietf-poly1305", chacha20_ietf_poly1305)
    ∷ []

unfoldable pub lookup_cipher : Text → Option CipherDef
lookup_cipher name = lookup (to_lower (trim_space name)) cipher_defs

unfoldable pub salt_size : CipherDef → ℕ
salt_size c = if ltb 16 c.key_size then c.key_size else 16

module _ (lib : CryptoLib) where
  open lib use {Aead, new_cipher_gcm, new_chacha20_poly1305, aead_overhead, hkdf_sha1, md5_sum}

  unfoldable pub new_aead : CipherDef → List ℕ → Option Aead
  new_aead c key = elim c.kind [
    | aes_gcm ↦ new_cipher_gcm key
    | chacha20_poly1305 ↦ new_chacha20_poly1305 key
  ]

  unfoldable pub overhead : CipherDef → ℕ
  overhead c = elim (new_aead c (replicate c.key_size 0)) [ none ↦ 16 | some a ↦ aead_overhead a ]

  -- The loop of `DeriveMasterKey`, on fuel.
  unfoldable pub key_loop : ℕ → ℕ → Text → List ℕ → List ℕ → List ℕ
  key_loop zero size password out prev = out
  key_loop (suc fuel) size password out prev =
      let sum = md5_sum (prev ++ password) in
      let rest = key_loop fuel size password (out ++ sum) sum in
      if ltb (length out) size then rest else out

  unfoldable pub derive_master_key : CipherDef → Text → List ℕ
  derive_master_key c password = take c.key_size (key_loop c.key_size c.key_size password [] [])

  -- The constructor fails on a key of a length that it does not take.
  abbrev or_aead_failed : Option Aead → Result CipherError Aead
  or_aead_failed none = err aead_failed
  or_aead_failed (some a) = ok a

  unfoldable pub derive_session_aead : CipherDef → List ℕ → List ℕ → Result CipherError Aead
  derive_session_aead c master_key salt =
      let session : Result CipherError Aead =
        elim (hkdf_sha1 master_key salt (codes "ss-subkey") c.key_size) [
          | none ↦ err key_stream_failed
          | some subkey ↦ or_aead_failed (new_aead c subkey)
        ] in
      if nat_eq (length master_key) c.key_size then session else err invalid_master_key_size
