-- ===== src/Ss/Packet.antt =====
-- The UDP packets of internal/ss/service.go: a salt and one sealed message.
use small_x.Base.{
  ℕ, ◌+◌, ◌≡◌, refl, Option, none, some, List, [], ◌∷◌, ◌++◌, false, All, length, take, drop, ltb,
  replicate, if◌then◌else◌, Result, ok, err, ◌>>=◌, >>=-eq-ok, sym, arith, length-append,
  length-replicate, take-append_left, drop-append_left,
}
use small_x.Ss.Cipher.{CryptoLib, CipherDef, CipherError, salt_size, overhead, derive_session_aead}
use small_x.Ss.Cipher.Keys.{overhead_16}
use small_x.Ss.Stream.{UserEntry}

pub data PacketError : Type 0 where
  packet_too_short : PacketError
  no_entropy : PacketError
  not_authentic : PacketError
  not_decrypted : PacketError
  session_failed : CipherError → PacketError

abbrev or_packet {ℓ} : {A : Type ℓ} → Result CipherError A → Result PacketError A
or_packet (ok a) = ok a
or_packet (err e) = err (session_failed e)

or_packet_ok : {A : Type 0} (r : Result CipherError A) (a : A) → or_packet r ≡ ok a → r ≡ ok a
or_packet_ok (ok x) a h = cc
or_packet_ok (err e) a h = cc

module _ (lib : CryptoLib) where
  open lib use {Aead, seal, open_sealed, nonce_size}

  abbrev pub first_nonce : Aead → List ℕ
  first_nonce a = replicate (nonce_size a) 0

  abbrev or_refused : Option (List ℕ) → Result PacketError (List ℕ)
  or_refused none = err not_authentic
  or_refused (some p) = ok p

  unfoldable pub decrypt_udp_packet_for_user :
      CipherDef → List ℕ → List ℕ → Result PacketError (List ℕ)
  decrypt_udp_packet_for_user c master_key packet =
      let n = salt_size c in
      let opened = (do
        a ← or_packet (derive_session_aead lib c master_key (take n packet))
        or_refused (open_sealed a (first_nonce a) (drop n packet))) in
      if ltb (length packet) (n + overhead lib c) then err packet_too_short else opened

  unfoldable pub decrypt_udp_packet :
      CipherDef → List (UserEntry lib) → List ℕ → Result PacketError (UserEntry lib × List ℕ)
  decrypt_udp_packet c [] packet = err not_decrypted
  decrypt_udp_packet c (user ∷ users) packet =
      let rest = decrypt_udp_packet c users packet in
      elim (decrypt_udp_packet_for_user c user.master_key packet) [
        | ok plaintext ↦ ok (user, plaintext)
        | err e ↦ rest
      ]

  -- `entropy` is what `rand.Read` gives: none where it fails.
  unfoldable pub encrypt_udp_packet :
      CipherDef → List ℕ → Option (List ℕ) → List ℕ → Result PacketError (List ℕ)
  encrypt_udp_packet c master_key none plaintext = err no_entropy
  encrypt_udp_packet c master_key (some salt) plaintext = do
    a ← or_packet (derive_session_aead lib c master_key salt)
    ok (salt ++ seal a (first_nonce a) plaintext)

  -- The user's key does not decrypt the packet.
  abbrev pub Refuses : CipherDef → List ℕ → UserEntry lib → Type 0
  Refuses c packet user =
      (e : PacketError) × (decrypt_udp_packet_for_user c user.master_key packet ≡ err e)

  decrypt-encrypt :
      (c : CipherDef) (key salt plaintext : List ℕ) (a : Aead)
      → length salt ≡ salt_size c
      → derive_session_aead lib c key salt ≡ ok a
      → decrypt_udp_packet_for_user c key (salt ++ seal a (first_nonce a) plaintext) ≡ ok plaintext
  unfolding decrypt_udp_packet_for_user
  decrypt-encrypt c key salt plaintext a sized d =
      let sealed = seal a (first_nonce a) plaintext in
      let keyed : length (first_nonce a) ≡ nonce_size a = length-replicate (nonce_size a) 0 in
      let long : ltb (length (salt ++ sealed)) (salt_size c + overhead lib c) ≡ false = ground (
        arith,
        length-append salt sealed,
        lib.length-seal a (first_nonce a) plaintext keyed,
        overhead_16 lib c,
      ) in
      rw
        (
          long,
          take-append_left (salt_size c) salt sealed sized,
          drop-append_left (salt_size c) salt sealed sized,
          d,
          lib.open_sealed-seal a (first_nonce a) plaintext keyed,
        )
        refl

  -- A packet that was encrypted with the key of a user, and that no user before it in the list
  -- decrypts, is decrypted to that user and to exactly the plaintext.
  pub decrypt_udp_packet-encrypt :
      (before after : List (UserEntry lib)) (c : CipherDef) (user : UserEntry lib)
      (salt plaintext packet : List ℕ)
      → length salt ≡ salt_size c
      → encrypt_udp_packet c user.master_key (some salt) plaintext ≡ ok packet
      → All (Refuses c packet) before
      → decrypt_udp_packet c (before ++ user ∷ after) packet ≡ ok (user, plaintext)
  unfolding decrypt_udp_packet encrypt_udp_packet
  decrypt_udp_packet-encrypt [] after c user salt plaintext packet sized e others =
      let (a, e1, e2) =
        >>=-eq-ok (or_packet (derive_session_aead lib c user.master_key salt)) _ e in
      let sealed = salt ++ seal a (first_nonce a) plaintext in
      let same : sealed ≡ packet = cc in
      let opened =
        decrypt-encrypt c user.master_key salt plaintext a sized
          (or_packet_ok (derive_session_aead lib c user.master_key salt) a e1) in
      rw (decrypt_udp_packet, sym same, opened) refl
  decrypt_udp_packet-encrypt (u ∷ before) after c user salt plaintext packet sized e others =
      rw (decrypt_udp_packet, others.0.1)
        (decrypt_udp_packet-encrypt before after c user salt plaintext packet sized e others.1)
