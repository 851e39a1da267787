-- ===== src/Tests/Streams.antt =====
-- The encrypted stream and packets at concrete inputs, with a cipher that only tags.
use small_x.Base.{
  pos, ℕ, ◌+◌, ◌-◌, ◌≡◌, refl, List, [], ◌∷◌, ◌++◌, true, Option, some, none, ok, length, arith,
  text_eq, text_eq_iff, take, drop, replicate, if◌then◌else◌, length-append, length-take,
  length-replicate, take-append_left, drop-append_left,
}
use small_x.Base.Strings.{codes, trim_space, to_lower}
use small_x.Base.Map.{lookup}
use small_x.Ss.Types.{UserConfig}
use small_x.Ss.Cipher.{
  CryptoLib, CipherDef, aes_gcm, lookup_cipher, derive_master_key, key_loop, derive_session_aead,
  new_aead, salt_size, overhead,
}
use small_x.Ss.Cipher.Keys.{derive_session_aead_total}
use small_x.Ss.Stream.{
  fresh, advance, UserEntry, increment_nonce, write, ensure_ready, start_session, sink_write,
  write_loop, seal_frame, size_bytes, new_stream_writer, new_client_stream_reader, read, read_chunk,
  read_payload, init_from_salt, read_full, frame_size, identify_tcp_user, find_user, try_user,
  first_payload,
}
use small_x.Ss.Stream.Nonce.{nonce_value, nonce_after, nonce_value-nonce_after}
use small_x.Ss.Stream.Frames.{frames, concat}
use small_x.Ss.Stream.Transfer.{received, write_all, Delivers}
use small_x.Ss.Stream.Delivery.{reliable, received-write_all}
use small_x.Ss.Stream.Identify.{identify_tcp_user-frames}
use small_x.Ss.Packet.{
  decrypt_udp_packet, decrypt_udp_packet_for_user, encrypt_udp_packet, not_authentic,
  decrypt_udp_packet-encrypt,
}

program : Unit {0}
unfolding lookup_cipher derive_master_key key_loop derive_session_aead new_aead salt_size overhead
    increment_nonce write ensure_ready start_session sink_write write_loop seal_frame size_bytes
    new_stream_writer new_client_stream_reader read read_chunk read_payload init_from_salt read_full
    frame_size identify_tcp_user find_user try_user first_payload received write_all
    decrypt_udp_packet decrypt_udp_packet_for_user encrypt_udp_packet trim_space to_lower lookup
program = tt

-- The first `n` bytes of a text with zeros behind it.
abbrev pub fit : ℕ → List ℕ → List ℕ
fit n s = take n (s ++ replicate n 0)

pub length-fit : (n : ℕ) (s : List ℕ) → length (fit n s) ≡ n
length-fit n s = omega (
  arith,
  length-take n (s ++ replicate n 0),
  length-append s (replicate n 0),
  length-replicate {A = ℕ} n 0,
)

-- The message, then the key as a tag.
abbrev pub tag_seal : List ℕ → List ℕ → List ℕ
tag_seal key p = p ++ fit 16 key

abbrev tag_open : List ℕ → List ℕ → Option (List ℕ)
tag_open key s =
    if text_eq (drop (length s - 16) s) (fit 16 key) then some (take (length s - 16) s) else none

pub length-tag_seal : (key p : List ℕ) → length (tag_seal key p) ≡ length p + 16
length-tag_seal key p = omega (arith, length-append p (fit 16 key), length-fit 16 key)

pub tag_open-seal : (key p : List ℕ) → tag_open key (tag_seal key p) ≡ some p
tag_open-seal key p =
    let cut : length p ≡ length (tag_seal key p) - 16 = omega (arith, length-tag_seal key p) in
    let same : text_eq (fit 16 key) (fit 16 key) ≡ true =
      ground (arith, text_eq_iff (fit 16 key) (fit 16 key)) in
    rw
      (
        drop-append_left (length (tag_seal key p) - 16) p (fit 16 key) cut,
        take-append_left (length (tag_seal key p) - 16) p (fit 16 key) cut,
        same,
      )
      refl

abbrev pub tags : CryptoLib
tags = record {
  Aead = List ℕ;
  new_cipher_gcm = λ key. some key;
  new_chacha20_poly1305 = λ key. some key;
  nonce_size = λ a. 12;
  aead_overhead = λ a. 16;
  seal = λ a n p. tag_seal a p;
  open_sealed = λ a n s. tag_open a s;
  hkdf_sha1 = λ secret salt info k. some (fit k secret);
  md5_sum = λ s. fit 16 s;
  open_sealed-seal = λ a n p sized. tag_open-seal a p;
  length-seal = λ a n p sized. length-tag_seal a p;
  aead_overhead_16 = λ a. refl;
  length-md5_sum = λ s. length-fit 16 s;
  hkdf_gives = λ secret salt info k small. (fit k secret, refl, length-fit k secret);
  gcm_takes = λ key sized. (key, refl);
  chacha_takes = λ key sized. (key, refl);
}

abbrev pub aes_128 : CipherDef
aes_128 = record { name = codes "aes-128-gcm"; key_size = 16; kind = aes_gcm }

abbrev pub salt : List ℕ
salt = replicate 16 9

abbrev pub key_of : ℕ → List ℕ
key_of n = n ∷ replicate 15 0

nonce_value-nonce_after_example : nonce_value (nonce_after 2 300) ≡ 300
nonce_value-nonce_after_example = nonce_value-nonce_after 2 300 (omega arith)

derive_session_aead_total_example :
    (a : List ℕ) × (derive_session_aead tags aes_128
        (derive_master_key tags aes_128 (codes "secret"))
        salt
      ≡ ok a)
unfolding program
derive_session_aead_total_example =
    derive_session_aead_total tags (codes " AES-128-gcm") (codes "secret") aes_128 salt refl

received-write_all_example :
    Delivers
      (received tags
        (new_client_stream_reader tags
          (write_all tags
            (new_stream_writer tags aes_128 (key_of 7))
            (some salt)
            (reliable [])
            (codes "hello" ∷ codes "bye" ∷ [])).1.sent
          aes_128
          (key_of 7))
        (2 ∷ 9 ∷ 9 ∷ []))
      (concat (codes "hello" ∷ codes "bye" ∷ []))
      3
unfolding program
received-write_all_example =
    received-write_all tags aes_128 (key_of 7) salt (codes "hello") (codes "bye" ∷ []) (key_of 7)
      (2 ∷ 9 ∷ 9 ∷ []) refl refl (omega arith, (omega arith, (omega arith, tt)))

abbrev pub account : ℕ → UserConfig
account n = record {
  id = pos n;
  uuid = [];
  method = codes "aes-128-gcm";
  password = [];
  speed_limit = pos 0;
  device_limit = pos 0;
  tcp_conn_limit = pos 0;
}

abbrev pub entry : ℕ → UserEntry tags
entry n = record { config = account n; master_key = key_of n }

identify_tcp_user-frames_example :
    identify_tcp_user tags
      (salt ++ frames tags (fresh tags (key_of 2)) (codes "target" ∷ codes "more" ∷ []))
      aes_128
      (entry 1 ∷ entry 2 ∷ entry 3 ∷ [])
    ≡ ok (record {
      user = entry 2;
      session = advance tags (advance tags (fresh tags (key_of 2)));
      payload = codes "target";
      src = frames tags (advance tags (advance tags (fresh tags (key_of 2)))) (codes "more" ∷ []);
    })
unfolding program
identify_tcp_user-frames_example =
    identify_tcp_user-frames tags (entry 1 ∷ []) (entry 3 ∷ []) aes_128 (entry 2) (key_of 2) salt
      (codes "target") (codes "more" ∷ []) refl refl (omega arith) (refl, tt)

abbrev packet : List ℕ
packet = salt ++ tag_seal (key_of 2) (codes "query")

decrypt_udp_packet-encrypt_example :
    decrypt_udp_packet tags aes_128 (entry 1 ∷ entry 2 ∷ []) packet ≡ ok (entry 2, codes "query")
unfolding program
decrypt_udp_packet-encrypt_example =
    decrypt_udp_packet-encrypt tags (entry 1 ∷ []) [] aes_128 (entry 2) salt (codes "query") packet
      refl refl ((not_authentic, refl), tt)
