-- ===== src/Ss/Stream.antt =====
-- internal/ss/stream.go: the encrypted byte stream of a TCP connection. A source is the bytes that
-- are still to be read, with the end of the connection behind them; the destination of a writer
-- takes a list of outcomes, one for each `Write`, a success where the list has ended. A write that
-- fails counts as nothing sent. The reader's scratch buffer `buf` holds one payload at most: here
-- the payload is passed on directly.
pub mod Nonce
pub mod Frames
pub mod Transfer
pub mod Delivery
pub mod Identify
pub mod Authentic
use small_x.Base.{
  ℕ, zero, suc, ◌+◌, ◌*◌, ◌/◌, ◌%◌, List, [], ◌∷◌, ◌++◌, Bool, true, false, Option, none, some,
  length, take, drop, replicate, get_or, ltb, nat_eq, if◌then◌else◌, Result, ok, err, ◌>>=◌,
}
use small_x.Ss.Types.{UserConfig}
use small_x.Ss.Cipher.{CryptoLib, CipherDef, CipherError, salt_size, overhead, derive_session_aead}

abbrev pub max_payload_size : ℕ
max_payload_size = 0x3fff

-- Little endian, with the carry; the last carry is lost.
unfoldable pub increment_nonce : List ℕ → List ℕ
increment_nonce [] = []
increment_nonce (b ∷ nonce) =
    let carried = increment_nonce nonce in
    let c = (b + 1) % 256 in if nat_eq c 0 then c ∷ carried else c ∷ nonce

pub data StreamError : Type 0 where
  short_read : StreamError
  write_failed : StreamError
  no_entropy : StreamError
  not_authentic : StreamError
  invalid_size_frame : StreamError
  first_payload_refused : StreamError
  no_such_user : StreamError
  session_failed : CipherError → StreamError

pub record Sink : Type 0 where
  pub sent : List ℕ
  pub fails : List Bool

-- `w.dst.Write(bytes)`.
unfoldable pub sink_write : Sink → List ℕ → Sink × Result StreamError (Unit {0})
sink_write s bytes = elim s.fails [
  | [] ↦ (record s { sent = s.sent ++ bytes }, ok tt)
  | false ∷ rest ↦ (record { sent = s.sent ++ bytes; fails = rest }, ok tt)
  | true ∷ rest ↦ (record s { fails = rest }, err write_failed)
]

-- `io.ReadFull(src, buf)` with a buffer of `n` bytes: the bytes, and the rest of the source.
unfoldable pub read_full : ℕ → List ℕ → Result StreamError (List ℕ × List ℕ)
read_full n src = if ltb (length src) n then err short_read else ok (take n src, drop n src)

unfoldable pub size_bytes : ℕ → List ℕ
size_bytes size = (size / 256) ∷ (size % 256) ∷ []

-- `(int(raw[0])<<8 | int(raw[1])) & maxPayloadSize`.
unfoldable pub frame_size : List ℕ → ℕ
frame_size raw = (get_or raw 0 0 * 256 + get_or raw 1 0) % 16384

abbrev or_stream {ℓ} : {A : Type ℓ} → Result CipherError A → Result StreamError A
or_stream (ok a) = ok a
or_stream (err e) = err (session_failed e)

module _ (lib : CryptoLib) where
  open lib use {Aead, seal, open_sealed, nonce_size, aead_overhead}

  abbrev pub open_or : Aead → List ℕ → List ℕ → StreamError → Result StreamError (List ℕ)
  open_or a nonce frame e = elim (open_sealed a nonce frame) [ none ↦ err e | some p ↦ ok p ]

  -- A session with its next nonce; a writer or reader has none before it is ready.
  pub record Session : Type 0 where
    pub aead : Aead
    pub nonce : List ℕ

  abbrev pub fresh : Aead → Session
  fresh a = record { aead = a; nonce = replicate (nonce_size a) 0 }

  abbrev pub advance : Session → Session
  advance s = record s { nonce = increment_nonce s.nonce }

  -- One turn of the loop of `Write`: the frame of a chunk, and the session after it.
  unfoldable pub seal_frame : Session → List ℕ → List ℕ
  seal_frame s chunk =
      let enc_size = seal s.aead s.nonce (size_bytes (length chunk)) in
      enc_size ++ seal s.aead (increment_nonce s.nonce) chunk

  abbrev pub chunk_size : List ℕ → ℕ
  chunk_size p = if ltb max_payload_size (length p) then max_payload_size else length p

  -- The loop of `Write`, on fuel: the session, the destination, the bytes written, the error.
  unfoldable pub write_loop :
      ℕ → Session → Sink → List ℕ → ℕ → Session × Sink × ℕ × Result StreamError (Unit {0})
  write_loop zero s dst p written = (s, dst, written, ok tt)
  write_loop (suc fuel) s dst p written =
      let size = chunk_size p in
      let next = advance (advance s) in
      let (dst', result) = sink_write dst (seal_frame s (take size p)) in
      let rest = write_loop fuel next dst' (drop size p) (written + size) in
      if nat_eq (length p) 0
      then (s, dst, written, ok tt)
      else elim result [ ok u ↦ rest | err e ↦ (next, dst', written, err e) ]

  pub record StreamWriter : Type 0 where
    pub cipher : CipherDef
    pub master_key : List ℕ
    pub ready : Option Session

  unfoldable pub new_stream_writer : CipherDef → List ℕ → StreamWriter
  new_stream_writer c key = record { cipher = c; master_key = key; ready = none }

  -- `entropy` is what `rand.Reader` gives: none where it fails.
  unfoldable pub start_session : StreamWriter → Option (List ℕ) → Result StreamError (List ℕ × Aead)
  start_session w none = err no_entropy
  start_session w (some salt) = do
    a ← or_stream (derive_session_aead lib w.cipher w.master_key salt)
    ok (salt, a)

  unfoldable pub ensure_ready :
      StreamWriter → Option (List ℕ) → Sink → Sink × Result StreamError Session
  ensure_ready w entropy dst = elim w.ready [
    | some s ↦ (dst, ok s)
    | none ↦ elim (start_session w entropy) [
      | err e ↦ (dst, err e)
      | ok (salt, a) ↦
          let (dst', result) = sink_write dst salt in (dst', result >>= λ u. ok (fresh a))
    ]
  ]

  unfoldable pub write :
      StreamWriter
      → Option (List ℕ)
      → Sink
      → List ℕ
      → StreamWriter × Sink × ℕ × Result StreamError (Unit {0})
  write w entropy dst p =
      let (dst', started) = ensure_ready w entropy dst in
      elim started [
        | err e ↦ (w, dst', 0, err e)
        | ok s ↦
            let (s', dst'', n, result) = write_loop (length p) s dst' p 0 in
            (record w { ready = some s' }, dst'', n, result)
      ]

  unfoldable pub read_payload :
      Session → List ℕ → List ℕ → Result StreamError (List ℕ × Session × List ℕ)
  read_payload s size_raw src = do
    (payload_frame, src') ← read_full (frame_size size_raw + aead_overhead s.aead) src
    payload ← open_or s.aead (increment_nonce s.nonce) payload_frame not_authentic
    ok (payload, advance (advance s), src')

  -- `readChunk`: the payload, the session after it and the rest of the source.
  unfoldable pub read_chunk : Session → List ℕ → Result StreamError (List ℕ × Session × List ℕ)
  read_chunk s src = do
    (size_frame, src') ← read_full (2 + aead_overhead s.aead) src
    size_raw ← open_or s.aead s.nonce size_frame not_authentic
    if nat_eq (length size_raw) 2 then read_payload s size_raw src' else err invalid_size_frame

  pub record StreamReader : Type 0 where
    pub src : List ℕ
    pub cipher : CipherDef
    pub master_key : List ℕ
    pub ready : Option Session
    pub leftover : List ℕ

  unfoldable pub new_client_stream_reader : List ℕ → CipherDef → List ℕ → StreamReader
  new_client_stream_reader src c key = record {
    src = src;
    cipher = c;
    master_key = key;
    ready = none;
    leftover = [];
  }

  -- `NewEstablishedStreamReader`: it never looks at a cipher or a master key.
  unfoldable pub new_established_stream_reader : List ℕ → CipherDef → Session → StreamReader
  new_established_stream_reader src c s = record {
    src = src;
    cipher = c;
    master_key = [];
    ready = some s;
    leftover = [];
  }

  unfoldable pub init_from_salt : StreamReader → Result StreamError (Session × List ℕ)
  init_from_salt r = elim r.ready [
    | some s ↦ ok (s, r.src)
    | none ↦ do
      (salt, src) ← read_full (salt_size r.cipher) r.src
      a ← or_stream (derive_session_aead lib r.cipher r.master_key salt)
      ok (fresh a, src)
  ]

  -- `Read` into a buffer of `n` bytes: the bytes copied and the reader after them. After an error
  -- the connection is given up.
  unfoldable pub read : StreamReader → ℕ → Result StreamError (List ℕ × StreamReader)
  read r n =
      let fetched = (do
        (s, src) ← init_from_salt r
        (payload, s', src') ← read_chunk s src
        ok (take n payload, record r { src = src'; ready = some s'; leftover = drop n payload })) in
      if ltb 0 (length r.leftover)
      then ok (take n r.leftover, record r { leftover = drop n r.leftover })
      else fetched

  pub record UserEntry : Type 0 where
    pub config : UserConfig
    pub master_key : List ℕ

  pub record Identified : Type 0 where
    pub user : UserEntry
    pub session : Session
    pub payload : List ℕ
    pub src : List ℕ

  -- The first frame of a user: the session that opens the size frame, and the size.
  unfoldable pub try_user : CipherDef → List ℕ → List ℕ → UserEntry → Option (Session × ℕ)
  try_user c salt size_frame user = elim (derive_session_aead lib c user.master_key salt) [
    | err e ↦ none
    | ok a ↦ elim (open_sealed a (replicate (nonce_size a) 0) size_frame) [
      | none ↦ none
      | some raw ↦ if nat_eq (length raw) 2 then some (fresh a, frame_size raw) else none
    ]
  ]

  -- The rest of the loop's body for the user that opened the size frame.
  unfoldable pub first_payload : UserEntry → Session → ℕ → List ℕ → Result StreamError Identified
  first_payload user s size src = do
    (payload_frame, src') ← read_full (size + aead_overhead s.aead) src
    payload ← open_or s.aead (increment_nonce s.nonce) payload_frame first_payload_refused
    ok (record { user = user; session = advance (advance s); payload = payload; src = src' })

  unfoldable pub find_user :
      CipherDef → List ℕ → List ℕ → List ℕ → List UserEntry → Result StreamError Identified
  find_user c salt size_frame src [] = err no_such_user
  find_user c salt size_frame src (user ∷ users) =
      let rest = find_user c salt size_frame src users in
      elim (try_user c salt size_frame user) [
        | none ↦ rest
        | some (s, size) ↦ first_payload user s size src
      ]

  unfoldable pub identify_tcp_user :
      List ℕ → CipherDef → List UserEntry → Result StreamError Identified
  identify_tcp_user src c users = do
    (salt, src') ← read_full (salt_size c) src
    (size_frame, src'') ← read_full (2 + overhead lib c) src'
    find_user c salt size_frame src'' users
