-- ===== src/Ss/Copy/Upstream.antt =====
-- The upstream of handleTCP in internal/ss/service.go with the limiter of a user: nothing stops it.
use mathlib.Core.List.{append_assoc}
use small_x.Base.{
  take_all, ℤ, nat_eq_iff, ℕ, ◌+◌, ◌*◌, ◌%◌, ◌≤◌, ◌≡◌, refl, ap, ◌∙◌, Text, List, [], ◌∷◌, ◌++◌,
  Bool, true, false, Option, some, ok, length, take, nat_eq, word64, arith, length-append,
  Bool-cases, inl, inr,
}
use small_x.Ss.Types.{UserConfig}
use small_x.Ss.Limits.{SessionLimiter}
use small_x.Ss.Limits.Speed.{RateLib, sync_users, get_speed_limiter}
use small_x.Ss.Copy.{
  Writer, Waits, Reads, next, last, Copied, copy_chunk, copy_loop, copy_count, forward,
  write_with_limit, write_with_limit,
}
use small_x.Ss.Copy.Bursts.{wait_for_limit_fine, synced_burst}
use small_x.Ss.Copy.Relay.{all_bytes, copy_count_whole}

abbrev pub ends_well : Reads → Bool
ends_well (last p is_eof) = is_eof
ends_well (next p rest) = ends_well rest

-- Every read has at most `n` bytes.
abbrev pub FitsIn : ℕ → Reads → Type 0
FitsIn n (last p is_eof) = length p ≤ n
FitsIn n (next p rest) = (length p ≤ n) × FitsIn n rest

module _ (rates : RateLib) (waits : Waits rates) (W : Writer) {C : Type 0} (count : ℕ → C → C) where
  abbrev State : Type 0
  State = Copied W.State C

  module _ (limiter : Option rates.Limiter)
      (takes : (p : Text) (w : W.State) → (W.write p w).1 ≡ (length p, true))
      (bursts : (l : rates.Limiter) → limiter ≡ some l → 64 * 1024 ≤ rates.burst l) where
    copy_chunk_fine :
        (p : Text) (s : State)
        → length p ≤ 32 * 1024
        → s.result ≡ ok tt
        → (copy_chunk rates waits W count limiter p s).result ≡ ok tt
    unfolding copy_chunk write_with_limit
    copy_chunk_fine p s fits fine =
        let no_wait =
          wait_for_limit_fine rates waits limiter (length p) bursts (omega (arith, fits)) in
        let same = (nat_eq_iff (length p) (length p)).1 refl in
        elim (Bool-cases (nat_eq (length p) 0)) [
          | inl h ↦ rw h fine
          | inr h ↦ rw (h, no_wait, takes p s.writer, same) refl
        ]

    write_with_limit_fine :
        (p : Text) (w : W.State)
        → length p ≤ 64 * 1024
        → write_with_limit rates waits W limiter p w ≡ ((W.write p w).0, (length p, ok tt))
    unfolding write_with_limit
    write_with_limit_fine p w fits =
        rw (wait_for_limit_fine rates waits limiter (length p) bursts fits, takes p w) refl

    copy_loop_fine :
        (reads : Reads) (s : State)
        → FitsIn (32 * 1024) reads
        → ends_well reads ≡ true
        → s.result ≡ ok tt
        → (copy_loop rates waits W count limiter reads s).result ≡ ok tt
    unfolding copy_loop
    copy_loop_fine (last p is_eof) s fits ends fine = rw (copy_chunk_fine p s fits fine, ends) refl
    copy_loop_fine (next p rest) s fits ends fine =
        let now = copy_chunk_fine p s fits.0 fine in
        let s1 = copy_chunk rates waits W count limiter p s in
        rw now (copy_loop_fine rest (record s1 { result = ok tt }) fits.1 ends refl)

  -- The upstream of `handleTCP` with the limiter of a user, as `SyncUsers` left it, whatever speed
  -- limits the users have: with a target that takes everything that is written, an initial payload
  -- of at most 64 KiB and reads that fit in the buffer of 32 KiB, a connection whose source ends
  -- with `io.EOF` ends without an error; the target gets the initial payload and then all bytes of
  -- the source, and exactly these are counted (modulo 2 ^ 64).
  pub forward_lem :
      (meter : C → ℕ)
      (counts : (n : ℕ) (c : C) → meter (count n c) % word64 ≡ (meter c + n) % word64)
      (users : List UserConfig) (l : SessionLimiter rates.Limiter) (id : ℤ) (initial : Text)
      (reads : Reads) (w : W.State) (c : C)
      → ((p : Text) (s : W.State) → (W.write p s).1 ≡ (length p, true))
      → length initial ≤ 64 * 1024
      → FitsIn (32 * 1024) reads
      → ends_well reads ≡ true
      → let limiter = get_speed_limiter rates (sync_users rates users l) id in
        let after = forward rates waits W count limiter initial reads w c in
        (after.result ≡ ok tt)
        × (W.written after.writer ≡ W.written w ++ (initial ++ all_bytes reads))
        × (meter after.counted % word64 ≡ (meter c + length (initial ++ all_bytes reads)) % word64)
  unfolding forward copy_count
  forward_lem meter counts users l id [] reads w c takes short fits ends =
      let limiter = get_speed_limiter rates (sync_users rates users l) id in
      let fine =
        copy_loop_fine limiter takes (synced_burst rates users l id) reads _ fits ends refl in
      let (bytes, metered) =
        copy_count_whole rates waits W count meter counts limiter reads w c fine in
      (fine, bytes, metered)
  forward_lem meter counts users l id (b ∷ p) reads w c takes short fits ends =
      let limiter = get_speed_limiter rates (sync_users rates users l) id in
      let initial : Text = b ∷ p in
      let some_bytes : nat_eq (length initial) 0 ≡ false = ground arith in
      let sent = W.write initial w in
      let n_all : sent.1.0 ≡ length initial = ap (λ q. q.0) (takes initial w) in
      let written_now : W.written sent.0 ≡ W.written w ++ initial =
        W.written-write initial w
        ∙ ap (λ k. W.written w ++ take k initial) n_all
        ∙ ap (◌++◌ (W.written w)) (take_all initial) in
      let now =
        write_with_limit_fine limiter takes (synced_burst rates users l id) initial w short in
      let c1 = count (length initial) c in
      let fine =
        copy_loop_fine limiter takes (synced_burst rates users l id) reads
          (record { writer = sent.0; counted = c1; total = 0; result = ok tt }) fits ends refl in
      let (bytes, metered) =
        copy_count_whole rates waits W count meter counts limiter reads sent.0 c1 fine in
      rw (some_bytes, now)
        (
          fine,
          bytes
              ∙ ap (λ t. t ++ all_bytes reads) written_now
              ∙ append_assoc (W.written w) initial (all_bytes reads),
          omega
              (arith, metered, counts (length initial) c, length-append initial (all_bytes reads)),
        )
