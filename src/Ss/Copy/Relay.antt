-- ===== src/Ss/Copy/Relay.antt =====
-- What a copy of internal/ss/service.go writes and counts.
use mathlib.Core.List.{append-nil, append_assoc}
use small_x.Base.{
  take_all, take_both, ℕ, ◌+◌, ◌%◌, ◌≤◌, ◌≡◌, refl, sym, ap, ◌∙◌, Text, [], ◌∷◌, ◌++◌, Bool, true,
  false, Option, Result, ok, err, is_ok, length, take, nat_eq, word64, arith, length-append,
  take-append_le, Bool-cases, inl, inr,
}
use small_x.Ss.Limits.Speed.{RateLib}
use small_x.Ss.Copy.{
  Writer, Waits, Reads, next, last, CopyError, Copied, copy_chunk, at_end, copy_loop, copy_count,
  write_with_limit, wait_for_limit, after_write, over_burst, wait_for_limit, write_with_limit,
}

-- All bytes of the reads.
abbrev pub all_bytes : Reads → Text
all_bytes (last p is_eof) = p
all_bytes (next p rest) = p ++ all_bytes rest

module _ (rates : RateLib) (waits : Waits rates) (W : Writer) {C : Type 0} (count : ℕ → C → C) where
  abbrev State : Type 0
  State = Copied W.State C

  -- From `s` to `s'`, the first `n` bytes of `p` were written and counted, all if there is no error.
  -- `meter` reads a counter.
  pub record Gained (meter : C → ℕ) (p : Text) (s s' : State) : Type 0 where
    pub n : ℕ
    pub at_most : n ≤ length p
    pub bytes : W.written s'.writer ≡ W.written s.writer ++ take n p
    pub amount : s'.total % word64 ≡ (s.total + n) % word64
    pub metered : meter s'.counted % word64 ≡ (meter s.counted + n) % word64
    pub whole : is_ok s'.result ≡ true → n ≡ length p

  module _ (meter : C → ℕ)
      (counts : (n : ℕ) (c : C) → meter (count n c) % word64 ≡ (meter c + n) % word64) where
    after_write-Gained :
        (p : Text) (s : State) (q : W.State × (ℕ × Result CopyError (Unit {0})))
        → q.1.0 ≤ length p
        → W.written q.0 ≡ W.written s.writer ++ take q.1.0 p
        → Gained meter p s (after_write rates waits W count p s q)
    after_write-Gained p s (w, (n, r)) h e = record {
      n = n;
      at_most = h;
      bytes = e;
      amount = omega arith;
      metered = ground (arith, counts n s.counted);
      whole = λ fine. ground arith;
    }

    copy_chunk-Gained :
        (limiter : Option rates.Limiter) (p : Text) (s : State)
        → Gained meter p s (copy_chunk rates waits W count limiter p s)
    unfolding copy_chunk write_with_limit
    copy_chunk-Gained limiter [] s = record {
      n = 0;
      at_most = omega arith;
      bytes = sym (append-nil (W.written s.writer));
      amount = omega arith;
      metered = omega arith;
      whole = λ h. refl;
    }
    copy_chunk-Gained limiter (b ∷ p) s =
        let some_bytes : nat_eq (length (b ∷ p)) 0 ≡ false = ground arith in
        rw some_bytes (elim (Bool-cases (wait_for_limit rates waits limiter (length (b ∷ p)))) [
          | inl h ↦ rw h (
              after_write-Gained (b ∷ p) s _ (W.write_at_most (b ∷ p) s.writer)
                (W.written-write (b ∷ p) s.writer))
          | inr h ↦ rw h (
              after_write-Gained (b ∷ p) s (s.writer, (0, err over_burst)) (omega arith)
                (sym (append-nil (W.written s.writer))))
        ])

    at_end-Gained :
        (is_eof : Bool) (p : Text) (s s' : State)
        → Gained meter p s s'
        → Gained meter p s (at_end is_eof s')
    at_end-Gained is_eof p s s' g = elim (Bool-cases (is_ok s'.result)) [
      | inl fine ↦ rw fine (record {
        n = g.n;
        at_most = g.at_most;
        bytes = g.bytes;
        amount = g.amount;
        metered = g.metered;
        whole = λ again. g.whole fine;
      })
      | inr fails ↦ rw fails g
    ]

    -- The parts of two texts, one after the other.
    both-Gained :
        (p q : Text) (s s1 s2 : State)
        → is_ok s1.result ≡ true
        → Gained meter p s s1
        → Gained meter q s1 s2
        → Gained meter (p ++ q) s s2
    both-Gained p q s s1 s2 fine g h =
        let all : g.n ≡ length p = g.whole fine in
        record {
          n = g.n + h.n;
          at_most = omega (arith, g.at_most, h.at_most, length-append p q);
          bytes =
              h.bytes
              ∙ ap (λ w. w ++ take h.n q) g.bytes
              ∙ append_assoc (W.written s.writer) (take g.n p) (take h.n q)
              ∙ ap (◌++◌ (W.written s.writer)) (sym (take_both g.n h.n p q all));
          amount = omega (arith, g.amount, h.amount);
          metered = omega (arith, g.metered, h.metered);
          whole = λ ok2. omega (arith, length-append p q, h.whole ok2);
        }

    stopped-Gained :
        (p q : Text) (s s1 : State)
        → is_ok s1.result ≡ false
        → Gained meter p s s1
        → Gained meter (p ++ q) s s1
    stopped-Gained p q s s1 fails g = record {
      n = g.n;
      at_most = omega (arith, g.at_most, length-append p q);
      bytes = g.bytes ∙ ap (◌++◌ (W.written s.writer)) (sym (take-append_le g.n p q g.at_most));
      amount = g.amount;
      metered = g.metered;
      whole = λ fine. cc;
    }

    copy_loop-Gained :
        (limiter : Option rates.Limiter) (reads : Reads) (s : State)
        → Gained meter (all_bytes reads) s (copy_loop rates waits W count limiter reads s)
    unfolding copy_loop
    copy_loop-Gained limiter (last p is_eof) s =
        at_end-Gained is_eof p s _ (copy_chunk-Gained limiter p s)
    copy_loop-Gained limiter (next p rest) s =
        let s1 = copy_chunk rates waits W count limiter p s in
        let g = copy_chunk-Gained limiter p s in
        elim (Bool-cases (is_ok s1.result)) [
          | inl fine ↦
              rw fine
                (both-Gained p (all_bytes rest) s s1 _ fine g (copy_loop-Gained limiter rest s1))
          | inr fails ↦ rw fails (stopped-Gained p (all_bytes rest) s s1 fails g)
        ]

  -- Whatever the writer and the rate limiter answer: for some `n`, the writer gets exactly the first
  -- `n` bytes of the source, and the callback counts exactly `n` (modulo 2 ^ 64, as the total does);
  -- if the copy ends without an error, these are all bytes of the source.
  pub copy_count_lem :
      (meter : C → ℕ)
      (counts : (n : ℕ) (c : C) → meter (count n c) % word64 ≡ (meter c + n) % word64)
      (limiter : Option rates.Limiter) (reads : Reads) (w : W.State) (c : C)
      → let after = copy_count rates waits W count limiter reads w c in
        (n : ℕ) × (n ≤ length (all_bytes reads))
        × (W.written after.writer ≡ W.written w ++ take n (all_bytes reads))
        × (after.total % word64 ≡ n % word64)
        × (meter after.counted % word64 ≡ (meter c + n) % word64)
        × (is_ok after.result ≡ true → n ≡ length (all_bytes reads))
  unfolding copy_count
  copy_count_lem meter counts limiter reads w c =
      let g =
        copy_loop-Gained meter counts limiter reads
          (record { writer = w; counted = c; total = 0; result = ok tt }) in
      (g.n, g.at_most, g.bytes, omega (arith, g.amount), g.metered, g.whole)

  -- A copy that ends without an error writes and counts all bytes.
  pub copy_count_whole :
      (meter : C → ℕ)
      (counts : (n : ℕ) (c : C) → meter (count n c) % word64 ≡ (meter c + n) % word64)
      (limiter : Option rates.Limiter) (reads : Reads) (w : W.State) (c : C)
      → let after = copy_count rates waits W count limiter reads w c in
        after.result ≡ ok tt
        → (W.written after.writer ≡ W.written w ++ all_bytes reads)
          × (meter after.counted % word64 ≡ (meter c + length (all_bytes reads)) % word64)
  copy_count_whole meter counts limiter reads w c fine =
      let (n, at_most, bytes, amount, metered, whole) =
        copy_count_lem meter counts limiter reads w c in
      let all : n ≡ length (all_bytes reads) = whole (ap is_ok fine) in
      (
        bytes
            ∙ ap (λ k. W.written w ++ take k (all_bytes reads)) all
            ∙ ap (◌++◌ (W.written w)) (take_all (all_bytes reads)),
        metered ∙ ap (λ k. (meter c + k) % word64) all,
      )
