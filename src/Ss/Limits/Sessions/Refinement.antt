-- ===== src/Ss/Limits/Sessions/Refinement.antt =====
-- The limiter's counts against the list of open sessions.
use small_x.Base.{
  ℤ, ℕ, zero, suc, ◌+◌, ◌-◌, ◌≡◌, refl, Text, List, [], ◌∷◌, Bool, ◌&&◌, not, if◌then◌else◌, ◌==◌,
  int_keys, text_keys, inl, inr, arith, int_eq_iff, text_eq_iff,
}
use small_x.Base.Map.{lookup}
use small_x.Ss.Types.{UserConfig}
use small_x.Ss.Limits.{SessionLimiter, tcp_count, ip_count, refs_of, new_session_limiter}
use small_x.Ss.Limits.Counts.{tcp_count-release, ip_count-release}
use small_x.Ss.Limits.Acquire.{acquire_cases, tcp_count-admit, ip_count-admit, admit-lease}
use small_x.Ss.Limits.Sessions.{
  Session, Sessions, Event, open_session, close_session, close_once, close_at, keep_closure, step,
  run, no_sessions, open_tcp, open_on, one_if,
}

-- Every count that can be read is the number of open sessions that it stands for.
pub record Tracks {R : Type 0} (l : SessionLimiter R) (ss : List Session) : Type 0 where
  pub tcp : (id : ℤ) → tcp_count l id ≡ open_tcp id ss
  pub ip : (id : ℤ) (ip : Text) → ip_count l id ip ≡ open_on id ip ss

module _ {R : Type 0} where
  -- Closing takes one from the counts of the session if it was open.
  close_once-tcp :
      (s : Session) (l : SessionLimiter R) (id : ℤ)
      → tcp_count (close_once s l) id ≡ (
          if not s.done && (s.lease.tcp && s.lease.user_id == id)
          then tcp_count l s.lease.user_id - 1
          else tcp_count l id)
  unfolding close_once
  close_once-tcp s l id = ground (arith, tcp_count-release l s.lease id)

  close_once-ip :
      (s : Session) (l : SessionLimiter R) (id : ℤ) (ip : Text)
      → ip_count (close_once s l) id ip ≡ (
          if not s.done && (s.lease.user_id == id && (s.lease.ip == ip))
          then ip_count l s.lease.user_id s.lease.ip - 1
          else ip_count l id ip)
  unfolding close_once
  close_once-ip s l id ip = ground (arith, ip_count-release l s.lease id ip)

  -- `x` counts the sessions in front of the list.
  close_at-tcp :
      (n : ℕ) (ss : List Session) (l : SessionLimiter R) (x : ℤ → ℕ)
      → ((j : ℤ) → tcp_count l j ≡ x j + open_tcp j ss)
      → (id : ℤ) → tcp_count (close_at n ss l).0 id ≡ x id + open_tcp id (close_at n ss l).1
  unfolding close_at open_tcp
  close_at-tcp n [] l x h id = h id
  close_at-tcp zero (s ∷ ss) l x h id = ground (
    arith,
    close_once-tcp s l id,
    h id,
    h s.lease.user_id,
    int_eq_iff s.lease.user_id id,
    int_eq_iff s.lease.user_id s.lease.user_id,
  )
  close_at-tcp (suc n) (s ∷ ss) l x h id =
      let own = λ (j : ℤ). one_if (not s.done && (s.lease.tcp && s.lease.user_id == j)) in
      let ih = close_at-tcp n ss l (λ j. x j + own j) (λ j. omega (arith, h j)) id in
      omega (arith, ih)

  close_at-ip :
      (n : ℕ) (ss : List Session) (l : SessionLimiter R) (x : ℤ → Text → ℕ)
      → ((j : ℤ) (p : Text) → ip_count l j p ≡ x j p + open_on j p ss)
      → (id : ℤ) (ip : Text)
      → ip_count (close_at n ss l).0 id ip ≡ x id ip + open_on id ip (close_at n ss l).1
  unfolding close_at open_on
  close_at-ip n [] l x h id ip = h id ip
  close_at-ip zero (s ∷ ss) l x h id ip = ground (
    arith,
    close_once-ip s l id ip,
    h id ip,
    h s.lease.user_id s.lease.ip,
    int_eq_iff s.lease.user_id id,
    int_eq_iff s.lease.user_id s.lease.user_id,
    text_eq_iff s.lease.ip ip,
    text_eq_iff s.lease.ip s.lease.ip,
  )
  close_at-ip (suc n) (s ∷ ss) l x h id ip =
      let own =
        λ (j : ℤ) (p : Text). one_if (not s.done && (s.lease.user_id == j && (s.lease.ip == p))) in
      let ih = close_at-ip n ss l (λ j p. x j p + own j p) (λ j p. omega (arith, h j p)) id ip in
      omega (arith, ih)

  open-Tracks :
      (user : UserConfig) (ip : Text) (tcp enforce : Bool) (s : Sessions R)
      → Tracks s.limiter s.held
      → let t = step (open_session user ip tcp enforce) s in Tracks t.limiter t.held
  unfolding step keep_closure open_tcp open_on
  open-Tracks user ip tcp enforce s t =
      let l = s.limiter in
      elim (acquire_cases l user ip tcp enforce) [
        | inl (_, e) ↦ rw (e, keep_closure) t
        | inr (inl (_, _, e)) ↦ rw (e, keep_closure) t
        | inr (inr (_, _, e)) ↦
            rw (e, admit-lease l user ip tcp enforce, keep_closure)
              (record {
                tcp = λ id. ground (
                  arith,
                  tcp_count-admit l user ip tcp enforce id,
                  t.tcp id,
                  t.tcp user.id,
                  int_eq_iff user.id id,
                );
                ip = λ id p. ground (
                  arith,
                  ip_count-admit l user ip tcp enforce id p,
                  t.ip id p,
                  t.ip user.id ip,
                  int_eq_iff user.id id,
                  text_eq_iff ip p,
                );
              })
      ]

  -- Every step keeps the counts true.
  pub step-Tracks :
      (e : Event) (s : Sessions R)
      → Tracks s.limiter s.held
      → Tracks (step e s).limiter (step e s).held
  step-Tracks (open_session user ip tcp enforce) s t = open-Tracks user ip tcp enforce s t
  step-Tracks (close_session n) s t =
      unfold step in
      record {
        tcp = λ id.
            omega
              (arith, close_at-tcp n s.held s.limiter (λ j. 0) (λ j. omega (arith, t.tcp j)) id);
        ip = λ id p. omega (
          arith,
          close_at-ip n s.held s.limiter (λ j q. 0) (λ j q. omega (arith, t.ip j q)) id p,
        );
      }

  pub run-Tracks :
      (es : List Event) (s : Sessions R)
      → Tracks s.limiter s.held
      → Tracks (run es s).limiter (run es s).held
  unfolding run
  run-Tracks [] s t = t
  run-Tracks (e ∷ es) s t = run-Tracks es (step e s) (step-Tracks e s t)

  pub no_sessions-Tracks : Tracks (no_sessions {R = R}).limiter (no_sessions {R = R}).held
  unfolding no_sessions new_session_limiter tcp_count ip_count refs_of open_tcp open_on lookup
  no_sessions-Tracks = record { tcp = λ id. refl; ip = λ id ip. refl }

  -- After any interleaving of admissions, refusals and closings, repeated closings included, the
  -- TCP count of each user is the number of its open TCP sessions, and the count of each device of
  -- each user is the number of its open sessions from that device.
  pub run_counts :
      (es : List Event) → let s = run es (no_sessions {R = R}) in Tracks s.limiter s.held
  run_counts es = run-Tracks es no_sessions no_sessions-Tracks
