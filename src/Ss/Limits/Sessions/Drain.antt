-- ===== src/Ss/Limits/Sessions/Drain.antt =====
-- What is left of the limiter when every session has ended.
use small_x.Base.{
  Bool-cases, ◌∙◌, ℤ, ℕ, zero, suc, ◌≡◌, refl, Text, List, [], ◌∷◌, true, arith, All, int_keys,
  text_keys, int_eq_iff, text_eq_iff, inl, inr,
}
use small_x.Base.Map.{lookup}
use small_x.Ss.Limits.{SessionLimiter, tcp_count, ip_count, refs_of, or_zero, or_empty}
use small_x.Ss.Limits.Shape.{acquire-IsWell, release-IsWell, new_session_limiter-IsWell}
use small_x.Ss.Limits.Maps.{GoodUsers, GoodCounts, IsWell}
use small_x.Ss.Limits.Sessions.{
  Session, Sessions, Event, open_session, close_session, close_once, close_at, step, run,
  no_sessions, open_tcp, open_on,
}
use small_x.Ss.Limits.Sessions.Refinement.{run_counts}

module _ {R : Type 0} where
  close_at-IsWell :
      (n : ℕ) (ss : List Session) (l : SessionLimiter R) → IsWell l → IsWell (close_at n ss l).0
  unfolding close_at close_once
  close_at-IsWell n [] l w = w
  close_at-IsWell zero (s ∷ ss) l w = elim (Bool-cases s.done) [
    | inl again ↦ rw again w
    | inr first ↦ rw first (release-IsWell l w s.lease)
  ]
  close_at-IsWell (suc n) (s ∷ ss) l w = close_at-IsWell n ss l w

  step-IsWell : (e : Event) (s : Sessions R) → IsWell s.limiter → IsWell (step e s).limiter
  unfolding step
  step-IsWell (open_session user ip tcp enforce) s w =
      acquire-IsWell s.limiter w user ip tcp enforce
  step-IsWell (close_session n) s w = close_at-IsWell n s.held s.limiter w

  run-IsWell : (es : List Event) (s : Sessions R) → IsWell s.limiter → IsWell (run es s).limiter
  unfolding run
  run-IsWell [] s w = w
  run-IsWell (e ∷ es) s w = run-IsWell es (step e s) (step-IsWell e s w)

-- After any sequence of calls no key has two entries, every count that is kept is positive, and
-- every user that is kept has a device.
pub run_shape : (R : Type 0) (es : List Event) → IsWell (run es (no_sessions {R = R})).limiter
unfolding no_sessions
run_shape R es = run-IsWell es no_sessions new_session_limiter-IsWell

abbrev pub IsDone : Session → Type 0
IsDone s = s.done ≡ true

open_tcp_done : (id : ℤ) (ss : List Session) → All IsDone ss → open_tcp id ss ≡ 0
unfolding open_tcp
open_tcp_done id [] d = refl
open_tcp_done id (s ∷ ss) d = ground (arith, open_tcp_done id ss d.1)

open_on_done : (id : ℤ) (ip : Text) (ss : List Session) → All IsDone ss → open_on id ip ss ≡ 0
unfolding open_on
open_on_done id ip [] d = refl
open_on_done id ip (s ∷ ss) d = ground (arith, open_on_done id ip ss d.1)

no_counts : (m : List (ℤ × ℕ)) → GoodCounts m → ((id : ℤ) → or_zero (lookup id m) ≡ 0) → m ≡ []
unfolding lookup
no_counts [] g h = refl
no_counts ((id, n) ∷ m) g h = absurd (ground (arith, int_eq_iff id id, h id, g.positive id n))

no_users :
    (m : List (ℤ × List (Text × ℕ)))
    → GoodUsers m
    → ((id : ℤ) (ip : Text) → or_zero (lookup ip (or_empty (lookup id m))) ≡ 0)
    → m ≡ []
unfolding lookup
no_users [] g h = refl
no_users ((id, []) ∷ m) g h =
    let good = g.devices id [] (ground (arith, int_eq_iff id id)) in
    absurd (omega (arith, good.nonempty))
no_users ((id, (ip, n) ∷ refs) ∷ m) g h =
    let good = g.devices id ((ip, n) ∷ refs) (ground (arith, int_eq_iff id id)) in
    absurd (ground (arith, int_eq_iff id id, text_eq_iff ip ip, h id ip, good.positive ip n))

-- When every session that was admitted has been closed, the limiter keeps no TCP count and no
-- device of any user: nothing leaks.
pub run_drained :
    (R : Type 0) (es : List Event)
    → All IsDone (run es (no_sessions {R = R})).held
    → ((run es (no_sessions {R = R})).limiter.tcp_counts ≡ [])
      × ((run es (no_sessions {R = R})).limiter.ip_refs ≡ [])
unfolding tcp_count ip_count refs_of
run_drained R es d =
    let s = run es (no_sessions {R = R}) in
    let w = run_shape R es in
    let t = run_counts {R = R} es in
    (
      no_counts s.limiter.tcp_counts w.counters (λ id. t.tcp id ∙ open_tcp_done id s.held d),
      no_users s.limiter.ip_refs w.users (λ id ip. t.ip id ip ∙ open_on_done id ip s.held d),
    )
