-- ===== src/Ss/Plane/Strays.antt =====
-- The end of a goroutine of serveUDPSession in internal/ss/service.go, when the key of its session
-- leads to another session by then.
use small_x.Base.{
  ℤ, Text, ℕ, ◌≤◌, ◌≡◌, refl, sym, ap, ◌∙◌, subst, List, [], ◌∷◌, Bool, Option, none, some, inl,
  inr, In, Result, ok, err, arith,
}
use small_x.Base.Map.{lookup, lookup-delete_self, lookup-insert_self}
use small_x.Ss.Netip.{NetText}
use small_x.Ss.Resolver.{ClientIdentity, real_ip}
use small_x.Ss.SocksAddr.{IpText}
use small_x.Ss.Rules.{RegexLib}
use small_x.Ss.Cipher.{CryptoLib}
use small_x.Ss.Stream.{UserEntry}
use small_x.Ss.Online.{OnlineTracker}
use small_x.Ss.Limits.{ip_count, SessionLimiter, LimitError, Lease, acquire_udp}
use small_x.Ss.Limits.Speed.{RateLib}
use small_x.Ss.Plane.{
  Plane, UdpSession, udp_end, pick, udp_key, get_or_create_udp_session, known_or, open_udp,
  opened_udp,
}
use small_x.Ss.Plane.Steps.{Event, run, new_plane}
use small_x.Ss.Plane.Leases.{held_on}
use small_x.Ss.Plane.Invariant.{
  IsSound, run-IsSound, udp_ended-IsSound, get_or_create-IsSound, leases_of,
}
use small_x.Ss.Plane.Keys.{UdpKey, udp_keys}

ok_injective : {E A : Type 0} (a b : A) → (let x : Result E A = ok a in x ≡ ok b) → a ≡ b
ok_injective a b h = cc

module _ (crypto : CryptoLib) (regex : RegexLib) (net : NetText) (ips : IpText)
    (rates : RateLib) where
  abbrev P : Type 0
  P = Plane crypto regex net ips rates

  abbrev Session : Type 0
  Session = UdpSession crypto regex net ips rates

  held_on-In :
      (served : List (UdpKey × Session)) (key : UdpKey) (t : Session) (id : ℤ) (ip : Text)
      → In (key, t) served
      → held_on id ip (t.done ∷ []) ≤ held_on id ip (leases_of crypto regex net ips rates served)
  held_on-In [] key t id ip i = absurd i
  held_on-In ((k, s) ∷ rest) key t id ip (inl same) =
      let sessions : s ≡ t = ap (λ q. q.1) same in rw sessions (omega arith)
  held_on-In ((k, s) ∷ rest) key t id ip (inr i) = omega (arith, held_on-In rest key t id ip i)

  -- Two sessions that are served have their leases.
  hold-leases :
      (p : P) (rest : List (UdpKey × Session)) (key : UdpKey) (t t' : Session) (id : ℤ) (ip : Text)
      → IsSound crypto regex net ips rates p
      → p.served ≡ (key, t') ∷ rest
      → In (key, t) rest
      → held_on id ip (t.done ∷ t'.done ∷ []) ≤ ip_count p.limits id ip
  hold-leases p rest key t t' id ip w now i =
      let all = ap (λ x. held_on id ip (leases_of crypto regex net ips rates x)) now in
      omega (arith, held_on-In rest key t id ip i, w.counts.on_device id ip, all)

  -- A session that is opened is new.
  opened_new :
      (user : UserEntry crypto) (identity : ClientIdentity) (socket : ℕ) (p q : P) (s : Session)
      (r : SessionLimiter rates.Limiter × Result LimitError Lease)
      → opened_udp crypto regex net ips rates user identity socket p r ≡ (q, ok s)
      → let key = udp_key crypto regex net ips rates user identity in
        (q.served ≡ (key, s) ∷ p.served) × (lookup key q.udp_sessions ≡ some s)
  opened_new user identity socket p q s (l, err e) h = let no = ap (λ x. x.1) h in cc (no)
  opened_new user identity socket p q s (l, ok lease) h =
      let key = udp_key crypto regex net ips rates user identity in
      let made = opened_udp crypto regex net ips rates user identity socket p (l, ok lease) in
      let same = ok_injective _ s (ap (λ x. x.1) h) in
      (
        ap (λ x. x.0.served) (sym h) ∙ ap (λ x. (key, x) ∷ p.served) same,
        ap (λ x. lookup key x.0.udp_sessions) (sym h)
            ∙ lookup-insert_self key _ p.udp_sessions
            ∙ ap some same,
      )

  open_new :
      (enforce : Bool) (user : UserEntry crypto) (identity : ClientIdentity) (socket : Option ℕ)
      (p q : P) (s : Session)
      → open_udp crypto regex net ips rates enforce user identity p socket ≡ (q, ok s)
      → let key = udp_key crypto regex net ips rates user identity in
        (q.served ≡ (key, s) ∷ p.served) × (lookup key q.udp_sessions ≡ some s)
  open_new enforce user identity none p q s h = let no = ap (λ x. x.1) h in cc (no)
  open_new enforce user identity (some socket) p q s h =
      opened_new user identity socket p q s
        (acquire_udp p.limits user.config (real_ip net identity) enforce) h

  -- Between the two steps of the end of a goroutine, the sessions may have been closed and the
  -- client may have sent again, so that the key of the goroutine leads to the session `t` of another
  -- one. In any history up to there, packets of the client then use `t`. After the goroutine has
  -- deleted the key, the next packet that gets a session gets a new one: one more goroutine serves
  -- the same key, the key leads to the new session, and the limiter counts the leases of both.
  pub udp_end_other :
      (es : List (Event crypto regex net ips rates)) (online : OnlineTracker) (n : ℕ)
      (s t t' : Session) (user : UserEntry crypto) (identity : ClientIdentity) (enforce : Bool)
      (socket : Option ℕ) (q : P)
      → let p = run crypto regex net ips rates es (new_plane crypto regex net ips rates online) in
        let key = udp_key crypto regex net ips rates user identity in
        let after = udp_end crypto regex net ips rates n p in
        pick n p.leaving ≡ some (key, s)
        → lookup key p.udp_sessions ≡ some t
        → In (key, t) p.served
        → get_or_create_udp_session crypto regex net ips rates enforce user identity socket after
          ≡ (q, ok t')
        → (get_or_create_udp_session crypto regex net ips rates enforce user identity socket p
            ≡ (p, ok t))
          × (q.served ≡ (key, t') ∷ p.served)
          × (lookup key q.udp_sessions ≡ some t')
          × ((id : ℤ) (ip : Text) → held_on id ip (t.done ∷ t'.done ∷ []) ≤ ip_count q.limits id ip)
  unfolding udp_end get_or_create_udp_session
  udp_end_other es online n s t t' user identity enforce socket q e found i next =
      let p = run crypto regex net ips rates es (new_plane crypto regex net ips rates online) in
      let key = udp_key crypto regex net ips rates user identity in
      let after = udp_end crypto regex net ips rates n p in
      let w = run-IsSound crypto regex net ips rates es online in
      let gone : lookup key after.udp_sessions ≡ none =
        rw (udp_end, e) (lookup-delete_self key p.udp_sessions) in
      let served : after.served ≡ p.served = rw (udp_end, e) refl in
      let created = open_udp crypto regex net ips rates enforce user identity after socket in
      let opens : created ≡ (q, ok t') =
        sym (ap (λ o. known_or crypto regex net ips rates created after o) gone) ∙ next in
      let (grows, leads) = open_new enforce user identity socket after q t' opens in
      let now = grows ∙ ap (◌∷◌ (key, t')) served in
      let sound : IsSound crypto regex net ips rates q =
        subst (λ x. IsSound crypto regex net ips rates x.0) next
          (get_or_create-IsSound crypto regex net ips rates enforce user identity socket after
            (udp_ended-IsSound crypto regex net ips rates n p _ refl w)) in
      (
        ap
            (λ o.
              known_or crypto regex net ips rates
                (open_udp crypto regex net ips rates enforce user identity p socket) p o)
            found,
        now,
        leads,
        λ id ip. hold-leases q p.served key t t' id ip sound now i,
      )
