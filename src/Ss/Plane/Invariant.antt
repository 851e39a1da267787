-- ===== src/Ss/Plane/Invariant.antt =====
-- What holds of the limiter and of the UDP sessions of internal/ss/service.go, however the handlers
-- interleave.
use small_x.Base.{
  ℕ, zero, suc, ◌≡◌, refl, sym, ap, ◌∙◌, subst, List, [], ◌∷◌, Bool, true, false, Option, none,
  some, ◌⊎◌, inl, inr, Result, ok, err, In, Bool-cases,
}
use small_x.Base.Map.{lookup, insert, lookup-insert, lookup-delete}
use small_x.Ss.Netip.{NetText}
use small_x.Ss.Resolver.{ClientIdentity, real_ip}
use small_x.Ss.SocksAddr.{IpText}
use small_x.Ss.Rules.{RegexLib}
use small_x.Ss.Cipher.{CryptoLib}
use small_x.Ss.Stream.{UserEntry}
use small_x.Ss.Online.{OnlineTracker}
use small_x.Ss.Limits.{
  SessionLimiter, LimitError, Lease, acquire_tcp, acquire_udp, tcp_count, ip_count, refs_of,
  release,
}
use small_x.Ss.Limits.Speed.{RateLib, sync_users}
use small_x.Ss.Service.{ServiceState}
use small_x.Ss.Plane.{
  Plane, UdpSession, TcpRequest, UdpRequest, Rejected, tcp_start, admit_tcp, admitted_tcp, tcp_end,
  tcp_ended, count_up, count_down, udp_start, session_for, seen_udp, get_or_create_udp_session,
  known_or, open_udp, opened_udp, udp_leave, udp_left, udp_end, udp_ended, close_udp_sessions, pick,
  remove,
}
use small_x.Ss.Plane.Steps.{
  Event, tcp_starts, tcp_ends, counts_up, counts_down, udp_starts, udp_leaves, udp_ends, udp_closes,
  syncs, step, run, new_plane,
}
use small_x.Ss.Plane.Keys.{UdpKey, udp_keys, udp_key_eq, udp_key_eq_iff}
use small_x.Ss.Plane.Leases.{
  Counts, Admits, acquire-Admits, release-Counts_tcp, release-Counts_udp, Counts-admitted_tcp,
  Counts-admitted_udp, Counts-refused, Counts-new,
}

none-some : {A : Type 0} (a : A) → none ≡ some a → ⊥
none-some a h = cc

module _ (crypto : CryptoLib) (regex : RegexLib) (net : NetText) (ips : IpText)
    (rates : RateLib) where
  abbrev P : Type 0
  P = Plane crypto regex net ips rates

  abbrev Session : Type 0
  Session = UdpSession crypto regex net ips rates

  abbrev State : Type 0
  State = ServiceState crypto regex net rates

  -- The leases of the UDP sessions that are served.
  abbrev pub leases_of : List (UdpKey × Session) → List Lease
  leases_of [] = []
  leases_of ((key, s) ∷ rest) = s.done ∷ leases_of rest

  -- The limiter counts exactly the leases of the handlers and goroutines that have not released
  -- them, and each entry of the session table has a goroutine that serves it or will delete it.
  pub record IsSound (p : P) : Type 0 where
    pub counts : Counts p.limits p.tcp (leases_of p.served)
    pub live :
        (key : UdpKey) (s : Session)
        → lookup key p.udp_sessions ≡ some s
        → In (key, s) p.served ⊎ In (key, s) p.leaving

  admitted_tcp-IsSound :
      (now : ℕ) (q : TcpRequest crypto regex net ips rates) (p : P)
      (r : SessionLimiter rates.Limiter × Result LimitError Lease)
      → Admits p.limits r
      → IsSound p
      → IsSound (admitted_tcp crypto regex net ips rates now q p r).0
  admitted_tcp-IsSound now q p (l, err e) a w = record {
    counts = Counts-refused p.limits l e p.tcp (leases_of p.served) a w.counts;
    live = w.live;
  }
  admitted_tcp-IsSound now q p (l, ok h) a w = record {
    counts = Counts-admitted_tcp p.limits l h p.tcp (leases_of p.served) a w.counts;
    live = w.live;
  }

  admit_tcp-IsSound :
      (enforce : Bool) (now : ℕ) (p : P)
      (r : Result Rejected (TcpRequest crypto regex net ips rates))
      → IsSound p
      → IsSound (admit_tcp crypto regex net ips rates enforce now p r).0
  unfolding acquire_tcp
  admit_tcp-IsSound enforce now p (err e) w = w
  admit_tcp-IsSound enforce now p (ok q) w =
      admitted_tcp-IsSound now q p _
        (acquire-Admits p.limits q.user.config q.client_ip true enforce) w

  tcp_ended-IsSound :
      (n : ℕ) (p : P) (o : Option Lease)
      → pick n p.tcp ≡ o
      → IsSound p
      → IsSound (tcp_ended crypto regex net ips rates n p o)
  tcp_ended-IsSound n p none e w = w
  tcp_ended-IsSound n p (some h) e w = record {
    counts = release-Counts_tcp p.limits n h p.tcp (leases_of p.served) e w.counts;
    live = w.live;
  }

  -- The entries of the table once a session is added in front of the goroutines.
  live-insert :
      (key : UdpKey) (s : Session) (p : P)
      → IsSound p
      → (k : UdpKey) (t : Session) → lookup k (insert key s p.udp_sessions) ≡ some t
      → In (k, t) ((key, s) ∷ p.served) ⊎ In (k, t) p.leaving
  live-insert key s p w k t found = elim (Bool-cases (udp_key_eq key k)) [
    | inl same ↦
        let keys : key ≡ k = (udp_key_eq_iff key k).0 same in
        let now : some s ≡ some t =
          sym (lookup-insert key k s p.udp_sessions ∙ rw same refl) ∙ found in
        let sessions : s ≡ t = cc (now) in inl (inl (cc (keys, sessions)))
    | inr other ↦
        elim (w.live k t (sym (lookup-insert key k s p.udp_sessions ∙ rw other refl) ∙ found)) [
          | inl i ↦ inl (inr i)
          | inr i ↦ inr i
        ]
  ]

  opened_udp-IsSound :
      (user : UserEntry crypto) (identity : ClientIdentity) (socket : ℕ) (p : P)
      (r : SessionLimiter rates.Limiter × Result LimitError Lease)
      → Admits p.limits r
      → IsSound p
      → IsSound (opened_udp crypto regex net ips rates user identity socket p r).0
  opened_udp-IsSound user identity socket p (l, err e) a w = record {
    counts = Counts-refused p.limits l e p.tcp (leases_of p.served) a w.counts;
    live = w.live;
  }
  opened_udp-IsSound user identity socket p (l, ok h) a w = record {
    counts = Counts-admitted_udp p.limits l h p.tcp (leases_of p.served) a w.counts;
    live = live-insert _ _ p w;
  }

  open_udp-IsSound :
      (enforce : Bool) (user : UserEntry crypto) (identity : ClientIdentity) (p : P) (o : Option ℕ)
      → IsSound p
      → IsSound (open_udp crypto regex net ips rates enforce user identity p o).0
  unfolding acquire_udp
  open_udp-IsSound enforce user identity p none w = w
  open_udp-IsSound enforce user identity p (some socket) w =
      opened_udp-IsSound user identity socket p _
        (acquire-Admits p.limits user.config (real_ip net identity) false enforce) w

  known_or-IsSound :
      (q : P × Result Rejected Session) (p : P) (o : Option Session)
      → IsSound q.0
      → IsSound p
      → IsSound (known_or crypto regex net ips rates q p o).0
  known_or-IsSound q p none v w = v
  known_or-IsSound q p (some s) v w = w

  pub get_or_create-IsSound :
      (enforce : Bool) (user : UserEntry crypto) (identity : ClientIdentity) (socket : Option ℕ)
      (p : P)
      → IsSound p
      → IsSound
          (get_or_create_udp_session crypto regex net ips rates enforce user identity socket p).0
  unfolding get_or_create_udp_session
  get_or_create-IsSound enforce user identity socket p w =
      known_or-IsSound _ p _ (open_udp-IsSound enforce user identity p socket w) w

  seen_udp-IsSound :
      (identity : ClientIdentity) (now : ℕ) (q : UdpRequest crypto regex net ips rates)
      (r : P × Result Rejected Session)
      → IsSound r.0
      → IsSound (seen_udp crypto regex net ips rates identity now q r).0
  seen_udp-IsSound identity now q (p, err e) w = w
  seen_udp-IsSound identity now q (p, ok s) w = record { counts = w.counts; live = w.live }

  session_for-IsSound :
      (enforce : Bool) (identity : ClientIdentity) (socket : Option ℕ) (now : ℕ) (p : P)
      (r : Result Rejected (UdpRequest crypto regex net ips rates))
      → IsSound p
      → IsSound (session_for crypto regex net ips rates enforce identity socket now p r).0
  session_for-IsSound enforce identity socket now p (err e) w = w
  session_for-IsSound enforce identity socket now p (ok q) w =
      seen_udp-IsSound identity now q _ (get_or_create-IsSound enforce q.user identity socket p w)

  leases_of-pick :
      (n : ℕ) (served : List (UdpKey × Session)) (key : UdpKey) (s : Session)
      → pick n served ≡ some (key, s)
      → (pick n (leases_of served) ≡ some s.done)
        × (leases_of (remove n served) ≡ remove n (leases_of served))
  leases_of-pick n [] key s e = cc
  leases_of-pick zero ((k, t) ∷ rest) key s e =
      let x : UdpKey × Session = (k, t) in
      let y : UdpKey × Session = (key, s) in
      let same : some x ≡ some y = e in
      let pair : x ≡ y = cc (same) in (ap (λ q. some q.1.done) pair, refl)
  leases_of-pick (suc n) ((k, t) ∷ rest) key s e =
      let (p, q) = leases_of-pick n rest key s e in (p, ap (◌∷◌ t.done) q)

  -- A goroutine other than the nth stays.
  In-remove :
      (n : ℕ) (served : List (UdpKey × Session)) (x y : UdpKey × Session)
      → pick n served ≡ some x
      → In y served
      → (x ≡ y) ⊎ In y (remove n served)
  In-remove n [] x y e i = cc
  In-remove zero (z ∷ rest) x y e (inl here) =
      let now : some z ≡ some x = e in let same : z ≡ x = cc (now) in inl (sym same ∙ here)
  In-remove zero (z ∷ rest) x y e (inr i) = inr i
  In-remove (suc n) (z ∷ rest) x y e (inl here) = inr (inl here)
  In-remove (suc n) (z ∷ rest) x y e (inr i) = elim (In-remove n rest x y e i) [
    | inl same ↦ inl same
    | inr there ↦ inr (inr there)
  ]

  udp_left-IsSound :
      (n : ℕ) (p : P) (o : Option (UdpKey × Session))
      → pick n p.served ≡ o
      → IsSound p
      → IsSound (udp_left crypto regex net ips rates n p o)
  udp_left-IsSound n p none e w = w
  udp_left-IsSound n p (some (key, s)) e w =
      let (lease, rest) = leases_of-pick n p.served key s e in
      record {
        counts =
            subst (Counts (release p.limits s.done) p.tcp) (sym rest)
              (release-Counts_udp p.limits n s.done p.tcp (leases_of p.served) lease w.counts);
        live = λ k t found. elim (w.live k t found) [
          | inl i ↦ elim (In-remove n p.served (key, s) (k, t) e i) [
            | inl same ↦ inr (inl same)
            | inr there ↦ inl there
          ]
          | inr i ↦ inr (inr i)
        ];
      }

  -- A goroutine that deletes its key takes no entry of another key with it.
  pub udp_ended-IsSound :
      (n : ℕ) (p : P) (o : Option (UdpKey × Session))
      → pick n p.leaving ≡ o
      → IsSound p
      → IsSound (udp_ended crypto regex net ips rates n p o)
  udp_ended-IsSound n p none e w = w
  udp_ended-IsSound n p (some (key, s)) e w = record {
    counts = w.counts;
    live = λ k t found. elim (Bool-cases (udp_key_eq key k)) [
      | inl same ↦
          absurd (none-some t (sym (lookup-delete key k p.udp_sessions ∙ rw same refl) ∙ found))
      | inr other ↦
          elim (w.live k t (sym (lookup-delete key k p.udp_sessions ∙ rw other refl) ∙ found)) [
            | inl i ↦ inl i
            | inr i ↦ elim (In-remove n p.leaving (key, s) (k, t) e i) [
              | inl same ↦ absurd (cc (other, (udp_key_eq_iff key k).1 (ap (λ q. q.0) same)))
              | inr there ↦ inr there
            ]
          ]
    ];
  }

  step-IsSound :
      (e : Event crypto regex net ips rates) (p : P)
      → IsSound p
      → IsSound (step crypto regex net ips rates e p)
  unfolding step tcp_start tcp_end count_up count_down udp_start udp_leave udp_end
      close_udp_sessions lookup sync_users tcp_count ip_count refs_of
  step-IsSound (tcp_starts state remote bytes now) p w = admit_tcp-IsSound _ now p _ w
  step-IsSound (tcp_ends n) p w = tcp_ended-IsSound n p _ refl w
  step-IsSound (counts_up id n) p w = record { counts = w.counts; live = w.live }
  step-IsSound (counts_down id n) p w = record { counts = w.counts; live = w.live }
  step-IsSound (udp_starts state identity packet socket now) p w =
      session_for-IsSound _ identity socket now p _ w
  step-IsSound (udp_leaves n) p w = udp_left-IsSound n p _ refl w
  step-IsSound (udp_ends n) p w = udp_ended-IsSound n p _ refl w
  step-IsSound udp_closes p w = record { counts = w.counts; live = λ key s found. cc (found) }
  step-IsSound (syncs users) p w = record {
    counts = record { on_device = w.counts.on_device; over_tcp = w.counts.over_tcp };
    live = w.live;
  }

  run-IsSound_from :
      (es : List (Event crypto regex net ips rates)) (p : P)
      → IsSound p
      → IsSound (run crypto regex net ips rates es p)
  unfolding run
  run-IsSound_from [] p w = w
  run-IsSound_from (e ∷ es) p w =
      run-IsSound_from es (step crypto regex net ips rates e p) (step-IsSound e p w)

  -- However connections and packets arrive, handlers and goroutines end, sessions are closed and
  -- users are synced: the limiter counts, for each user and device, exactly the leases of the TCP
  -- handlers and UDP goroutines that have not released them, and for each user those over TCP; and
  -- each entry of the session table has a goroutine that serves it or has yet to delete its key.
  pub run-IsSound :
      (es : List (Event crypto regex net ips rates)) (online : OnlineTracker)
      → IsSound (run crypto regex net ips rates es (new_plane crypto regex net ips rates online))
  unfolding new_plane lookup
  run-IsSound es online =
      run-IsSound_from es _ (record { counts = Counts-new; live = λ key s found. cc (found) })
