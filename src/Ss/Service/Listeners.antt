-- ===== src/Ss/Service/Listeners.antt =====
-- The listeners of a service over any sequence of calls.
use small_x.Base.{
  ℕ, if◌then◌else◌, err, sym, subst, Result, List, [], ◌∷◌, ◌⊎◌, Text, ◌≡◌, refl, ◌∙◌, ap, Bool,
  true, false, ◌||◌, Option, none, some, is_none, text_eq_iff, int_eq_iff, ok, arith, Bool-cases,
  inl, inr,
}
use small_x.Ss.Types.{RuntimeConfig}
use small_x.Ss.Netip.{NetText}
use small_x.Ss.Rules.{RegexLib}
use small_x.Ss.Cipher.{CryptoLib}
use small_x.Ss.Limits.Speed.{RateLib}
use small_x.Ss.Service.{
  service_closed, ServiceError, build_state, apply, close, new_service, Answers, TcpListener,
  listen_addr, needs_restart, ServiceState, Service, Opened, open_udp, open_listeners, must_restart,
  apply_state,
}

-- The listener that a configuration asks for.
abbrev pub listener_of : RuntimeConfig → TcpListener
listener_of cfg = record { addr = listen_addr cfg; proxied = cfg.passx.enabled }

-- A listener that is open is the one that the configuration in force asks for.
abbrev pub TcpBound : Option RuntimeConfig → Option TcpListener → Type 0
TcpBound c none = Unit
TcpBound none (some l) = ⊥
TcpBound (some cfg) (some l) = l ≡ listener_of cfg

abbrev pub UdpBound : Option RuntimeConfig → Option Text → Type 0
UdpBound c none = Unit
UdpBound none (some addr) = ⊥
UdpBound (some cfg) (some addr) = addr ≡ listen_addr cfg

needs_restart_same :
    (old new : RuntimeConfig) → needs_restart old new ≡ false → listener_of old ≡ listener_of new
unfolding needs_restart listen_addr
needs_restart_same old new h =
    let ip : old.server.listen_ip ≡ new.server.listen_ip =
      ground (arith, text_eq_iff old.server.listen_ip new.server.listen_ip) in
    let port : old.server.server_port ≡ new.server.server_port =
      ground (arith, int_eq_iff old.server.server_port new.server.server_port) in
    let passx : old.passx.enabled ≡ new.passx.enabled = ground arith in rw (ip, port, passx) refl

-- Without a restart the open listeners are also those of the new configuration.
keep_listeners :
    (c : Option RuntimeConfig) (t : Option TcpListener) (u : Option Text) (cfg : RuntimeConfig)
    → (is_none t
        || (is_none u || elim c as (λ _. Bool) [ none ↦ true | some old ↦ needs_restart old cfg ]))
      ≡ false
    → TcpBound c t
    → UdpBound c u
    → (t ≡ some (listener_of cfg)) × (u ≡ some (listen_addr cfg))
keep_listeners c none u cfg h tb ub = cc
keep_listeners none (some l) u cfg h tb ub = absurd tb
keep_listeners (some old) (some l) none cfg h tb ub = cc
keep_listeners (some old) (some l) (some addr) cfg h tb ub =
    let same = needs_restart_same old cfg h in
    (ap some (tb ∙ same), ap some (ub ∙ ap (λ x. x.addr) same))

module _ (crypto : CryptoLib) (regex : RegexLib) (net : NetText) (rates : RateLib) where
  abbrev pub Running : Type 0
  Running = Service crypto regex net rates

  pub record IsServing (s : Running) : Type 0 where
    pub tcp : TcpBound s.cfg s.tcp_ln
    pub udp : UdpBound s.cfg s.udp_conn
    pub done : (s.closed ≡ false) ⊎ (s.tcp_ln ≡ none) × (s.udp_conn ≡ none)

  abbrev AreBound : RuntimeConfig → Option TcpListener → Opened crypto regex net rates → Type 0
  AreBound cfg tcp o =
      TcpBound (some cfg) o.tcp
      × UdpBound (some cfg) o.udp
      × (o.result ≡ ok tt
          → cfg.server.enable_udp ≡ true
          → (o.tcp ≡ tcp) × (o.udp ≡ some (listen_addr cfg)))

  open_udp-AreBound :
      (cfg : RuntimeConfig) (a : Answers) (tcp : Option TcpListener)
      → TcpBound (some cfg) tcp
      → AreBound cfg tcp (open_udp crypto regex net rates cfg a tcp)
  unfolding listen_addr
  open_udp-AreBound cfg a tcp b = elim (Bool-cases cfg.server.enable_udp) [
    | inr off ↦ rw off (b, tt, λ e on. absurd (ground (arith, off)))
    | inl on ↦ elim (Bool-cases a.udp_resolves) [
      | inr r ↦ rw (on, r) (b, tt, λ e on. cc)
      | inl r ↦ elim (Bool-cases a.udp_listens) [
        | inr l ↦ rw (on, r, l) (tt, tt, λ e on. cc)
        | inl l ↦ rw (on, r, l) (b, refl, λ e on. (refl, refl))
      ]
    ]
  ]

  abbrev pub AreOpen : RuntimeConfig → Option TcpListener → Option Text → Type 0
  AreOpen cfg t u = (t ≡ some (listener_of cfg)) × (u ≡ some (listen_addr cfg))

  open_listeners-AreBound :
      (cfg : RuntimeConfig) (a : Answers)
      → let o = open_listeners crypto regex net rates cfg a in
        TcpBound (some cfg) o.tcp
        × UdpBound (some cfg) o.udp
        × (o.result ≡ ok tt
            → cfg.server.enable_tcp ≡ true
            → cfg.server.enable_udp ≡ true
            → AreOpen cfg o.tcp o.udp)
  unfolding open_listeners listen_addr
  open_listeners-AreBound cfg a = elim (Bool-cases cfg.server.enable_tcp) [
    | inr off ↦
        let (t, u, r) = open_udp-AreBound cfg a none tt in
        rw (open_listeners, off) (t, u, λ e on both. absurd (ground (arith, off)))
    | inl on ↦ elim (Bool-cases a.tcp_listens) [
      | inr l ↦ rw (open_listeners, on, l) (tt, tt, λ e on both. cc)
      | inl l ↦
          let (t, u, r) = open_udp-AreBound cfg a (some (listener_of cfg)) refl in
          rw (open_listeners, on, l) (t, u, λ e on both. r e both)
    ]
  ]

  install-IsServing :
      (s : Running) (cfg : RuntimeConfig) (a : Answers)
      (state : ServiceState crypto regex net rates)
      → s.closed ≡ false
      → IsServing s
      → let (s', r) = apply_state crypto regex net rates s cfg a state in
        IsServing s'
        × (r ≡ ok tt
            → cfg.server.enable_tcp ≡ true
            → cfg.server.enable_udp ≡ true
            → AreOpen cfg s'.tcp_ln s'.udp_conn)
  unfolding apply_state
  install-IsServing s cfg a state live w =
      elim (Bool-cases (must_restart crypto regex net rates s cfg)) [
        | inl again ↦
            let (t, u, r) = open_listeners-AreBound cfg a in
            rw again (record { tcp = t; udp = u; done = inl live }, r)
        | inr keep ↦
            let (t, u) = keep_listeners s.cfg s.tcp_ln s.udp_conn cfg keep w.tcp w.udp in
            rw keep
              (record { tcp = rw t refl; udp = rw u refl; done = inl live }, λ e one two. (t, u))
      ]

  -- What a call of `Apply` is to establish.
  abbrev pub Applies : RuntimeConfig → Running × Result ServiceError (Unit {0}) → Type 0
  Applies cfg (s, r) =
      IsServing s
      × (r ≡ ok tt
          → cfg.server.enable_tcp ≡ true
          → cfg.server.enable_udp ≡ true
          → AreOpen cfg s.tcp_ln s.udp_conn)

  apply_live :
      (s : Running) (cfg : RuntimeConfig) (a : Answers)
      (built : Result ServiceError (ServiceState crypto regex net rates))
      → build_state crypto regex net rates cfg ≡ built
      → s.closed ≡ false
      → IsServing s
      → Applies cfg (apply crypto regex net rates s cfg a)
  unfolding apply
  apply_live s cfg a (err e) h live w =
      let same : apply crypto regex net rates s cfg a ≡ (s, err e) =
        rw (apply, h) (ap (λ b. if b then (s, err service_closed) else (s, err e)) live) in
      subst (Applies cfg) (sym same) (w, λ fails. cc)
  apply_live s cfg a (ok state) h live w =
      let after = apply_state crypto regex net rates s cfg a state in
      let same : apply crypto regex net rates s cfg a ≡ after =
        rw (apply, h) (ap (λ b. if b then (s, err service_closed) else after) live) in
      subst (Applies cfg) (sym same) (install-IsServing s cfg a state live w)

  pub apply-IsServing :
      (s : Running) (cfg : RuntimeConfig) (a : Answers)
      → IsServing s
      → Applies cfg (apply crypto regex net rates s cfg a)
  unfolding apply
  apply-IsServing s cfg a w = elim (Bool-cases s.closed) [
    | inl done ↦
        let same : apply crypto regex net rates s cfg a ≡ (s, err service_closed) =
          rw (apply, done) refl in
        subst (Applies cfg) (sym same) (w, λ fails. cc)
    | inr live ↦ apply_live s cfg a (build_state crypto regex net rates cfg) refl live w
  ]

  pub data Call : Type 0 where
    applies : RuntimeConfig → Answers → Call
    closes : Call

  -- A sequence of calls of `Apply` and `Close`.
  unfoldable pub run : Running → List Call → Running
  run s [] = s
  run s (applies cfg a ∷ cs) = run (apply crypto regex net rates s cfg a).0 cs
  run s (closes ∷ cs) = run (close crypto regex net rates s) cs

  run-IsServing : (cs : List Call) (s : Running) → IsServing s → IsServing (run s cs)
  unfolding run close
  run-IsServing [] s w = w
  run-IsServing (applies cfg a ∷ cs) s w = run-IsServing cs _ (apply-IsServing s cfg a w).0
  run-IsServing (closes ∷ cs) s w =
      run-IsServing cs _ (record { tcp = tt; udp = tt; done = inr (refl, refl) })

  pub new_service-IsServing : (now : ℕ) → IsServing (new_service crypto regex net rates now)
  unfolding new_service
  new_service-IsServing now = record { tcp = tt; udp = tt; done = inr (refl, refl) }

  pub close-IsServing : (s : Running) → IsServing (close crypto regex net rates s)
  unfolding close
  close-IsServing s = record { tcp = tt; udp = tt; done = inr (refl, refl) }

  -- After any calls of `Apply` and `Close`, whatever the network answers: a listener that is open is
  -- the one that the configuration in force asks for, and a closed service has none.
  pub run_serves :
      (now : ℕ) (cs : List Call) → IsServing (run (new_service crypto regex net rates now) cs)
  unfolding new_service
  run_serves now cs = run-IsServing cs _ (record { tcp = tt; udp = tt; done = inr (refl, refl) })

  -- Whatever was called before: after an `Apply` that succeeds with both protocols enabled, both
  -- listeners are open, and they are those of the configuration that was applied, whether there was
  -- a restart or not.
  pub apply_serves :
      (now : ℕ) (cs : List Call) (cfg : RuntimeConfig) (a : Answers)
      → let before = run (new_service crypto regex net rates now) cs in
        let after = apply crypto regex net rates before cfg a in
        after.1 ≡ ok tt
        → cfg.server.enable_tcp ≡ true
        → cfg.server.enable_udp ≡ true
        → AreOpen cfg after.0.tcp_ln after.0.udp_conn
  apply_serves now cs cfg a =
      (apply-IsServing (run (new_service crypto regex net rates now) cs) cfg a
        (run_serves now cs)).1
