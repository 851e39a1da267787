-- ===== src/Backend/Native.antt =====
-- SSNative: the translation and the service together.
use small_x.Base.{◌∙◌, ℕ, Text, List, [], ◌∷◌, ◌≡◌, refl, some, Result, ok, err, subst, text_keys}
use small_x.Model.{RuntimePlan}
use small_x.Config.{RuntimeSection, PassXSection}
use small_x.Ss.Types.{RuntimeConfig}
use small_x.Ss.Netip.{NetText}
use small_x.Ss.Rules.{RegexLib}
use small_x.Ss.Cipher.{CryptoLib}
use small_x.Ss.Limits.Speed.{RateLib}
use small_x.Ss.Translate.{TranslateError, translate}
use small_x.Ss.Translate.Configs.{translate_sound}
use small_x.Ss.Service
use small_x.Ss.Service.Listeners
use small_x.Ss.Service.{Service, ServiceError, Answers, new_service, listen_addr, snapshot, close}
use small_x.Ss.Service.Listeners.{
  IsServing, apply-IsServing, listener_of, new_service-IsServing, close-IsServing,
}
use small_x.Backend.{
  NativeError, SsNative, new_ss_native, applied, apply_cfg, native_apply, native_options,
  native_snapshot,
}

module _ (encode : Text → Text) (crypto : CryptoLib) (regex : RegexLib) (net : NetText)
    (rates : RateLib) where
  abbrev Native : Type 0
  Native = SsNative encode crypto regex net rates

  pub data Call : Type 0 where
    applies : RuntimePlan → Answers → Call
    snapshots : ℕ → Call
    closes : Call

  unfoldable pub step : Native → Call → Native
  step s (applies plan a) = (native_apply encode crypto regex net rates a plan s).0
  step s (snapshots now) = (native_snapshot encode crypto regex net rates now s).0
  step s closes = record s { service = close crypto regex net rates s.service }

  -- A sequence of calls of the runtime.
  unfoldable pub run : Native → List Call → Native
  run s [] = s
  run s (c ∷ cs) = run (step s c) cs

  abbrev Serves : Native → Type 0
  Serves s = IsServing crypto regex net rates s.service

  -- What a call of `Apply` is to establish.
  abbrev Applies :
      RuntimeSection
      → PassXSection
      → RuntimePlan
      → Native × Result (NativeError encode) (Unit {0})
      → Type 0
  Applies runtime passx plan (s, r) =
      Serves s
      × (r ≡ ok tt
          → (cfg : RuntimeConfig) × (translate encode plan.node plan.users
                (native_options encode runtime passx)
              ≡ ok cfg)
            × (s.service.tcp_ln ≡ some (listener_of cfg))
            × (s.service.udp_conn ≡ some (listen_addr cfg)))

  -- What `Apply` of the service gives carries over.
  applied-service :
      (plan : RuntimePlan) (cfg : RuntimeConfig) (s : Native)
      (q : Service crypto regex net rates × Result ServiceError (Unit {0}))
      → translate encode plan.node plan.users (native_options encode s.runtime s.passx) ≡ ok cfg
      → Listeners.Applies crypto regex net rates cfg q
      → Applies s.runtime s.passx plan (applied encode crypto regex net rates s q)
  applied-service plan cfg s (service, err e) same w = (w.0, λ fails. cc)
  applied-service plan cfg s (service, ok u) same w =
      let made =
        translate_sound encode plan.node plan.users (native_options encode s.runtime s.passx) cfg
          same in
      let (at_tcp, at_udp) = w.1 refl made.tcp_on made.udp_on in
      (w.0, λ fine. (cfg, same, at_tcp, at_udp))

  apply_cfg-Applies :
      (a : Answers) (plan : RuntimePlan) (s : Native) (t : Result TranslateError RuntimeConfig)
      → translate encode plan.node plan.users (native_options encode s.runtime s.passx) ≡ t
      → Serves s
      → Applies s.runtime s.passx plan (apply_cfg encode crypto regex net rates a s t)
  apply_cfg-Applies a plan s (err e) same w = (w, λ fails. cc)
  apply_cfg-Applies a plan s (ok cfg) same w =
      applied-service plan cfg s (Service.apply crypto regex net rates s.service cfg a) same
        (apply-IsServing crypto regex net rates s.service cfg a w)

  native_apply-Applies :
      (a : Answers) (plan : RuntimePlan) (s : Native)
      → Serves s
      → Applies s.runtime s.passx plan (native_apply encode crypto regex net rates a plan s)
  unfolding native_apply
  native_apply-Applies a plan s w = apply_cfg-Applies a plan s _ refl w

  -- The settings of the file stay as they are.
  abbrev Keeps : Native → Native → Type 0
  Keeps s t = (t.runtime ≡ s.runtime) × (t.passx ≡ s.passx)

  applied-Keeps :
      (s : Native) (q : Service crypto regex net rates × Result ServiceError (Unit {0}))
      → Keeps s (applied encode crypto regex net rates s q).0
  applied-Keeps s (service, ok u) = (refl, refl)
  applied-Keeps s (service, err e) = (refl, refl)

  apply_cfg-Keeps :
      (a : Answers) (s : Native) (t : Result TranslateError RuntimeConfig)
      → Keeps s (apply_cfg encode crypto regex net rates a s t).0
  apply_cfg-Keeps a s (err e) = (refl, refl)
  apply_cfg-Keeps a s (ok cfg) =
      applied-Keeps s (Service.apply crypto regex net rates s.service cfg a)

  step-Keeps : (s : Native) (c : Call) → Keeps s (step s c)
  unfolding step native_apply native_snapshot
  step-Keeps s (applies plan a) = apply_cfg-Keeps a s _
  step-Keeps s (snapshots now) = (refl, refl)
  step-Keeps s closes = (refl, refl)

  step-Serves : (s : Native) (c : Call) → Serves s → Serves (step s c)
  unfolding step native_snapshot snapshot
  step-Serves s (applies plan a) w = (native_apply-Applies a plan s w).0
  step-Serves s (snapshots now) w = record { tcp = w.tcp; udp = w.udp; done = w.done }
  step-Serves s closes w = close-IsServing crypto regex net rates s.service

  run-Serves : (cs : List Call) (s : Native) → Serves s → Serves (run s cs) × Keeps s (run s cs)
  unfolding run
  run-Serves [] s w = (w, (refl, refl))
  run-Serves (c ∷ cs) s w =
      let (k1, k2) = step-Keeps s c in
      let (serves, (r1, r2)) = run-Serves cs (step s c) (step-Serves s c w) in
      (serves, (r1 ∙ k1, r2 ∙ k2))

  -- Whatever plans were applied, snapshots taken and closings done before, and whatever the network
  -- answered: after an `Apply` of a plan that succeeds, the plan was translated with the options of
  -- the file, and the TCP and the UDP listener are open and are those of that configuration.
  pub native_apply_serves :
      (runtime : RuntimeSection) (passx : PassXSection) (now : ℕ) (cs : List Call)
      (plan : RuntimePlan) (a : Answers)
      → let before = run (new_ss_native encode crypto regex net rates runtime passx now) cs in
        let after = native_apply encode crypto regex net rates a plan before in
        after.1 ≡ ok tt
        → (cfg : RuntimeConfig) × (translate encode plan.node plan.users
              (native_options encode runtime passx)
            ≡ ok cfg)
          × (after.0.service.tcp_ln ≡ some (listener_of cfg))
          × (after.0.service.udp_conn ≡ some (listen_addr cfg))
  unfolding new_ss_native
  native_apply_serves runtime passx now cs plan a fine =
      let start = new_ss_native encode crypto regex net rates runtime passx now in
      let before = run start cs in
      let (serves, (r1, r2)) =
        run-Serves cs start (new_service-IsServing crypto regex net rates now) in
      let (cfg, same, at_tcp, at_udp) = (native_apply-Applies a plan before serves).1 fine in
      (
        cfg,
        subst (λ r. translate encode plan.node plan.users (native_options encode r passx) ≡ ok cfg)
            r1
            (subst
              (λ x.
                translate encode plan.node plan.users (native_options encode before.runtime x)
                ≡ ok cfg)
              r2 same),
        at_tcp,
        at_udp,
      )
