-- ===== src/Ss/Service.antt =====
-- The lifecycle of `Service` in internal/ss/service.go: `Apply`, `Close`, `restartLocked` and
-- `buildState`. What the network answers is an argument of a call; a listener is kept as the address
-- that it was opened with.
pub mod Listeners
use small_x.Base.{
  ◌-◌, ◌/◌, ℤ, pos, negsuc, ℕ, ◌+◌, Text, List, [], ◌∷◌, Bool, true, false, ◌&&◌, ◌||◌, not, Option,
  none, some, is_none, text_eq, int_eq, bool_eq, if◌then◌else◌, Result, ok, err, ◌>>=◌, ◌>>◌, guard,
  map,
}
use small_x.Ss.Types.{RuntimeConfig, UserConfig}
use small_x.Model.{RuntimeSnapshot, uptime_status}
use small_x.Ss.Netip.{NetText}
use small_x.Ss.Traffic.{TrafficStore, snapshot_and_reset}
use small_x.Ss.Online
use small_x.Ss.Online.{OnlineTracker}
use small_x.Ss.Resolver.{PassXAccess, compile_passx_access}
use small_x.Ss.HostPort.{join_host_port, decimal}
use small_x.Ss.Rules.{RegexLib, TargetRules, RuleError, compile_target_rules}
use small_x.Ss.Cipher.{CryptoLib, CipherDef, lookup_cipher, derive_master_key}
use small_x.Ss.Stream.{UserEntry}
use small_x.Ss.Limits.{SessionLimiter, new_session_limiter}
use small_x.Ss.Limits.Speed.{RateLib, sync_users}

pub data ServiceError : Type 0 where
  service_closed : ServiceError
  obfs_unsupported : ServiceError
  unsupported_cipher : Text → ServiceError
  bad_rule : RuleError → ServiceError
  listen_failed : ServiceError

-- What the network answers to `net.Listen`, `net.ResolveUDPAddr` and `net.ListenUDP`.
pub record Answers : Type 0 where
  pub tcp_listens : Bool
  pub udp_resolves : Bool
  pub udp_listens : Bool

-- The address, and for TCP whether the listener reads the PROXY protocol.
pub record TcpListener : Type 0 where
  pub addr : Text
  pub proxied : Bool

unfoldable pub listen_addr : RuntimeConfig → Text
listen_addr cfg = join_host_port cfg.server.listen_ip (decimal cfg.server.server_port)

unfoldable pub needs_restart : RuntimeConfig → RuntimeConfig → Bool
needs_restart old new =
    not (text_eq old.server.listen_ip new.server.listen_ip)
    || (not (int_eq old.server.server_port new.server.server_port)
        || (not (text_eq old.server.cipher new.server.cipher)
            || (not (bool_eq old.server.enable_tcp new.server.enable_tcp)
                || (not (bool_eq old.server.enable_udp new.server.enable_udp)
                    || not (bool_eq old.passx.enabled new.passx.enabled)))))

abbrev or_bad_rule {ℓ} : {A : Type ℓ} → Result RuleError A → Result ServiceError A
or_bad_rule (ok a) = ok a
or_bad_rule (err e) = err (bad_rule e)

abbrev or_unsupported : Text → Option CipherDef → Result ServiceError CipherDef
or_unsupported name none = err (unsupported_cipher name)
or_unsupported name (some c) = ok c

module _ (crypto : CryptoLib) (regex : RegexLib) (net : NetText) (rates : RateLib) where
  pub record ServiceState : Type 0 where
    pub config : RuntimeConfig
    pub cipher : CipherDef
    pub users : List (UserEntry crypto)
    pub rules : TargetRules regex
    pub passx : PassXAccess

  abbrev pub user_entry : CipherDef → UserConfig → UserEntry crypto
  user_entry c user = record {
    config = user;
    master_key = derive_master_key crypto c user.password;
  }

  unfoldable pub build_state : RuntimeConfig → Result ServiceError ServiceState
  build_state cfg = do
    guard (not cfg.server.obfs.enabled) obfs_unsupported
    c ← or_unsupported cfg.server.cipher (lookup_cipher cfg.server.cipher)
    rules ← or_bad_rule (compile_target_rules regex cfg)
    ok (record {
      config = cfg;
      cipher = c;
      users = map (user_entry c) cfg.users;
      rules = rules;
      passx = compile_passx_access net cfg.passx;
    })

  -- The configuration is none before the first `Apply`.
  pub record Service : Type 0 where
    pub cfg : Option RuntimeConfig
    pub state : Option ServiceState
    pub tcp_ln : Option TcpListener
    pub udp_conn : Option Text
    pub closed : Bool
    pub limits : SessionLimiter rates.Limiter
    pub traffic : TrafficStore
    pub online : OnlineTracker
    pub started_at : ℕ

  -- `NewService` at the time `now`, in nanoseconds of the monotonic clock.
  unfoldable pub new_service : ℕ → Service
  new_service now = record {
    cfg = none;
    state = none;
    tcp_ln = none;
    udp_conn = none;
    closed = false;
    limits = new_session_limiter;
    traffic = [];
    online = record { ttl = 300_000_000_000; entries = [] };
    started_at = now;
  }

  -- The listeners after the calls of `restartLocked`, and its error.
  pub record Opened : Type 0 where
    pub tcp : Option TcpListener
    pub udp : Option Text
    pub result : Result ServiceError (Unit {0})

  abbrev pub open_udp : RuntimeConfig → Answers → Option TcpListener → Opened
  open_udp cfg a tcp =
      if not cfg.server.enable_udp
      then record { tcp = tcp; udp = none; result = ok tt }
      else if not a.udp_resolves
      then record { tcp = tcp; udp = none; result = err listen_failed }
      else if not a.udp_listens
      then record { tcp = none; udp = none; result = err listen_failed }
      else record { tcp = tcp; udp = some (listen_addr cfg); result = ok tt }

  unfoldable pub open_listeners : RuntimeConfig → Answers → Opened
  open_listeners cfg a =
      if not cfg.server.enable_tcp
      then open_udp cfg a none
      else if not a.tcp_listens
      then record { tcp = none; udp = none; result = err listen_failed }
      else open_udp cfg a (some (record { addr = listen_addr cfg; proxied = cfg.passx.enabled }))

  -- What `needsRestart` compares with: the zero configuration has no listeners that are open.
  abbrev pub must_restart : Service → RuntimeConfig → Bool
  must_restart s cfg =
      is_none s.tcp_ln
      || (is_none s.udp_conn || elim s.cfg [ none ↦ true | some old ↦ needs_restart old cfg ])

  abbrev pub install : Service → RuntimeConfig → ServiceState → Service
  install s cfg state = record s {
    cfg = some cfg;
    state = some state;
    limits = sync_users rates cfg.users s.limits;
  }

  -- `Apply` on a service that is not closed, with the new state.
  unfoldable pub apply_state :
      Service → RuntimeConfig → Answers → ServiceState → Service × Result ServiceError (Unit {0})
  apply_state s cfg a state =
      let opened = open_listeners cfg a in
      if must_restart s cfg
      then (
        record (install s cfg state) { tcp_ln = opened.tcp; udp_conn = opened.udp },
        opened.result,
      )
      else (install s cfg state, ok tt)

  unfoldable pub apply :
      Service → RuntimeConfig → Answers → Service × Result ServiceError (Unit {0})
  apply s cfg a =
      let applied : Service × Result ServiceError (Unit {0}) = elim (build_state cfg) [
        | err e ↦ (s, err e)
        | ok state ↦ apply_state s cfg a state
      ] in
      if s.closed then (s, err service_closed) else applied

  -- The errors of closing are reported and change nothing.
  unfoldable pub close : Service → Service
  close s = record s { closed = true; tcp_ln = none; udp_conn = none }

  -- `Snapshot` at the time `now`: it empties the counters and drops expired devices.
  unfoldable pub snapshot : ℕ → Service → Service × RuntimeSnapshot
  snapshot now s =
      let (t, traffic) = snapshot_and_reset s.traffic in
      let (o, alive) = Online.snapshot s.online now in
      (
        record s { traffic = t; online = o },
        record {
          status = uptime_status ((now - s.started_at) / 1_000_000_000);
          traffic = traffic;
          alive_ips = alive;
          audits = [];
        },
      )
