-- ===== src/Backend.antt =====
-- internal/backend: the runtimes behind the interface of runtime.go. `Env` is the clock and what the
-- network answers during one call.
pub mod Native
use small_x.Base.{
  pos, false, ℕ, ◌-◌, ◌/◌, Bool, true, List, [], Text, Option, none, some, Result, ok, err, ◌>>=◌,
}
use small_x.Model.{RuntimePlan, RuntimeSnapshot, uptime_status}
use small_x.Config.{RuntimeSection, PassXSection}
use small_x.Ss.Types.{RuntimeConfig, Options, PassXConfig}
use small_x.Ss.Translate.{TranslateError, translate}
use small_x.Ss.Netip.{NetText}
use small_x.Ss.Rules.{RegexLib}
use small_x.Ss.Cipher.{CryptoLib}
use small_x.Ss.Limits.Speed.{RateLib}
use small_x.Ss.Service
use small_x.Ss.Service.{Service, ServiceError, Answers, new_service}

pub record Runtime : Type 1 where
  pub State : Type 0
  pub Env : Type 0
  pub Fault : Type 0
  pub apply : Env → RuntimePlan → State → State × Result Fault (Unit {0})
  pub snapshot : Env → State → State × Result Fault RuntimeSnapshot
  pub close : State → State

-- The moment of a call, in nanoseconds of the monotonic clock, and the network's answers.
pub record Moment : Type 0 where
  pub now : ℕ
  pub answers : Answers

-- A snapshot with nothing but the time since `started`, in seconds.
abbrev pub idle_snapshot : ℕ → ℕ → RuntimeSnapshot
idle_snapshot started now = record {
  status = uptime_status ((now - started) / 1_000_000_000);
  traffic = [];
  alive_ips = [];
  audits = [];
}

-- dryrun.go. The plan is none before the first `Apply`.
pub record DryRun : Type 0 where
  pub plan : Option RuntimePlan
  pub started : ℕ

unfoldable pub new_dry_run : ℕ → DryRun
new_dry_run now = record { plan = none; started = now }

abbrev pub dry_run : Runtime
dry_run = record {
  State = DryRun;
  Env = Moment;
  Fault = ⊥;
  apply = λ m plan d. (record d { plan = some plan }, ok tt);
  snapshot = λ m d. (d, ok (idle_snapshot d.started m.now));
  close = λ d. d;
}

module _ (encode : Text → Text) where
  -- ss_prototype.go. The configuration is none before the first `Apply`.
  pub record SsPrototype : Type 0 where
    pub cfg : Option RuntimeConfig
    pub started : ℕ

  unfoldable pub new_ss_prototype : ℕ → SsPrototype
  new_ss_prototype now = record { cfg = none; started = now }

  -- `ss.Options{}`.
  abbrev zero_options : Options
  zero_options = record {
    default_tcp_conn_limit = pos 0;
    enforce_device_limit = false;
    allow_targets = [];
    block_targets = [];
    passx = record { enabled = false; trusted_cidrs = [] };
  }

  abbrev store_cfg :
      SsPrototype
      → Result TranslateError RuntimeConfig
      → SsPrototype × Result TranslateError (Unit {0})
  store_cfg s (err e) = (s, err e)
  store_cfg s (ok cfg) = (record s { cfg = some cfg }, ok tt)

  unfoldable pub prototype_apply :
      RuntimePlan → SsPrototype → SsPrototype × Result TranslateError (Unit {0})
  prototype_apply plan s = store_cfg s (translate encode plan.node plan.users zero_options)

  abbrev pub ss_prototype : Runtime
  ss_prototype = record {
    State = SsPrototype;
    Env = Moment;
    Fault = TranslateError;
    apply = λ m plan s. prototype_apply plan s;
    snapshot = λ m s. (s, ok (idle_snapshot s.started m.now));
    close = λ s. s;
  }

  -- ss_native.go.
  pub data NativeError : Type 0 where
    not_translated : TranslateError → NativeError
    not_applied : ServiceError → NativeError

  abbrev is_set : Option Bool → Bool
  is_set none = false
  is_set (some b) = b

  -- The options of `SSNative.Apply`; `is_set` is `DeviceLimitEnabled`.
  abbrev pub native_options : RuntimeSection → PassXSection → Options
  native_options runtime passx = record {
    default_tcp_conn_limit = runtime.default_tcp_conn_limit;
    enforce_device_limit = is_set runtime.enforce_device_limit;
    allow_targets = runtime.allow_targets;
    block_targets = runtime.block_targets;
    passx = record { enabled = passx.enabled; trusted_cidrs = passx.trusted_cidrs };
  }

  module _ (crypto : CryptoLib) (regex : RegexLib) (net : NetText) (rates : RateLib) where
    pub record SsNative : Type 0 where
      pub service : Service crypto regex net rates
      pub runtime : RuntimeSection
      pub passx : PassXSection

    unfoldable pub new_ss_native : RuntimeSection → PassXSection → ℕ → SsNative
    new_ss_native runtime passx now = record {
      service = new_service crypto regex net rates now;
      runtime = runtime;
      passx = passx;
    }

    abbrev pub applied :
        SsNative
        → Service crypto regex net rates × Result ServiceError (Unit {0})
        → SsNative × Result NativeError (Unit {0})
    applied s (service, ok u) = (record s { service = service }, ok tt)
    applied s (service, err e) = (record s { service = service }, err (not_applied e))

    abbrev pub apply_cfg :
        Answers
        → SsNative
        → Result TranslateError RuntimeConfig
        → SsNative × Result NativeError (Unit {0})
    apply_cfg a s (err e) = (s, err (not_translated e))
    apply_cfg a s (ok cfg) = applied s (Service.apply crypto regex net rates s.service cfg a)

    unfoldable pub native_apply :
        Answers → RuntimePlan → SsNative → SsNative × Result NativeError (Unit {0})
    native_apply a plan s =
        apply_cfg a s (translate encode plan.node plan.users (native_options s.runtime s.passx))

    unfoldable pub native_snapshot : ℕ → SsNative → SsNative × RuntimeSnapshot
    native_snapshot now s =
        let (service, out) = Service.snapshot crypto regex net rates now s.service in
        (record s { service = service }, out)

    abbrev pub ss_native : Runtime
    ss_native = record {
      State = SsNative;
      Env = Moment;
      Fault = NativeError;
      apply = λ m plan s. native_apply m.answers plan s;
      snapshot = λ m s. let (s', out) = native_snapshot m.now s in (s', ok out);
      close = λ s. record s { service = Service.close crypto regex net rates s.service };
    }
