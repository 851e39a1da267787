-- ===== src/Cmd.antt =====
-- cmd/smallx/main.go: what the program starts with. The flags, the printing and the signals are left
-- out; a duration is a number of nanoseconds, as `time.ParseDuration` gives it.
use small_x.Base.{ℤ, pos, Text, Option, none, some, text_eq, if◌then◌else◌, Result, ok, err, ◌>>=◌}
use small_x.Base.Strings.{codes}
use small_x.Config.{FileConfig, ConfigError, SyncConfig, load}
use small_x.Panel.{Client, new_client}

pub data RuntimeKind : Type 0 where
  dry_run_kind ss_native_kind ss_prototype_kind : RuntimeKind

pub data LogLevel : Type 0 where
  debug_level info_level warn_level error_level : LogLevel

pub data StartError : Type 0 where
  bad_config : ConfigError → StartError
  unsupported_provider : Text → StartError
  unsupported_runtime : Text → StartError

unfoldable pub build_provider : FileConfig → Result StartError Client
build_provider cfg =
    if text_eq cfg.panel.provider (codes "xboard")
    then ok (new_client cfg.panel)
    else err (unsupported_provider cfg.panel.provider)

unfoldable pub build_runtime : FileConfig → Result StartError RuntimeKind
build_runtime cfg =
    if text_eq cfg.runtime.adapter (codes "dry-run")
    then ok dry_run_kind
    else if text_eq cfg.runtime.adapter (codes "ss-native")
    then ok ss_native_kind
    else if text_eq cfg.runtime.adapter (codes "ss-prototype")
    then ok ss_prototype_kind
    else err (unsupported_runtime cfg.runtime.adapter)

unfoldable pub log_level_of : Text → LogLevel
log_level_of level =
    if text_eq level (codes "debug")
    then debug_level
    else if text_eq level (codes "warn")
    then warn_level
    else if text_eq level (codes "error")
    then error_level
    else info_level

abbrev or_bad_config : {A : Type 0} → Result ConfigError A → Result StartError A
or_bad_config (ok a) = ok a
or_bad_config (err e) = err (bad_config e)

-- `d, _ := time.ParseDuration(...)` is 0 where it fails.
abbrev or_zero_duration : Option ℤ → ℤ
or_zero_duration none = pos 0
or_zero_duration (some d) = d

-- What `main` hands to the agent.
pub record Start : Type 0 where
  pub cfg : FileConfig
  pub level : LogLevel
  pub client : Client
  pub kind : RuntimeKind

module _ (parse_duration : Text → Option ℤ) where
  unfoldable pub pull_every : SyncConfig → ℤ
  pull_every c = or_zero_duration (parse_duration c.pull_interval)

  unfoldable pub status_every : SyncConfig → ℤ
  status_every c = or_zero_duration (parse_duration c.status_interval)

  -- `main` up to `agent.New`: each error is a panic.
  unfoldable pub start : Result ConfigError FileConfig → Result StartError Start
  start decoded = do
    cfg ← or_bad_config (load parse_duration decoded)
    client ← build_provider cfg
    kind ← build_runtime cfg
    ok (record { cfg = cfg; level = log_level_of cfg.log_level; client = client; kind = kind })
