-- ===== src/Config.antt =====
-- internal/config/config.go: defaults and validation of the configuration file. The file's text and
-- its decoding (YAML) come as a result; `time.ParseDuration` is a parameter.
pub mod Loading
use small_x.Base.{
  ℤ, ℕ, Text, List, [], ◌∷◌, Bool, true, not, Option, none, some, length, nat_eq, text_eq, is_none,
  is_positive, if◌then◌else◌, Result, ok, err, ◌>>=◌, ◌>>◌,
}
use small_x.Base.Strings.{codes, trim_space, to_lower}
use mathlib.Core.List.{reverse}

pub record PanelConfig : Type 0 where
  pub provider : Text
  pub base_url : Text
  pub token : Text
  pub node_id : ℤ
  pub node_type : Text
  pub timeout : Text

pub record SyncConfig : Type 0 where
  pub pull_interval : Text
  pub status_interval : Text

-- `runtime` of the file.
pub record RuntimeSection : Type 0 where
  pub adapter : Text
  pub work_dir : Text
  pub apply_timeout : Text
  pub default_tcp_conn_limit : ℤ
  pub enforce_device_limit : Option Bool
  pub allow_targets : List Text
  pub block_targets : List Text

pub record PassXSection : Type 0 where
  pub enabled : Bool
  pub trusted_cidrs : List Text

pub record FileConfig : Type 0 where
  pub panel : PanelConfig
  pub sync : SyncConfig
  pub runtime : RuntimeSection
  pub passx : PassXSection
  pub log_level : Text

pub data ConfigError : Type 0 where
  not_read : ConfigError
  not_parsed : ConfigError
  is_required : Text → ConfigError
  node_id_not_positive : ConfigError
  is_invalid : Text → ConfigError

abbrev pub is_blank : Text → Bool
is_blank s = nat_eq (length s) 0

unfoldable pub default_if_empty : Text → Text → Text
default_if_empty value fallback = if is_blank (trim_space value) then fallback else value

unfoldable pub normalize_node_type : Text → Text
normalize_node_type value =
    let s = trim_space (to_lower value) in
    if text_eq s (codes "v2ray")
    then codes "vmess"
    else if text_eq s (codes "hysteria2")
    then codes "hysteria"
    else s

-- `strings.TrimRight(s, "/")`, on the text read backwards.
unfoldable pub drop_slashes : Text → Text
drop_slashes [] = []
drop_slashes (c ∷ s) = let rest = drop_slashes s in if nat_eq c b'/' then rest else c ∷ s

abbrev or_true : Option Bool → Option Bool
or_true none = some true
or_true (some b) = some b

unfoldable pub apply_defaults : FileConfig → FileConfig
apply_defaults cfg = record cfg {
  panel = record cfg.panel {
    provider = trim_space (to_lower cfg.panel.provider);
    base_url = reverse (drop_slashes (reverse (trim_space cfg.panel.base_url)));
    node_type = normalize_node_type cfg.panel.node_type;
    timeout = default_if_empty cfg.panel.timeout (codes "10s");
  };
  sync = record {
    pull_interval = default_if_empty cfg.sync.pull_interval (codes "60s");
    status_interval = default_if_empty cfg.sync.status_interval (codes "60s");
  };
  runtime = record cfg.runtime {
    adapter = trim_space (to_lower cfg.runtime.adapter);
    work_dir = default_if_empty cfg.runtime.work_dir (codes "./run");
    apply_timeout = default_if_empty cfg.runtime.apply_timeout (codes "15s");
    enforce_device_limit = or_true cfg.runtime.enforce_device_limit;
  };
  log_level = trim_space (to_lower (default_if_empty cfg.log_level (codes "info")));
}

-- The cases of `validate` in order, and its loop: the first test that fails gives the error.
unfoldable pub first_failure : List (Bool × ConfigError) → Result ConfigError (Unit {0})
first_failure [] = ok tt
first_failure ((passes, e) ∷ tests) =
    let rest = first_failure tests in if passes then rest else err e

abbrev required : Text → Text → Bool × ConfigError
required name value = (not (is_blank value), is_required name)

module _ (parse_duration : Text → Option ℤ) where
  abbrev parses : Text → Text → Bool × ConfigError
  parses name value = (not (is_none (parse_duration value)), is_invalid name)

  abbrev pub tests_of : FileConfig → List (Bool × ConfigError)
  tests_of cfg =
      required (codes "panel.provider") cfg.panel.provider
      ∷ required (codes "panel.base_url") cfg.panel.base_url
      ∷ required (codes "panel.token") cfg.panel.token
      ∷ (is_positive cfg.panel.node_id, node_id_not_positive)
      ∷ required (codes "panel.node_type") cfg.panel.node_type
      ∷ required (codes "runtime.adapter") cfg.runtime.adapter
      ∷ parses (codes "panel.timeout") cfg.panel.timeout
      ∷ parses (codes "sync.pull_interval") cfg.sync.pull_interval
      ∷ parses (codes "sync.status_interval") cfg.sync.status_interval
      ∷ parses (codes "runtime.apply_timeout") cfg.runtime.apply_timeout
      ∷ []

  unfoldable pub validate : FileConfig → Result ConfigError (Unit {0})
  validate cfg = first_failure (tests_of cfg)

  -- `Load`, from what reading and decoding the file gave.
  unfoldable pub load : Result ConfigError FileConfig → Result ConfigError FileConfig
  load decoded = do raw ← decoded; validate (apply_defaults raw); ok (apply_defaults raw)
