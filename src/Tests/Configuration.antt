-- ===== src/Tests/Configuration.antt =====
-- A configuration file that leaves most settings out.
use small_x.Base.{pos, ◌≡◌, refl, [], true, false, none, some, ok, is_ok}
use small_x.Base.Strings.{codes, trim_space, to_lower}
use small_x.Config.{
  FileConfig, default_if_empty, normalize_node_type, drop_slashes, apply_defaults, first_failure,
  validate, load,
}
use small_x.Config.Loading.{is_complete, is_ok-load}

program : Unit {0}
unfolding trim_space to_lower default_if_empty normalize_node_type drop_slashes apply_defaults
    first_failure validate load
program = tt

abbrev file : FileConfig
file = record {
  panel = record {
    provider = codes " XBoard ";
    base_url = codes "https://panel//";
    token = codes "t";
    node_id = pos 3;
    node_type = codes "V2ray";
    timeout = [];
  };
  sync = record { pull_interval = []; status_interval = codes "5s" };
  runtime = record {
    adapter = codes "dryrun";
    work_dir = [];
    apply_timeout = [];
    default_tcp_conn_limit = pos 8;
    enforce_device_limit = none;
    allow_targets = [];
    block_targets = [];
  };
  passx = record { enabled = false; trusted_cidrs = [] };
  log_level = [];
}

defaults_run :
    ((apply_defaults file).panel.base_url ≡ codes "https://panel")
    × ((apply_defaults file).panel.node_type ≡ codes "vmess")
    × ((apply_defaults file).runtime.enforce_device_limit ≡ some true)
    × (is_ok (load (λ s. some (pos 1)) (ok file)) ≡ true)
unfolding program
defaults_run = (refl, refl, refl, refl)

is_ok-load_example :
    is_ok (load (λ s. some (pos 1)) (ok file))
    ≡ is_complete (λ s. some (pos 1)) (apply_defaults file)
is_ok-load_example = is_ok-load (λ s. some (pos 1)) file
