-- ===== src/Tests/Translation.antt =====
-- The translation of the panel's data at concrete inputs.
use small_x.Base.{pos, ◌≡◌, refl, List, [], ◌∷◌, true, false, ok}
use small_x.Base.Strings.{
  codes, trim_space, to_lower, contains_byte, split, cut, split_first, has_prefix_byte,
}
use small_x.Base.Map.{lookup, insert}
use small_x.Model.{NodeConfig, UserInfo}
use small_x.Ss.Types.{RuntimeConfig, Options}
use small_x.Ss.Translate.{
  translate, translate_users, derive_password, default_listen_ip, parse_obfs, parse_plugin_opts,
  add_options,
}
use small_x.Ss.Translate.Configs.{IsTranslated, translate_sound}

program : Unit {0}
unfolding translate translate_users derive_password default_listen_ip parse_obfs parse_plugin_opts
    add_options trim_space to_lower contains_byte split cut split_first has_prefix_byte lookup
    insert
program = tt

abbrev node : NodeConfig
node = record {
  protocol = codes "shadowsocks";
  listen_ip = [];
  server_port = pos 8388;
  network = [];
  network_settings = [];
  tls = pos 0;
  tls_settings = [];
  multiplex = [];
  flow = [];
  host = [];
  server_name = [];
  cipher = codes " AES-128-GCM";
  server_key = [];
  plugin = codes "obfs";
  plugin_opts = codes "obfs=http; path=p";
  routes = [];
}

abbrev users : List UserInfo
users =
    record {
      id = pos 1;
      uuid = codes " u-1 ";
      password = [];
      speed_limit = pos 10;
      device_limit = pos 2;
      tcp_limit = pos 5;
    }
    ∷ []

abbrev options : Options
options = record {
  default_tcp_conn_limit = pos 100;
  enforce_device_limit = true;
  allow_targets = [];
  block_targets = [];
  passx = record { enabled = false; trusted_cidrs = [] };
}

abbrev cfg : RuntimeConfig
cfg = record {
  server = record {
    listen_ip = codes "0.0.0.0";
    server_port = pos 8388;
    cipher = codes "aes-128-gcm";
    server_key = [];
    enable_tcp = true;
    enable_udp = true;
    obfs = record { enabled = true; mode = codes "http"; host = []; path = codes "/p" };
    default_tcp_conn_limit = pos 100;
    enforce_device_limit = true;
    allow_targets = [];
    block_targets = [];
    routes = [];
  };
  users =
      record {
        id = pos 1;
        uuid = codes " u-1 ";
        method = codes "aes-128-gcm";
        password = codes "u-1";
        speed_limit = pos 10;
        device_limit = pos 2;
        tcp_conn_limit = pos 100;
      }
      ∷ [];
  passx = options.passx;
}

translate_run : translate (λ s. s) node users options ≡ ok cfg
unfolding program
translate_run = refl

translate_sound_example : IsTranslated (λ s. s) node users options cfg
unfolding program
translate_sound_example = translate_sound (λ s. s) node users options cfg refl
