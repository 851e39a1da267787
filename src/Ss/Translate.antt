-- ===== src/Ss/Translate.antt =====
-- internal/ss/translate.go: from what the panel sends to the configuration of the runtime. The
-- encoder of `encoding/base64` is a parameter.
pub mod Secrets
pub mod Plugins
pub mod Ciphers
pub mod Accepts
pub mod Configs
use small_x.Base.{
  ℤ, ℕ, ◌≡◌, Text, List, [], ◌∷◌, ◌++◌, Bool, true, false, ◌&&◌, ◌||◌, not, Option, none, some,
  length, take, ltb, nat_eq, text_eq, text_keys, is_positive, if◌then◌else◌, Result, ok, err, ◌>>=◌,
  ◌>>◌, guard,
}
use small_x.Base.Strings.{codes, trim_space, to_lower, contains_byte, has_prefix_byte, cut, split}
use small_x.Base.Map.{lookup, insert}
use small_x.Model.{NodeConfig, UserInfo}
use small_x.Ss.Types.{
  RuntimeConfig, ServerConfig, UserConfig, PassXConfig, ObfsConfig, CipherSpec, Options,
}

pub data TranslateError : Type 0 where
  unsupported_protocol : Text → TranslateError
  unsupported_cipher : Text → TranslateError
  bad_server_port : TranslateError
  missing_server_key : TranslateError
  unsupported_plugin : Text → TranslateError
  missing_obfs_mode : TranslateError
  unsupported_obfs_mode : Text → TranslateError
  empty_user_secret : TranslateError
  user_secret_too_short : Text → TranslateError
  bad_user : ℤ → TranslateError → TranslateError

abbrev pub is_empty : Text → Bool
is_empty s = nat_eq (length s) 0

abbrev plain_cipher : Text → CipherSpec
plain_cipher name = record { name = name; is_2022 = false; user_key_size = 0 }

abbrev pub ciphers : List (Text × CipherSpec)
ciphers =
    (codes "chacha20-ietf-poly1305", plain_cipher (codes "chacha20-ietf-poly1305"))
    ∷ (codes "aes-128-gcm", plain_cipher (codes "aes-128-gcm"))
    ∷ (codes "aes-192-gcm", plain_cipher (codes "aes-192-gcm"))
    ∷ (codes "aes-256-gcm", plain_cipher (codes "aes-256-gcm"))
    ∷ (
      codes "2022-blake3-aes-128-gcm",
      record { name = codes "2022-blake3-aes-128-gcm"; is_2022 = true; user_key_size = 16 },
    )
    ∷ (
      codes "2022-blake3-aes-256-gcm",
      record { name = codes "2022-blake3-aes-256-gcm"; is_2022 = true; user_key_size = 32 },
    )
    ∷ []

abbrev pub supported_ciphers : List Text
supported_ciphers =
    codes "chacha20-ietf-poly1305"
    ∷ codes "aes-128-gcm"
    ∷ codes "aes-192-gcm"
    ∷ codes "aes-256-gcm"
    ∷ codes "2022-blake3-aes-128-gcm"
    ∷ codes "2022-blake3-aes-256-gcm"
    ∷ []

unfoldable pub default_listen_ip : Text → Text
default_listen_ip value = let s = trim_space value in if is_empty s then codes "0.0.0.0" else s

-- The user's part of `serverKey:userKey`.
abbrev pub user_part : List Text → Option Text
user_part [] = none
user_part (a ∷ []) = none
user_part (a ∷ b ∷ []) = if is_empty (trim_space b) then none else some (trim_space b)
user_part (a ∷ b ∷ c ∷ ss) = none

unfoldable pub derive_password : (Text → Text) → CipherSpec → Text → Result TranslateError Text
derive_password encode spec secret =
    let raw = trim_space secret in
    let prefix = take spec.user_key_size raw in
    let encoded =
      if ltb (length raw) spec.user_key_size
      then err (user_secret_too_short spec.name)
      else ok (encode prefix) in
    let long = elim (user_part (split b':' raw)) as (λ _. Result TranslateError Text) [
      | none ↦ encoded
      | some part ↦ ok part
    ] in
    if is_empty raw
    then err empty_user_secret
    else if not spec.is_2022
    then ok raw
    else if contains_byte b':' raw
    then long
    else encoded

-- `out[key] = value` for a part of the options.
abbrev pub add_option : Text → List (Text × Text) → List (Text × Text)
add_option part out = elim (cut b'=' part) [
  | none ↦ insert part [] out
  | some (key, value) ↦ insert (trim_space key) (trim_space value) out
]

unfoldable pub add_options : List Text → List (Text × Text) → List (Text × Text)
add_options [] out = out
add_options (raw ∷ parts) out =
    let part = trim_space raw in
    add_options parts (if is_empty part then out else add_option part out)

unfoldable pub parse_plugin_opts : Text → List (Text × Text)
parse_plugin_opts raw = add_options (split b';' raw) []

abbrev pub or_text : Option Text → Text
or_text none = []
or_text (some s) = s

-- `kv[key]`.
abbrev pub option_of : Text → List (Text × Text) → Text
option_of key kv = or_text (lookup key kv)

abbrev pub no_obfs : ObfsConfig
no_obfs = record { enabled = false; mode = []; host = []; path = [] }

abbrev pub obfs_mode : List (Text × Text) → Text
obfs_mode kv =
    let mode = to_lower (trim_space (option_of (codes "obfs") kv)) in
    if is_empty mode then to_lower (trim_space (option_of (codes "mode") kv)) else mode

abbrev pub obfs_path : Text → Text
obfs_path given =
    let path = if is_empty given then codes "/" else given in
    if has_prefix_byte b'/' path then path else b'/' ∷ path

unfoldable pub parse_obfs : Text → Text → Result TranslateError ObfsConfig
parse_obfs plugin plugin_opts =
    let name = to_lower (trim_space plugin) in
    let opts = trim_space plugin_opts in
    let kv = parse_plugin_opts opts in
    let mode = obfs_mode kv in
    if is_empty name || is_empty opts
    then ok no_obfs
    else if not (text_eq name (codes "obfs")) && not (text_eq name (codes "obfs-local"))
    then err (unsupported_plugin name)
    else if is_empty mode
    then err missing_obfs_mode
    else if not (text_eq mode (codes "http"))
    then err (unsupported_obfs_mode mode)
    else ok (record {
      enabled = true;
      mode = mode;
      host = option_of (codes "obfs-host") kv;
      path = obfs_path (option_of (codes "path") kv);
    })

abbrev pub or_unsupported : Text → Option CipherSpec → Result TranslateError CipherSpec
or_unsupported name none = err (unsupported_cipher name)
or_unsupported name (some spec) = ok spec

abbrev pub for_user : {A : Type 0} → ℤ → Result TranslateError A → Result TranslateError A
for_user id (ok a) = ok a
for_user id (err e) = err (bad_user id e)

-- The loop over the users.
unfoldable pub translate_users :
    (Text → Text) → CipherSpec → Options → List UserInfo → Result TranslateError (List UserConfig)
translate_users encode spec options [] = ok []
translate_users encode spec options (user ∷ users) = do
  pass ← for_user user.id (derive_password encode spec user.uuid)
  rest ← translate_users encode spec options users
  ok (
      record {
        id = user.id;
        uuid = user.uuid;
        method = spec.name;
        password = pass;
        speed_limit = user.speed_limit;
        device_limit = user.device_limit;
        tcp_conn_limit = options.default_tcp_conn_limit;
      }
      ∷ rest)

abbrev pub server_of : NodeConfig → Options → CipherSpec → ObfsConfig → ServerConfig
server_of node options spec obfs = record {
  listen_ip = default_listen_ip node.listen_ip;
  server_port = node.server_port;
  cipher = spec.name;
  server_key = node.server_key;
  enable_tcp = true;
  enable_udp = true;
  obfs = obfs;
  default_tcp_conn_limit = options.default_tcp_conn_limit;
  enforce_device_limit = options.enforce_device_limit;
  allow_targets = options.allow_targets;
  block_targets = options.block_targets;
  routes = node.routes;
}

abbrev pub cipher_spec : NodeConfig → Option CipherSpec
cipher_spec node = lookup (to_lower (trim_space node.cipher)) ciphers

unfoldable pub translate :
    (Text → Text) → NodeConfig → List UserInfo → Options → Result TranslateError RuntimeConfig
translate encode node users options = do
  guard (text_eq (to_lower node.protocol) (codes "shadowsocks"))
      (unsupported_protocol node.protocol)
  spec ← or_unsupported node.cipher (cipher_spec node)
  guard (is_positive node.server_port) bad_server_port
  guard (not (spec.is_2022 && is_empty (trim_space node.server_key))) missing_server_key
  obfs ← parse_obfs node.plugin node.plugin_opts
  configs ← translate_users encode spec options users
  ok (record { server = server_of node options spec obfs; users = configs; passx = options.passx })
