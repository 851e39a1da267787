-- ===== src/Ss/Translate/Accepts.antt =====
-- What `Translate` of internal/ss/translate.go accepts.
use small_x.Base.{
  ℕ, ◌||◌, Text, List, [], ◌∷◌, Bool, true, false, ◌&&◌, not, Option, none, some, text_eq,
  is_positive, is_ok, text_keys,
}
use small_x.Base.Strings.{codes, trim_space, to_lower}
use small_x.Model.{NodeConfig, UserInfo}
use small_x.Ss.Translate.Secrets.{is_filled, is_good_secret}
use small_x.Ss.Translate.Plugins.{is_good_plugin}
use small_x.Ss.Translate.Ciphers.{kind_of}
use small_x.Ss.Types.{CipherSpec}
use small_x.Ss.Translate.{is_empty, derive_password, parse_obfs}

abbrev all_users : (Text → Text) → CipherSpec → List UserInfo → Bool
all_users encode spec [] = true
all_users encode spec (u ∷ us) =
    is_ok (derive_password encode spec u.uuid) && all_users encode spec us

-- What `Translate` asks of the panel's data, given the cipher.
abbrev pub is_usable : (Text → Text) → NodeConfig → List UserInfo → CipherSpec → Bool
is_usable encode node users spec =
    is_positive node.server_port
    && (not (spec.is_2022 && is_empty (trim_space node.server_key))
        && (is_ok (parse_obfs node.plugin node.plugin_opts) && all_users encode spec users))

abbrev pub has_usable : (Text → Text) → NodeConfig → List UserInfo → Option CipherSpec → Bool
has_usable encode node users none = false
has_usable encode node users (some spec) = is_usable encode node users spec

abbrev pub have_good_secrets : Bool → ℕ → List UserInfo → Bool
have_good_secrets is_2022 key_size [] = true
have_good_secrets is_2022 key_size (u ∷ us) =
    is_good_secret is_2022 key_size u.uuid && have_good_secrets is_2022 key_size us

-- What the panel's data must be, given the kind of the cipher.
abbrev pub fits_kind : NodeConfig → List UserInfo → Option (Bool × ℕ) → Bool
fits_kind node users none = false
fits_kind node users (some (is_2022, key_size)) =
    is_positive node.server_port
    && ((not is_2022 || is_filled (trim_space node.server_key))
        && (is_good_plugin node.plugin node.plugin_opts
            && have_good_secrets is_2022 key_size users))

abbrev pub is_accepted : NodeConfig → List UserInfo → Bool
is_accepted node users =
    text_eq (to_lower node.protocol) (codes "shadowsocks")
    && fits_kind node users (kind_of (to_lower (trim_space node.cipher)))
