-- ===== src/Ss/Translate/Configs.antt =====
-- The configuration that `Translate` of internal/ss/translate.go gives.
use small_x.Base.{
  ℕ, sym, ◌||◌, ◌⊎◌, ℤ, ◌≡◌, refl, ◌∙◌, Text, List, [], ◌∷◌, Bool, true, false, ◌&&◌, not, Option,
  none, some, text_eq, is_positive, Result, ok, err, >>=-eq-ok, guard, arith, Bool-cases, inl, inr,
  text_keys, subst,
}
use small_x.Base.Strings.{codes, trim_space, to_lower}
use small_x.Model.{NodeConfig, UserInfo}
use small_x.Ss.Translate.Secrets.{
  filled_key, is_filled, IsPasswordOf, Derives, derive_password-Derives,
}
use small_x.Ss.Translate.Plugins.{IsObfsOf, Parses, parse_obfs-Parses}
use small_x.Ss.Translate.Ciphers.{kind_of, Names, lookup-Names}
use small_x.Ss.Types.{RuntimeConfig, UserConfig, CipherSpec, Options}
use small_x.Ss.Translate.{
  TranslateError, is_empty, default_listen_ip, derive_password, parse_obfs, or_unsupported,
  for_user, translate_users, cipher_spec, server_of, translate, unsupported_protocol,
  bad_server_port, missing_server_key,
}

-- The configuration of one user of the panel: the password is of its secret, and the connection limit
-- is the node's own.
pub record IsConfigOf (encode : Text → Text) (cipher : Text) (is_2022 : Bool) (key_size : ℕ)
    (options : Options) (user : UserInfo) (cfg : UserConfig) : Type 0 where
  pub id : cfg.id ≡ user.id
  pub uuid : cfg.uuid ≡ user.uuid
  pub method : cfg.method ≡ cipher
  pub password : IsPasswordOf encode is_2022 key_size (trim_space user.uuid) cfg.password
  pub speed_limit : cfg.speed_limit ≡ user.speed_limit
  pub device_limit : cfg.device_limit ≡ user.device_limit
  pub tcp_conn_limit : cfg.tcp_conn_limit ≡ options.default_tcp_conn_limit

-- One configuration for each user, in the same order.
abbrev pub AreConfigsOf :
    (Text → Text) → Text → Bool → ℕ → Options → List UserInfo → List UserConfig → Type 0
AreConfigsOf encode cipher is_2022 key_size options [] [] = Unit
AreConfigsOf encode cipher is_2022 key_size options [] (c ∷ cs) = ⊥
AreConfigsOf encode cipher is_2022 key_size options (u ∷ us) [] = ⊥
AreConfigsOf encode cipher is_2022 key_size options (u ∷ us) (c ∷ cs) =
    IsConfigOf encode cipher is_2022 key_size options u c
    × AreConfigsOf encode cipher is_2022 key_size options us cs

for_user_ok :
    {A : Type 0} (id : ℤ) (r : Result TranslateError A) (a : A) → for_user id r ≡ ok a → r ≡ ok a
for_user_ok id (ok x) a h = cc
for_user_ok id (err e) a h = cc

translate_users-AreConfigsOf :
    (encode : Text → Text) (spec : CipherSpec) (options : Options) (users : List UserInfo)
    (out : List UserConfig)
    → translate_users encode spec options users ≡ ok out
    → AreConfigsOf encode spec.name spec.is_2022 spec.user_key_size options users out
unfolding translate_users
translate_users-AreConfigsOf encode spec options [] out h =
    subst (AreConfigsOf encode spec.name spec.is_2022 spec.user_key_size options [])
      (let e : [] ≡ out = cc in e) tt
translate_users-AreConfigsOf encode spec options (u ∷ users) out h =
    let (pass, e1, h1) = >>=-eq-ok (for_user u.id (derive_password encode spec u.uuid)) _ h in
    let (rest, e2, h2) = >>=-eq-ok (translate_users encode spec options users) _ h1 in
    let cfg : UserConfig = record {
      id = u.id;
      uuid = u.uuid;
      method = spec.name;
      password = pass;
      speed_limit = u.speed_limit;
      device_limit = u.device_limit;
      tcp_conn_limit = options.default_tcp_conn_limit;
    } in
    let e : cfg ∷ rest ≡ out = cc in
    let one : IsConfigOf encode spec.name spec.is_2022 spec.user_key_size options u cfg = record {
      id = refl;
      uuid = refl;
      method = refl;
      password =
          (subst (Derives encode spec.is_2022 spec.user_key_size u.uuid)
            (for_user_ok u.id (derive_password encode spec u.uuid) pass e1)
            (derive_password-Derives encode spec u.uuid)).1;
      speed_limit = refl;
      device_limit = refl;
      tcp_conn_limit = refl;
    } in
    subst (AreConfigsOf encode spec.name spec.is_2022 spec.user_key_size options (u ∷ users)) e
      (one, translate_users-AreConfigsOf encode spec options users rest e2)

-- The address to listen on: the one that is given, or every address.
abbrev pub IsListenIp : Text → Text → Type 0
IsListenIp given ip =
    ((is_filled (trim_space given) ≡ true) × (ip ≡ trim_space given))
    ⊎ ((is_filled (trim_space given) ≡ false) × (ip ≡ codes "0.0.0.0"))

default_listen_ip-IsListenIp : (value : Text) → IsListenIp value (default_listen_ip value)
unfolding default_listen_ip
default_listen_ip-IsListenIp value = elim (Bool-cases (is_empty (trim_space value))) [
  | inl blank ↦ inr (ground (arith, blank), rw blank refl)
  | inr given ↦ inl (ground (arith, given), rw given refl)
]

guard_ok : (b : Bool) (e : TranslateError) (u : Unit {0}) → guard b e ≡ ok u → b ≡ true
guard_ok true e u h = refl
guard_ok false e u h = cc

or_unsupported_ok :
    (name : Text) (o : Option CipherSpec) (spec : CipherSpec)
    → or_unsupported name o ≡ ok spec
    → o ≡ some spec
or_unsupported_ok name none spec h = cc
or_unsupported_ok name (some s) spec h = cc

-- The configuration of a node: the cipher by its own name, both protocols on, the node's port, key
-- and routes, the switches and lists of the options, and for every user in order its configuration.
pub record IsTranslated (encode : Text → Text) (node : NodeConfig) (users : List UserInfo)
    (options : Options) (cfg : RuntimeConfig) : Type 0 where
  pub is_2022 : Bool
  pub key_size : ℕ
  pub kind : kind_of (to_lower (trim_space node.cipher)) ≡ some (is_2022, key_size)
  pub cipher : cfg.server.cipher ≡ to_lower (trim_space node.cipher)
  pub tcp_on : cfg.server.enable_tcp ≡ true
  pub udp_on : cfg.server.enable_udp ≡ true
  pub listen_ip : IsListenIp node.listen_ip cfg.server.listen_ip
  pub server_port : cfg.server.server_port ≡ node.server_port
  pub positive : is_positive cfg.server.server_port ≡ true
  pub server_key : cfg.server.server_key ≡ node.server_key
  pub keyed : (not is_2022 || is_filled (trim_space cfg.server.server_key)) ≡ true
  pub obfs : IsObfsOf node.plugin node.plugin_opts cfg.server.obfs
  pub enforced : cfg.server.enforce_device_limit ≡ options.enforce_device_limit
  pub tcp_conn_limit : cfg.server.default_tcp_conn_limit ≡ options.default_tcp_conn_limit
  pub allowed : cfg.server.allow_targets ≡ options.allow_targets
  pub blocked : cfg.server.block_targets ≡ options.block_targets
  pub routes : cfg.server.routes ≡ node.routes
  pub passx : cfg.passx ≡ options.passx
  pub configs :
      AreConfigsOf encode
        (to_lower (trim_space node.cipher))
        is_2022
        key_size
        options
        users
        cfg.users

-- What `Translate` gives when it succeeds: the cipher by its own name, one of the supported ones,
-- both protocols on, the address to listen on or `0.0.0.0`, the node's port, which is positive, the
-- node's key, which is not blank for a 2022 cipher, and routes, the plugin off or HTTP with the host
-- and path of its options, the device limit switch, connection limit, target lists and PassX options
-- of the options, and for every user in order a configuration with the user's limits and the
-- password of its secret: the secret itself, or for a 2022 cipher its part behind the colon or its
-- encoded first bytes.
pub translate_sound :
    (encode : Text → Text) (node : NodeConfig) (users : List UserInfo) (options : Options)
    (cfg : RuntimeConfig)
    → translate encode node users options ≡ ok cfg
    → IsTranslated encode node users options cfg
unfolding translate
translate_sound encode node users options cfg h =
    let (u0, e0, h0) =
      >>=-eq-ok
        (guard (text_eq (to_lower node.protocol) (codes "shadowsocks"))
          (unsupported_protocol node.protocol))
        _ h in
    let (spec, e1, h1) = >>=-eq-ok (or_unsupported node.cipher (cipher_spec node)) _ h0 in
    let (u2, e2, h2) = >>=-eq-ok (guard (is_positive node.server_port) bad_server_port) _ h1 in
    let (u3, e3, h3) =
      >>=-eq-ok
        (guard (not (spec.is_2022 && is_empty (trim_space node.server_key))) missing_server_key) _
        h2 in
    let (obfs, e4, h4) = >>=-eq-ok (parse_obfs node.plugin node.plugin_opts) _ h3 in
    let (configs, e5, h5) = >>=-eq-ok (translate_users encode spec options users) _ h4 in
    let known = or_unsupported_ok node.cipher (cipher_spec node) spec e1 in
    let made : RuntimeConfig = record {
      server = server_of node options spec obfs;
      users = configs;
      passx = options.passx;
    } in
    let same : made ≡ cfg = cc in
    let (named, kinds) =
      subst (Names (to_lower (trim_space node.cipher))) known
        (lookup-Names (to_lower (trim_space node.cipher))) in
    subst (IsTranslated encode node users options) same (record {
      is_2022 = spec.is_2022;
      key_size = spec.user_key_size;
      kind = kinds;
      cipher = named;
      tcp_on = refl;
      udp_on = refl;
      listen_ip = default_listen_ip-IsListenIp node.listen_ip;
      server_port = refl;
      positive = guard_ok (is_positive node.server_port) bad_server_port u2 e2;
      server_key = refl;
      keyed =
          sym (filled_key spec.is_2022 (trim_space node.server_key))
          ∙ guard_ok (not (spec.is_2022 && is_empty (trim_space node.server_key)))
              missing_server_key u3 e3;
      obfs =
          (subst (Parses node.plugin node.plugin_opts) e4
            (parse_obfs-Parses node.plugin node.plugin_opts)).1;
      enforced = refl;
      tcp_conn_limit = refl;
      allowed = refl;
      blocked = refl;
      routes = refl;
      passx = refl;
      configs =
          subst
            (λ name. AreConfigsOf encode name spec.is_2022 spec.user_key_size options users configs)
            named (translate_users-AreConfigsOf encode spec options users configs e5);
    })
