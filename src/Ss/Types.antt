-- ===== src/Ss/Types.antt =====
-- The configuration types of internal/ss/translate.go.
use small_x.Base.{ℤ, ℕ, Text, List, Bool}
use small_x.Model.{RouteRule}

pub record ObfsConfig : Type 0 where
  pub enabled : Bool
  pub mode : Text
  pub host : Text
  pub path : Text

pub record PassXConfig : Type 0 where
  pub enabled : Bool
  pub trusted_cidrs : List Text

pub record UserConfig : Type 0 where
  pub id : ℤ
  pub uuid : Text
  pub method : Text
  pub password : Text
  pub speed_limit : ℤ
  pub device_limit : ℤ
  pub tcp_conn_limit : ℤ

pub record ServerConfig : Type 0 where
  pub listen_ip : Text
  pub server_port : ℤ
  pub cipher : Text
  pub server_key : Text
  pub enable_tcp : Bool
  pub enable_udp : Bool
  pub obfs : ObfsConfig
  pub default_tcp_conn_limit : ℤ
  pub enforce_device_limit : Bool
  pub allow_targets : List Text
  pub block_targets : List Text
  pub routes : List RouteRule

pub record RuntimeConfig : Type 0 where
  pub server : ServerConfig
  pub users : List UserConfig
  pub passx : PassXConfig

pub record CipherSpec : Type 0 where
  pub name : Text
  pub is_2022 : Bool
  pub user_key_size : ℕ

pub record Options : Type 0 where
  pub default_tcp_conn_limit : ℤ
  pub enforce_device_limit : Bool
  pub allow_targets : List Text
  pub block_targets : List Text
  pub passx : PassXConfig
