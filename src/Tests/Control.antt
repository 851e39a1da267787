-- ===== src/Tests/Control.antt =====
-- The agent, the panel's client and the runtime at concrete inputs.
use small_x.Base.{
  pos, ◌≡◌, ◌≢◌, refl, subst, sym, Text, [], ◌∷◌, ◌++◌, true, false, Option, some, none, ok, err,
  text_eq, if◌then◌else◌,
}
use small_x.Base.Strings.{codes, trim_space, to_lower}
use small_x.Model.{NodeConfig, UserInfo}
use small_x.Config.{PanelConfig}
use small_x.Ss.Service.{Answers}
use small_x.Panel.{
  Codec, Panel, Response, no_node, new_client, node_path, users_path, decode_node,
  decode_users_response, conditional_get, transport_failed, not_decoded, xboard,
}
use small_x.Panel.Caching.{Endpoint, Serves, respond, conditional_get-undecoded}
use small_x.Backend.{Moment, dry_run, new_dry_run}
use small_x.Agent.{Agent, SyncEnv, new_agent, sync_once, panel_failed}
use small_x.Agent.Sync.{Remembers, IsOutcome}
use small_x.Agent.Tracking.{IsHonest, starts, syncs, sync_once_lem}
use small_x.Agent.Tracking.Updates.{node_update_lost}

abbrev pub node_named : Text → NodeConfig
node_named name = record no_node {
  protocol = codes "shadowsocks";
  server_port = pos 8388;
  cipher = name;
}

abbrev pub user_named : Text → UserInfo
user_named name = record {
  id = pos 1;
  uuid = name;
  password = [];
  speed_limit = pos 10;
  device_limit = pos 2;
  tcp_limit = pos 5;
}

-- A body is a letter and a name; the empty body does not decode.
abbrev pub decoded_node : Text → Option NodeConfig
decoded_node [] = none
decoded_node (c ∷ name) = some (node_named name)

abbrev pub codec : Codec
codec = record {
  is_url = λ s. true;
  node_from_json = decoded_node;
  users_from_json = λ b. some (user_named b ∷ []);
  users_from_msgpack = λ b. none;
  traffic_to_json = λ m. some (codes "{}");
  alive_to_json = λ m. some (codes "{}");
  status_to_json = λ s. some (codes "{}");
}

abbrev pub cfg : PanelConfig
cfg = record {
  provider = codes "xboard";
  base_url = codes "http://panel";
  token = codes "t";
  node_id = pos 1;
  node_type = codes "shadowsocks";
  timeout = codes "10s";
}

abbrev node_answer : Text → Response
node_answer t = record { status = 200; etag = t; content_type = []; body = b'{' ∷ t }

abbrev users_answer : Text → Response
users_answer t = record { status = 200; etag = t; content_type = []; body = t }

decode-node_answer : (t : Text) → decode_node codec (node_answer t) ≡ ok (node_named t)
unfolding decode_node
decode-node_answer t = refl

decode-users_answer :
    (t : Text) → decode_users_response codec (users_answer t) ≡ ok (user_named t ∷ [])
unfolding decode_users_response trim_space to_lower
decode-users_answer t = refl

abbrev nodes : Endpoint (decode_node codec)
nodes = record {
  value = node_named;
  answer = node_answer;
  fine = λ t. refl;
  tagged = λ t. refl;
  decodes = decode-node_answer;
}

abbrev users : Endpoint (decode_users_response codec)
users = record {
  value = λ t. user_named t ∷ [];
  answer = users_answer;
  fine = λ t. refl;
  tagged = λ t. refl;
  decodes = decode-users_answer;
}

abbrev node_url : Text
node_url = cfg.base_url ++ node_path

abbrev users_url : Text
users_url = cfg.base_url ++ users_path

abbrev panel : Text → Text → Panel
panel n u r =
    if text_eq r.url node_url
    then some (respond nodes n r.if_none_match)
    else if text_eq r.url users_url
    then some (respond users u r.if_none_match)
    else none

panel-node : (n u : Text) → Serves nodes node_url n (panel n u)
panel-node n u r e =
    let h : text_eq r.url node_url ≡ true = subst (λ x. text_eq x node_url ≡ true) (sym e) refl in
    rw h refl

panel-users : (n u : Text) → Serves users users_url u (panel n u)
panel-users n u r e =
    let g : text_eq r.url node_url ≡ false = subst (λ x. text_eq x node_url ≡ false) (sym e) refl in
    let h : text_eq r.url users_url ≡ true = subst (λ x. text_eq x users_url ≡ true) (sym e) refl in
    rw (g, h) refl

abbrev pub fine : Answers
fine = record { tcp_listens = true; udp_resolves = true; udp_listens = true }

abbrev pub moment : Moment
moment = record { now = 0; answers = fine }

abbrev env_of : Panel → Panel → SyncEnv (xboard codec) dry_run
env_of at_node at_users = record {
  at_node = at_node;
  at_users = at_users;
  at_rules = at_node;
  at_apply = moment;
}

abbrev pub n1 : Text
n1 = codes "aes-128-gcm"

abbrev pub n2 : Text
n2 = codes "aes-256-gcm"

abbrev pub u1 : Text
u1 = codes "u-1"

some_n1 : n1 ≢ []
some_n1 e = cc (e)

some_n2 : n2 ≢ []
some_n2 e = cc (e)

some_u1 : u1 ≢ []
some_u1 e = cc (e)

abbrev env1 : SyncEnv (xboard codec) dry_run
env1 = env_of (panel n1 u1) (panel n1 u1)

abbrev env2 : SyncEnv (xboard codec) dry_run
env2 = env_of (panel n2 u1) (panel n2 u1)

honest1 : IsHonest codec dry_run cfg nodes users n1 u1 env1
honest1 = record {
  some_node = some_n1;
  some_users = some_u1;
  node_served = panel-node n1 u1;
  users_served = panel-users n1 u1;
}

honest2 : IsHonest codec dry_run cfg nodes users n2 u1 env2
honest2 = record {
  some_node = some_n2;
  some_users = some_u1;
  node_served = panel-node n2 u1;
  users_served = panel-users n2 u1;
}

abbrev started : Agent (xboard codec) dry_run
started = new_agent (xboard codec) dry_run (new_client cfg) (new_dry_run 0)

abbrev synced : Agent (xboard codec) dry_run
synced = (sync_once (xboard codec) dry_run env1 started).0

sync_once_lem_example :
    let after = sync_once (xboard codec) dry_run env2 synced in
    Remembers (xboard codec) dry_run (node_named n2) (user_named u1 ∷ []) after.0
    × IsOutcome (xboard codec) dry_run moment (node_named n2) (user_named u1 ∷ []) synced after
sync_once_lem_example =
    sync_once_lem codec dry_run cfg nodes users n2 u1 env2 synced refl refl
      (syncs started n1 u1 env1 honest1 (starts (new_dry_run 0))) honest2

abbrev pub down : Panel
down r = none

node_update_lost_example :
    let second = sync_once (xboard codec) dry_run (env_of (panel n2 u1) down) synced in
    let third = sync_once (xboard codec) dry_run env2 second.0 in
    (second.1 ≡ err (panel_failed transport_failed))
    × (third.1 ≡ ok tt)
    × (third.0.runtime ≡ synced.runtime)
    × (third.0.last_node ≡ some (node_named n1))
node_update_lost_example =
    node_update_lost codec dry_run cfg nodes users n1 n2 u1 env1 (env_of (panel n2 u1) down) env2
      started refl refl (starts (new_dry_run 0)) honest1 some_n2 (panel-node n2 u1) (λ r. refl)
      honest2

-- An answer whose body was cut off.
abbrev cut_off : Response
cut_off = record (node_answer n2) { body = [] }

conditional_get-undecoded_example :
    let after =
      conditional_get codec
        (decode_node codec)
        node_path
        (codes "node")
        []
        (λ r. some cut_off)
        (new_client cfg) in
    (after.1 ≡ err not_decoded)
    × ((conditional_get codec
          (decode_node codec)
          node_path
          (codes "node")
          []
          (panel n2 u1)
          after.0).1
        ≡ ok none)
unfolding decode_node new_client
conditional_get-undecoded_example =
    conditional_get-undecoded codec nodes node_path (codes "node") [] (λ r. some cut_off)
      (panel n2 u1) n2 cut_off not_decoded (new_client cfg) refl some_n2 refl refl refl refl
      (panel-node n2 u1)
