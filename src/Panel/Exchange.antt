-- ===== src/Panel/Exchange.antt =====
-- internal/provider/xboard/client.go: requests, answers, the client's state, and what does not depend on
-- the codec.
use small_x.Base.{
  ℤ, pos, ℕ, Text, List, [], ◌∷◌, ◌++◌, Bool, true, false, ◌||◌, Option, none, some, length, nat_eq,
  leb, text_eq, int_keys, text_keys, if◌then◌else◌, Result, ok, err, take,
}
use small_x.Base.Strings.{codes}
use small_x.Base.Map.{lookup, insert}
use small_x.Model.{NodeConfig, UserInfo, TrafficReport, AliveIp, StatusReport}
use small_x.Config.{PanelConfig}

pub data Method : Type 0 where
  get : Method
  post : Method

-- A header that is not set is the empty text. The query has the token, the node's id and its type.
pub record Request : Type 0 where
  pub method : Method
  pub url : Text
  pub token : Text
  pub node_id : ℤ
  pub node_type : Text
  pub accept : Text
  pub content_type : Text
  pub if_none_match : Text
  pub body : Text

pub record Response : Type 0 where
  pub status : ℕ
  pub etag : Text
  pub content_type : Text
  pub body : Text

abbrev pub Panel : Type 0
Panel = Request → Option Response

pub data ClientError : Type 0 where
  bad_url : ClientError
  transport_failed : ClientError
  not_found : ClientError
  refused : ℕ → ClientError
  not_decoded : ClientError
  unsupported_content_type : Text → ClientError
  not_encoded : ClientError

-- `encoding/json`, `net/url` and github.com/vmihailenco/msgpack as far as the client calls them.
pub record Codec : Type 0 where
  pub is_url : Text → Bool
  pub node_from_json : Text → Option NodeConfig
  pub users_from_json : Text → Option (List UserInfo)
  pub users_from_msgpack : Text → Option (List UserInfo)
  pub traffic_to_json : List (ℤ × List ℕ) → Option Text
  pub alive_to_json : List (ℤ × List Text) → Option Text
  pub status_to_json : StatusReport → Option Text

-- `sent` holds the requests in their order; the source does not keep them.
pub record Client : Type 0 where
  pub cfg : PanelConfig
  pub etags : List (Text × Text)
  pub sent : List Request

unfoldable pub new_client : PanelConfig → Client
new_client cfg = record { cfg = cfg; etags = []; sent = [] }

abbrev pub or_no_text : Option Text → Text
or_no_text none = []
or_no_text (some s) = s

unfoldable pub get_etag : Client → Text → Text
get_etag c key = or_no_text (lookup key c.etags)

unfoldable pub set_etag : Client → Text → Text → Client
set_etag c key value = record c { etags = insert key value c.etags }

abbrev pub make_url : Client → Text → Text
make_url c path = c.cfg.base_url ++ path

-- The request with the query that `addQuery` sets.
unfoldable pub get_request : Client → Text → Text → Text → Request
get_request c path key accept = record {
  method = get;
  url = make_url c path;
  token = c.cfg.token;
  node_id = c.cfg.node_id;
  node_type = c.cfg.node_type;
  accept = accept;
  content_type = [];
  if_none_match = get_etag c key;
  body = [];
}

unfoldable pub post_request : Client → Text → Text → Request
post_request c path body = record {
  method = post;
  url = make_url c path;
  token = c.cfg.token;
  node_id = c.cfg.node_id;
  node_type = c.cfg.node_type;
  accept = [];
  content_type = codes "application/json";
  if_none_match = [];
  body = body;
}

abbrev pub log_request : Client → Request → Client
log_request c r = record c { sent = c.sent ++ r ∷ [] }

-- `if etag := resp.Header.Get("ETag"); etag != "" { c.setETag(key, etag) }`.
unfoldable pub keep_etag : Client → Text → Response → Client
keep_etag c key r = if nat_eq (length r.etag) 0 then c else set_etag c key r.etag

abbrev pub decoded : {A : Type 0} → Result ClientError A → Result ClientError (Option A)
decoded (ok a) = ok (some a)
decoded (err e) = err e

-- What `getJSON` and `getUsers` do with an answer: none where the panel has nothing new.
unfoldable pub take_answer :
    {A : Type 0}
    → (Response → Result ClientError A)
    → Text
    → Client
    → Response
    → Client × Result ClientError (Option A)
take_answer decode key c r =
    if nat_eq r.status 304
    then (c, ok none)
    else if nat_eq r.status 404
    then (c, err not_found)
    else if leb 300 r.status
    then (c, err (refused r.status))
    else (keep_etag c key r, decoded (decode r))

abbrev pub answer_of :
    {A : Type 0}
    → (Response → Result ClientError A)
    → Text
    → Client
    → Option Response
    → Client × Result ClientError (Option A)
answer_of decode key c none = (c, err transport_failed)
answer_of decode key c (some r) = take_answer decode key c r

-- `strings.Contains(s, part)`.
abbrev pub contains_text : Text → Text → Bool
contains_text [] part = text_eq [] part
contains_text (a ∷ s) part = text_eq (take (length part) (a ∷ s)) part || contains_text s part

abbrev pub or_not_decoded : {A : Type 0} → Option A → Result ClientError A
or_not_decoded none = err not_decoded
or_not_decoded (some a) = ok a

abbrev pub node_path : Text
node_path = codes "/api/v1/server/UniProxy/config"

abbrev pub users_path : Text
users_path = codes "/api/v1/server/UniProxy/user"

abbrev pub users_accept : Text
users_accept = codes "application/msgpack, application/x-msgpack, application/json"

-- Go's zero value of a node.
abbrev pub no_node : NodeConfig
no_node = record {
  protocol = [];
  listen_ip = [];
  server_port = pos 0;
  network = [];
  network_settings = [];
  tls = pos 0;
  tls_settings = [];
  multiplex = [];
  flow = [];
  host = [];
  server_name = [];
  cipher = [];
  server_key = [];
  plugin = [];
  plugin_opts = [];
  routes = [];
}

-- The value and the flag `changed`.
abbrev pub with_flag :
    {A : Type 0} → A → Result ClientError (Option A) → Result ClientError (A × Bool)
with_flag zero_value (err e) = err e
with_flag zero_value (ok none) = ok (zero_value, false)
with_flag zero_value (ok (some a)) = ok (a, true)

-- `postJSON` of a body that was encoded.
abbrev pub posted : Client → Option Response → Client × Result ClientError (Unit {0})
posted c none = (c, err transport_failed)
posted c (some r) = (c, if leb 300 r.status then err (refused r.status) else ok tt)

-- `data[item.ID] = []int64{item.U, item.D}` for each item.
unfoldable pub traffic_data : List TrafficReport → List (ℤ × List ℕ) → List (ℤ × List ℕ)
traffic_data [] m = m
traffic_data (t ∷ ts) m = traffic_data ts (insert t.id (t.u ∷ t.d ∷ []) m)

unfoldable pub alive_data : List AliveIp → List (ℤ × List Text) → List (ℤ × List Text)
alive_data [] m = m
alive_data (a ∷ rest) m = alive_data rest (insert a.id a.ips m)
