-- ===== src/Agent/Tracking.antt =====
-- internal/agent/agent.go with internal/provider/xboard/client.go: the agent follows a panel.
pub mod Updates
use small_x.Base.{
  Text, [], ◌++◌, ◌≡◌, ◌≢◌, refl, ap, sym, subst, ◌∙◌, err, none, Bool, true, false, Option, some,
  Result, ok, ◌⊎◌, inl, inr, text_keys,
}
use small_x.Base.Strings.{codes}
use small_x.Base.Map.{lookup}
use small_x.Model.{RuntimeSnapshot, NodeConfig}
use small_x.Config.{PanelConfig}
use small_x.Backend.{Runtime}
use small_x.Agent.{
  Agent, report_snapshot, Fetched, SyncEnv, PushEnv, fetch_all, use_fetches, sync_once,
  push_snapshot, new_agent, panel_failed, report_all, and_then,
}
use small_x.Agent.Sync.{
  IsLatest, IsOutcome, Remembers, use_fetched-Remembers, fetch_all_fine, use_fetched_same,
  fetch_all_no_users,
}
use small_x.Panel.{
  Codec, Client, Response, ClientError, get_etag, make_url, xboard, with_flag, no_node, node_path,
  users_path, users_accept, decode_node, decode_users_response, conditional_get, fetch_node,
  fetch_users, fetch_rules, report_audits, new_client, transport_failed, Request, log_request,
  get_request, get_json, get_users,
}
use small_x.Agent.Pushes.{report_all-Same}
use small_x.Panel.Caching.{
  Endpoint, Serves, IsCurrent, conditional_get-IsCurrent, conditional_get_same,
  conditional_get_down,
}

module _ (codec : Codec) (R : Runtime) (cfg : PanelConfig) (nodes : Endpoint (decode_node codec))
    (users : Endpoint (decode_users_response codec)) where
  abbrev pub XAgent : Type 0
  XAgent = Agent (xboard codec) R

  abbrev pub node_url : Text
  node_url = cfg.base_url ++ node_path

  abbrev pub users_url : Text
  users_url = cfg.base_url ++ users_path

  abbrev pub node_tag : XAgent → Text
  node_tag a = get_etag a.provider (codes "node")

  abbrev pub users_tag : XAgent → Text
  users_tag a = get_etag a.provider (codes "users")

  -- Between two calls: what the agent remembers is what its tags name.
  pub record IsTracking (a : XAgent) : Type 0 where
    pub same_cfg : a.provider.cfg ≡ cfg
    pub of_node : (node_tag a ≡ []) ⊎ (a.last_node ≡ some (nodes.value (node_tag a)))
    pub of_users : (users_tag a ≡ []) ⊎ (a.last_users ≡ users.value (users_tag a))
    pub no_rules : a.last_rules ≡ []

  -- The panel serves the node of the tag `n` and the users of the tag `u` during a sync.
  pub record IsHonest (n u : Text) (env : SyncEnv (xboard codec) R) : Type 0 where
    pub some_node : n ≢ []
    pub some_users : u ≢ []
    pub node_served : Serves nodes node_url n env.at_node
    pub users_served : Serves users users_url u env.at_users

  -- A fetch of an endpoint and its flag.
  pub flag-IsLatest :
      {A B : Type 0} {decode : Response → Result ClientError A} (e : Endpoint decode)
      (zero_value : A) (known : Text → B) (last : B) (key t : Text) (c : Client)
      (q : Client × Result ClientError (Option A))
      → t ≢ []
      → (get_etag c key ≡ []) ⊎ (last ≡ known (get_etag c key))
      → IsCurrent codec e key t c q
      → (x : A) × (b : Bool) × (with_flag zero_value q.1 ≡ ok (x, b))
        × IsLatest (e.value t) b x last (known t)
  flag-IsLatest e zero_value known last key t c (c', r) some_tag tracked (keeps, inl (same, old)) =
      elim tracked [
        | inl no_tag ↦ absurd (some_tag (sym old ∙ no_tag))
        | inr tag ↦
            (zero_value, false, ap (with_flag zero_value) same, inr (refl, tag ∙ ap known old))
      ]
  flag-IsLatest e zero_value known last key t c (c', r) some_tag tracked
        (keeps, inr (new_one, other)) =
      (e.value t, true, ap (with_flag zero_value) new_one, inl (refl, refl))

  pub url_of : (x : Client) → x.cfg ≡ cfg → (path : Text) → make_url x path ≡ cfg.base_url ++ path
  url_of x same path = ap (λ y. y.base_url ++ path) same

  -- The three fetches of a sync.
  fetch_all-IsLatest :
      (n u : Text) (env : SyncEnv (xboard codec) R) (a : XAgent)
      → codec.is_url node_url ≡ true
      → codec.is_url users_url ≡ true
      → IsHonest n u env
      → IsTracking a
      → (f : Fetched (xboard codec) R) × (p : Client) × (fetch_all (xboard codec) R env a.provider
          ≡ (p, ok f))
        × IsLatest (nodes.value n) f.node_changed f.node a.last_node (some (nodes.value n))
        × IsLatest (users.value u) f.users_changed f.users a.last_users (users.value u)
        × (f.rules_changed ≡ false)
        × (p.cfg ≡ cfg)
        × (get_etag p (codes "node") ≡ n)
        × (get_etag p (codes "users") ≡ u)
  unfolding fetch_all fetch_node fetch_users fetch_rules get_json get_users
  fetch_all-IsLatest n u env a node_known users_known honest tracking =
      let c = a.provider in
      let node_path_url = url_of c tracking.same_cfg node_path in
      let after_node =
        conditional_get codec (decode_node codec) node_path (codes "node") [] env.at_node c in
      let now_node =
        conditional_get-IsCurrent codec nodes node_path (codes "node") [] env.at_node n c
          (rw node_path_url node_known) honest.some_node (rw node_path_url honest.node_served) in
      let (x, xb, xe, xl) =
        flag-IsLatest nodes no_node (λ t. some (nodes.value t)) a.last_node (codes "node") n c
          after_node honest.some_node tracking.of_node now_node in
      let cfg1 : after_node.0.cfg ≡ cfg = now_node.0.2 ∙ tracking.same_cfg in
      let users_path_url = url_of after_node.0 cfg1 users_path in
      let after_users =
        conditional_get codec (decode_users_response codec) users_path (codes "users") users_accept
          env.at_users after_node.0 in
      let now_users =
        conditional_get-IsCurrent codec users users_path (codes "users") users_accept env.at_users u
          after_node.0 (rw users_path_url users_known) honest.some_users
          (rw users_path_url honest.users_served) in
      let other : get_etag after_node.0 (codes "users") ≡ get_etag c (codes "users") =
        now_node.0.1 (codes "users") refl in
      let (y, yb, ye, yl) =
        flag-IsLatest users [] users.value a.last_users (codes "users") u after_node.0 after_users
          honest.some_users (rw other tracking.of_users) now_users in
      (
        record {
          node = x;
          node_changed = xb;
          users = y;
          users_changed = yb;
          rules = [];
          rules_changed = false;
        },
        after_users.0,
        fetch_all_fine (xboard codec) R env c after_node.0 after_users.0 after_users.0 x y [] xb yb
            false (ap (λ r. (after_node.0, r)) xe) (ap (λ r. (after_users.0, r)) ye) refl,
        xl,
        yl,
        refl,
        now_users.0.2 ∙ cfg1,
        now_users.0.1 (codes "node") refl ∙ now_node.0.0,
        now_users.0.0,
      )

  pub record IsUpToDate (n u : Text) (a : XAgent) : Type 0 where
    pub same_cfg : a.provider.cfg ≡ cfg
    pub of_node : node_tag a ≡ n
    pub of_users : users_tag a ≡ u
    pub remembers : Remembers (xboard codec) R (nodes.value n) (users.value u) a

  IsUpToDate-IsTracking : {n u : Text} {a : XAgent} → IsUpToDate n u a → IsTracking a
  IsUpToDate-IsTracking w = record {
    same_cfg = w.same_cfg;
    of_node = inr (w.remembers.0 ∙ ap (λ t. some (nodes.value t)) (sym w.of_node));
    of_users = inr (w.remembers.1 ∙ ap users.value (sym w.of_users));
    no_rules = w.remembers.2;
  }

  pub sync_once-IsUpToDate :
      (n u : Text) (env : SyncEnv (xboard codec) R) (a : XAgent)
      → codec.is_url node_url ≡ true
      → codec.is_url users_url ≡ true
      → IsHonest n u env
      → IsTracking a
      → let after = sync_once (xboard codec) R env a in
        IsUpToDate n u after.0
        × IsOutcome (xboard codec) R env.at_apply (nodes.value n) (users.value u) a after
  unfolding sync_once
  sync_once-IsUpToDate n u env a node_known users_known honest tracking =
      let (f, p, fetched, xl, yl, no_rules, same_cfg, tag_n, tag_u) =
        fetch_all-IsLatest n u env a node_known users_known honest tracking in
      let a1 : XAgent = record a { provider = p } in
      let (remembers, same, outcome) =
        use_fetched-Remembers (xboard codec) R env.at_apply a1 f (nodes.value n) (users.value u) xl
          yl no_rules tracking.no_rules in
      subst
        (λ q.
          let after = use_fetches (xboard codec) R env a q in
          IsUpToDate n u after.0
          × IsOutcome (xboard codec) R env.at_apply (nodes.value n) (users.value u) a after)
        (sym fetched)
        (
          record {
            same_cfg = ap (λ c. c.cfg) same ∙ same_cfg;
            of_node = ap (λ c. get_etag c (codes "node")) same ∙ tag_n;
            of_users = ap (λ c. get_etag c (codes "users")) same ∙ tag_u;
            remembers = remembers;
          },
          outcome,
        )

  report_snapshot-IsTracking :
      (env : PushEnv (xboard codec) R) (a : XAgent) (q : R.State × Result R.Fault RuntimeSnapshot)
      → IsTracking a
      → IsTracking (report_snapshot (xboard codec) R env a q).0
  unfolding get_etag
  report_snapshot-IsTracking env a (r, err e) w = record {
    same_cfg = w.same_cfg;
    of_node = w.of_node;
    of_users = w.of_users;
    no_rules = w.no_rules;
  }
  report_snapshot-IsTracking env a (r, ok s) w =
      let (etags, same) = report_all-Same codec R env s a.provider in
      record {
        same_cfg = same ∙ w.same_cfg;
        of_node = rw etags w.of_node;
        of_users = rw etags w.of_users;
        no_rules = w.no_rules;
      }

  -- The states that an agent reaches by syncs while the panel serves some node and some users, and
  -- by pushes whatever the panel answers.
  pub data Reaches : XAgent → Type 0 where
    starts : (r : R.State) → Reaches (new_agent (xboard codec) R (new_client cfg) r)
    syncs :
        (a : XAgent) (n u : Text) (env : SyncEnv (xboard codec) R)
        → IsHonest n u env
        → Reaches a
        → Reaches (sync_once (xboard codec) R env a).0
    pushes :
        (a : XAgent) (env : PushEnv (xboard codec) R)
        → Reaches a
        → Reaches (push_snapshot (xboard codec) R env a).0

  pub Reaches-IsTracking :
      (a : XAgent)
      → codec.is_url node_url ≡ true
      → codec.is_url users_url ≡ true
      → Reaches a
      → IsTracking a
  unfolding new_agent new_client get_etag lookup push_snapshot
  Reaches-IsTracking _ node_known users_known (starts r) = record {
    same_cfg = refl;
    of_node = inl refl;
    of_users = inl refl;
    no_rules = refl;
  }
  Reaches-IsTracking _ node_known users_known (syncs a n u env honest w) =
      IsUpToDate-IsTracking
        (sync_once-IsUpToDate n u env a node_known users_known honest
          (Reaches-IsTracking a node_known users_known w)).0
  Reaches-IsTracking _ node_known users_known (pushes a env w) =
      report_snapshot-IsTracking env a _ (Reaches-IsTracking a node_known users_known w)

  -- An agent that any syncs, while the panel served some node and some users, and any pushes led to
  -- its state, and a sync while the panel serves the node of the tag `n` and the users of the tag
  -- `u`: the agent then remembers exactly these, and either the runtime got the plan of them, and
  -- its result is the sync's, or the agent remembered them before and the runtime got nothing.
  pub sync_once_lem :
      (n u : Text) (env : SyncEnv (xboard codec) R) (a : XAgent)
      → codec.is_url node_url ≡ true
      → codec.is_url users_url ≡ true
      → Reaches a
      → IsHonest n u env
      → let after = sync_once (xboard codec) R env a in
        Remembers (xboard codec) R (nodes.value n) (users.value u) after.0
        × IsOutcome (xboard codec) R env.at_apply (nodes.value n) (users.value u) a after
  sync_once_lem n u env a node_known users_known w honest =
      let (now, outcome) =
        sync_once-IsUpToDate n u env a node_known users_known honest
          (Reaches-IsTracking a node_known users_known w) in
      (now.remembers, outcome)
