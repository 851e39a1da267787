-- ===== src/Agent/Tracking/Updates.antt =====
-- internal/agent/agent.go with internal/provider/xboard/client.go: what a failed step leaves behind.
use small_x.Base.{
  Text, [], ◌≡◌, ◌≢◌, refl, ap, sym, subst, ◌∙◌, err, none, true, false, some, ok, inr, text_keys,
}
use small_x.Base.Strings.{codes}
use small_x.Model.{NodeConfig}
use small_x.Config.{PanelConfig}
use small_x.Backend.{Runtime}
use small_x.Agent.{SyncEnv, use_fetches, sync_once, panel_failed}
use small_x.Agent.Sync.{fetch_all_fine, use_fetched_same, fetch_all_no_users}
use small_x.Panel.{
  Codec, Client, get_etag, xboard, with_flag, no_node, node_path, users_path, users_accept,
  decode_node, decode_users_response, conditional_get, fetch_node, fetch_users, fetch_rules,
  transport_failed, Request, log_request, get_request, get_json, get_users,
}
use small_x.Panel.Caching.{
  Endpoint, Serves, conditional_get-IsCurrent, conditional_get_same, conditional_get_down,
}
use small_x.Agent.Tracking.{
  XAgent, node_url, users_url, node_tag, users_tag, IsHonest, flag-IsLatest, url_of,
  sync_once-IsUpToDate, Reaches, Reaches-IsTracking,
}

module _ (codec : Codec) (R : Runtime) (cfg : PanelConfig) (nodes : Endpoint (decode_node codec))
    (users : Endpoint (decode_users_response codec)) where
  -- A sync while the panel serves the node and the users whose tags the agent has.
  sync_once_same :
      (n u : Text) (x : NodeConfig) (env : SyncEnv (xboard codec) R)
      (a : XAgent codec R cfg nodes users)
      → codec.is_url (node_url codec R cfg nodes users) ≡ true
      → codec.is_url (users_url codec R cfg nodes users) ≡ true
      → IsHonest codec R cfg nodes users n u env
      → a.provider.cfg ≡ cfg
      → node_tag codec R cfg nodes users a ≡ n
      → users_tag codec R cfg nodes users a ≡ u
      → a.last_node ≡ some x
      → let after = sync_once (xboard codec) R env a in
        (after.1 ≡ ok tt) × (after.0.runtime ≡ a.runtime) × (after.0.last_node ≡ some x)
  unfolding sync_once fetch_node fetch_users fetch_rules get_json get_users
  sync_once_same n u x env a node_known users_known honest same_cfg tag_n tag_u last =
      let c = a.provider in
      let q1 =
        conditional_get codec (decode_node codec) node_path (codes "node") [] env.at_node c in
      let url1 = url_of codec R cfg nodes users c same_cfg node_path in
      let w1 =
        conditional_get-IsCurrent codec nodes node_path (codes "node") [] env.at_node n c
          (rw url1 node_known) honest.some_node (rw url1 honest.node_served) in
      let r1 =
        conditional_get_same codec nodes node_path (codes "node") [] env.at_node n c
          (rw url1 node_known) honest.some_node (rw url1 honest.node_served) tag_n in
      let q2 =
        conditional_get codec (decode_users_response codec) users_path (codes "users") users_accept
          env.at_users q1.0 in
      let url2 = url_of codec R cfg nodes users q1.0 (w1.0.2 ∙ same_cfg) users_path in
      let r2 =
        conditional_get_same codec users users_path (codes "users") users_accept env.at_users u q1.0
          (rw url2 users_known) honest.some_users (rw url2 honest.users_served)
          (w1.0.1 (codes "users") refl ∙ tag_u) in
      let a1 : XAgent codec R cfg nodes users = record a { provider = q2.0 } in
      let fetched =
        fetch_all_fine (xboard codec) R env c q1.0 q2.0 q2.0 no_node [] [] false false false
          (ap (λ r. (q1.0, with_flag no_node r)) r1) (ap (λ r. (q2.0, with_flag [] r)) r2) refl in
      let whole =
        ap (use_fetches (xboard codec) R env a) fetched
        ∙ use_fetched_same (xboard codec) R env.at_apply a1 _ x refl refl refl last in
      (ap (λ q. q.1) whole, ap (λ q. q.0.runtime) whole, ap (λ q. q.0.last_node) whole ∙ last)

  -- Whatever the result of a sync, so also when the runtime's `Apply` of the plan failed: the next
  -- sync while the panel serves the same node and users succeeds and does nothing to the runtime.
  pub sync_once_again :
      (n u : Text) (env next : SyncEnv (xboard codec) R) (a : XAgent codec R cfg nodes users)
      → codec.is_url (node_url codec R cfg nodes users) ≡ true
      → codec.is_url (users_url codec R cfg nodes users) ≡ true
      → Reaches codec R cfg nodes users a
      → IsHonest codec R cfg nodes users n u env
      → IsHonest codec R cfg nodes users n u next
      → let after = (sync_once (xboard codec) R env a).0 in
        let again = sync_once (xboard codec) R next after in
        (again.1 ≡ ok tt) × (again.0.runtime ≡ after.runtime)
  sync_once_again n u env next a node_known users_known w honest honest_next =
      let (now, outcome) =
        sync_once-IsUpToDate codec R cfg nodes users n u env a node_known users_known honest
          (Reaches-IsTracking codec R cfg nodes users a node_known users_known w) in
      let (fine, same, last) =
        sync_once_same n u (nodes.value n) next _ node_known users_known honest_next now.same_cfg
          now.of_node now.of_users now.remembers.0 in
      (fine, same)

  -- A sync whose fetch of the users fails.
  sync_once_users_down :
      (m u : Text) (env : SyncEnv (xboard codec) R) (a : XAgent codec R cfg nodes users)
      → codec.is_url (node_url codec R cfg nodes users) ≡ true
      → codec.is_url (users_url codec R cfg nodes users) ≡ true
      → m ≢ []
      → Serves nodes (node_url codec R cfg nodes users) m env.at_node
      → ((r : Request) → env.at_users r ≡ none)
      → a.provider.cfg ≡ cfg
      → users_tag codec R cfg nodes users a ≡ u
      → (p : Client) × (sync_once (xboard codec) R env a
          ≡ (record a { provider = p }, err (panel_failed transport_failed)))
        × (p.cfg ≡ cfg)
        × (get_etag p (codes "node") ≡ m)
        × (get_etag p (codes "users") ≡ u)
  unfolding sync_once fetch_node fetch_users get_json get_users get_etag
  sync_once_users_down m u env a node_known users_known some_tag served down same_cfg tag_u =
      let c = a.provider in
      let q1 =
        conditional_get codec (decode_node codec) node_path (codes "node") [] env.at_node c in
      let url1 = url_of codec R cfg nodes users c same_cfg node_path in
      let w1 =
        conditional_get-IsCurrent codec nodes node_path (codes "node") [] env.at_node m c
          (rw url1 node_known) some_tag (rw url1 served) in
      let (x, b, r1, latest) =
        flag-IsLatest codec R cfg nodes users nodes no_node (λ t. t) (get_etag c (codes "node"))
          (codes "node") m c q1 some_tag (inr refl) w1 in
      let cfg1 : q1.0.cfg ≡ cfg = w1.0.2 ∙ same_cfg in
      let url2 = url_of codec R cfg nodes users q1.0 cfg1 users_path in
      let r2 =
        conditional_get_down codec (decode_users_response codec) users_path (codes "users")
          users_accept env.at_users q1.0 (rw url2 users_known) down in
      let logged = log_request q1.0 (get_request q1.0 users_path (codes "users") users_accept) in
      let fetched =
        fetch_all_no_users (xboard codec) R env c q1.0 logged x b transport_failed
          (ap (λ r. (q1.0, r)) r1) (ap (λ q. (q.0, with_flag [] q.1)) r2) in
      (
        logged,
        ap (use_fetches (xboard codec) R env a) fetched,
        cfg1,
        w1.0.0,
        w1.0.1 (codes "users") refl ∙ tag_u,
      )

  -- When the panel has a new node of the tag `m` and the fetch of the users fails, the sync fails and
  -- the agent keeps the tag `m` and the node of `n`; the next sync, while the panel serves `m` and the
  -- same users, succeeds, the runtime gets nothing, and the agent still remembers the node of `n`.
  pub node_update_lost :
      (n m u : Text) (env failed next : SyncEnv (xboard codec) R)
      (a : XAgent codec R cfg nodes users)
      → codec.is_url (node_url codec R cfg nodes users) ≡ true
      → codec.is_url (users_url codec R cfg nodes users) ≡ true
      → Reaches codec R cfg nodes users a
      → IsHonest codec R cfg nodes users n u env
      → m ≢ []
      → Serves nodes (node_url codec R cfg nodes users) m failed.at_node
      → ((r : Request) → failed.at_users r ≡ none)
      → IsHonest codec R cfg nodes users m u next
      → let first = (sync_once (xboard codec) R env a).0 in
        let second = sync_once (xboard codec) R failed first in
        let third = sync_once (xboard codec) R next second.0 in
        (second.1 ≡ err (panel_failed transport_failed))
        × (third.1 ≡ ok tt)
        × (third.0.runtime ≡ first.runtime)
        × (third.0.last_node ≡ some (nodes.value n))
  node_update_lost n m u env failed next a node_known users_known w honest some_tag served down
        honest_next =
      let first = sync_once (xboard codec) R env a in
      let (now, outcome) =
        sync_once-IsUpToDate codec R cfg nodes users n u env a node_known users_known honest
          (Reaches-IsTracking codec R cfg nodes users a node_known users_known w) in
      let (second, fails, same_cfg, tag_m, tag_u) =
        sync_once_users_down m u failed first.0 node_known users_known some_tag served down
          now.same_cfg now.of_users in
      let middle : XAgent codec R cfg nodes users = record first.0 { provider = second } in
      let (fine, same, last) =
        sync_once_same m u (nodes.value n) next middle node_known users_known honest_next same_cfg
          tag_m tag_u now.remembers.0 in
      subst
        (λ q.
          let third = sync_once (xboard codec) R next q.0 in
          (q.1 ≡ err (panel_failed transport_failed))
          × (third.1 ≡ ok tt)
          × (third.0.runtime ≡ first.0.runtime)
          × (third.0.last_node ≡ some (nodes.value n)))
        (sym fails) (refl, fine, same, last)
