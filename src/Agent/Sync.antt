-- ===== src/Agent/Sync.antt =====
-- internal/agent/agent.go, `syncOnce` after its fetches.
use small_x.Base.{
  arith, List, [], ◌≡◌, refl, ap, ◌∙◌, Bool, true, false, some, Result, ok, err, ◌⊎◌, inl, inr,
}
use small_x.Model.{AuditRule, NodeConfig, UserInfo, RuntimePlan}
use small_x.Provider.{Provider}
use small_x.Backend.{Runtime}
use small_x.Agent.{
  SyncEnv, fetch_all, and_node, and_users, and_rules, Agent, Fetched, AgentError, runtime_result,
  remember, plan_of, apply_plan, use_fetched,
}

-- The fetched value is new and is `v`, or it is not and `v` is remembered.
abbrev pub IsLatest : {A B : Type 0} → A → Bool → A → B → B → Type 0
IsLatest v changed fetched last known =
    ((changed ≡ true) × (fetched ≡ v)) ⊎ ((changed ≡ false) × (last ≡ known))

module _ (P : Provider) (R : Runtime) where
  pub fetch_all_fine :
      (env : SyncEnv P R) (p p1 p2 p3 : P.State) (node : NodeConfig) (users : List UserInfo)
      (rules : List AuditRule) (node_changed users_changed rules_changed : Bool)
      → P.fetch_node env.at_node p ≡ (p1, ok (node, node_changed))
      → P.fetch_users env.at_users p1 ≡ (p2, ok (users, users_changed))
      → P.fetch_rules env.at_rules p2 ≡ (p3, ok (rules, rules_changed))
      → let f : Fetched P R = record {
        node = node;
        node_changed = node_changed;
        users = users;
        users_changed = users_changed;
        rules = rules;
        rules_changed = rules_changed;
      } in
        fetch_all P R env p ≡ (p3, ok f)
  unfolding fetch_all
  fetch_all_fine env p p1 p2 p3 node users rules node_changed users_changed rules_changed h1 h2 h3 =
      ap (and_node P R env) h1
      ∙ ap (and_users P R env (node, node_changed)) h2
      ∙ ap (and_rules P R (node, node_changed) (users, users_changed)) h3

  pub fetch_all_no_users :
      (env : SyncEnv P R) (p p1 p2 : P.State) (node : NodeConfig) (node_changed : Bool)
      (e : P.Fault)
      → P.fetch_node env.at_node p ≡ (p1, ok (node, node_changed))
      → P.fetch_users env.at_users p1 ≡ (p2, err e)
      → fetch_all P R env p ≡ (p2, err e)
  unfolding fetch_all
  fetch_all_no_users env p p1 p2 node node_changed e h1 h2 =
      ap (and_node P R env) h1 ∙ ap (and_users P R env (node, node_changed)) h2

  -- The agent remembers the node, the users and no rules.
  abbrev pub Remembers : NodeConfig → List UserInfo → Agent P R → Type 0
  Remembers n us a = (a.last_node ≡ some n) × (a.last_users ≡ us) × (a.last_rules ≡ [])

  -- The runtime got the plan and its result is the sync's, or the agent remembered all of it before
  -- and the runtime got nothing.
  abbrev pub IsOutcome :
      R.Env
      → NodeConfig
      → List UserInfo
      → Agent P R
      → Agent P R × Result (AgentError P R) (Unit {0})
      → Type 0
  IsOutcome env n us a (a', r) =
      ((Remembers n us a × (a'.runtime ≡ a.runtime) × (r ≡ ok tt))
        ⊎ (let plan : RuntimePlan = record { node = n; users = us; rules = [] } in
            (a'.runtime ≡ (R.apply env plan a.runtime).0)
            × (r ≡ runtime_result P R (R.apply env plan a.runtime).1)))

  pub use_fetched-Remembers :
      (env : R.Env) (a : Agent P R) (f : Fetched P R) (n : NodeConfig) (us : List UserInfo)
      → IsLatest n f.node_changed f.node a.last_node (some n)
      → IsLatest us f.users_changed f.users a.last_users us
      → f.rules_changed ≡ false
      → a.last_rules ≡ []
      → let after = use_fetched P R env a f in
        Remembers n us after.0 × (after.0.provider ≡ a.provider) × IsOutcome env n us a after
  unfolding use_fetched remember plan_of apply_plan
  use_fetched-Remembers env a f n us (inl (nc, en)) (inl (uc, eu)) no_rules rules =
      rw (nc, uc, no_rules, en, eu, rules) ((refl, refl, refl), refl, inr (refl, refl))
  use_fetched-Remembers env a f n us (inl (nc, en)) (inr (uc, eu)) no_rules rules =
      rw (nc, uc, no_rules, en, eu, rules) ((refl, refl, refl), refl, inr (refl, refl))
  use_fetched-Remembers env a f n us (inr (nc, en)) (inl (uc, eu)) no_rules rules =
      rw (nc, uc, no_rules, en, eu, rules) ((refl, refl, refl), refl, inr (refl, refl))
  use_fetched-Remembers env a f n us (inr (nc, en)) (inr (uc, eu)) no_rules rules =
      rw (nc, uc, no_rules, en, eu, rules)
        ((refl, refl, refl), refl, inl ((refl, refl, refl), refl, refl))

  pub use_fetched_same :
      (env : R.Env) (a : Agent P R) (f : Fetched P R) (n : NodeConfig)
      → f.node_changed ≡ false
      → f.users_changed ≡ false
      → f.rules_changed ≡ false
      → a.last_node ≡ some n
      → use_fetched P R env a f ≡ (a, ok tt)
  unfolding use_fetched
  use_fetched_same env a f n no_node no_users no_rules known =
      ground (arith, no_node, no_users, no_rules, known)
