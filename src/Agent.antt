-- ===== src/Agent.antt =====
-- internal/agent/agent.go: the agent between a panel and a runtime. The environment of a call is one
-- value for each call that it makes, so that the panel may change in between.
pub mod Sync
pub mod Pushes
pub mod Tracking
pub mod Loss
use small_x.Base.{
  ℕ, List, [], ◌∷◌, Bool, true, false, ◌&&◌, ◌||◌, not, Option, none, some, is_none, if◌then◌else◌,
  Result, ok, err,
}
use small_x.Model.{NodeConfig, UserInfo, AuditRule, RuntimePlan, RuntimeSnapshot}
use small_x.Provider.{Provider}
use small_x.Backend.{Runtime}

module _ (P : Provider) (R : Runtime) where
  pub record Agent : Type 0 where
    pub provider : P.State
    pub runtime : R.State
    pub last_node : Option NodeConfig
    pub last_users : List UserInfo
    pub last_rules : List AuditRule

  unfoldable pub new_agent : P.State → R.State → Agent
  new_agent p r = record {
    provider = p;
    runtime = r;
    last_node = none;
    last_users = [];
    last_rules = [];
  }

  pub data AgentError : Type 0 where
    panel_failed : P.Fault → AgentError
    runtime_failed : R.Fault → AgentError
    -- "node config is empty".
    empty_node : AgentError

  pub record SyncEnv : Type 0 where
    pub at_node : P.Panel
    pub at_users : P.Panel
    pub at_rules : P.Panel
    pub at_apply : R.Env

  -- What the three fetches gave.
  pub record Fetched : Type 0 where
    pub node : NodeConfig
    pub node_changed : Bool
    pub users : List UserInfo
    pub users_changed : Bool
    pub rules : List AuditRule
    pub rules_changed : Bool

  -- The fetches of `syncOnce`, in their order; the first error ends it.
  abbrev pub and_rules :
      NodeConfig × Bool
      → List UserInfo × Bool
      → P.State × Result P.Fault (List AuditRule × Bool)
      → P.State × Result P.Fault Fetched
  and_rules (n, n_changed) (us, us_changed) (p, err e) = (p, err e)
  and_rules (n, n_changed) (us, us_changed) (p, ok (rs, rs_changed)) = (
    p,
    ok (record {
      node = n;
      node_changed = n_changed;
      users = us;
      users_changed = us_changed;
      rules = rs;
      rules_changed = rs_changed;
    }),
  )

  abbrev pub and_users :
      SyncEnv
      → NodeConfig × Bool
      → P.State × Result P.Fault (List UserInfo × Bool)
      → P.State × Result P.Fault Fetched
  and_users env n (p, err e) = (p, err e)
  and_users env n (p, ok us) = and_rules n us (P.fetch_rules env.at_rules p)

  abbrev pub and_node :
      SyncEnv → P.State × Result P.Fault (NodeConfig × Bool) → P.State × Result P.Fault Fetched
  and_node env (p, err e) = (p, err e)
  and_node env (p, ok n) = and_users env n (P.fetch_users env.at_users p)

  unfoldable pub fetch_all : SyncEnv → P.State → P.State × Result P.Fault Fetched
  fetch_all env p = and_node env (P.fetch_node env.at_node p)

  -- `a.lastNode == nil` counts as a change of the node.
  abbrev pub node_is_new : Agent → Fetched → Bool
  node_is_new a f = f.node_changed || is_none a.last_node

  abbrev pub nothing_new : Agent → Fetched → Bool
  nothing_new a f = not (node_is_new a f) && (not f.users_changed && not f.rules_changed)

  -- The three assignments of what changed.
  unfoldable pub remember : Agent → Fetched → Agent
  remember a f = record a {
    last_node = if node_is_new a f then some f.node else a.last_node;
    last_users = if f.users_changed then f.users else a.last_users;
    last_rules = if f.rules_changed then f.rules else a.last_rules;
  }

  unfoldable pub plan_of : Agent → NodeConfig → RuntimePlan
  plan_of a node = record { node = node; users = a.last_users; rules = a.last_rules }

  abbrev pub runtime_result : Result R.Fault (Unit {0}) → Result AgentError (Unit {0})
  runtime_result (ok u) = ok tt
  runtime_result (err e) = err (runtime_failed e)

  -- The plan of what is remembered goes to the runtime.
  unfoldable pub apply_plan :
      R.Env → Agent → Option NodeConfig → Agent × Result AgentError (Unit {0})
  apply_plan env a none = (a, err empty_node)
  apply_plan env a (some n) =
      let (r, result) = R.apply env (plan_of a n) a.runtime in
      (record a { runtime = r }, runtime_result result)

  unfoldable pub use_fetched : R.Env → Agent → Fetched → Agent × Result AgentError (Unit {0})
  use_fetched env a f =
      if nothing_new a f
      then (a, ok tt)
      else let a' = remember a f in apply_plan env a' a'.last_node

  abbrev pub use_fetches :
      SyncEnv → Agent → P.State × Result P.Fault Fetched → Agent × Result AgentError (Unit {0})
  use_fetches env a (p, err e) = (record a { provider = p }, err (panel_failed e))
  use_fetches env a (p, ok f) = use_fetched env.at_apply (record a { provider = p }) f

  unfoldable pub sync_once : SyncEnv → Agent → Agent × Result AgentError (Unit {0})
  sync_once env a = use_fetches env a (fetch_all env a.provider)

  pub record PushEnv : Type 0 where
    pub at_snapshot : R.Env
    pub at_status : P.Panel
    pub at_traffic : P.Panel
    pub at_alive : P.Panel
    pub at_audits : P.Panel

  -- `if err := step; err != nil { return err }`.
  abbrev pub and_then :
      (P.State → P.State × Result P.Fault (Unit {0}))
      → P.State × Result P.Fault (Unit {0})
      → P.State × Result P.Fault (Unit {0})
  and_then next (p, err e) = (p, err e)
  and_then next (p, ok u) = next p

  -- The four reports in their order; the first error ends them.
  unfoldable pub report_all :
      PushEnv → RuntimeSnapshot → P.State → P.State × Result P.Fault (Unit {0})
  report_all env s p =
      and_then (λ q. P.report_audits env.at_audits s.audits q)
        (and_then (λ q. P.report_alive_ips env.at_alive s.alive_ips q)
          (and_then (λ q. P.report_traffic env.at_traffic s.traffic q)
            (P.report_status env.at_status s.status p)))

  abbrev pub panel_result : Result P.Fault (Unit {0}) → Result AgentError (Unit {0})
  panel_result (ok u) = ok tt
  panel_result (err e) = err (panel_failed e)

  abbrev pub report_snapshot :
      PushEnv
      → Agent
      → R.State × Result R.Fault RuntimeSnapshot
      → Agent × Result AgentError (Unit {0})
  report_snapshot env a (r, err e) = (record a { runtime = r }, err (runtime_failed e))
  report_snapshot env a (r, ok s) =
      let (p, result) = report_all env s a.provider in
      (record a { runtime = r; provider = p }, panel_result result)

  unfoldable pub push_snapshot : PushEnv → Agent → Agent × Result AgentError (Unit {0})
  push_snapshot env a = report_snapshot env a (R.snapshot env.at_snapshot a.runtime)

  -- A tick of the loop of `Run`.
  pub data Tick : Type 0 where
    pull : SyncEnv → Tick
    status : PushEnv → Tick

  unfoldable pub tick : Tick → Agent → Agent
  tick (pull env) a = (sync_once env a).0
  tick (status env) a = (push_snapshot env a).0

  unfoldable pub ticks : List Tick → Agent → Agent
  ticks [] a = a
  ticks (t ∷ ts) a = ticks ts (tick t a)

  -- `Run` until the context is done: it ends at once if the first sync fails.
  unfoldable pub run : SyncEnv → PushEnv → List Tick → Agent → Agent × Result AgentError (Unit {0})
  run env first ts a =
      let (a', result) = sync_once env a in
      elim result [ err e ↦ (a', err e) | ok u ↦ (ticks ts (push_snapshot first a').0, ok tt) ]
