-- ===== src/CrController.antt =====
-- internal/k8s/cr-controller.go: how a change of a ServiceGroup or of an LBNodeAgent becomes a
-- configuration of the application.
pub mod Handled
use Prim.Native.String.{◌++◌ as text_append}
use purelb.Base.{
  ℕ, ◌+◌, Bool, true, false, List, [], ◌∷◌, ◌++◌, String, Option, none, some, ◌==◌, string_eq,
  if◌then◌else◌,
}
use purelb.Base.Result.{Result, ok, err, ◌>>=◌}
use purelb.Service.{brand}
use purelb.ServiceGroup.{ServiceGroup, NodeAgentSpec}
use purelb.Controller.{Config, SyncState, success, error, reprocess_all}

-- The listers of client-go over a cluster in S, which may fail, and the callback of the application.
pub record Listers (S : Type 0) : Type 0 where
  pub list_groups : S → Result String (List ServiceGroup)
  pub list_agents : S → Result String (List NodeAgentSpec)

-- What comes off the queue: a text, or a value of another type, which nothing in the program adds.
pub data Item : Type 0 where
  key : String → Item
  other : Item

pub data ItemCall : Type 0 where
  add add_rate_limited : String → ItemCall
  forget done : Item → ItemCall

-- The cluster and the application, the metrics of internal/k8s/stats.go, and how often forceSync was
-- called.
pub record State (S A : Type 0) : Type 0 where
  pub cluster : S
  pub app : A
  pub config_loaded : ℕ
  pub update_errors : ℕ
  pub forced : ℕ

-- enqueueResource, given the answer of the key function.
unfoldable pub enqueue_resource : String → Result String String → List ItemCall
enqueue_resource thing (err _) = []
enqueue_resource thing (ok name) = add (text_append thing (text_append "/" name)) ∷ []

module _ {S A : Type 0} (api : Listers S) (config_cb : A → Config → SyncState × A)
    (default_announcer : String) where
  -- The part of syncHandler after the callback.
  unfoldable pub record_state : SyncState → State S A → State S A
  record_state success st = record st { config_loaded = 1 }
  record_state error st = record st { update_errors = st.update_errors + 1 }
  record_state reprocess_all st = record st { config_loaded = 1; forced = st.forced + 1 }

  -- All resources, as one configuration.
  unfoldable pub read_config : S → Result String Config
  read_config s = do
    groups ← api.list_groups s
    agents ← api.list_agents s
    ok (record { default_announcer = default_announcer == brand; groups = groups; agents = agents })

  unfoldable pub sync_handler : State S A → Option String × State S A
  unfolding read_config record_state
  sync_handler st = elim (read_config st.cluster) [
    | err e ↦ (some e, st)
    | ok cfg ↦
        let (status, a) = config_cb st.app cfg in
        (none, record_state status (record st { app = a }))
  ]

  -- The function inside of processNextWorkItem, whose deferred Done comes last.
  unfoldable pub process_item : State S A → Item → List ItemCall × State S A
  unfolding sync_handler
  process_item st other = (forget other ∷ done other ∷ [], st)
  process_item st (key name) =
      let (e, st') = sync_handler st in
      elim e [
        | none ↦ (forget (key name) ∷ done (key name) ∷ [], st')
        | some _ ↦ (add_rate_limited name ∷ done (key name) ∷ [], st')
      ]

  -- processNextWorkItem: whether the worker goes on. A shutdown of the queue is `none`.
  unfoldable pub process_next : State S A → Option Item → Bool × List ItemCall × State S A
  unfolding process_item
  process_next st none = (false, [], st)
  process_next st (some item) = let (calls, st') = process_item st item in (true, calls, st')

  -- runWorker, over the items that the queue gives.
  unfoldable pub run_worker : State S A → List (Option Item) → List ItemCall × State S A
  unfolding process_next
  run_worker st [] = ([], st)
  run_worker st (item ∷ items) =
      let (goes_on, calls, st') = process_next st item in
      let (more, st'') = run_worker st' items in
      if goes_on then (calls ++ more, st'') else (calls, st')
