-- ===== src/CrController/Handled.antt =====
-- Which items of the custom resource controller are tried again, and what its callback gets. Drained has
-- the worker's loop.
pub mod Drained
use purelb.Base.{
  ◌≡◌, refl, sym, ◌∙◌, ◌==◌, string_eq, if◌then◌else◌, inl, inr, Bool, true, false, not, List, [],
  ◌∷◌, String, Option, none, some, Bool-cases, Option-cases,
}
use purelb.Base.Result.{Result, ok, err, Result-cases}
use purelb.Net.{Parser, IsParser}
use purelb.NetboxPool.{Environment}
use purelb.Allocator.Config.{IsConfig}
use purelb.ServiceGroup.{ServiceGroup, NodeAgentSpec}
use purelb.Controller.{Config, SyncState, success, error, reprocess_all, Controller, set_config}
use purelb.Controller.Reach.{Reachable, next, config, reachable-IsConfig}
use purelb.CrController.{
  Listers, Item, key, other, ItemCall, add_rate_limited, forget, State, record_state, read_config,
  sync_handler, process_item, process_next, run_worker,
}

-- The names that are put back, and the items that are forgotten.
abbrev pub returned : List ItemCall → List String
returned [] = []
returned (add_rate_limited name ∷ calls) = name ∷ returned calls
returned (_ ∷ calls) = returned calls

abbrev pub forgotten : List ItemCall → List Item
forgotten [] = []
forgotten (forget item ∷ calls) = item ∷ forgotten calls
forgotten (_ ∷ calls) = forgotten calls

module _ {S A : Type 0} (api : Listers S) (config_cb : A → Config → SyncState × A)
    (default_announcer : String) where
  record_state-app :
      (status : SyncState) (st : State S A)
      → (record_state api config_cb default_announcer status st).app ≡ st.app
  unfolding record_state
  record_state-app success st = refl
  record_state-app error st = refl
  record_state-app reprocess_all st = refl

  record_state-cluster :
      (status : SyncState) (st : State S A)
      → (record_state api config_cb default_announcer status st).cluster ≡ st.cluster
  unfolding record_state
  record_state-cluster success st = refl
  record_state-cluster error st = refl
  record_state-cluster reprocess_all st = refl

  -- The application after the resources were read, or could not be.
  abbrev app_after : Result String Config → A → A
  app_after (err e) a = a
  app_after (ok cfg) a = (config_cb a cfg).1

  abbrev failed : Result String Config → Bool
  failed (err e) = true
  failed (ok cfg) = false

  sync_handler-app :
      (st : State S A)
      → (sync_handler api config_cb default_announcer st).1.app
        ≡ app_after (read_config api config_cb default_announcer st.cluster) st.app
  unfolding sync_handler
  sync_handler-app st =
      elim (Result-cases (read_config api config_cb default_announcer st.cluster)) [
        | inr (e, f) ↦ rw (f, sync_handler)
        | inl (cfg, f) ↦ rw (f, sync_handler) (record_state-app (config_cb st.app cfg).0 _)
      ]

  sync_handler-fails :
      (st : State S A)
      → (elim (sync_handler api config_cb default_announcer st).0 [ none ↦ false | some e ↦ true ])
        ≡ failed (read_config api config_cb default_announcer st.cluster)
  unfolding sync_handler
  sync_handler-fails st =
      elim (Result-cases (read_config api config_cb default_announcer st.cluster)) [
        | inr (e, f) ↦ rw (f, sync_handler)
        | inl (cfg, f) ↦ rw (f, sync_handler)
      ]

  -- Whether the groups or the agents cannot be listed, and what the application makes of the two lists.
  abbrev pub unlisted :
      Result String (List ServiceGroup) → Result String (List NodeAgentSpec) → Bool
  unlisted (ok groups) (ok agents) = false
  unlisted _ _ = true

  abbrev pub told_of :
      Result String (List ServiceGroup) → Result String (List NodeAgentSpec) → A → A
  told_of (ok groups) (ok agents) a =
      (config_cb a (record {
        default_announcer = default_announcer == "PureLB";
        groups = groups;
        agents = agents;
      })).1
  told_of _ _ a = a

  read_config-listed :
      (s : S) (a : A)
      → (failed (read_config api config_cb default_announcer s)
          ≡ unlisted (api.list_groups s) (api.list_agents s))
        × (app_after (read_config api config_cb default_announcer s) a
            ≡ told_of (api.list_groups s) (api.list_agents s) a)
  unfolding read_config
  read_config-listed s a = elim (Result-cases (api.list_groups s)) [
    | inr (e, f) ↦ rw (f, read_config) (refl, refl)
    | inl (groups, f) ↦ elim (Result-cases (api.list_agents s)) [
      | inr (e, g) ↦ rw (f, g, read_config) (refl, refl)
      | inl (agents, g) ↦ rw (f, g, read_config) (refl, refl)
    ]
  ]

  sync_handler-cluster :
      (st : State S A) → (sync_handler api config_cb default_announcer st).1.cluster ≡ st.cluster
  unfolding sync_handler
  sync_handler-cluster st =
      elim (Result-cases (read_config api config_cb default_announcer st.cluster)) [
        | inr (e, f) ↦ rw (f, sync_handler)
        | inl (cfg, f) ↦ rw (f, sync_handler) (record_state-cluster (config_cb st.app cfg).0 _)
      ]

  pub record IsHandled (name : String) (st : State S A) (out : List ItemCall × State S A)
      : Type 0 where
    pub put_back : returned out.0 ≡ (
        if unlisted (api.list_groups st.cluster) (api.list_agents st.cluster)
        then name ∷ []
        else [])
    pub all_forgotten : forgotten out.0 ≡ (
        if unlisted (api.list_groups st.cluster) (api.list_agents st.cluster)
        then []
        else key name ∷ [])
    pub told : out.1.app ≡ told_of (api.list_groups st.cluster) (api.list_agents st.cluster) st.app
    pub cluster : out.1.cluster ≡ st.cluster

  -- An item is put back exactly if the groups or the agents cannot be listed, and forgotten if both
  -- can; the application then gets all the groups and all the agents with whether PureLB is the
  -- default announcer, and is left alone otherwise; the cluster is not changed.
  pub process_item-IsHandled :
      (st : State S A) (name : String)
      → IsHandled name st (process_item api config_cb default_announcer st (key name))
  unfolding process_item
  process_item-IsHandled st name =
      let (fails, tells) = read_config-listed st.cluster st.app in
      let failing = sync_handler-fails st ∙ fails in
      let told = sync_handler-app st ∙ tells in
      let cluster = sync_handler-cluster st in
      elim (Option-cases (sync_handler api config_cb default_announcer st).0) [
        | inl e ↦
            let seen : unlisted (api.list_groups st.cluster) (api.list_agents st.cluster) ≡ false =
              sym (rw e at failing) in
            rw (e, process_item)
              (record {
                put_back = rw seen;
                all_forgotten = rw seen;
                told = told;
                cluster = cluster;
              })
        | inr (f, e) ↦
            let unseen : unlisted (api.list_groups st.cluster) (api.list_agents st.cluster) ≡ true =
              sym (rw e at failing) in
            rw (e, process_item)
              (record {
                put_back = rw unseen;
                all_forgotten = rw unseen;
                told = told;
                cluster = cluster;
              })
      ]
