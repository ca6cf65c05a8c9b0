-- ===== src/CrController/Handled/Drained.antt =====
-- runWorker of internal/k8s/cr-controller.go: what becomes of the items that the queue gives until it is
-- shut down, and of the application.
use purelb.Base.{
  ◌≡◌, refl, ap, ◌∙◌, Bool, true, false, if◌then◌else◌, List, [], ◌∷◌, ◌++◌, String, Option, none,
  some, string_eq,
}
use purelb.Base.Result.{Result}
use purelb.ServiceGroup.{ServiceGroup, NodeAgentSpec}
use purelb.Controller.{Config, SyncState}
use purelb.CrController.{
  Listers, Item, key, ItemCall, add, add_rate_limited, forget, done, State, process_item,
  process_next, run_worker,
}
use purelb.CrController.Handled.{returned, forgotten, unlisted, told_of, process_item-IsHandled}

forgotten-append : (xs ys : List ItemCall) → forgotten (xs ++ ys) ≡ forgotten xs ++ forgotten ys
forgotten-append [] ys = refl
forgotten-append (forget item ∷ xs) ys = ap (λ l. item ∷ l) (forgotten-append xs ys)
forgotten-append (add name ∷ xs) ys = forgotten-append xs ys
forgotten-append (add_rate_limited name ∷ xs) ys = forgotten-append xs ys
forgotten-append (done item ∷ xs) ys = forgotten-append xs ys

returned-append : (xs ys : List ItemCall) → returned (xs ++ ys) ≡ returned xs ++ returned ys
returned-append [] ys = refl
returned-append (forget item ∷ xs) ys = returned-append xs ys
returned-append (add name ∷ xs) ys = returned-append xs ys
returned-append (add_rate_limited name ∷ xs) ys = ap (λ l. name ∷ l) (returned-append xs ys)
returned-append (done item ∷ xs) ys = returned-append xs ys

if_same : {A : Type 0} (b : Bool) {x : A} → x ≡ (if b then x else x)
if_same true = refl
if_same false = refl

if_then-append :
    {A : Type 0} (b : Bool) (x : A) {us : List A} (xs : List A) {vs : List A}
    → us ≡ (if b then x ∷ [] else [])
    → vs ≡ (if b then xs else [])
    → us ++ vs ≡ (if b then x ∷ xs else [])
if_then-append true x xs h k = rw (h, k)
if_then-append false x xs h k = rw (h, k)

if_else-append :
    {A : Type 0} (b : Bool) (x : A) {us : List A} (xs : List A) {vs : List A}
    → us ≡ (if b then [] else x ∷ [])
    → vs ≡ (if b then [] else xs)
    → us ++ vs ≡ (if b then [] else x ∷ xs)
if_else-append true x xs h k = rw (h, k)
if_else-append false x xs h k = rw (h, k)

-- Some keys, a shutdown of the queue, and whatever would come after it.
abbrev pub until_shutdown : List String → List (Option Item) → List (Option Item)
until_shutdown [] later = none ∷ later
until_shutdown (name ∷ names) later = some (key name) ∷ until_shutdown names later

abbrev pub keys_of : List String → List Item
keys_of [] = []
keys_of (name ∷ names) = key name ∷ keys_of names

module _ {S A : Type 0} (api : Listers S) (config_cb : A → Config → SyncState × A)
    (default_announcer : String) where
  module _ (groups : Result String (List ServiceGroup))
      (agents : Result String (List NodeAgentSpec)) where
    -- The application after it was told once for each name of the groups and the agents.
    abbrev pub told_each : List String → A → A
    told_each [] a = a
    told_each (name ∷ names) a =
        told_each names (told_of api config_cb default_announcer groups agents a)

    pub record IsDrained (names : List String) (st : State S A) (out : List ItemCall × State S A)
        : Type 0 where
      pub put_back :
          returned out.0
          ≡ (if unlisted api config_cb default_announcer groups agents then names else [])
      pub all_forgotten :
          forgotten out.0
          ≡ (if unlisted api config_cb default_announcer groups agents then [] else keys_of names)
      pub told : out.1.app ≡ told_each names st.app
      pub cluster : out.1.cluster ≡ st.cluster

    IsDrained-cons :
        (name : String) (names : List String) (later : List (Option Item)) (st : State S A)
        → api.list_groups st.cluster ≡ groups
        → api.list_agents st.cluster ≡ agents
        → IsDrained names (process_item api config_cb default_announcer st (key name)).1 (
            run_worker api config_cb default_announcer
              (process_item api config_cb default_announcer st (key name)).1
              (until_shutdown names later))
        → IsDrained
            (name ∷ names)
            st
            (run_worker api config_cb default_announcer st (until_shutdown (name ∷ names) later))
    unfolding run_worker process_next
    IsDrained-cons name names later st g h rest =
        let one = process_item-IsHandled api config_cb default_announcer st name in
        let calls = (process_item api config_cb default_announcer st (key name)).0 in
        let unseen = unlisted api config_cb default_announcer groups agents in
        let back : returned calls ≡ (if unseen then name ∷ [] else []) = one.put_back ∙ rw (g, h) in
        let off : forgotten calls ≡ (if unseen then [] else key name ∷ []) =
          one.all_forgotten ∙ rw (g, h) in
        let tells : _ ≡ told_each (name ∷ []) st.app = one.told ∙ rw (g, h) in
        record {
          put_back = returned-append calls _ ∙ if_then-append unseen name names back rest.put_back;
          all_forgotten =
              forgotten-append calls _
              ∙ if_else-append unseen (key name) (keys_of names) off rest.all_forgotten;
          told = rest.told ∙ ap (told_each names) tells;
          cluster = rest.cluster ∙ one.cluster;
        }

    drained :
        (names : List String) (later : List (Option Item)) (st : State S A)
        → api.list_groups st.cluster ≡ groups
        → api.list_agents st.cluster ≡ agents
        → IsDrained names st
            (run_worker api config_cb default_announcer st (until_shutdown names later))
    unfolding run_worker process_next
    drained [] later st g h = record {
      put_back = if_same _;
      all_forgotten = if_same _;
      told = refl;
      cluster = refl;
    }
    drained (name ∷ names) later st g h =
        let one = process_item-IsHandled api config_cb default_announcer st name in
        IsDrained-cons name names later st g h (
          drained names later _ (ap (λ s. api.list_groups s) one.cluster ∙ g)
            (ap (λ s. api.list_agents s) one.cluster ∙ h))

  -- Of the keys that the queue gives before it is shut down, the worker puts all back, in their
  -- order, if the groups or the agents cannot be listed, and forgets all, in their order, if both
  -- can; it does nothing of what would come later; for each key the application gets all the groups
  -- and all the agents, with whether PureLB is the default announcer, or is left alone if they cannot
  -- be listed; the cluster is not changed.
  pub run_worker-IsDrained :
      (names : List String) (later : List (Option Item)) (st : State S A)
      → IsDrained
          (api.list_groups st.cluster)
          (api.list_agents st.cluster)
          names
          st
          (run_worker api config_cb default_announcer st (until_shutdown names later))
  run_worker-IsDrained names later st =
      drained (api.list_groups st.cluster) (api.list_agents st.cluster) names later st refl refl
