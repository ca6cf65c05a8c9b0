-- ===== src/Client/Run.antt =====
-- The loop of Client.Run and ForceSync in internal/k8s/k8s.go: what the client asks of its queue for the
-- keys that the queue gives it, one after the other.
use purelb.Base.{ℕ, ◌+◌, List, [], ◌∷◌, ◌++◌, String, Bool, true}
use purelb.Controller.{SyncState, success, error, reprocess_all}
use purelb.Client.{Api, App, QueueKey, service_key, sync}

-- The calls of the queue.
pub data QueueCall : Type 0 where
  add_rate_limited forget done : QueueKey → QueueCall

-- The cluster and the application, with the two counters of internal/k8s/stats.go.
pub record Worker (S A : Type 0) : Type 0 where
  pub cluster : S
  pub app : A
  pub updates : ℕ
  pub update_errors : ℕ
  pub stopped : Bool

-- ForceSync, over the keys of the service indexer.
unfoldable pub force_sync : List String → List QueueCall
force_sync [] = []
force_sync (name ∷ names) = add_rate_limited (service_key name) ∷ force_sync names

module _ {S A E : Type 0} (api : Api S E) (app : App A E) where
  -- The calls that follow a sync, by its result.
  unfoldable pub calls_after : QueueKey → SyncState → S → List QueueCall
  unfolding force_sync
  calls_after key success s = forget key ∷ []
  calls_after key error s = add_rate_limited key ∷ []
  calls_after key reprocess_all s = forget key ∷ force_sync (api.list_keys s)

  unfoldable pub errors_after : SyncState → ℕ → ℕ
  errors_after success n = n
  errors_after error n = n + 1
  errors_after reprocess_all n = n

  -- One round: the deferred Done of sync comes before what Run does with the key.
  unfoldable pub serve : Worker S A → QueueKey → List QueueCall × Worker S A
  serve w key =
      let (st, s', a') = sync api app w.cluster w.app key in
      (
        done key ∷ calls_after key st s',
        record w {
          cluster = s';
          app = a';
          updates = w.updates + 1;
          update_errors = errors_after st w.update_errors;
        },
      )

  unfoldable pub serve_all : Worker S A → List QueueKey → List QueueCall × Worker S A
  serve_all w [] = ([], w)
  serve_all w (key ∷ keys) =
      let (calls, w') = serve w key in let (more, w'') = serve_all w' keys in (calls ++ more, w'')

  -- The queue is shut down after the last key.
  unfoldable pub run : Worker S A → List QueueKey → List QueueCall × Worker S A
  unfolding serve_all
  run w keys =
      let (calls, w') = serve_all w keys in
      (calls, record w' { app = app.shutdown w'.app; stopped = true })
