-- ===== src/Client/Settles.antt =====
-- The client with the allocator's controller: once the key of the sync has been served, no key goes
-- back into the queue for an error.
use purelb.Base.{
  ℕ, ◌≡◌, ◌≢◌, refl, ap, ◌∙◌, inl, inr, List, [], ◌∷◌, ◌++◌, String, Option, none, some, true,
  false, arith, Bool-cases,
}
use purelb.Base.Result.{ok}
use purelb.Net.{Parser}
use purelb.Service.{Service}
use purelb.Controller.{
  SyncState, success, error, reprocess_all, Controller, set_balancer, delete_balancer, mark_synced,
}
use purelb.Controller.Branches.{set_balancer-error, set_balancer-synced}
use purelb.Client.{
  Api, QueueKey, service_key, synced_key, sync, sync_service, written, maybe_update_service,
  write_rest, after_status, is_special,
}
use purelb.Client.Retries.{allocator}
use purelb.Client.Run.{
  QueueCall, forget, add_rate_limited, done, Worker, serve, serve_all, calls_after, errors_after,
  force_sync,
}

-- A cluster whose reads and writes do not fail.
pub record Works {S E : Type 0} (api : Api S E) : Type 0 where
  pub finds : (s : S) (name : String) → (r : Option Service) × (api.get_service s name ≡ ok r)
  pub finds_endpoints : (s : S) (name : String) → (r : Option E) × (api.get_endpoints s name ≡ ok r)
  pub updates : (s : S) (svc : Service) → (api.update s svc).0 ≡ none
  pub updates_status :
      (s : S) (svc : Service) → (r : Service) × ((api.update_status s svc).0 ≡ ok r)

module _ {S E : Type 0} (api : Api S E) (net : Parser) (works : Works api) where
  write_rest-true :
      (s : S) (was is : Service) (updated : Option Service)
      → (write_rest api s was is updated).0 ≡ true
  unfolding write_rest
  write_rest-true s was is updated = ground (arith, works.updates s (after_status updated is))

  maybe_update_service-true :
      (s : S) (was is : Service) → (maybe_update_service api s was is).0 ≡ true
  unfolding maybe_update_service
  maybe_update_service-true s was is =
      let (r, answer) = works.updates_status s is in
      ground (
        arith,
        answer,
        write_rest-true s was is none,
        write_rest-true (api.update_status s is).1 was is (some r),
      )

  -- A result after which the key is not put back, and the controller still synced.
  abbrev IsSettled : SyncState × S × Controller → Type 0
  IsSettled r = (r.0 ≢ error) × (r.2.synced ≡ true)

  written-IsSettled :
      (s : S) (was : Service) (out : SyncState × Controller × Service)
      → out.0 ≢ error
      → out.1.synced ≡ true
      → IsSettled (written api (allocator net) s was out)
  unfolding written
  written-IsSettled s was (success, c, is) ne h =
      rw (maybe_update_service-true s was is) (λ e. cc, h)
  written-IsSettled s was (error, c, is) ne h = absurd (ne refl)
  written-IsSettled s was (reprocess_all, c, is) ne h = (λ e. cc, h)

  balanced : (c : Controller) (svc : Service) → c.synced ≡ true → (set_balancer net c svc).0 ≢ error
  balanced c svc h e = ground (arith, (set_balancer-error net c svc).0 e)

  found-IsSettled :
      (s : S) (c : Controller) (name : String) (found : Option Service) (eps : Option E)
      → c.synced ≡ true
      → is_special api (allocator {E = E} net) name ≡ false
      → api.get_service s name ≡ ok found
      → api.get_endpoints s name ≡ ok eps
      → IsSettled (sync_service api (allocator net) s c name)
  unfolding sync_service delete_balancer
  found-IsSettled s c name none eps h plain f g = rw (plain, f, sync_service) (λ e. cc, h)
  found-IsSettled s c name (some svc) eps h plain f g =
      rw (plain, f, g, sync_service)
        (written-IsSettled s svc (set_balancer net c svc) (balanced c svc h)
          (set_balancer-synced net c svc ∙ h))

  sync_service-IsSettled :
      (s : S) (c : Controller) (name : String)
      → c.synced ≡ true
      → IsSettled (sync_service api (allocator net) s c name)
  sync_service-IsSettled s c name h =
      elim (Bool-cases (is_special api (allocator {E = E} net) name)) [
        | inl special ↦ unfold sync_service in rw (special, sync_service) (λ e. cc, h)
        | inr plain ↦
            let (found, f) = works.finds s name in
            let (eps, g) = works.finds_endpoints s name in
            found-IsSettled s c name found eps h plain f g
      ]

  sync-IsSettled :
      (s : S) (c : Controller) (key : QueueKey)
      → c.synced ≡ true
      → IsSettled (sync api (allocator net) s c key)
  unfolding sync
  sync-IsSettled s c (service_key name) h = sync_service-IsSettled s c name h
  sync-IsSettled s c synced_key h = unfold mark_synced in (λ e. cc, refl)

  -- The keys that a list of calls forgets.
  abbrev pub forgotten : List QueueCall → List QueueKey
  forgotten [] = []
  forgotten (forget key ∷ calls) = key ∷ forgotten calls
  forgotten (_ ∷ calls) = forgotten calls

  forgotten-append : (xs ys : List QueueCall) → forgotten (xs ++ ys) ≡ forgotten xs ++ forgotten ys
  forgotten-append [] ys = refl
  forgotten-append (forget key ∷ xs) ys = ap (λ l. key ∷ l) (forgotten-append xs ys)
  forgotten-append (add_rate_limited key ∷ xs) ys = forgotten-append xs ys
  forgotten-append (done key ∷ xs) ys = forgotten-append xs ys

  forgotten-force_sync : (names : List String) → forgotten (force_sync names) ≡ []
  unfolding force_sync
  forgotten-force_sync [] = refl
  forgotten-force_sync (name ∷ names) = forgotten-force_sync names

  -- What one settled result leads to.
  after-settled :
      (key : QueueKey) (st : SyncState) (s : S) (n : ℕ)
      → st ≢ error
      → (forgotten (calls_after api (allocator {E = E} net) key st s) ≡ key ∷ [])
        × (errors_after api (allocator {E = E} net) st n ≡ n)
  unfolding calls_after errors_after
  after-settled key success s n ne = (refl, refl)
  after-settled key error s n ne = absurd (ne refl)
  after-settled key reprocess_all s n ne =
      (ap (λ l. key ∷ l) (forgotten-force_sync (api.list_keys s)), refl)

  -- A run over some keys in which all are forgotten, in their order, and none fails.
  pub record Settles (keys : List QueueKey) (w : Worker S Controller)
      (out : List QueueCall × Worker S Controller) : Type 0 where
    pub all_forgotten : forgotten out.0 ≡ keys
    pub no_error : out.1.update_errors ≡ w.update_errors
    pub still_synced : out.1.app.synced ≡ true

  -- Once the allocator's controller is synced, over a cluster whose reads and writes do not fail, every
  -- key that the queue gives is forgotten, in the order in which they come; the counter of errors
  -- stays; and the controller stays synced.
  pub synced-Settles :
      (keys : List QueueKey) (w : Worker S Controller)
      → w.app.synced ≡ true
      → Settles keys w (serve_all api (allocator net) w keys)
  unfolding serve_all serve
  synced-Settles [] w h = record { all_forgotten = refl; no_error = refl; still_synced = h }
  synced-Settles (key ∷ keys) w h =
      let r = sync api (allocator net) w.cluster w.app key in
      let settled = sync-IsSettled w.cluster w.app key h in
      let (first, errors) = after-settled key r.0 r.1 w.update_errors settled.0 in
      let w' = (serve api (allocator net) w key).1 in
      let rest = synced-Settles keys w' settled.1 in
      record {
        all_forgotten =
            forgotten-append (serve api (allocator net) w key).0 _
            ∙ ground (arith, first, rest.all_forgotten);
        no_error = rest.no_error ∙ errors;
        still_synced = rest.still_synced;
      }

  served-synced :
      (keys : List QueueKey) (w : Worker S Controller)
      → (serve_all api (allocator net) w (keys ++ synced_key ∷ [])).1.app.synced ≡ true
  unfolding serve_all serve sync mark_synced
  served-synced [] w = refl
  served-synced (key ∷ keys) w = served-synced keys (serve api (allocator net) w key).1

  -- Over a cluster whose reads and writes do not fail, whatever keys the queue gives before the key of
  -- the sync, every key that it gives after it is forgotten, in the order in which they come, and none
  -- of them counts as an error.
  pub serve_all-Settles :
      (before after : List QueueKey) (w : Worker S Controller)
      → Settles after (serve_all api (allocator net) w (before ++ synced_key ∷ [])).1 (
          serve_all api
            (allocator net)
            (serve_all api (allocator net) w (before ++ synced_key ∷ [])).1
            after)
  serve_all-Settles before after w = synced-Settles after _ (served-synced before w)
