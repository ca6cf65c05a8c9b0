-- ===== src/Pools/Ingress.antt =====
-- The service that AssignNext of a pool of either kind leaves behind
-- (internal/allocator/pool.go).
use purelb.Net.{Parser}
use purelb.Service.{Service}
use purelb.LocalPool.Ingress.{Addressed, assign_next-Addressed}
use purelb.NetboxPool.Ingress.{netbox-Addressed}
use purelb.Pools.{Pool, local, netbox, assign_next}

module _ (net : Parser) where
  -- AssignNext of a pool, whether or not it fails, leaves a service that differs from the one it
  -- was given in its ingress at most.
  pub pool-Addressed : (p : Pool) (svc : Service) → Addressed svc (assign_next net p svc).2
  unfolding assign_next
  pool-Addressed (local p) svc = assign_next-Addressed net p svc
  pool-Addressed (netbox p) svc = netbox-Addressed net p svc
