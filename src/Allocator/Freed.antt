-- ===== src/Allocator/Freed.antt =====
-- Unassign of internal/allocator/allocator.go, seen in each of the local pools.
use purelb.Base.{◌≡◌, ap, ◌∙◌, String, some, string_eq}
use purelb.Base.Dict
use purelb.Net.{Parser}
use purelb.LocalPool
use purelb.LocalPool.{LocalPool}
use purelb.LocalPool.Release.{IsReleased, release-IsReleased}
use purelb.Pools
use purelb.Pools.{local}
use purelb.Allocator.{Allocator, unassign}
use purelb.Allocator.Kept.{without, get-unassign}
use purelb.Allocator.Config.{IsConfig}

-- A local pool has become another, in which a service has nothing any more.
pub record IsFreed (a b : Allocator) (name : String) (p : LocalPool) (svc : String) : Type 0 where
  pub pool : LocalPool
  pub filed : Dict.get b.pools name ≡ some (local pool)
  pub freed : IsReleased p pool svc

module _ (net : Parser) where
  -- Where the pools are a configuration, Unassign frees what a service has in every local pool,
  -- and leaves all others what they have.
  pub unassign-IsFreed :
      (a : Allocator) (svc name : String) (p : LocalPool)
      → IsConfig a.pools
      → Dict.get a.pools name ≡ some (local p)
      → IsFreed a (unassign net a svc) name p svc
  unfolding Pools.release
  unassign-IsFreed a svc name p c e = record {
    pool = LocalPool.release p svc;
    filed = get-unassign net a svc name ∙ ap (without net svc) e;
    freed = release-IsReleased p svc (c.sound name (local p) e);
  }
