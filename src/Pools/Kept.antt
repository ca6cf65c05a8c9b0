-- ===== src/Pools/Kept.antt =====
-- A pool of internal/allocator/pool.go before and after an operation, whichever kind it is.
use purelb.Base.{◌≡◌, refl, ◌∙◌, String}
use purelb.Net.{Ip, Parser}
use purelb.Service.{Service}
use purelb.LocalPool.Invariant.{Inv}
use purelb.LocalPool.Fixed
use purelb.NetboxPool.Fixed as Remote
use purelb.Pools.{
  Pool, local, netbox, pool_name, size, overlaps, notify, assign, assign_next, release,
}

-- A local pool keeps its invariant; of a remote pool there is none to keep.
abbrev pub Sound : Pool → Type 0
Sound (local p) = Inv p
Sound (netbox p) = Unit

-- The pool keeps its kind, its name, its size and its invariant.
abbrev pub Evolves : Pool → Pool → Type 0
Evolves (local p) (local q) = Fixed.Evolves p q
Evolves (netbox p) (netbox q) = q.name ≡ p.name
Evolves _ _ = ⊥

pub Evolves-name : (p q : Pool) → Evolves p q → pool_name q ≡ pool_name p
unfolding pool_name
Evolves-name (local p) (local q) e = e.same_name
Evolves-name (netbox p) (netbox q) e = e
Evolves-name (local p) (netbox q) e = absurd e
Evolves-name (netbox p) (local q) e = absurd e

pub Evolves-Sound : (p q : Pool) → Evolves p q → Sound p → Sound q
Evolves-Sound (local p) (local q) e v = e.inv v
Evolves-Sound (netbox p) (netbox q) e v = tt
Evolves-Sound (local p) (netbox q) e v = absurd e
Evolves-Sound (netbox p) (local q) e v = absurd e

pub Evolves-size : (p q : Pool) → Evolves p q → size q ≡ size p
unfolding size
Evolves-size (local p) (local q) e = rw (e.same_v4, e.same_v6)
Evolves-size (netbox p) (netbox q) e = refl
Evolves-size (local p) (netbox q) e = absurd e
Evolves-size (netbox p) (local q) e = absurd e

pub Evolves-refl : (p : Pool) → Evolves p p
Evolves-refl (local p) = Fixed.Evolves-refl p
Evolves-refl (netbox p) = refl

pub Evolves-trans : (p q r : Pool) → Evolves p q → Evolves q r → Evolves p r
Evolves-trans (local p) (local q) (local r) a b = Fixed.Evolves-trans a b
Evolves-trans (netbox p) (netbox q) (netbox r) a b = b ∙ a
Evolves-trans (local p) (local q) (netbox r) a b = absurd b
Evolves-trans (netbox p) (netbox q) (local r) a b = absurd b
Evolves-trans (local p) (netbox q) r a b = absurd a
Evolves-trans (netbox p) (local q) r a b = absurd a

pub release-Evolves : (net : Parser) (p : Pool) (svc : String) → Evolves p (release net p svc).1
unfolding release
release-Evolves net (local p) svc = Fixed.release-Evolves p svc
release-Evolves net (netbox p) svc = Remote.name-release net p svc

module _ (net : Parser) where
  pub notify-Evolves : (p : Pool) (svc : Service) → Evolves p (notify net p svc).1
  unfolding notify
  notify-Evolves (local p) svc = Fixed.notify-Evolves net p svc
  notify-Evolves (netbox p) svc = Remote.name-notify net p svc

  pub assign-Evolves : (p : Pool) (ip : Ip) (svc : Service) → Evolves p (assign net p ip svc).1
  unfolding assign
  assign-Evolves (local p) ip svc = Fixed.assign-Evolves net p ip svc
  assign-Evolves (netbox p) ip svc = Remote.name-assign net p ip svc

  pub assign_next-Evolves : (p : Pool) (svc : Service) → Evolves p (assign_next net p svc).1
  unfolding assign_next
  assign_next-Evolves (local p) svc = Fixed.assign_next-Evolves net p svc
  assign_next-Evolves (netbox p) svc = Remote.name-assign_next net p svc

-- Whether two pools overlap is a matter of their ranges.
pub Evolves-overlaps : (p q r s : Pool) → Evolves p q → Evolves r s → overlaps q s ≡ overlaps p r
unfolding overlaps
Evolves-overlaps (local p) (local q) (local r) (local s) e f =
    rw (e.same_v4, e.same_v6, f.same_v4, f.same_v6)
Evolves-overlaps (local p) (local q) (netbox r) (netbox s) e f = refl
Evolves-overlaps (netbox p) (netbox q) r s e f = refl
Evolves-overlaps (local p) (local q) (local r) (netbox s) e f = absurd f
Evolves-overlaps (local p) (local q) (netbox r) (local s) e f = absurd f
Evolves-overlaps (local p) (netbox q) r s e f = absurd e
Evolves-overlaps (netbox p) (local q) r s e f = absurd e
