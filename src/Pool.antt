-- ===== src/Pool.antt =====
-- internal/allocator/pool.go: sharing keys, and the errors of the allocator.
use purelb.Base.{ℕ, String, List, Option, none, some, ◌==◌, string_eq, if◌then◌else◌}
use purelb.IpRange.{ParseError}
use purelb.Service.{Port}

pub record Key : Type 0 where
  pub sharing : String

pub data SharingError : Type 0 where
  existing_does_not_share new_does_not_share keys_differ : SharingError

-- `none` is Go's nil error.
unfoldable pub sharing_ok : Key → Key → Option SharingError
sharing_ok existing new =
    if existing.sharing == ""
    then some existing_does_not_share
    else if new.sharing == ""
    then some new_does_not_share
    else if existing.sharing == new.sharing
    then none
    else some keys_differ

-- What an operation of a pool or of the allocator can fail with. `out_of_fuel` is no error of the
-- program: it says that the model's bound on a loop was met.
pub data Error : Type 0 where
  address_in_use : List String → Error
  port_in_use : Port → String → Error
  no_available_addresses : ℕ → Error
  bad_range : ParseError → Error
  bad_subnet not_contained both_legacy_and_family no_valid_range : Error
  no_credentials bad_url fetch_failed bad_cidr unparseable_ip unknown_service : Error
  no_pool_annotation unknown_pool no_valid_pools bad_user_address no_group : Error
  not_local_or_netbox : Error
  out_of_fuel : Error
