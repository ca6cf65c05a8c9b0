-- ===== src/ServiceGroup.antt =====
-- pkg/apis/v1/types.go: the specifications of service groups and of node agents.
pub mod Lookup
use purelb.Base.{Bool, List, String, Option}

-- ServiceGroupAddressPool
pub record AddressPool : Type 0 where
  pub pool : String
  pub subnet : String
  pub aggregation : String

-- ServiceGroupLocalSpec
pub record LocalSpec : Type 0 where
  pub subnet : String
  pub pool : String
  pub aggregation : String
  pub v4_pool : Option AddressPool
  pub v6_pool : Option AddressPool
  pub v4_pools : List AddressPool
  pub v6_pools : List AddressPool

-- ServiceGroupNetboxSpec
pub record NetboxSpec : Type 0 where
  pub url : String
  pub tenant : String
  pub aggregation : String

-- ServiceGroupSpec
pub record GroupSpec : Type 0 where
  pub local : Option LocalSpec
  pub netbox : Option NetboxSpec

-- ServiceGroup, of whose metadata the program uses the name.
pub record ServiceGroup : Type 0 where
  pub name : String
  pub spec : GroupSpec

-- LBNodeAgentLocalSpec
pub record AgentLocalSpec : Type 0 where
  pub local_interface : String
  pub ext_lb_interface : String
  pub send_gratuitous_arp : Bool

-- LBNodeAgent, of which the program uses the local specification.
pub record NodeAgentSpec : Type 0 where
  pub local : Option AgentLocalSpec
