-- ===== src/Lib.antt =====
-- PureLB, a load balancer for Kubernetes: its allocator, which gives addresses to services, with the
-- Kubernetes client, and the node agents, which elect the node that announces an address and put it
-- onto the node's interfaces.
--
-- The program. A user writes ServiceGroups, each of which says from which ranges of addresses, or
-- from which Netbox system, a pool gives out addresses. The Kubernetes client calls the allocator's
-- controller with each configuration, each service and each deletion. The controller decides
-- whether a service is its own and what it needs; its Allocator keeps the pools by name, and asks
-- the one that the service's annotations name, or the one that owns a requested address; a pool
-- keeps which services use an address, with which sharing key and which ports. An address that a
-- service gets is written into the ingress of its status, where the node agents find it. The
-- controller of a node agent hands the service to its announcer, which puts an address that is local
-- to an interface onto that interface if the node wins the election, and any other one onto an
-- interface of its own, from where routing software announces it.
--
-- The files.
-- - Base: equality as an interface, the lists, results and maps that the parts share. A Go map is
--   an association list with one entry for a key, a nil error is `none`, and the pair of a value
--   and an error is a Result, or the error beside the state that an operation leaves behind.
-- - Net: net.IP as a list of bytes, with To4, To16, bytes.Compare and IPNet.Contains of Go's
--   standard library written out. The text of addresses and go-cidr's AddressRange are a parameter,
--   the record Parser; the record IsParser has what their documentation says of the lengths.
-- - IpRange (pkg/apis/v1/iprange.go): NewIPRange, Contains, ContainedBy, Overlaps, Next, Size.
--   Bounds, Size, Overlap and Parse relate them to the numbers of the addresses.
-- - Service, ServiceGroup (pkg/apis/v1/types.go, annotations.go, classes.go,
--   internal/allocator/k8salloc.go, ingress.go): the data, with the fields that the program uses.
-- - Pool, Pools (internal/allocator/pool.go): sharing keys, errors, and the Pool interface as a data
--   type of its two implementations; Pools/Kept, Pools/Parsed and
--   Pools/Ingress are about all pools alike.
-- - Ranges (internal/allocator/localpool.go): the walk over the ranges of a pool.
-- - LocalPool (internal/allocator/localpool.go): New is NewLocalPool, Assign is AssignNext with
--   assignFamily and whichFamilies. A method on a LocalPool changes maps that all copies share, so
--   here it returns the pool that it leaves behind. The children are about what Notify and Release
--   do (Views, Notify, Release), the invariant (Invariant, Fixed), sharing (Sharing), the search for
--   an address (Search, Cycle), AssignNext as a sequence of assignments (Steps), and what that keeps
--   for other services (Exclusive) and for the service itself (Ingress). Spec is what a pool promises,
--   without its maps; Refines shows that it keeps it, and Restore is about Assign and then Release.
-- - NetboxPool (internal/allocator/netboxpool.go): the answers that the remote system will give are
--   a list in the state. Released is about Release.
-- - Allocator (internal/allocator/allocator.go): Parse is parseGroups and SetPools, Request is
--   Allocate. Kept, Config, Freed and Stats are about what the operations keep of the pools. The
--   gauges of internal/allocator/stats.go are two maps by their pool label, of the whole numbers that
--   they show: Gauge is the conversion of a size to a float64. Request/Joined is about services with
--   several requested addresses.
-- - Controller (internal/allocator/controller.go, service.go): SetBalancer, DeleteBalancer,
--   SetConfig and MarkSynced, with SyncState of internal/k8s/k8s.go. Reach is the controller as a
--   state machine.
-- - ServiceGroup/Lookup (pkg/apis/v1/types.go): the look-ups of a specification by address or family.
-- - Election (internal/election/election.go): the order of the candidates and the winner, with
--   SHA-256 as a parameter; Members has Join, Winner and watchEvents over the calls of memberlist.
-- - NodeAgent (cmd/lbnodeagent/controller.go, internal/lbnodeagent/announcer.go): the node agent's
--   controller over the Announcer interface; Local puts the local announcer behind it, and
--   Disowned is about the annotations that it takes from a service.
-- - Network (internal/local/network.go): the node's interfaces, addresses and routes, over a record of
--   the calls of net, netlink and arp on a host that is a parameter. Routes is about defaultInterface,
--   Local about checkLocal and findLocal, Delete about deleteAddr, Frame about addNetwork,
--   addVirtualInt and sendGARP.
-- - LocalAnnouncer (internal/local/announcer_local.go): the announcer with its host in its state, which
--   State declares. Endpoints is about nodeHasHealthyEndpoint, Elected about announceLocal and the
--   election, with Elected/Placed on where an address is then and Elected/Served on SetBalancer
--   before it, Withdraw about DeleteBalancer, Frame about what SetBalancer leaves alone, Groups about
--   the service groups.
-- - Client (internal/k8s/k8s.go): sync and maybeUpdateService over the calls of client-go, and the
--   calls of the application, which Retries takes from the allocator's controller. Watch has the events
--   that add keys to the queue and Run the loop over these; Retries is about the keys that come before
--   the sync, Settles about those that come after it.
-- - CrController (internal/k8s/cr-controller.go): the items of its queue, and the configuration that is
--   read for each; Handled is about one item and Handled/Drained about the loop of a worker.
-- - NetboxClient (internal/netbox/netbox.go): Fetch over the sending of requests. NetboxPool takes what
--   Fetch answers as a list. Taken says what a Netbox system does on a query, of which it answers one
--   page, and on a change of the status, which it may refuse.
-- - Logging (internal/logging/logging.go): the filter of log lines, and deformat.
-- - Tests: a parser of a few texts, and the theorems at concrete pools and services.
--
-- Bounds. An address has bytes below 256, and sizes are computed modulo 2^64, as uint64 is. The loop
-- of assignFamily has no bound in the program; `assign_from` has fuel, and assignFamily runs it with
-- `walk_fuel`, which is more rounds than the ranges have addresses: a walk that meets no address twice
-- sees them all. Where fuel runs out the error is `out_of_fuel`, which the program does not have.
--
-- Order. A range over a Go map comes in any order; here it is the order of the entries, or
-- the reverse where that is simpler.
--
-- The node. netlink, Go's net package, arp and memberlist are parameters, records of the calls that the
-- program makes. What their documentation says of the addresses of interfaces is the record IsNetlink
-- of Network/Delete: what additions, deletions and packets do to the addresses that an interface has.
-- Where a theorem needs calls to succeed, that is a hypothesis of its own (Works, and that of the
-- additions).
--
-- Queues. The work queues of client-go are not part of the program: the loops take the keys that their
-- queue gives as a list, and answer with the calls that they make of it, in order.
--
-- Not modelled: log lines and events, which are output only; the configuration of memberlist
-- in internal/election; the informers of internal/k8s and the start of its workers, which are calls of
-- client-go; the pipes of internal/logging; generated code (pkg/generated and the deep
-- copies) and the wiring of the programs.
pub mod Base
pub mod Net
pub mod IpRange
pub mod Service
pub mod ServiceGroup
pub mod Pool
pub mod Ranges
pub mod LocalAnnouncer
pub mod LocalPool
pub mod Logging
pub mod NetboxClient
pub mod NetboxPool
pub mod Pools
pub mod Allocator
pub mod Controller
pub mod CrController
pub mod Election
pub mod NodeAgent
pub mod Network
pub mod Client
pub mod Tests
