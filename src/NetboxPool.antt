-- ===== src/NetboxPool.antt =====
-- internal/allocator/netboxpool.go: a pool whose addresses come from a Netbox system.
pub mod Fixed
pub mod Ingress
pub mod Released
use purelb.Base.{
  ℕ, ◌≡◌, Bool, true, false, List, [], ◌∷◌, ◌++◌, is_nil, String, Option, none, some, length, ◌==◌,
  string_eq, if◌then◌else◌,
}
use purelb.Base.Dict
use purelb.Base.Dict.{Dict}
use purelb.Base.Result.{Result, ok, err}
use purelb.Net.{Ip, IpNet, Parser}
use purelb.ServiceGroup.{NetboxSpec}
use purelb.Service.{Service, namespaced_name, add_ingress}
use purelb.Pool.{
  Error, no_credentials, bad_url, fetch_failed, bad_cidr, unparseable_ip, unknown_service,
}
use purelb.LocalPool.{inner}

-- `answers` are the results of the calls of Fetch to come, in order: what the remote system will
-- say, with `none` for an error. A call with no answer left fails.
pub record NetboxPool : Type 0 where
  pub name : String
  pub url : String
  pub user_token : String
  pub answers : List (Option String)
  pub services : Dict String (List Ip)
  pub addresses_in_use : Dict String (Dict String Bool)

-- The environment: NETBOX_USER_TOKEN, url.Parse with the URL's text, and the answers of a system.
pub record Environment : Type 0 where
  pub user_token : Option String
  pub parse_url : String → Option String
  pub answers : String → String → List (Option String)

unfoldable pub new_netbox_pool : Environment → String → NetboxSpec → Result Error NetboxPool
new_netbox_pool env name spec = elim env.user_token [
  | none ↦ err no_credentials
  | some token ↦ elim (env.parse_url spec.url) [
    | none ↦ err bad_url
    | some url ↦ ok (record {
      name = name;
      url = url;
      user_token = token;
      answers = env.answers url spec.tenant;
      services = [];
      addresses_in_use = [];
    })
  ]
]

abbrev pub Outcome : Type 0
Outcome = Option Error × NetboxPool × Service

unfoldable pub record_address : NetboxPool → String → String → Ip → NetboxPool
record_address p svc text ip = record p {
  addresses_in_use =
      Dict.put p.addresses_in_use text
        (Dict.put (inner (Dict.get p.addresses_in_use text)) svc true);
  services = Dict.put p.services svc (inner (Dict.get p.services svc) ++ ip ∷ []);
}

module _ (net : Parser) where
  open net use {parse_ip, ip_string, parse_cidr}

  -- The loop of Notify: the first address that does not parse ends it.
  unfoldable pub notify_addresses : String → List String → NetboxPool → Option Error × NetboxPool
  unfolding record_address
  notify_addresses svc [] p = (none, p)
  notify_addresses svc (text ∷ texts) p =
      let ip = parse_ip text in
      let rest = notify_addresses svc texts (record_address p svc text ip) in
      if is_nil ip then (some unparseable_ip, p) else rest

  unfoldable pub notify : NetboxPool → Service → Option Error × NetboxPool
  unfolding notify_addresses
  notify p svc = notify_addresses (namespaced_name svc) svc.ingress p

  unfoldable pub assign : NetboxPool → Ip → Service → Outcome
  unfolding notify add_ingress
  assign p ip svc =
      let svc' = add_ingress svc (ip_string ip) in let (e, p') = notify p svc' in (e, p', svc')

  assign_fetched : NetboxPool → Option String → Service → Outcome
  unfolding assign
  assign_fetched p none svc = (some fetch_failed, p, svc)
  assign_fetched p (some cidr) svc = elim (parse_cidr cidr) [
    | none ↦ (some bad_cidr, p, svc)
    | some (ip, _) ↦ assign p ip svc
  ]

  assign_answer : NetboxPool → List (Option String) → Service → Outcome
  unfolding assign_fetched
  assign_answer p [] svc = assign_fetched p none svc
  assign_answer p (answer ∷ answers) svc =
      assign_fetched (record p { answers = answers }) answer svc

  unfoldable pub assign_next : NetboxPool → Service → Outcome
  unfolding assign_answer
  assign_next p svc = assign_answer p p.answers svc

  -- delete(m[k], svc), and m[k] with it if it is then empty.
  unfoldable pub without_user :
      Dict String (Dict String Bool) → String → String → Dict String (Dict String Bool)
  without_user m text svc = elim (Dict.remove (inner (Dict.get m text)) svc) [
    | [] ↦ Dict.remove m text
    | u ∷ us ↦ Dict.put m text (u ∷ us)
  ]

  -- Of the addresses of the service the first is freed. (An entry of `services` is never empty.)
  unfoldable pub release_first : NetboxPool → String → Option (List Ip) → Option Error × NetboxPool
  unfolding without_user
  release_first p svc none = (some unknown_service, p)
  release_first p svc (some []) = (none, p)
  release_first p svc (some (ip ∷ ips)) = (
    none,
    record p {
      services = Dict.remove p.services svc;
      addresses_in_use = without_user p.addresses_in_use (ip_string ip) svc;
    },
  )

  unfoldable pub release : NetboxPool → String → Option Error × NetboxPool
  unfolding release_first
  release p svc = release_first p svc (Dict.get p.services svc)

  unfoldable pub contains : NetboxPool → Ip → Bool
  contains p ip = elim (Dict.get p.addresses_in_use (ip_string ip)) [ none ↦ false | some _ ↦ true ]

unfoldable pub in_use : NetboxPool → ℕ
in_use p = length p.addresses_in_use

-- The size of a remote pool is not known, and it overlaps with no other.
unfoldable pub size : NetboxPool → ℕ
size p = 0
