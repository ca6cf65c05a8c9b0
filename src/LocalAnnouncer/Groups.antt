-- ===== src/LocalAnnouncer/Groups.antt =====
-- The groups that SetConfig of internal/local/announcer_local.go stashes, and a service that is from
-- another one.
use purelb.Base.{
  ◌≡◌, refl, ap, ◌∙◌, inl, inr, Bool, false, ◌||◌, List, [], ◌∷◌, String, none, some, arith, ◌==◌,
  string_eq, Option-cases,
}
use purelb.Base.Dict
use purelb.Base.Dict.{Dict, get-put, get-nil}
use purelb.Base.Result.{Result, ok, Result-cases}
use purelb.Net.{Ip, Parser}
use purelb.Service.{Service, annotation, pool_annotation}
use purelb.ServiceGroup.{ServiceGroup, LocalSpec, AgentLocalSpec}
use purelb.Controller.{Config}
use purelb.Network.{Netlink}
use purelb.LocalAnnouncer.{
  Announcer, nil_group, Subset, first_local, local_groups, local_pattern, with_dummy, set_config,
  announce_remote, in_group,
}

-- Whether a local group has the name.
abbrev pub has_local_group : String → List ServiceGroup → Bool
has_local_group name [] = false
has_local_group name (g ∷ gs) =
    (elim g.spec.local [ none ↦ false | some _ ↦ g.name == name ]) || has_local_group name gs

get-local_groups :
    (name : String) (gs : List ServiceGroup) (m : Dict String LocalSpec)
    → has_local_group name gs ≡ false
    → Dict.get (local_groups gs m) name ≡ Dict.get m name
unfolding local_groups
get-local_groups name [] m h = refl
get-local_groups name (g ∷ gs) m h = elim (Option-cases g.spec.local) [
  | inl e ↦ rw e (get-local_groups name gs m (ground arith))
  | inr (spec, e) ↦ rw e (
      get-local_groups name gs (Dict.put m g.name spec) (ground arith)
      ∙ ground (arith, get-put m g.name name spec))
]

module _ {H P : Type 0} (nl : Netlink H P) (net : Parser)
    (compile : String → Result String (String → Bool)) where
  with_dummy-groups :
      (a : Announcer H) (spec : AgentLocalSpec) → (with_dummy nl net a spec).1.groups ≡ a.groups
  unfolding with_dummy
  with_dummy-groups a spec = ground arith

  local_pattern-groups :
      (a : Announcer H) (spec : AgentLocalSpec) {b : Announcer H}
      → local_pattern nl net compile a spec ≡ ok b
      → b.groups ≡ a.groups
  unfolding local_pattern
  local_pattern-groups a spec h = ground arith

  -- With a local specification for the agents, SetConfig stashes the local groups, also if it fails.
  set_config-groups :
      (a : Announcer H) (cfg : Config) {spec : AgentLocalSpec}
      → first_local cfg.agents ≡ some spec
      → (set_config nl net compile a cfg).1.groups ≡ local_groups cfg.groups []
  unfolding set_config
  set_config-groups a cfg {spec} there =
      let b : Announcer H = record a { config = none; groups = local_groups cfg.groups [] } in
      elim (Result-cases (local_pattern nl net compile b spec)) [
        | inr (e, f) ↦ rw (there, f, set_config)
        | inl (c, f) ↦
            rw (there, f, set_config) (with_dummy-groups c spec ∙ local_pattern-groups b spec f)
      ]

  -- Once SetConfig has read a local specification for the agents, announceRemote panics for a service
  -- whose pool annotation names no local group of the configuration, such as that of a Netbox pool,
  -- unless its traffic policy is Local.
  pub announce_remote-nil_group :
      (a : Announcer H) (cfg : Config) (svc : Service) (eps : List Subset) (ip : Ip)
      {spec : AgentLocalSpec} {name : String}
      → first_local cfg.agents ≡ some spec
      → annotation svc pool_annotation ≡ some name
      → has_local_group name cfg.groups ≡ false
      → (svc.external_traffic_policy == "Local") ≡ false
      → (announce_remote nl net (set_config nl net compile a cfg).1 svc eps ip).0 ≡ some nil_group
  unfolding announce_remote
  announce_remote-nil_group a cfg svc eps ip {name = name} there from missing policy =
      let nothing =
        ap (λ m. Dict.get m name) (set_config-groups a cfg there)
        ∙ get-local_groups name cfg.groups [] missing
        ∙ get-nil name in
      rw (policy, from, nothing, announce_remote) (unfold in_group in refl)
