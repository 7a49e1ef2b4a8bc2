-- ===== src/Calico/Actors.antt =====
-- provider/calico/eval.go: the actors, one to a row and column of the matrix.
use telepathy.Prelude.{
  Bool, true, false, not, ◌&&◌, Option, none, some, List, [], ◌∷◌, ◌++◌, if◌then◌else◌, ◌==◌, ℕ_eq,
  Text, codes, text_eq, fold, is_nil, quote, Map, or_zero, get, put, int_eq,
}
use telepathy.Net.{Net}
use telepathy.Api.Types.{Endpoint, HostEndpointInput, Request}
use telepathy.Calico.Store.{TierInfo, WorkloadEndpoint, HostEndpoint}

pub data ActorKind : Type 0 where
  actor_wep actor_hep : ActorKind

pub record Actor (Ip : Type 0) : Type 0 where
  pub id : Text
  pub kind : ActorKind
  pub ip : Option Ip
  pub node : Text
  pub wep : Option WorkloadEndpoint
  pub hep : Option HostEndpoint
  pub unpoliced : Bool
  pub role : Text

abbrev pub is_hep : ActorKind → Bool
is_hep actor_hep = true
is_hep actor_wep = false

unfoldable pub hep_as_wep : Option HostEndpoint → List TierInfo → Option WorkloadEndpoint
hep_as_wep none tiers = none
hep_as_wep (some h) tiers =
    some (record { name = h.name; tiers = tiers; profile_ids = h.profile_ids })

-- The getters of a host endpoint that may be nil.
abbrev pub hep_tiers : Option HostEndpoint → List TierInfo
hep_tiers none = []
hep_tiers (some h) = h.tiers

abbrev pub forward_tiers : Option HostEndpoint → List TierInfo
forward_tiers none = []
forward_tiers (some h) = h.forward_tiers

abbrev pub pre_dnat_tiers : Option HostEndpoint → List TierInfo
pre_dnat_tiers none = []
pre_dnat_tiers (some h) = h.pre_dnat_tiers

abbrev pub untracked_tiers : Option HostEndpoint → List TierInfo
untracked_tiers none = []
untracked_tiers (some h) = h.untracked_tiers

module _ {Ip : Type 0} where
  unfoldable pub normal_wep : Actor Ip → Option WorkloadEndpoint
  unfolding hep_as_wep
  normal_wep a = if is_hep a.kind then hep_as_wep a.hep (hep_tiers a.hep) else a.wep

  unfoldable pub forward_wep : Actor Ip → Option WorkloadEndpoint
  unfolding hep_as_wep
  forward_wep a = hep_as_wep a.hep (forward_tiers a.hep)

  unfoldable pub pre_dnat_wep : Actor Ip → Option WorkloadEndpoint
  unfolding hep_as_wep
  pre_dnat_wep a = hep_as_wep a.hep (pre_dnat_tiers a.hep)

  unfoldable pub untracked_wep : Actor Ip → Option WorkloadEndpoint
  unfolding hep_as_wep
  untracked_wep a = hep_as_wep a.hep (untracked_tiers a.hep)

  unfoldable pub actor_kind_string : Actor Ip → Text
  actor_kind_string a =
      if is_hep a.kind
      then codes "hep"
      else if a.role == codes "external"
      then codes "external"
      else if a.role == codes "host"
      then codes "host-unpoliced"
      else codes "workload"

-- The loop of `forwardTierHas`.
any_tier_has : List TierInfo → Bool → Bool
any_tier_has [] ingress = false
any_tier_has (t ∷ ts) ingress =
    if ingress && not (is_nil t.ingress_policies)
    then true
    else if not ingress && not (is_nil t.egress_policies)
    then true
    else any_tier_has ts ingress

unfoldable pub forward_tier_has : Option HostEndpoint → Bool → Bool
unfolding any_tier_has
forward_tier_has hep ingress = any_tier_has (forward_tiers hep) ingress

pub record ActorBundle (Ip : Type 0) : Type 0 where
  pub list : List (Actor Ip)
  pub heps_by_node : Map Text (List (Actor Ip))
  pub warnings : List Text

module _ ⦃net : Net⦄ where
  wep_actors : List Endpoint → Map Text WorkloadEndpoint → List (Actor net.Ip)
  wep_actors [] wep_by_id = []
  wep_actors (ep ∷ rest) wep_by_id =
      record {
        id = ep.id;
        kind = actor_wep;
        ip = net.parse_ip ep.ip;
        node = ep.node;
        wep = get ep.id wep_by_id;
        hep = none;
        unpoliced = ep.unpoliced;
        role = ep.role;
      }
      ∷ wep_actors rest wep_by_id

  -- doNotTrack tiers are dropped on an all-interfaces host endpoint.
  unfoldable pub drop_untracked : HostEndpointInput → HostEndpoint → HostEndpoint
  drop_untracked hep h =
      if hep.interface_name == codes "*" && not (is_nil h.untracked_tiers)
      then record h { untracked_tiers = [] }
      else h

  untracked_warning : HostEndpointInput → HostEndpoint → List Text
  untracked_warning hep h =
      if hep.interface_name == codes "*" && not (is_nil h.untracked_tiers)
      then (codes "HostEndpoint "
          ++ quote hep.name
          ++ codes
              ": doNotTrack policy is not supported on an all-interfaces (interfaceName: \"*\") HostEndpoint and is ignored (matches Calico dataplane behaviour)")
        ∷ []
      else []

  hep_ip : List Text → Option net.Ip
  hep_ip [] = none
  hep_ip (s ∷ rest) = net.parse_ip s

  -- The body of the second loop of `buildActors`.
  unfoldable pub add_hep :
      Map Text HostEndpoint → ActorBundle net.Ip → HostEndpointInput → ActorBundle net.Ip
  unfolding drop_untracked untracked_warning hep_ip
  add_hep hep_by_name out hep = elim (get hep.name hep_by_name) [
    | none ↦ out
    | some hp ↦
        let a : Actor net.Ip = record {
          id = codes "host/" ++ hep.name;
          kind = actor_hep;
          ip = hep_ip hep.expected_ips;
          node = hep.node;
          wep = none;
          hep = some (drop_untracked hep hp);
          unpoliced = false;
          role = [];
        } in
        let heps =
          put hep.node (or_zero [] (get hep.node out.heps_by_node) ++ (a ∷ [])) out.heps_by_node in
        let warned = out.warnings ++ untracked_warning hep hp in
        elim (hep_ip hep.expected_ips) [
          | none ↦ record out {
            heps_by_node = heps;
            warnings =
                warned
                ++ ((codes "HostEndpoint "
                      ++ quote hep.name
                      ++ codes
                          " has no ExpectedIPs; excluded from matrix rows/cols but its forward/preDNAT tiers still gate flows on node "
                      ++ quote hep.node)
                    ∷ []);
          }
          | some _ ↦ record { list = out.list ++ (a ∷ []); heps_by_node = heps; warnings = warned }
        ]
  ]

  unfoldable pub build_actors :
      Request → Map Text WorkloadEndpoint → Map Text HostEndpoint → ActorBundle net.Ip
  unfolding wep_actors add_hep fold
  build_actors req wep_by_id hep_by_name =
      fold (add_hep hep_by_name)
        (record { list = wep_actors req.endpoints wep_by_id; heps_by_node = []; warnings = [] })
        req.host_endpoints
