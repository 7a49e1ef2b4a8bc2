-- ===== src/Antrea/Defaults.antt =====
-- engines/antrea/defaults.go: the policies of each endpoint, indexed once and reduced for the
-- probe.
use telepathy.Prelude.{
  Bool, true, false, not, Option, none, some, List, [], ◌∷◌, ◌++◌, map, if◌then◌else◌, ℕ_eq, Text,
  text_eq, is_empty, Map, or_zero, get, put, ℤ, int_eq,
}
use telepathy.Api.Types.{Endpoint, no_endpoint}
use telepathy.Net.{Net}
use telepathy.Antrea.Types.{PortSpec, ResolvedRule, ResolvedPolicy, Model}
use telepathy.Antrea.Rules.{pod_key, port_matches, matches}

pub record DirectionRules (Cidr : Type 0) : Type 0 where
  pub isolated : Bool
  pub rules : List (ResolvedRule Cidr)

pub record EndpointPolicies (Cidr : Type 0) : Type 0 where
  pub ingress : DirectionRules Cidr
  pub egress : DirectionRules Cidr

abbrev pub no_rules : {C : Type 0} → DirectionRules C
no_rules = record { isolated = false; rules = [] }

abbrev pub no_policies : {C : Type 0} → EndpointPolicies C
no_policies = record { ingress = no_rules; egress = no_rules }

-- Whether an egress rule must keep its ports, since a name resolves at the destination.
unfoldable pub has_named : List PortSpec → Bool
has_named [] = false
has_named (p ∷ ps) = if not (is_empty p.named) then true else has_named ps

-- What a policy adds to an endpoint that it selects.
unfoldable pub add_policy :
    {C : Type 0} → ResolvedPolicy C → EndpointPolicies C → EndpointPolicies C
add_policy p ep = record {
  ingress =
      if p.ingress_isolate
      then record { isolated = true; rules = ep.ingress.rules ++ p.ingress }
      else ep.ingress;
  egress =
      if p.egress_isolate
      then record { isolated = true; rules = ep.egress.rules ++ p.egress }
      else ep.egress;
}

module _ {C : Type 0} where
  -- `for key, selected := range policy.appliedTo`
  unfoldable pub index_policy :
      ResolvedPolicy C
      → Map Text Bool
      → Map Text (EndpointPolicies C)
      → Map Text (EndpointPolicies C)
  unfolding add_policy
  index_policy p [] by_pod = by_pod
  index_policy p ((key, selected) ∷ rest) by_pod = index_policy p rest (
      if not selected
      then by_pod
      else put key (add_policy p (or_zero no_policies (get key by_pod))) by_pod)

  unfoldable pub index_policies :
      List (ResolvedPolicy C) → Map Text (EndpointPolicies C) → Map Text (EndpointPolicies C)
  unfolding index_policy
  index_policies [] by_pod = by_pod
  index_policies (p ∷ ps) by_pod = index_policies ps (index_policy p p.applied_to by_pod)

module _ ⦃net : Net⦄ where
  unfoldable pub allows_loop : List (ResolvedRule net.Cidr) → Endpoint → Text → ℤ → Endpoint → Bool
  allows_loop [] peer proto port owner = false
  allows_loop (r ∷ rs) peer proto port owner =
      if matches r peer proto port owner then true else allows_loop rs peer proto port owner

  unfoldable pub allows : DirectionRules net.Cidr → Endpoint → Text → ℤ → Endpoint → Bool
  unfolding allows_loop
  allows d peer proto port owner =
      if not d.isolated then true else allows_loop d.rules peer proto port owner

  -- The loop of `forProbe`, with the rules kept so far. An early return is the result `no_rules`.
  unfoldable pub probe_loop :
      Bool
      → List (ResolvedRule net.Cidr)
      → Text
      → ℤ
      → Option Endpoint
      → List (ResolvedRule net.Cidr)
      → DirectionRules net.Cidr
  probe_loop isolated [] proto port owner kept = record { isolated = isolated; rules = kept }
  probe_loop isolated (r ∷ rs) proto port owner kept =
      let dynamic : Bool = elim owner [ none ↦ has_named r.ports | some _ ↦ false ] in
      let endpoint = or_zero no_endpoint owner in
      let keep = probe_loop isolated rs proto port owner (kept ++ (r ∷ [])) in
      let skip = probe_loop isolated rs proto port owner kept in
      let free = probe_loop isolated rs proto port owner (kept ++ (record r { ports = [] } ∷ [])) in
      if dynamic
      then keep
      else if not (port_matches r proto port endpoint)
      then skip
      else if r.match_all_peers
      then no_rules
      else free

  unfoldable pub for_probe :
      DirectionRules net.Cidr → Text → ℤ → Option Endpoint → DirectionRules net.Cidr
  unfolding probe_loop has_named
  for_probe d proto port owner = probe_loop d.isolated d.rules proto port owner []

  -- One slot of the result of `indexEndpointPolicies`.
  unfoldable pub endpoint_entry :
      Map Text (EndpointPolicies net.Cidr) → Text → ℤ → Endpoint → EndpointPolicies net.Cidr
  endpoint_entry by_pod proto port ep =
      let policies = or_zero no_policies (get (pod_key ep) by_pod) in
      record {
        ingress = for_probe policies.ingress proto port (some ep);
        egress = for_probe policies.egress proto port none;
      }

  unfoldable pub index_endpoint_policies :
      Model net.Cidr → List Endpoint → Text → ℤ → List (EndpointPolicies net.Cidr)
  unfolding index_policies endpoint_entry for_probe
  index_endpoint_policies m endpoints proto port =
      map (endpoint_entry (index_policies m.policies []) proto port) endpoints
