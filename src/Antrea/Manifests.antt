-- ===== src/Antrea/Manifests.antt =====
-- engines/antrea/harness.go: `build` resolves the manifests against Antrea's grouping index. The
-- index, the YAML decoder and the label selectors are not part of the repository.
use telepathy.Prelude.{
  Bool, true, false, not, ◌&&◌, Option, none, some, List, [], ◌∷◌, map, if◌then◌else◌, ◌==◌, ℕ_eq,
  Text, codes, text_eq, is_empty, to_lower, is_nil, Map, or_zero, get, put, ℤ, pos, int_eq,
}
use telepathy.Api.Types.{Endpoint, NamespaceInput, Request}
use telepathy.Net.{Net}
use telepathy.Antrea.Types.{ResolvedIpBlock, PortSpec, minus_one}
use telepathy.Antrea.Rules.{endpoint_namespace, endpoint_name}

pub data Decoded (A : Type 0) : Type 0 where
  ok : A → Decoded A
  err : Text → Decoded A

-- k8s.io/api: what the code reads of a NetworkPolicy. `intstr.IntOrString` is a number or a name.
pub data IntOrString : Type 0 where
  int : ℤ → IntOrString
  str : Text → IntOrString

pub record NetworkPolicyPort : Type 0 where
  pub protocol : Option Text
  pub port : Option IntOrString
  pub end_port : Option ℤ

pub record IpBlock : Type 0 where
  pub cidr : Text
  pub except : List Text

pub record NetworkPolicyPeer (Selector : Type 0) : Type 0 where
  pub pod_selector : Option Selector
  pub namespace_selector : Option Selector
  pub ip_block : Option IpBlock

pub record NetworkPolicyRule (Selector : Type 0) : Type 0 where
  pub ports : List NetworkPolicyPort
  pub peers : List (NetworkPolicyPeer Selector)

pub record NetworkPolicy (Selector : Type 0) : Type 0 where
  pub name : Text
  pub namespace : Text
  pub pod_selector : Selector
  pub ingress : List (NetworkPolicyRule Selector)
  pub egress : List (NetworkPolicyRule Selector)
  pub policy_types : List Text

-- A pod as `podObjects` builds it; the node name and the phase are constants there.
pub record Pod : Type 0 where
  pub namespace : Text
  pub name : Text
  pub labels : Map Text Text
  pub pod_ip : Text

-- Antrea's `grouping.GroupEntityIndex`, and the decoder of manifests (kind and apiVersion, or the
-- whole policy).
pub record Grouping : Type 1 where
  pub Selector : Type 0
  pub Index : Type 0
  pub new_index : Index
  pub add_namespace : Text → Map Text Text → Index → Index
  pub add_pod : Pod → Index → Index
  pub add_group : Text → Text → Option Selector → Option Selector → Index → Index
  pub get_entities : Text → Index → List (Text × Text)
  pub unmarshal_head : Text → Decoded (Text × Text)
  pub unmarshal_policy : Text → Decoded (NetworkPolicy Selector)

abbrev pub metadata_name : Text
metadata_name = codes "kubernetes.io/metadata.name"

copy_labels : Map Text Text → Map Text Text → Map Text Text
copy_labels labels [] = labels
copy_labels labels ((k, v) ∷ rest) = copy_labels (put k v labels) rest

declared_namespaces : List NamespaceInput → Map Text (Map Text Text) → Map Text (Map Text Text)
unfolding copy_labels
declared_namespaces [] seen = seen
declared_namespaces (ns ∷ rest) seen =
    declared_namespaces rest
      (put ns.name (put metadata_name ns.name (copy_labels [] ns.labels)) seen)

referenced_namespaces : List Endpoint → Map Text (Map Text Text) → Map Text (Map Text Text)
referenced_namespaces [] seen = seen
referenced_namespaces (ep ∷ rest) seen =
    let ns = endpoint_namespace ep in
    referenced_namespaces rest (
      if is_empty ns
      then seen
      else elim (get ns seen) [ none ↦ put ns ((metadata_name, ns) ∷ []) seen | some _ ↦ seen ])

-- The objects in the order of the map; Go's order is not fixed.
unfoldable pub namespace_objects : Request → Map Text (Map Text Text)
unfolding declared_namespaces referenced_namespaces
namespace_objects req = referenced_namespaces req.endpoints (declared_namespaces req.namespaces [])

pods_of : List Endpoint → List Pod
pods_of [] = []
pods_of (ep ∷ rest) =
    let ns = endpoint_namespace ep in
    let more = pods_of rest in
    if is_empty ns
    then more
    else record { namespace = ns; name = endpoint_name ep; labels = ep.labels; pod_ip = ep.ip }
      ∷ more

unfoldable pub pod_objects : Request → List Pod
unfolding pods_of
pod_objects req = pods_of req.endpoints

-- `parsePorts`
parse_port : NetworkPolicyPort → PortSpec
parse_port p =
    let proto : Text = elim p.protocol [ none ↦ codes "tcp" | some s ↦ to_lower s ] in
    elim p.port [
      | none ↦ record { proto = proto; port = minus_one; end_port = pos 0; named = [] }
      | some (IntOrString.int n) ↦ record {
        proto = proto;
        port = n;
        end_port = or_zero n p.end_port;
        named = [];
      }
      | some (IntOrString.str s) ↦ record {
        proto = proto;
        port = minus_one;
        end_port = pos 0;
        named = s;
      }
    ]

unfoldable pub parse_ports : List NetworkPolicyPort → List PortSpec
unfolding parse_port
parse_ports ps = map parse_port ps

has_type : List Text → Text → Bool
has_type [] t = false
has_type (pt ∷ rest) t = if pt == t then true else has_type rest t

abbrev pub ingress_type : Text
ingress_type = codes "Ingress"

abbrev pub egress_type : Text
egress_type = codes "Egress"

unfoldable pub policy_type_has : {S : Type 0} → NetworkPolicy S → Text → Bool
unfolding has_type
policy_type_has np t =
    if is_nil np.policy_types && t == ingress_type
    then true
    else if is_nil np.policy_types && t == egress_type
    then not (is_nil np.egress)
    else has_type np.policy_types t

module _ ⦃net : Net⦄ where
  parse_except : List Text → List net.Cidr
  parse_except [] = []
  parse_except (s ∷ rest) =
      let more = parse_except rest in elim (net.parse_cidr s) [ none ↦ more | some c ↦ c ∷ more ]

  unfoldable pub parse_ip_block : IpBlock → Option (ResolvedIpBlock net.Cidr)
  unfolding parse_except
  parse_ip_block b = elim (net.parse_cidr b.cidr) [
    | none ↦ none
    | some c ↦ some (record { cidr = some c; except = parse_except b.except })
  ]
