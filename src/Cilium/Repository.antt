-- ===== src/Cilium/Repository.antt =====
-- What engines/cilium calls of Cilium's repository: identities and labels, named ports, manifests
-- and their parsers, the policy repository and `policy.LookupFlow`. None of it is in this
-- repository.
use telepathy.Prelude.{ℕ, Bool, Option, List, ℕ_eq, Text, text_eq, Map, ℤ, int_eq}

-- A call that returns an error or panics, or its result.
pub data Outcome (A : Type 0) : Type 0 where
  done : A → Outcome A
  failed : Text → Outcome A
  panicked : Text → Outcome A

-- `identity.Identity`; `label_array` is what its constructor makes of the labels.
pub record Identity (Label LabelArray : Type 0) : Type 0 where
  pub id : ℕ
  pub labels : Map Text Label
  pub label_array : LabelArray

-- `types.PolicyEntry`: a compiled rule, its direction, and its subject, which may be nil.
pub record PolicyEntry (Selector : Type 0) : Type 0 where
  pub subject : Option Selector
  pub ingress : Bool

-- `types.Flow`; the numbers are a uint8 and a uint16.
pub record Flow (Label LabelArray : Type 0) : Type 0 where
  pub from : Identity Label LabelArray
  pub to : Identity Label LabelArray
  pub proto : ℕ
  pub dport : ℕ
  pub named_ports_tcp : Map Text ℕ
  pub named_ports_udp : Map Text ℕ

-- The metadata of a decoded manifest that the code reads, and the rest of it.
pub record Manifest (Spec : Type 0) : Type 0 where
  pub name : Text
  pub namespace : Text
  pub spec : Spec

-- `ipcacheTypes.NewResourceID`
pub data ResourceKind : Type 0 where
  netpol : ResourceKind
  kcnp : ResourceKind

pub record ResourceId : Type 0 where
  pub kind : ResourceKind
  pub namespace : Text
  pub name : Text

pub record CiliumLib : Type 1 where
  -- Package labels: the constants of k8s labels, `policy.JoinPath`, `labels.Map2Labels` with the
  -- source k8s, `netip.ParseAddr`, and `labels.GetCIDRLabels` of an address with all its bits.
  pub Label : Type 0
  pub LabelArray : Type 0
  pub pod_namespace_label : Text
  pub pod_namespace_meta_labels : Text
  pub label_metadata_name : Text
  pub join_path : Text → Text → Text
  pub map_to_labels : Map Text Text → Map Text Label
  pub Addr : Type 0
  pub parse_addr : Text → Option Addr
  pub cidr_labels : Addr → Map Text Label
  pub label_array : Map Text Label → LabelArray
  -- `LabelArray.Has(labels.IDNameInit)`, and `Subject.Matches`
  pub has_init : LabelArray → Bool
  pub Selector : Type 0
  pub selects : Selector → LabelArray → Bool
  -- Named ports: `AddPort`, which changes its map and may return an error, and `Update`.
  pub NamedPortMap : Type 0
  pub NamedPortMultiMap : Type 0
  pub no_named_ports : NamedPortMap
  pub no_multi_map : NamedPortMultiMap
  pub add_port : Text → ℤ → Text → NamedPortMap → NamedPortMap × Option Text
  pub update : ℕ → NamedPortMap → NamedPortMultiMap → NamedPortMultiMap
  -- `u8proto.ParseProtocol`
  pub parse_protocol : Text → Option ℕ
  -- yaml.Unmarshal into kind and apiVersion, and into each kind of policy.
  pub CnpSpec : Type 0
  pub CcnpSpec : Type 0
  pub NpSpec : Type 0
  pub KcnpSpec : Type 0
  pub unmarshal_head : Text → Outcome (Text × Text)
  pub unmarshal_cnp : Text → Outcome (Manifest CnpSpec)
  pub unmarshal_ccnp : Text → Outcome (Manifest CcnpSpec)
  pub unmarshal_np : Text → Outcome (Manifest NpSpec)
  pub unmarshal_kcnp : Text → Outcome (Manifest KcnpSpec)
  -- The parsers of Cilium.
  pub Rule : Type 0
  pub Entries : Type 0
  pub parse_cnp : Manifest CnpSpec → Outcome (List Rule)
  pub parse_ccnp : Manifest CcnpSpec → Outcome (List Rule)
  pub parse_network_policy : Manifest NpSpec → Outcome Entries
  pub parse_cluster_network_policy : Manifest KcnpSpec → Outcome Entries
  -- `policy.Repository`: its calls change it also when they panic, with the text of the panic.
  pub Repository : Type 0
  pub new_repository : Repository
  pub set_named_ports : NamedPortMultiMap → Repository → Repository
  pub update_identities : Map ℕ LabelArray → Repository → Repository
  pub replace_by_resource : Entries → ResourceId → Repository → Repository × Option Text
  pub must_add_list : List Rule → Repository → Repository × Option Text
  -- The rules that `Iterate` visits, and `LookupFlow`: an error, or whether the verdict allows.
  pub iterate : Repository → List (PolicyEntry Selector)
  pub lookup_flow : Repository → Flow Label LabelArray → Outcome Bool
