-- ===== src/Cilium/Identities.antt =====
-- engines/cilium/eval.go: the identity of each endpoint, its labels, and its named ports.
use telepathy.Prelude.{
  ℕ, ◌+◌, ◌-◌, ◌%◌, ◌^◌, not, ◌&&◌, none, some, List, [], ◌∷◌, ◌++◌, if◌then◌else◌, ◌==◌, ℕ_eq,
  Text, codes, text_eq, is_empty, equal_fold, cut_byte, quote, Map, or_zero, get, put, ℤ, pos,
  negsuc, int_eq,
}
use telepathy.Api.Types.{EndpointPort, Endpoint, NamespaceInput}
use telepathy.Cilium.Repository.{Identity, CiliumLib}

abbrev pub first_user_identity : ℕ
first_user_identity = 256

-- `uint16(n)`
unfoldable pub uint16 : ℤ → ℕ
uint16 (pos n) = n % 2 ^ 16
uint16 (negsuc n) = 2 ^ 16 - 1 - n % 2 ^ 16

unfoldable pub endpoint_namespace : Endpoint → Text
endpoint_namespace ep =
    if not (is_empty ep.namespace)
    then ep.namespace
    else elim (cut_byte b'/' ep.id) [ none ↦ [] | some (before, after) ↦ before ]

-- `m[k] = v` for each pair of another map.
unfoldable pub put_all : {A : Type 0} → Map Text A → Map Text A → Map Text A
put_all [] m = m
put_all ((k, v) ∷ rest) m = put_all rest (put k v m)

unfoldable pub ns_labels_of :
    List NamespaceInput → Map Text (Map Text Text) → Map Text (Map Text Text)
ns_labels_of [] m = m
ns_labels_of (ns ∷ rest) m = ns_labels_of rest (put ns.name ns.labels m)

-- The protocol of a port, "tcp" by default.
abbrev pub port_protocol : EndpointPort → Text
port_protocol p = if is_empty p.protocol then codes "tcp" else p.protocol

named_ports_loop : List EndpointPort → Text → Map Text ℕ → Map Text ℕ
unfolding uint16
named_ports_loop [] proto m = m
named_ports_loop (p ∷ ps) proto m = named_ports_loop ps proto (
    if not (is_empty p.name) && equal_fold (port_protocol p) proto
    then put p.name (uint16 p.port) m
    else m)

unfoldable pub named_ports : Endpoint → Text → Map Text ℕ
unfolding named_ports_loop
named_ports ep proto = named_ports_loop ep.ports proto []

module _ ⦃lib : CiliumLib⦄ where
  -- The closure `project`.
  unfoldable pub project : Text → Text → Map Text Text → Map Text Text
  project k v m = put (lib.join_path lib.pod_namespace_meta_labels k) v m

  unfoldable pub project_all : Map Text Text → Map Text Text → Map Text Text
  unfolding project
  project_all [] m = m
  project_all ((k, v) ∷ rest) m = project_all rest (project k v m)

  -- The map `m` of `endpointLabels`, before it becomes labels.
  unfoldable pub plain_labels : Endpoint → Map Text (Map Text Text) → Map Text Text
  unfolding endpoint_namespace put_all project_all
  plain_labels ep ns_labels =
      let own = put_all ep.labels [] in
      let ns = endpoint_namespace ep in
      if is_empty ns
      then own
      else project_all (or_zero [] (get ns ns_labels))
          (project lib.label_metadata_name ns (put lib.pod_namespace_label ns own))

  unfoldable pub endpoint_labels : Endpoint → Map Text (Map Text Text) → Map Text lib.Label
  unfolding plain_labels
  endpoint_labels ep ns_labels =
      let lbls = lib.map_to_labels (plain_labels ep ns_labels) in
      if ep.role == codes "external"
      then elim (lib.parse_addr ep.ip) [
        | none ↦ lbls
        | some addr ↦ put_all (lib.cidr_labels addr) lbls
      ]
      else lbls

  -- `identity.NewIdentity(firstUserIdentity+i, endpointLabels(ep, nsLabels))`
  unfoldable pub identity_of :
      Map Text (Map Text Text) → ℕ × Endpoint → Identity lib.Label lib.LabelArray
  unfolding endpoint_labels
  identity_of ns_labels (i, ep) =
      let lbls = endpoint_labels ep ns_labels in
      record { id = first_user_identity + i; labels = lbls; label_array = lib.label_array lbls }

  -- `idMap`
  unfoldable pub id_map :
      List (Identity lib.Label lib.LabelArray) → Map ℕ lib.LabelArray → Map ℕ lib.LabelArray
  id_map [] m = m
  id_map (id ∷ ids) m = id_map ids (put id.id id.label_array m)

  -- The warning of a port that `AddPort` refuses.
  abbrev port_warning : Endpoint → EndpointPort → Text → Text
  port_warning ep p e =
      codes "cilium provider: endpoint "
      ++ ep.id
      ++ codes " named port "
      ++ quote p.name
      ++ codes ": "
      ++ e

  -- The loop over the ports of an endpoint, with the ports and the warnings so far.
  unfoldable pub add_ports :
      Endpoint → List EndpointPort → lib.NamedPortMap × List Text → lib.NamedPortMap × List Text
  add_ports ep [] (ports, warnings) = (ports, warnings)
  add_ports ep (p ∷ ps) (ports, warnings) =
      let added = lib.add_port p.name p.port (port_protocol p) ports in
      let next : lib.NamedPortMap × List Text = if is_empty p.name then (ports, warnings) else (
        added.0,
        elim added.1 [ none ↦ warnings | some e ↦ warnings ++ (port_warning ep p e ∷ []) ],
      ) in
      add_ports ep ps next

  -- The loop over the endpoints that fills `namedPortMap`.
  unfoldable pub named_port_map :
      List (ℕ × Endpoint) → lib.NamedPortMultiMap × List Text → lib.NamedPortMultiMap × List Text
  unfolding add_ports
  named_port_map [] (ports, warnings) = (ports, warnings)
  named_port_map ((i, ep) ∷ rest) (ports, warnings) =
      let added = add_ports ep ep.ports (lib.no_named_ports, warnings) in
      named_port_map rest (lib.update (first_user_identity + i) added.0 ports, added.1)
