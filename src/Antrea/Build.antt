-- ===== src/Antrea/Build.antt =====
-- engines/antrea/harness.go: the builder, which registers each selector as a group of its own, and
-- `build`.
use telepathy.Prelude.{
  has_prefix, ℕ, ◌+◌, Bool, true, not, ◌&&◌, ◌||◌, Option, none, some, List, [], ◌∷◌, ◌++◌,
  if◌then◌else◌, ◌==◌, ℕ_eq, Text, codes, text_eq, is_empty, is_nil, itoa, quote, Map, put, int_eq,
}
use telepathy.Api.Types.{PolicyInput, Request}
use telepathy.Net.{Net}
use telepathy.Antrea.Types.{ResolvedRule, ResolvedPolicy, Model}
use telepathy.Antrea.Manifests.{
  Decoded, ok, err, NetworkPolicyPeer, NetworkPolicyRule, NetworkPolicy, Pod, Grouping,
  namespace_objects, pod_objects, parse_ports, ingress_type, egress_type, policy_type_has,
  parse_ip_block,
}

-- `out[p.Namespace+"/"+p.Name] = true`
unfoldable pub name_set : List (Text × Text) → Map Text Bool → Map Text Bool
name_set [] out = out
name_set ((ns, name) ∷ rest) out = name_set rest (put (ns ++ codes "/" ++ name) true out)

-- `for k := range more { set[k] = true }`
unfoldable pub add_keys : Map Text Bool → Map Text Bool → Map Text Bool
add_keys [] set = set
add_keys ((k, v) ∷ rest) set = add_keys rest (put k true set)

module _ ⦃net : Net⦄ ⦃group : Grouping⦄ where
  -- The builder's state: the index and the counter of groups.
  abbrev pub Builder : Type 0
  Builder = group.Index × ℕ

  unfoldable pub resolve :
      Builder → Text → Option group.Selector → Option group.Selector → Map Text Bool × Builder
  unfolding name_set itoa
  resolve (idx, n) namespace pod_sel ns_sel =
      let name = codes "g" ++ itoa n in
      let idx' = group.add_group name namespace pod_sel ns_sel idx in
      (name_set (group.get_entities name idx') [], (idx', n + 1))

  -- The loop over a rule's peers, with the rule so far.
  resolve_peers :
      Builder
      → Text
      → List (NetworkPolicyPeer group.Selector)
      → ResolvedRule net.Cidr
      → ResolvedRule net.Cidr × Builder
  unfolding resolve add_keys parse_ip_block
  resolve_peers b ns [] r = (r, b)
  resolve_peers b ns (peer ∷ rest) r = elim peer.ip_block [
    | some block ↦ resolve_peers b ns rest (elim (parse_ip_block block) [
      | none ↦ r
      | some blk ↦ record r { ip_blocks = r.ip_blocks ++ (blk ∷ []) }
    ])
    | none ↦
        let scope : Text = elim peer.namespace_selector [ none ↦ ns | some _ ↦ [] ] in
        let found = resolve b scope peer.pod_selector peer.namespace_selector in
        resolve_peers found.1 ns rest (record r { peer_pods = add_keys found.0 r.peer_pods })
  ]

  unfoldable pub resolve_rule :
      Builder → Text → NetworkPolicyRule group.Selector → ResolvedRule net.Cidr × Builder
  unfolding resolve_peers parse_ports
  resolve_rule b ns rule =
      let start : ResolvedRule net.Cidr = record {
        match_all_peers = is_nil rule.peers;
        peer_pods = [];
        ip_blocks = [];
        ports = [];
      } in
      let found = resolve_peers b ns rule.peers start in
      let r = found.0 in (record r { ports = parse_ports rule.ports }, found.1)

  resolve_rules :
      Builder
      → Text
      → List (NetworkPolicyRule group.Selector)
      → List (ResolvedRule net.Cidr) × Builder
  unfolding resolve_rule
  resolve_rules b ns [] = ([], b)
  resolve_rules b ns (rule ∷ rest) =
      let first = resolve_rule b ns rule in
      let others = resolve_rules first.1 ns rest in (first.0 ∷ others.0, others.1)

  unfoldable pub resolve_policy :
      Builder → NetworkPolicy group.Selector → ResolvedPolicy net.Cidr × Builder
  unfolding resolve_rules policy_type_has
  resolve_policy b np =
      let applied = resolve b np.namespace (some np.pod_selector) none in
      let ingress = resolve_rules applied.1 np.namespace np.ingress in
      let egress = resolve_rules ingress.1 np.namespace np.egress in
      (
        record {
          name = np.namespace ++ codes "/" ++ np.name;
          ingress_isolate = policy_type_has np ingress_type;
          egress_isolate = policy_type_has np egress_type;
          applied_to = applied.0;
          ingress = ingress.0;
          egress = egress.0;
        },
        egress.1,
      )

  -- `parseK8sNetworkPolicy`: the policy, or the kind of a manifest that is none.
  unfoldable pub parse_k8s_network_policy :
      PolicyInput → Decoded (Option (NetworkPolicy group.Selector) × Text)
  unfolding has_prefix
  parse_k8s_network_policy p = elim (group.unmarshal_head p.yaml) [
    | err e ↦ err (codes "antrea provider: cannot parse manifest: " ++ e)
    | ok (kind, api_version) ↦
        if not (
          kind == codes "NetworkPolicy"
          && (p.flavor == codes "k8s" || has_prefix api_version (codes "networking.k8s.io/")))
        then ok (none, kind)
        else elim (group.unmarshal_policy p.yaml) [
          | err e ↦ err (codes "antrea provider: cannot decode NetworkPolicy: " ++ e)
          | ok np ↦ ok (
            some (record np {
              namespace = if is_empty np.namespace then codes "default" else np.namespace;
            }),
            kind,
          )
        ]
  ]

  -- The three cases of the `switch` in `build`.
  unfoldable pub build_step :
      Builder
      → Decoded (Option (NetworkPolicy group.Selector) × Text)
      → Model net.Cidr
      → Model net.Cidr × Builder
  unfolding resolve_policy quote
  build_step b (err e) m = (record m { errors = m.errors ++ (e ∷ []) }, b)
  build_step b (ok (some np, kind)) m =
      let resolved = resolve_policy b np in
      (record m { policies = m.policies ++ (resolved.0 ∷ []) }, resolved.1)
  build_step b (ok (none, kind)) m = (
    record m {
      warnings =
          m.warnings
          ++ ((codes "antrea provider: skipping unsupported manifest kind "
                ++ quote kind
                ++ codes " (only Kubernetes NetworkPolicy is evaluated)")
              ∷ []);
    },
    b,
  )

  unfoldable pub build_loop : Builder → List PolicyInput → Model net.Cidr → Model net.Cidr
  unfolding build_step parse_k8s_network_policy
  build_loop b [] m = m
  build_loop b (p ∷ rest) m =
      let next = build_step b (parse_k8s_network_policy p) m in build_loop next.1 rest next.0

  add_namespaces : Map Text (Map Text Text) → group.Index → group.Index
  add_namespaces [] idx = idx
  add_namespaces ((name, labels) ∷ rest) idx =
      add_namespaces rest (group.add_namespace name labels idx)

  add_pods : List Pod → group.Index → group.Index
  add_pods [] idx = idx
  add_pods (pod ∷ rest) idx = add_pods rest (group.add_pod pod idx)

  unfoldable pub build : Request → Model net.Cidr
  unfolding build_loop add_namespaces add_pods namespace_objects pod_objects
  build req =
      let idx =
        add_pods (pod_objects req) (add_namespaces (namespace_objects req) group.new_index) in
      build_loop (idx, 0) req.policies (record { policies = []; warnings = []; errors = [] })
