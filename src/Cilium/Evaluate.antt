-- ===== src/Cilium/Evaluate.antt =====
-- engines/cilium/eval.go: `evaluate`. An index out of range would panic, and so does a panic that
-- nothing contains: both are `none`.
use telepathy.Prelude.{
  ℕ, ◌-◌, Bool, true, false, not, ◌&&◌, Option, none, some, List, [], ◌∷◌, ◌++◌, map, leb, nat_eq,
  if◌then◌else◌, ◌==◌, ℕ_eq, Text, codes, text_eq, is_empty, get_elem?, ◌>>=◌, Map, or_zero, put, ℤ,
  pos, int_eq,
}
use telepathy.Api.Types.{Endpoint, Actor, Request, Response, allow, deny, flow_key}
use telepathy.Api.Pairs.{enumerate, endpoint_pairs}
use telepathy.Cilium.Repository.{Outcome, Identity, Flow, CiliumLib}
use telepathy.Cilium.Defaults.{EndpointDirections, affected_directions}
use telepathy.Cilium.Identities.{
  uint16, ns_labels_of, named_ports, identity_of, id_map, named_port_map,
}
use telepathy.Cilium.Policies.{Loading, load_policies, add_rules}

-- `strings.ToUpper`, on ASCII.
upper : ℕ → ℕ
upper c = if leb b'a' c && leb c b'z' then c - 32 else c

unfoldable pub to_upper : Text → Text
unfolding upper
to_upper s = map upper s

abbrev pub tcp : ℕ
tcp = 6

-- `port`, before its conversion.
unfoldable pub probe_port : ℤ → ℤ
probe_port p = if p == pos 0 then pos 8080 else p

-- `Kind: ep.Role`, or "workload".
unfoldable pub endpoint_actor : Endpoint → Actor
endpoint_actor ep = record {
  id = ep.id;
  kind = if is_empty ep.role then codes "workload" else ep.role;
  node = [];
  internet = [];
}

module _ ⦃lib : CiliumLib⦄ where
  unfoldable pub probe_proto : Text → ℕ
  unfolding to_upper
  probe_proto protocol =
      if is_empty protocol then tcp else or_zero tcp (lib.parse_protocol (to_upper protocol))

  -- The literal of `policytypes.Flow`.
  abbrev pub flow_record :
      Endpoint
      → Identity lib.Label lib.LabelArray
      → Identity lib.Label lib.LabelArray
      → ℕ
      → ℕ
      → Flow lib.Label lib.LabelArray
  flow_record dst from to proto dport = record {
    from = from;
    to = to;
    proto = proto;
    dport = dport;
    named_ports_tcp = named_ports dst (codes "tcp");
    named_ports_udp = named_ports dst (codes "udp");
  }

  -- The flow of the pair (i, j).
  unfoldable pub flow_of :
      List Endpoint
      → List (Identity lib.Label lib.LabelArray)
      → ℕ
      → ℕ
      → ℕ × ℕ
      → Option (Flow lib.Label lib.LabelArray)
  flow_of endpoints idents proto dport (i, j) = do
    dst ← get_elem? endpoints j
    from ← get_elem? idents i
    to ← get_elem? idents j
    some (flow_record dst from to proto dport)

  -- `!affected[i].egress && !affected[j].ingress`
  unfoldable pub unaffected : List EndpointDirections → ℕ × ℕ → Option Bool
  unaffected affected (i, j) = do
    at_src ← get_elem? affected i
    at_dst ← get_elem? affected j
    some (not at_src.egress && not at_dst.ingress)

  -- The verdict of a lookup, and its warning.
  unfoldable pub looked_up : Text → Text → Outcome Bool → Option (Text × List Text)
  looked_up src dst (Outcome.done true) = some (allow, [])
  looked_up src dst (Outcome.done false) = some (deny, [])
  looked_up src dst (Outcome.failed e) =
      some (deny, (codes "cilium provider: " ++ flow_key src dst ++ codes " lookup: " ++ e) ∷ [])
  looked_up src dst (Outcome.panicked r) = none

  -- The verdict of one flow. `skip` is the test of the early `continue`.
  unfoldable pub flow_verdict :
      lib.Repository
      → Bool
      → Text
      → Text
      → Flow lib.Label lib.LabelArray
      → Option (Text × List Text)
  unfolding looked_up
  flow_verdict repo skip src dst flow =
      if skip then some (allow, []) else looked_up src dst (lib.lookup_flow repo flow)

  -- `optimize && uint16(port) != 0 && proto != 0 && ...`, which reads the index only if need be.
  unfoldable pub may_skip : Bool → List EndpointDirections → ℕ → ℕ → ℕ × ℕ → Option Bool
  unfolding unaffected
  may_skip optimize affected proto dport pair =
      if optimize && not (nat_eq dport 0) && not (nat_eq proto 0)
      then unaffected affected pair
      else some false

  -- The loop over the pairs, with the matrix and the warnings so far.
  unfoldable pub fill :
      lib.Repository
      → Bool
      → List EndpointDirections
      → List Endpoint
      → List (Identity lib.Label lib.LabelArray)
      → ℕ
      → ℕ
      → List (ℕ × ℕ)
      → Map Text Text × List Text
      → Option (Map Text Text × List Text)
  unfolding flow_of may_skip flow_verdict
  fill repo optimize affected endpoints idents proto dport [] acc = some acc
  fill repo optimize affected endpoints idents proto dport ((i, j) ∷ pairs) (matrix, warnings) = do
    src ← get_elem? endpoints i
    dst ← get_elem? endpoints j
    flow ← flow_of endpoints idents proto dport (i, j)
    skip ← may_skip optimize affected proto dport (i, j)
    verdict ← flow_verdict repo skip src.id dst.id flow
    fill repo optimize affected endpoints idents proto dport pairs
        (put (flow_key src.id dst.id) verdict.0 matrix, warnings ++ verdict.1)

  -- `idents`
  unfoldable pub identities : Request → List (Identity lib.Label lib.LabelArray)
  unfolding identity_of
  identities req = map (identity_of (ns_labels_of req.namespaces [])) (enumerate 0 req.endpoints)

  -- The repository with the policies in it, and the errors and warnings of steps 2 and 3.
  unfoldable pub load : Request → Option (Loading lib.Repository lib.Rule)
  unfolding identities
  load req =
      let named = named_port_map (enumerate 0 req.endpoints) (lib.no_multi_map, []) in
      let seeded =
        lib.update_identities (id_map (identities req) [])
          (lib.set_named_ports named.0 lib.new_repository) in
      do
        loaded ←
            load_policies req.policies
              (record { repo = seeded; cnp_rules = []; errors = []; warnings = named.1 })
        some (add_rules loaded)

  unfoldable pub evaluate_with_defaults : Request → Bool → Option Response
  unfolding load fill
  evaluate_with_defaults req optimize =
      let idents = identities req in
      do
        loaded ← load req
        filled ←
            fill loaded.repo optimize
              (if optimize then affected_directions loaded.repo idents else []) req.endpoints idents
              (probe_proto req.protocol) (uint16 (probe_port req.port))
              (endpoint_pairs req.endpoints req.matrix_pairs) ([], loaded.warnings)
        some (record {
          matrix = filled.0;
          errors = loaded.errors;
          warnings = filled.1;
          actors = map endpoint_actor req.endpoints;
        })

  unfoldable pub evaluate : Request → Option Response
  evaluate req = evaluate_with_defaults req true
