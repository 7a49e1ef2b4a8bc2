-- ===== src/Antrea/Evaluate.antt =====
-- engines/antrea/eval.go: `evaluate`. An index out of range would panic: that is `none`.
use telepathy.Prelude.{
  ℕ, Bool, true, false, ◌&&◌, Option, some, List, [], ◌∷◌, map, if◌then◌else◌, ◌==◌, ℕ_eq, Text,
  codes, text_eq, is_empty, get_elem?, ◌>>=◌, Map, put, ℤ, pos, int_eq,
}
use telepathy.Api.Types.{Endpoint, Actor, Request, Response, allow, deny, flow_key}
use telepathy.Api.Pairs.{endpoint_pairs}
use telepathy.Net.{Net}
use telepathy.Antrea.Types.{Model}
use telepathy.Antrea.Rules.{ingress_allows, egress_allows, default_tcp}
use telepathy.Antrea.Defaults.{EndpointPolicies, allows, index_endpoint_policies}
use telepathy.Antrea.Manifests.{Grouping}
use telepathy.Antrea.Build.{build}

abbrev pub default_port : ℤ → ℤ
default_port p = if p == pos 0 then pos 8080 else p

abbrev pub verdict_text : Bool → Text
verdict_text true = allow
verdict_text false = deny

-- `Kind: ep.Role`, or "workload".
unfoldable pub actor_of : Endpoint → Actor
actor_of ep = record {
  id = ep.id;
  kind = if is_empty ep.role then codes "workload" else ep.role;
  node = [];
  internet = [];
}

module _ ⦃net : Net⦄ where
  -- The verdict of the pair (i, j), by the index or by the loops over all policies.
  unfoldable pub pair_allows :
      Bool
      → Model net.Cidr
      → List (EndpointPolicies net.Cidr)
      → List Endpoint
      → Text
      → ℤ
      → ℕ × ℕ
      → Option Bool
  pair_allows optimize m applicable endpoints proto port (i, j) = do
    src ← get_elem? endpoints i
    dst ← get_elem? endpoints j
    if optimize
        then (do
          dst_policies ← get_elem? applicable j
          src_policies ← get_elem? applicable i
          some (
              allows dst_policies.ingress src proto port dst
              && allows src_policies.egress dst proto port dst))
        else some (ingress_allows m dst src proto port && egress_allows m src dst proto port)

  -- The loop over the pairs.
  unfoldable pub fill :
      Bool
      → Model net.Cidr
      → List (EndpointPolicies net.Cidr)
      → List Endpoint
      → Text
      → ℤ
      → List (ℕ × ℕ)
      → Map Text Text
      → Option (Map Text Text)
  fill optimize m applicable endpoints proto port [] matrix = some matrix
  fill optimize m applicable endpoints proto port ((i, j) ∷ pairs) matrix = do
    src ← get_elem? endpoints i
    dst ← get_elem? endpoints j
    verdict ← pair_allows optimize m applicable endpoints proto port (i, j)
    fill optimize m applicable endpoints proto port pairs
        (put (flow_key src.id dst.id) (verdict_text verdict) matrix)

module _ ⦃net : Net⦄ ⦃group : Grouping⦄ where
  unfoldable pub evaluate_with_defaults : Request → Bool → Option Response
  evaluate_with_defaults req optimize =
      let m = build req in
      let proto = default_tcp req.protocol in
      let port = default_port req.port in
      let applicable : List (EndpointPolicies net.Cidr) =
        if optimize then index_endpoint_policies m req.endpoints proto port else [] in
      do
        matrix ←
            fill optimize m applicable req.endpoints proto port
              (endpoint_pairs req.endpoints req.matrix_pairs) []
        some (record {
          matrix = matrix;
          errors = m.errors;
          warnings = m.warnings;
          actors = map actor_of req.endpoints;
        })

  unfoldable pub evaluate : Request → Option Response
  evaluate req = evaluate_with_defaults req true
