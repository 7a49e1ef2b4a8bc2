-- ===== src/Tests/TierMatch.antt =====
-- provider/calico/tiermatch.go on a small graph.
use telepathy.Prelude.{
  ◌≡◌, true, not, ◌&&◌, List, [], ◌∷◌, ◌==◌, ℕ_eq, Text, codes, text_eq, any, contains, is_nil,
  or_zero, get, int_eq,
}
use telepathy.Api.Types.{Request, no_request, no_endpoint}
use telepathy.Tests.Nets.{text_net}
use telepathy.Tests.Calico.{set_checker, set_store, client, server, node}
use telepathy.Calico.Store.{PolicyId, policy_id_eq, WorkloadEndpoint, tiers_of}
use telepathy.Calico.Actors.{build_actors}
use telepathy.Calico.TierMatch.{GraphResult, tier_policies_of, hep_match, resolve_tier_matches}
use telepathy.Calico.TierMatch.Flows.{tally_pairs, reaches_default, resolve_tier_matches-flows}
use telepathy.Calico.TierMatch.Once.{AreOnce}
use telepathy.Calico.TierMatch.Selected.{all_tiers, hep_match-exact}

-- A pod without policies, and one whose policy admits no other source than the first.
abbrev two_pods : Request
two_pods = record no_request {
  endpoints =
      record no_endpoint { id = client.id; ip = codes "10.0.0.1" }
      ∷ record no_endpoint { id = server.id; ip = codes "10.0.0.3" }
      ∷ [];
}

abbrev policed : WorkloadEndpoint
policed = record { name = server.id; tiers = tiers_of server.wep; profile_ids = [] }

abbrev small_graph : Request → GraphResult Text (List Text)
small_graph req = record {
  store = set_store;
  wep_by_id = (server.id, policed) ∷ [];
  hep_by_name = [];
  ip_set_members = [];
  warnings = [];
  errors = [];
}

resolve_tier_matches-flows_example :
    let req : Request = record two_pods { evaluate_staged = true } in
    let g = small_graph req in
    let bundle = build_actors req g.wep_by_id g.hep_by_name in
    or_zero 0 (get (codes "default") (resolve_tier_matches small_graph two_pods).end_of_tier_flows)
    ≡ tally_pairs
        (reaches_default g.store req bundle.heps_by_node (codes "default"))
        bundle.list
        bundle.list
resolve_tier_matches-flows_example =
    resolve_tier_matches-flows small_graph two_pods (codes "default")

hep_match-exact_example :
    ((p : PolicyId)
      → contains (hep_match node).policies p
        ≡ any (λ ti. contains (tier_policies_of ti) p) (all_tiers node))
    × ((n : Text)
        → contains (hep_match node).tiers n
          ≡ any (λ ti. ti.name == n && not (is_nil (tier_policies_of ti))) (all_tiers node))
    × AreOnce (hep_match node).policies
    × AreOnce (hep_match node).tiers
hep_match-exact_example = hep_match-exact node
