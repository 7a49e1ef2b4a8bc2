-- ===== src/Calico/TierMatch.antt =====
-- provider/calico/tiermatch.go: the tiers and policies of each endpoint, and the flows that reach
-- the end of a tier. The graph of Felix is a parameter, by what it leaves for a request.
pub mod Flows
pub mod Once
pub mod Selected
use telepathy.Prelude.{
  ℕ, suc, Bool, true, false, Option, none, some, List, [], ◌∷◌, ◌++◌, map, if◌then◌else◌, ◌==◌,
  ℕ_eq, Text, text_eq, fold, is_nil, sort_texts, Map, or_zero, get, put, int_eq,
}
use telepathy.Net.{Net}
use telepathy.Api.Types.{Request}
use telepathy.Calico.Store.{
  PolicyId, policy_id_eq, TierInfo, WorkloadEndpoint, HostEndpoint, PolicyStore, Checker,
}
use telepathy.Calico.Actors.{
  Actor, is_hep, hep_tiers, forward_tiers, pre_dnat_tiers, untracked_tiers, build_actors,
}
use telepathy.Calico.Flow.{make_flow, staged_scope}
use telepathy.Calico.Eval.{eval_flow}

-- graph.go: what `buildGraph` returns.
pub record GraphResult (Rule IpSet : Type 0) : Type 0 where
  pub store : PolicyStore Rule IpSet
  pub wep_by_id : Map Text WorkloadEndpoint
  pub hep_by_name : Map Text HostEndpoint
  pub ip_set_members : Map Text (List Text)
  pub warnings : List Text
  pub errors : List Text

-- A PolicyRef has the fields of a policy ID.
pub record TierMatch : Type 0 where
  pub endpoint : Text
  pub tiers : List Text
  pub policies : List PolicyId

pub record TierMatchResponse : Type 0 where
  pub endpoints : List TierMatch
  pub end_of_tier_flows : Map Text ℕ
  pub warnings : List Text
  pub errors : List Text

-- The state of `collectTierPolicies`: the match, and the maps `seen` and `seenTier`.
pub record Footprint : Type 0 where
  pub match_ : TierMatch
  pub seen : Map PolicyId Bool
  pub seen_tier : Map Text Bool

abbrev pub no_footprint : Text → Footprint
no_footprint id = record {
  match_ = record { endpoint = id; tiers = []; policies = [] };
  seen = [];
  seen_tier = [];
}

unfoldable pub add_tier_name : Footprint → Text → Footprint
unfolding get put
add_tier_name f name = if or_zero false (get name f.seen_tier) then f else record f {
  match_ = record f.match_ { tiers = f.match_.tiers ++ (name ∷ []) };
  seen_tier = put name true f.seen_tier;
}

unfoldable pub add_policy_ref : Footprint → PolicyId → Footprint
unfolding get put
add_policy_ref f p = if or_zero false (get p f.seen) then f else record f {
  match_ = record f.match_ { policies = f.match_.policies ++ (p ∷ []) };
  seen = put p true f.seen;
}

abbrev pub tier_policies_of : TierInfo → List PolicyId
tier_policies_of ti = ti.ingress_policies ++ ti.egress_policies

-- The body of the loop: a tier without a policy is skipped.
unfoldable pub collect_tier : Footprint → TierInfo → Footprint
unfolding add_tier_name add_policy_ref fold
collect_tier f ti =
    if is_nil (tier_policies_of ti)
    then f
    else fold add_policy_ref (add_tier_name f ti.name) (tier_policies_of ti)

unfoldable pub collect_tier_policies : Footprint → List TierInfo → Footprint
unfolding collect_tier fold
collect_tier_policies f tiers = fold collect_tier f tiers

-- `sortedKeys`
unfoldable pub sorted_keys : {V : Type 0} → Map Text V → List Text
unfolding sort_texts
sorted_keys m = sort_texts (map (λ e. e.0) m)

unfoldable pub wep_match : Text → Option WorkloadEndpoint → TierMatch
unfolding collect_tier_policies
wep_match id wep =
    (collect_tier_policies (no_footprint id) (elim wep [ none ↦ [] | some w ↦ w.tiers ])).match_

-- The hooks before the normal tiers, and then these, share the maps.
unfoldable pub hep_match : {Ip : Type 0} → Actor Ip → TierMatch
unfolding collect_tier_policies
hep_match a =
    let pre_dnat = collect_tier_policies (no_footprint a.id) (pre_dnat_tiers a.hep) in
    let untracked = collect_tier_policies pre_dnat (untracked_tiers a.hep) in
    let forward = collect_tier_policies untracked (forward_tiers a.hep) in
    (collect_tier_policies forward (hep_tiers a.hep)).match_

unfoldable pub hep_matches : {Ip : Type 0} → List (Actor Ip) → List TierMatch
unfolding hep_match
hep_matches [] = []
hep_matches (a ∷ rest) =
    let more = hep_matches rest in if is_hep a.kind then hep_match a ∷ more else more

-- `for t := range eot { eotFlows[t]++ }`
unfoldable pub count_tiers : Map Text ℕ → Map Text Bool → Map Text ℕ
unfolding put get
count_tiers flows [] = flows
count_tiers flows ((t, b) ∷ eot) = count_tiers (put t (suc (or_zero 0 (get t flows))) flows) eot

module _ ⦃net : Net⦄ ⦃checker : Checker net.Ip⦄ (store : PolicyStore checker.Rule checker.IpSet)
    (req : Request) (heps_by_node : Map Text (List (Actor net.Ip))) where
  -- The tiers whose default action a flow reaches.
  unfoldable pub pair_ends : Actor net.Ip → Actor net.Ip → Map Text Bool
  pair_ends src dst =
      (eval_flow store (staged_scope req) src dst (make_flow req src.ip dst.ip)
        (make_flow req dst.ip src.ip) heps_by_node).1

  unfoldable pub count_row : Actor net.Ip → List (Actor net.Ip) → Map Text ℕ → Map Text ℕ
  unfolding count_tiers
  count_row src [] flows = flows
  count_row src (dst ∷ rest) flows =
      count_row src rest (if src.id == dst.id then flows else count_tiers flows (pair_ends src dst))

  unfoldable pub count_rows : List (Actor net.Ip) → List (Actor net.Ip) → Map Text ℕ → Map Text ℕ
  unfolding count_row
  count_rows [] cols flows = flows
  count_rows (src ∷ rest) cols flows = count_rows rest cols (count_row src cols flows)

-- Staged policies are always included here.
unfoldable pub resolve_tier_matches :
    ⦃net : Net⦄ ⦃checker : Checker net.Ip⦄
    → (Request → GraphResult checker.Rule checker.IpSet)
    → Request
    → TierMatchResponse
unfolding sorted_keys wep_match hep_matches count_rows get build_actors
resolve_tier_matches build_graph request =
    let req : Request = record request { evaluate_staged = true } in
    let g = build_graph req in
    let bundle = build_actors req g.wep_by_id g.hep_by_name in
    record {
      endpoints =
          map (λ id. wep_match id (get id g.wep_by_id)) (sorted_keys g.wep_by_id)
          ++ hep_matches bundle.list;
      end_of_tier_flows = count_rows g.store req bundle.heps_by_node bundle.list bundle.list [];
      warnings = g.warnings ++ bundle.warnings;
      errors = g.errors;
    }
