-- ===== src/Calico/TierMatch/Flows.antt =====
-- provider/calico/tiermatch.go: the number of flows that reach the default action of a tier.
use telepathy.Prelude.{
  ℕ, suc, ◌+◌, ◌≡◌, refl, sym, ap, ◌∙◌, inl, inr, Bool, true, false, not, ◌&&◌, ◌||◌, none, some,
  List, [], ◌∷◌, arith, if◌then◌else◌, Bool-cases, ◌==◌, ℕ_eq, Text, text_beq_iff, text_eq, any,
  fold, Map, or_zero, get, put, get-put, HasDistinctKeys, put-HasDistinctKeys, int_eq,
}
use mathlib.Core.Path.{subst}
use telepathy.Net.{Net}
use telepathy.Api.Types.{Request}
use telepathy.Calico.Store.{RuleId, PolicyStore, Checker}
use telepathy.Calico.Actors.{Actor, build_actors}
use telepathy.Calico.Flow.{make_flow, staged_scope}
use telepathy.Calico.Eval.{kind_profile, harvest}
use telepathy.Calico.Hooks.{Hook, hooks, trace, eval_flow-hooks}
use telepathy.Calico.TierMatch.{
  GraphResult, resolve_tier_matches, count_tiers, pair_ends, count_row, count_rows,
}

-- How many elements pass a test.
pub tally : {A : Type 0} → (A → Bool) → List A → ℕ
tally p [] = 0
tally p (x ∷ xs) = if p x then suc (tally p xs) else tally p xs

-- How many pairs of a row and a column pass.
pub tally_pairs : {A : Type 0} → (A → A → Bool) → List A → List A → ℕ
tally_pairs p [] cols = 0
tally_pairs p (x ∷ rows) cols = tally (p x) cols + tally_pairs p rows cols

-- Whether some step of a trace, other than of a profile, is the default action of a tier. The trace
-- may
-- go on after it, where that action is Pass.
pub has_default_step : Text → List RuleId → Bool
has_default_step t steps =
    any (λ r. r.is_tier_default_action && (not (r.kind == kind_profile) && r.tier == t)) steps

has_tier : Text → Map Text Bool → Bool
has_tier t m = elim (get t m) [ none ↦ false | some b ↦ true ]

has_tier-put :
    (t u : Text) (m : Map Text Bool) → has_tier t (put u true m) ≡ (u == t || has_tier t m)
unfolding has_tier
has_tier-put t u m = elim (Bool-cases (u == t)) [
  | inl e ↦ ground (arith, e, get-put u t true m)
  | inr e ↦ ground (arith, e, get-put u t true m)
]

harvest-has_tier :
    (t : Text) (steps : List RuleId) (eot : Map Text Bool)
    → has_tier t (harvest steps eot) ≡ (has_tier t eot || has_default_step t steps)
unfolding harvest has_default_step any
harvest-has_tier t [] eot = ground arith
harvest-has_tier t (r ∷ rest) eot =
    elim (Bool-cases (r.is_tier_default_action && not (r.kind == kind_profile))) [
      | inl e ↦
          ground
            (arith, e, harvest-has_tier t rest (put r.tier true eot), has_tier-put t r.tier eot)
      | inr e ↦ ground (arith, e, harvest-has_tier t rest eot)
    ]

harvest-HasDistinctKeys :
    (steps : List RuleId) (eot : Map Text Bool)
    → HasDistinctKeys eot
    → HasDistinctKeys (harvest steps eot)
unfolding harvest
harvest-HasDistinctKeys [] eot h = h
harvest-HasDistinctKeys (r ∷ rest) eot h =
    elim (Bool-cases (r.is_tier_default_action && not (r.kind == kind_profile))) [
      | inl e ↦ rw e (
          harvest-HasDistinctKeys rest (put r.tier true eot)
            (put-HasDistinctKeys r.tier true eot h))
      | inr e ↦ rw e (harvest-HasDistinctKeys rest eot h)
    ]

count_tiers-get :
    (t : Text) (eot : Map Text Bool) (flows : Map Text ℕ)
    → HasDistinctKeys eot
    → or_zero 0 (get t (count_tiers flows eot))
      ≡ (if has_tier t eot then suc (or_zero 0 (get t flows)) else or_zero 0 (get t flows))
unfolding count_tiers has_tier get
count_tiers-get t [] flows h = refl
count_tiers-get t ((u, b) ∷ eot) flows h =
    let next = put u (suc (or_zero 0 (get u flows))) flows in
    elim (Bool-cases (u == t)) [
      | inl e ↦
          let same = (text_beq_iff u t).0 e in
          ground (
            arith,
            e,
            same,
            h.0,
            count_tiers-get t eot next h.1,
            get-put u t (suc (or_zero 0 (get u flows))) flows,
          )
      | inr e ↦ ground (
        arith,
        e,
        count_tiers-get t eot next h.1,
        get-put u t (suc (or_zero 0 (get u flows))) flows,
      )
    ]

module _ ⦃net : Net⦄ ⦃checker : Checker net.Ip⦄ (store : PolicyStore checker.Rule checker.IpSet)
    (req : Request) (heps_by_node : Map Text (List (Actor net.Ip))) (t : Text) where
  abbrev flow_hooks : Actor net.Ip → Actor net.Ip → List (Hook net.Ip)
  flow_hooks src dst =
      hooks src dst (make_flow req src.ip dst.ip) (make_flow req dst.ip src.ip) heps_by_node

  -- A flow between two actors has such a step at some hook.
  pub reaches_default : Actor net.Ip → Actor net.Ip → Bool
  reaches_default src dst =
      not (src.id == dst.id)
      && any (λ h. has_default_step t (trace store (staged_scope req) h)) (flow_hooks src dst)

  abbrev harvested : Map Text Bool → List (Hook net.Ip) → Map Text Bool
  harvested = fold (λ eot h. harvest (trace store (staged_scope req) h) eot)

  harvested-has_tier :
      (hs : List (Hook net.Ip)) (eot : Map Text Bool)
      → (has_tier t (harvested eot hs)
          ≡ (has_tier t eot || any (λ h. has_default_step t (trace store (staged_scope req) h)) hs))
        × (HasDistinctKeys eot → HasDistinctKeys (harvested eot hs))
  unfolding fold any
  harvested-has_tier [] eot = (ground arith, λ d. d)
  harvested-has_tier (h ∷ hs) eot =
      let steps = trace store (staged_scope req) h in
      let (found, distinct) = harvested-has_tier hs (harvest steps eot) in
      (
        ground (arith, found, harvest-has_tier t steps eot),
        λ d. distinct (harvest-HasDistinctKeys steps eot d),
      )

  pair_ends-has_tier :
      (src dst : Actor net.Ip)
      → (has_tier t (pair_ends store req heps_by_node src dst)
          ≡ any (λ h. has_default_step t (trace store (staged_scope req) h)) (flow_hooks src dst))
        × HasDistinctKeys (pair_ends store req heps_by_node src dst)
  unfolding pair_ends has_tier get
  pair_ends-has_tier src dst =
      let e =
        eval_flow-hooks store (staged_scope req) src dst (make_flow req src.ip dst.ip)
          (make_flow req dst.ip src.ip) heps_by_node in
      let (found, distinct) = harvested-has_tier (flow_hooks src dst) [] in
      let ends : pair_ends store req heps_by_node src dst ≡ harvested [] (flow_hooks src dst) =
        ap (λ (p : Bool × Map Text Bool). p.1) e in
      subst
        (λ m.
          (has_tier t m
            ≡ any (λ h. has_default_step t (trace store (staged_scope req) h)) (flow_hooks src dst))
          × HasDistinctKeys m)
        (sym ends) (found, distinct tt)

  count_row-get :
      (src : Actor net.Ip) (cols : List (Actor net.Ip)) (flows : Map Text ℕ)
      → or_zero 0 (get t (count_row store req heps_by_node src cols flows))
        ≡ or_zero 0 (get t flows) + tally (reaches_default src) cols
  unfolding count_row tally reaches_default
  count_row-get src [] flows = omega arith
  count_row-get src (dst ∷ rest) flows =
      let eot = pair_ends store req heps_by_node src dst in
      let (found, distinct) = pair_ends-has_tier src dst in
      elim (Bool-cases (src.id == dst.id)) [
        | inl e ↦ ground (arith, e, count_row-get src rest flows)
        | inr e ↦ ground (
          arith,
          e,
          found,
          count_row-get src rest (count_tiers flows eot),
          count_tiers-get t eot flows distinct,
        )
      ]

  count_rows-get :
      (rows cols : List (Actor net.Ip)) (flows : Map Text ℕ)
      → or_zero 0 (get t (count_rows store req heps_by_node rows cols flows))
        ≡ or_zero 0 (get t flows) + tally_pairs reaches_default rows cols
  unfolding count_rows tally_pairs
  count_rows-get [] cols flows = omega arith
  count_rows-get (src ∷ rest) cols flows = omega (
    arith,
    count_rows-get rest cols (count_row store req heps_by_node src cols flows),
    count_row-get src cols flows,
  )

zero_plus : (n : ℕ) → 0 + n ≡ n
zero_plus n = omega arith

-- In the response of `ResolveTierMatches`, a tier counts the ordered pairs of different actors
-- whose flow, at some hook, has a trace with a step, other than of a profile, that is the default
-- action of the tier. The trace may go on after that step.
pub resolve_tier_matches-flows :
    ⦃net : Net⦄ ⦃checker : Checker net.Ip⦄
    (build_graph : Request → GraphResult checker.Rule checker.IpSet) (request : Request) (t : Text)
    → let req : Request = record request { evaluate_staged = true } in
      let g = build_graph req in
      let bundle = build_actors req g.wep_by_id g.hep_by_name in
      or_zero 0 (get t (resolve_tier_matches build_graph request).end_of_tier_flows)
      ≡ tally_pairs (reaches_default g.store req bundle.heps_by_node t) bundle.list bundle.list
unfolding resolve_tier_matches get
resolve_tier_matches-flows build_graph request t =
    let req : Request = record request { evaluate_staged = true } in
    let g = build_graph req in
    let bundle = build_actors req g.wep_by_id g.hep_by_name in
    count_rows-get g.store req bundle.heps_by_node t bundle.list bundle.list [] ∙ zero_plus _
