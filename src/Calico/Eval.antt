-- ===== src/Calico/Eval.antt =====
-- provider/calico/eval.go: `evalFlow`, and the loop over every pair that `Evaluate` runs when host
-- endpoints are present.
use telepathy.Prelude.{
  Bool, true, false, not, ◌&&◌, ◌||◌, Option, List, [], ◌∷◌, if◌then◌else◌, ◌==◌, ℕ_eq, Text, codes,
  text_eq, is_nil, Map, or_zero, get, put, int_eq,
}
use telepathy.Net.{Net}
use telepathy.Api.Types.{Request, allow, deny}
use telepathy.Calico.Store.{
  WorkloadEndpoint, RuleDir, dir_ingress, dir_egress, PolicyScope, RuleId, PolicyStore, Flow,
  Checker,
}
use telepathy.Calico.Flow.{verdict, make_flow, staged_scope}
use telepathy.Calico.Actors.{
  Actor, is_hep, pre_dnat_tiers, untracked_tiers, normal_wep, forward_wep, pre_dnat_wep,
  untracked_wep, forward_tier_has, ActorBundle,
}
use telepathy.Calico.Matrix.{MatrixSink, put_verdict}

-- apiv3.KindProfile
abbrev pub kind_profile : Text
kind_profile = codes "Profile"

-- The tiers whose end-of-tier action a trace reached, added to those seen before.
unfoldable pub harvest : List RuleId → Map Text Bool → Map Text Bool
harvest [] eot = eot
harvest (r ∷ rest) eot =
    harvest rest (
      if r.is_tier_default_action && not (r.kind == kind_profile) then put r.tier true eot else eot)

abbrev pub verdict_text : Bool → Text
verdict_text true = allow
verdict_text false = deny

module _ ⦃net : Net⦄ ⦃checker : Checker net.Ip⦄ (store : PolicyStore checker.Rule checker.IpSet)
    (scope : PolicyScope) where
  -- One call of the checker: its verdict, and the tiers seen.
  unfoldable pub walk :
      RuleDir → Option WorkloadEndpoint → Flow net.Ip → Map Text Bool → Bool × Map Text Bool
  unfolding verdict harvest
  walk dir ep f eot =
      let trace = checker.evaluate scope dir store ep f in (verdict trace, harvest trace eot)

  -- One of the overlay loops: the host endpoints of a node that the guard admits.
  unfoldable pub overlay :
      (Actor net.Ip → Bool)
      → RuleDir
      → (Actor net.Ip → Option WorkloadEndpoint)
      → Flow net.Ip
      → List (Actor net.Ip)
      → Bool × Map Text Bool
      → Bool × Map Text Bool
  overlay skips dir wep_of f [] s = s
  overlay skips dir wep_of f (h ∷ rest) s = overlay skips dir wep_of f rest (
      if skips h
      then s
      else (let r = walk dir (wep_of h) f s.1 in (if not r.0 then false else s.0, r.1)))

  -- The doNotTrack overlay of one end: both legs are walked.
  unfoldable pub untracked :
      RuleDir
      → RuleDir
      → Actor net.Ip
      → Flow net.Ip
      → Flow net.Ip
      → Bool × Map Text Bool
      → Bool × Map Text Bool
  untracked out back a f rev s =
      if is_hep a.kind && not (is_nil (untracked_tiers a.hep))
      then (let fwd = walk out (untracked_wep a) f s.1 in
          let rvs = walk back (untracked_wep a) rev fwd.1 in
          (if not (fwd.0 && rvs.0) then false else s.0, rvs.1))
      else s

  -- A terminating hook: an unpoliced actor is allowed without a walk.
  unfoldable pub terminate :
      RuleDir → Actor net.Ip → Flow net.Ip → Map Text Bool → Bool × Map Text Bool
  terminate dir a f eot = if a.unpoliced then (true, eot) else walk dir (normal_wep a) f eot

  unfoldable pub eval_flow :
      Actor net.Ip
      → Actor net.Ip
      → Flow net.Ip
      → Flow net.Ip
      → Map Text (List (Actor net.Ip))
      → Bool × Map Text Bool
  eval_flow src dst f rev heps_by_node =
      let egress = terminate dir_egress src f [] in
      let ingress = terminate dir_ingress dst f egress.1 in
      let src_heps = or_zero [] (get src.node heps_by_node) in
      let dst_heps = or_zero [] (get dst.node heps_by_node) in
      let s₁ =
        overlay (λ h. h.id == src.id || not (forward_tier_has h.hep false)) dir_egress forward_wep f
          src_heps (egress.0 && ingress.0, ingress.1) in
      let s₂ =
        overlay (λ h. h.id == dst.id || not (forward_tier_has h.hep true)) dir_ingress forward_wep f
          dst_heps s₁ in
      let s₃ =
        overlay (λ h. h.id == dst.id || is_nil (pre_dnat_tiers h.hep)) dir_ingress pre_dnat_wep f
          dst_heps s₂ in
      let s₄ = untracked dir_egress dir_ingress src f rev s₃ in
      untracked dir_ingress dir_egress dst f rev s₄

module _ ⦃net : Net⦄ ⦃checker : Checker net.Ip⦄ (store : PolicyStore checker.Rule checker.IpSet)
    (req : Request) (actors : ActorBundle net.Ip) where
  -- The verdict of one pair.
  unfoldable pub pair_allows : Actor net.Ip → Actor net.Ip → Bool
  pair_allows src dst =
      (eval_flow store (staged_scope req) src dst (make_flow req src.ip dst.ip)
        (make_flow req dst.ip src.ip) actors.heps_by_node).0

  -- The body of the loop.
  abbrev pub pair_step : Actor net.Ip → Actor net.Ip → MatrixSink → MatrixSink
  pair_step src dst sink =
      if src.id == dst.id
      then sink
      else put_verdict sink src.id dst.id (verdict_text (pair_allows src dst))

  unfoldable pub pair_row : Actor net.Ip → List (Actor net.Ip) → MatrixSink → MatrixSink
  pair_row src [] sink = sink
  pair_row src (dst ∷ rest) sink = pair_row src rest (pair_step src dst sink)

  unfoldable pub pair_rows : List (Actor net.Ip) → List (Actor net.Ip) → MatrixSink → MatrixSink
  pair_rows [] cols sink = sink
  pair_rows (src ∷ rest) cols sink = pair_rows rest cols (pair_row src cols sink)

  -- The per-pair loop of `Evaluate`.
  unfoldable pub fill_matrix : MatrixSink → MatrixSink
  fill_matrix sink = pair_rows actors.list actors.list sink
