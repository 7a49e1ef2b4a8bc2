-- ===== src/Calico/Hooks.antt =====
-- What provider/calico/eval.go's `evalFlow` promises: a flow passes a list of hooks, each of them
-- one walk of the checker.
use telepathy.Prelude.{
  ◌≡◌, sym, ap, ◌∙◌, Bool, true, false, not, ◌&&◌, ◌||◌, Option, List, [], ◌∷◌, ◌++◌, arith,
  if◌then◌else◌, ◌==◌, ℕ_eq, Text, text_eq, fold, fold-append, every, every-append, is_nil, Map,
  or_zero, get, int_eq,
}
use telepathy.Net.{Net}
use telepathy.Calico.Store.{
  WorkloadEndpoint, RuleDir, dir_ingress, dir_egress, PolicyScope, RuleId, PolicyStore, Flow,
  Checker,
}
use telepathy.Calico.Flow.{verdict}
use telepathy.Calico.Actors.{
  Actor, actor_wep, is_hep, pre_dnat_tiers, untracked_tiers, normal_wep, forward_wep, pre_dnat_wep,
  untracked_wep, forward_tier_has,
}
use telepathy.Calico.Eval.{harvest, walk, overlay, untracked, terminate, eval_flow}

-- A hook: the direction, the endpoint whose policies are walked, and the flow.
pub record Hook (Ip : Type 0) : Type 0 where
  pub dir : RuleDir
  pub endpoint : Option WorkloadEndpoint
  pub flow : Flow Ip

module _ {Ip : Type 0} where
  -- The hook of the end of a flow, unless no policy applies there.
  abbrev pub end_hooks : RuleDir → Actor Ip → Flow Ip → List (Hook Ip)
  end_hooks dir a f =
      if a.unpoliced then [] else record { dir = dir; endpoint = normal_wep a; flow = f } ∷ []

  -- The hooks of the host endpoints that are not skipped.
  unfoldable pub host_hooks :
      (Actor Ip → Bool)
      → RuleDir
      → (Actor Ip → Option WorkloadEndpoint)
      → Flow Ip
      → List (Actor Ip)
      → List (Hook Ip)
  host_hooks skips dir wep_of f [] = []
  host_hooks skips dir wep_of f (h ∷ rest) =
      let more = host_hooks skips dir wep_of f rest in
      if skips h then more else record { dir = dir; endpoint = wep_of h; flow = f } ∷ more

  -- Untracked policies see both legs.
  abbrev pub untracked_hooks : RuleDir → RuleDir → Actor Ip → Flow Ip → Flow Ip → List (Hook Ip)
  untracked_hooks out back a f rev =
      if is_hep a.kind && not (is_nil (untracked_tiers a.hep))
      then record { dir = out; endpoint = untracked_wep a; flow = f }
        ∷ record { dir = back; endpoint = untracked_wep a; flow = rev }
        ∷ []
      else []

  -- A forward policy that names no rule for a direction does not gate it.
  abbrev pub forward_skips : Bool → Actor Ip → Actor Ip → Bool
  forward_skips ingress end h = h.id == end.id || not (forward_tier_has h.hep ingress)

  abbrev pub pre_dnat_skips : Actor Ip → Actor Ip → Bool
  pre_dnat_skips dst h = h.id == dst.id || is_nil (pre_dnat_tiers h.hep)

  -- The hooks of a flow in their order: both ends, the forward policies of the source's node and
  -- of the destination's, the preDNAT policies of the destination's node, and doNotTrack at both
  -- ends.
  abbrev pub hooks :
      Actor Ip → Actor Ip → Flow Ip → Flow Ip → Map Text (List (Actor Ip)) → List (Hook Ip)
  hooks src dst f rev heps_by_node =
      let src_heps = or_zero [] (get src.node heps_by_node) in
      let dst_heps = or_zero [] (get dst.node heps_by_node) in
      end_hooks dir_egress src f
      ++ (end_hooks dir_ingress dst f
          ++ (host_hooks (forward_skips false src) dir_egress forward_wep f src_heps
              ++ (host_hooks (forward_skips true dst) dir_ingress forward_wep f dst_heps
                  ++ (host_hooks (pre_dnat_skips dst) dir_ingress pre_dnat_wep f dst_heps
                      ++ (untracked_hooks dir_egress dir_ingress src f rev
                          ++ untracked_hooks dir_ingress dir_egress dst f rev)))))

module _ ⦃net : Net⦄ ⦃checker : Checker net.Ip⦄ (store : PolicyStore checker.Rule checker.IpSet)
    (scope : PolicyScope) where
  abbrev pub trace : Hook net.Ip → List RuleId
  trace h = checker.evaluate scope h.dir store h.endpoint h.flow

  abbrev pub permits : Hook net.Ip → Bool
  permits h = verdict (trace h)

  -- Passing a list of hooks: the verdict so far, and the tiers seen so far.
  abbrev pass : Bool × Map Text Bool → List (Hook net.Ip) → Bool × Map Text Bool
  pass s hs = (s.0 && every permits hs, fold (λ eot h. harvest (trace h) eot) s.1 hs)

  pass-append :
      (s : Bool × Map Text Bool) (hs ks : List (Hook net.Ip))
      → pass s (hs ++ ks) ≡ pass (pass s hs) ks
  pass-append s hs ks =
      let e = every-append permits hs ks in
      let g = fold-append (λ eot h. harvest (trace h) eot) s.1 hs ks in rw (e, g) (ground arith)

  overlay-pass :
      (skips : Actor net.Ip → Bool) (dir : RuleDir)
      (wep_of : Actor net.Ip → Option WorkloadEndpoint) (f : Flow net.Ip) (hs : List (Actor net.Ip))
      (s : Bool × Map Text Bool)
      → overlay store scope skips dir wep_of f hs s ≡ pass s (host_hooks skips dir wep_of f hs)
  unfolding overlay host_hooks walk every fold
  overlay-pass skips dir wep_of f [] s = ground arith
  overlay-pass skips dir wep_of f (h ∷ rest) s =
      let walked = walk store scope dir (wep_of h) f s.1 in
      ground (
        arith,
        overlay-pass skips dir wep_of f rest s,
        overlay-pass skips dir wep_of f rest (if not walked.0 then false else s.0, walked.1),
      )

  untracked-pass :
      (out back : RuleDir) (a : Actor net.Ip) (f rev : Flow net.Ip) (s : Bool × Map Text Bool)
      → untracked store scope out back a f rev s ≡ pass s (untracked_hooks out back a f rev)
  unfolding untracked walk every fold
  untracked-pass out back a f rev s = ground arith

  end-pass :
      (dir : RuleDir) (a : Actor net.Ip) (f : Flow net.Ip) (s : Bool × Map Text Bool)
      → (s.0 && (terminate store scope dir a f s.1).0, (terminate store scope dir a f s.1).1)
        ≡ pass s (end_hooks dir a f)
  unfolding terminate walk every fold
  end-pass dir a f s = ground arith

  -- A stage before a list of hooks adds its own hooks in front.
  before :
      (s t : Bool × Map Text Bool) (hs rest : List (Hook net.Ip))
      → t ≡ pass s hs
      → pass t rest ≡ pass s (hs ++ rest)
  before s t hs rest e = ap (λ u. pass u rest) e ∙ sym (pass-append s hs rest)

  -- `evalFlow` walks exactly the hooks of the flow, each once and in their order, whatever the
  -- verdicts before: the flow is allowed exactly if every hook permits it, and the tiers reported
  -- are those whose end-of-tier action the traces of the hooks hold.
  pub eval_flow-hooks :
      (src dst : Actor net.Ip) (f rev : Flow net.Ip) (heps_by_node : Map Text (List (Actor net.Ip)))
      → eval_flow store scope src dst f rev heps_by_node ≡ (
        every permits (hooks src dst f rev heps_by_node),
        fold (λ eot h. harvest (trace h) eot) [] (hooks src dst f rev heps_by_node),
      )
  unfolding eval_flow
  eval_flow-hooks src dst f rev heps_by_node =
      let src_heps : List (Actor net.Ip) = or_zero [] (get src.node heps_by_node) in
      let dst_heps : List (Actor net.Ip) = or_zero [] (get dst.node heps_by_node) in
      let start : Bool × Map Text Bool = (true, []) in
      let egress = terminate store scope dir_egress src f [] in
      let ingress = terminate store scope dir_ingress dst f egress.1 in
      let s₀ : Bool × Map Text Bool = (egress.0 && ingress.0, ingress.1) in
      let s₁ = overlay store scope (forward_skips false src) dir_egress forward_wep f src_heps s₀ in
      let s₂ = overlay store scope (forward_skips true dst) dir_ingress forward_wep f dst_heps s₁ in
      let s₃ = overlay store scope (pre_dnat_skips dst) dir_ingress pre_dnat_wep f dst_heps s₂ in
      let s₄ = untracked store scope dir_egress dir_ingress src f rev s₃ in
      let u₂ = untracked_hooks dir_ingress dir_egress dst f rev in
      let u₁ = untracked_hooks dir_egress dir_ingress src f rev in
      let h₃ = host_hooks (pre_dnat_skips dst) dir_ingress pre_dnat_wep f dst_heps in
      let h₂ = host_hooks (forward_skips true dst) dir_ingress forward_wep f dst_heps in
      let h₁ = host_hooks (forward_skips false src) dir_egress forward_wep f src_heps in
      let e₂ = end_hooks dir_ingress dst f in
      let e₁ = end_hooks dir_egress src f in
      let r₁ = u₁ ++ u₂ in
      let r₂ = h₃ ++ r₁ in
      let r₃ = h₂ ++ r₂ in
      let r₄ = h₁ ++ r₃ in
      untracked-pass dir_ingress dir_egress dst f rev s₄
      ∙ before s₃ s₄ u₁ u₂ (untracked-pass dir_egress dir_ingress src f rev s₃)
      ∙ before s₂ s₃ h₃ r₁
          (overlay-pass (pre_dnat_skips dst) dir_ingress pre_dnat_wep f dst_heps s₂)
      ∙ before s₁ s₂ h₂ r₂
          (overlay-pass (forward_skips true dst) dir_ingress forward_wep f dst_heps s₁)
      ∙ before s₀ s₁ h₁ r₃
          (overlay-pass (forward_skips false src) dir_egress forward_wep f src_heps s₀)
      ∙ before egress s₀ e₂ r₄ (end-pass dir_ingress dst f egress)
      ∙ before start egress e₁ (e₂ ++ r₄) (end-pass dir_egress src f start)

  -- Between two pods, and with no host endpoints around, a flow is allowed exactly if the source's
  -- egress policies and the destination's ingress policies permit it; an unpoliced end permits all.
  pub eval_flow-pods :
      (src dst : Actor net.Ip) (f rev : Flow net.Ip)
      → src.kind ≡ actor_wep
      → dst.kind ≡ actor_wep
      → (eval_flow store scope src dst f rev []).0 ≡ (
          (src.unpoliced || verdict (checker.evaluate scope dir_egress store src.wep f))
          && (dst.unpoliced || verdict (checker.evaluate scope dir_ingress store dst.wep f)))
  unfolding eval_flow overlay untracked terminate walk normal_wep get
  eval_flow-pods src dst f rev hs hd = ground arith
