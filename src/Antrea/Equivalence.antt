-- ===== src/Antrea/Equivalence.antt =====
-- engines/antrea/defaults.go: the index holds, for each pod key, the policies that select it, and
-- its verdicts are those of the loops over all policies.
use telepathy.Prelude.{
  ◌≡◌, refl, ap, ◌∙◌, Bool, true, false, not, ◌||◌, none, some, List, [], ◌∷◌, arith, if◌then◌else◌,
  ℕ_eq, Text, text_beq_iff, text_eq, All, Map, or_zero, get, put, get-put, HasDistinctKeys, ℤ,
  int_eq,
}
use telepathy.Api.Types.{Endpoint}
use telepathy.Net.{Net}
use telepathy.Antrea.Types.{ResolvedRule, ResolvedPolicy, Model}
use telepathy.Antrea.Rules.{
  pod_key, match_rules, ingress_loop, egress_loop, ingress_allows, egress_allows,
}
use telepathy.Antrea.Defaults.{
  EndpointPolicies, no_policies, add_policy, index_policy, index_policies, allows_loop, allows,
  endpoint_entry,
}
use telepathy.Antrea.Probe.{allows_loop-append, allows-for_probe}

-- The sets of selected pods are Go maps.
abbrev pub IsWellFormed : {C : Type 0} → List (ResolvedPolicy C) → Type 0
IsWellFormed = All (λ p. HasDistinctKeys p.applied_to)

module _ {C : Type 0} where
  -- What the index holds for a key, from what it held before.
  abbrev after_policy : Text → ResolvedPolicy C → EndpointPolicies C → EndpointPolicies C
  after_policy key p ep = if or_zero false (get key p.applied_to) then add_policy p ep else ep

  after_policies : Text → List (ResolvedPolicy C) → EndpointPolicies C → EndpointPolicies C
  after_policies key [] ep = ep
  after_policies key (p ∷ ps) ep = after_policies key ps (after_policy key p ep)

  abbrev entry : Text → Map Text (EndpointPolicies C) → EndpointPolicies C
  entry key m = or_zero no_policies (get key m)

  entry-index_policy :
      (key : Text) (p : ResolvedPolicy C) (selected : Map Text Bool)
      (m : Map Text (EndpointPolicies C))
      → HasDistinctKeys selected
      → entry key (index_policy p selected m)
        ≡ (if or_zero false (get key selected) then add_policy p (entry key m) else entry key m)
  unfolding index_policy get
  entry-index_policy key p [] m h = refl
  entry-index_policy key p ((k, false) ∷ rest) m h =
      ground (arith, entry-index_policy key p rest m h.1, text_beq_iff k key)
  entry-index_policy key p ((k, true) ∷ rest) m h =
      let new = add_policy p (entry k m) in
      ground (
        arith,
        entry-index_policy key p rest (put k new m) h.1,
        get-put k key new m,
        text_beq_iff k key,
      )

  entry-index_policies :
      (key : Text) (ps : List (ResolvedPolicy C)) (m : Map Text (EndpointPolicies C))
      → IsWellFormed ps
      → entry key (index_policies ps m) ≡ after_policies key ps (entry key m)
  unfolding index_policies after_policies
  entry-index_policies key [] m h = refl
  entry-index_policies key (p ∷ ps) m h =
      entry-index_policies key ps (index_policy p p.applied_to m) h.1
      ∙ ap (after_policies key ps) (entry-index_policy key p p.applied_to m h.0)

module _ ⦃net : Net⦄ where
  match_rules-allows_loop :
      (rs : List (ResolvedRule net.Cidr)) (peer : Endpoint) (proto : Text) (port : ℤ)
      (owner : Endpoint) (matched : Bool)
      → match_rules rs peer proto port owner matched
        ≡ (matched || allows_loop rs peer proto port owner)
  unfolding match_rules allows_loop
  match_rules-allows_loop [] peer proto port owner matched = ground arith
  match_rules-allows_loop (r ∷ rs) peer proto port owner matched = ground (
    arith,
    match_rules-allows_loop rs peer proto port owner matched,
    match_rules-allows_loop rs peer proto port owner true,
  )

  ingress_loop_step :
      (p : ResolvedPolicy net.Cidr) (ps : List (ResolvedPolicy net.Cidr)) (dst src : Endpoint)
      (proto : Text) (port : ℤ) (isolated matched : Bool)
      → let skip = not p.ingress_isolate || not (or_zero false (get (pod_key dst) p.applied_to)) in
        ingress_loop (p ∷ ps) dst src proto port isolated matched
        ≡ ingress_loop ps dst src proto port
            (if skip then isolated else true)
            (if skip then matched else match_rules p.ingress src proto port dst matched)
  unfolding ingress_loop
  ingress_loop_step p ps dst src proto port isolated matched = refl

  -- One policy of the index does to a direction what one round of the loop does.
  after_policy_ingress :
      (p : ResolvedPolicy net.Cidr) (ps : List (ResolvedPolicy net.Cidr))
      (ep : EndpointPolicies net.Cidr) (dst src : Endpoint) (proto : Text) (port : ℤ)
      → let next = after_policy (pod_key dst) p ep in
        ingress_loop ps dst src proto port next.ingress.isolated
          (allows_loop next.ingress.rules src proto port dst)
        ≡ ingress_loop
            (p ∷ ps)
            dst
            src
            proto
            port
            ep.ingress.isolated
            (allows_loop ep.ingress.rules src proto port dst)
  unfolding add_policy
  after_policy_ingress p ps ep dst src proto port = ground (
    arith,
    ingress_loop_step p ps dst src proto port ep.ingress.isolated
        (allows_loop ep.ingress.rules src proto port dst),
    allows_loop-append ep.ingress.rules p.ingress src proto port dst,
    match_rules-allows_loop p.ingress src proto port dst
        (allows_loop ep.ingress.rules src proto port dst),
  )

  after_policies_ingress :
      (ps : List (ResolvedPolicy net.Cidr)) (ep : EndpointPolicies net.Cidr) (dst src : Endpoint)
      (proto : Text) (port : ℤ)
      → allows (after_policies (pod_key dst) ps ep).ingress src proto port dst
        ≡ ingress_loop ps dst src proto port ep.ingress.isolated
            (allows_loop ep.ingress.rules src proto port dst)
  unfolding after_policies
  after_policies_ingress [] ep dst src proto port = unfold allows ingress_loop in ground arith
  after_policies_ingress (p ∷ ps) ep dst src proto port =
      after_policies_ingress ps (after_policy (pod_key dst) p ep) dst src proto port
      ∙ after_policy_ingress p ps ep dst src proto port

  egress_loop_step :
      (p : ResolvedPolicy net.Cidr) (ps : List (ResolvedPolicy net.Cidr)) (src dst : Endpoint)
      (proto : Text) (port : ℤ) (isolated matched : Bool)
      → let skip = not p.egress_isolate || not (or_zero false (get (pod_key src) p.applied_to)) in
        egress_loop (p ∷ ps) src dst proto port isolated matched
        ≡ egress_loop ps src dst proto port
            (if skip then isolated else true)
            (if skip then matched else match_rules p.egress dst proto port dst matched)
  unfolding egress_loop
  egress_loop_step p ps src dst proto port isolated matched = refl

  -- One policy of the index does to a direction what one round of the loop does.
  after_policy_egress :
      (p : ResolvedPolicy net.Cidr) (ps : List (ResolvedPolicy net.Cidr))
      (ep : EndpointPolicies net.Cidr) (src dst : Endpoint) (proto : Text) (port : ℤ)
      → let next = after_policy (pod_key src) p ep in
        egress_loop ps src dst proto port next.egress.isolated
          (allows_loop next.egress.rules dst proto port dst)
        ≡ egress_loop
            (p ∷ ps)
            src
            dst
            proto
            port
            ep.egress.isolated
            (allows_loop ep.egress.rules dst proto port dst)
  unfolding add_policy
  after_policy_egress p ps ep src dst proto port = ground (
    arith,
    egress_loop_step p ps src dst proto port ep.egress.isolated
        (allows_loop ep.egress.rules dst proto port dst),
    allows_loop-append ep.egress.rules p.egress dst proto port dst,
    match_rules-allows_loop p.egress dst proto port dst
        (allows_loop ep.egress.rules dst proto port dst),
  )

  after_policies_egress :
      (ps : List (ResolvedPolicy net.Cidr)) (ep : EndpointPolicies net.Cidr) (src dst : Endpoint)
      (proto : Text) (port : ℤ)
      → allows (after_policies (pod_key src) ps ep).egress dst proto port dst
        ≡ egress_loop ps src dst proto port ep.egress.isolated
            (allows_loop ep.egress.rules dst proto port dst)
  unfolding after_policies
  after_policies_egress [] ep src dst proto port = unfold allows egress_loop in ground arith
  after_policies_egress (p ∷ ps) ep src dst proto port =
      after_policies_egress ps (after_policy (pod_key src) p ep) src dst proto port
      ∙ after_policy_egress p ps ep src dst proto port

  module _ (m : Model net.Cidr) (wf : IsWellFormed m.policies) (proto : Text) (port : ℤ)
      (src dst : Endpoint) where
    -- The entry of the destination gives the verdict of the loop over all ingress policies.
    pub endpoint_entry-ingress :
        allows
          (endpoint_entry (index_policies m.policies []) proto port dst).ingress
          src
          proto
          port
          dst
        ≡ ingress_allows m dst src proto port
    unfolding endpoint_entry get ingress_allows egress_allows allows_loop
    endpoint_entry-ingress =
        allows-for_probe (entry (pod_key dst) (index_policies m.policies [])).ingress proto port
          (some dst) src dst refl
        ∙ ap (λ (e : EndpointPolicies net.Cidr). allows e.ingress src proto port dst)
            (entry-index_policies (pod_key dst) m.policies [] wf)
        ∙ after_policies_ingress m.policies no_policies dst src proto port

    -- The entry of the source gives the verdict of the loop over all egress policies.
    pub endpoint_entry-egress :
        allows
          (endpoint_entry (index_policies m.policies []) proto port src).egress
          dst
          proto
          port
          dst
        ≡ egress_allows m src dst proto port
    unfolding endpoint_entry get ingress_allows egress_allows allows_loop
    endpoint_entry-egress =
        allows-for_probe (entry (pod_key src) (index_policies m.policies [])).egress proto port none
          dst dst tt
        ∙ ap (λ (e : EndpointPolicies net.Cidr). allows e.egress dst proto port dst)
            (entry-index_policies (pod_key src) m.policies [] wf)
        ∙ after_policies_egress m.policies no_policies src dst proto port
