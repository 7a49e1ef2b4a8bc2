-- ===== src/Calico/ByClass/Rows.antt =====
-- provider/calico/collapse.go, `ownerDirectionEvaluator` and `evaluateClasses`: a memo row holds
-- the
-- checker's own verdicts.
use telepathy.Prelude.{
  ℕ, zero, suc, ◌+◌, ◌*◌, ◌≡◌, refl, sym, ap, ◌∙◌, ◌⊎◌, inl, inr, Bool, true, Option, some, List,
  [], ◌∷◌, ◌++◌, map, arith, if◌then◌else◌, Bool-cases, Option-cases, ◌==◌, ℕ_eq, Text,
  text_beq_iff, text_eq, length, get_elem?, All, All-both, get_elem?-map, length-map, map_pointwise,
  get_elem?-append_left, get_elem?-append_right, Map, get, put, get-put, int_eq,
}
use mathlib.Core.Path.{subst}
use telepathy.Net.{Net}
use telepathy.Api.Types.{Request}
use telepathy.Calico.Store.{
  WorkloadEndpoint, RuleDir, dir_ingress, dir_egress, PolicyScope, PolicyStore, Flow, Checker,
}
use telepathy.Calico.Flow.{verdict, make_flow, protocol_number}
use telepathy.Calico.Actors.{Actor, normal_wep}
use telepathy.Calico.Collapse.{sig}
use telepathy.Calico.Classes.{
  relevant_rules, collect_owner_probes, toward, check_owner, owner_row, class_row, evaluate_classes,
}
use telepathy.Calico.Locality.{RuleAgrees, SameProbe, IsLocal}
use telepathy.Calico.ByClass.Agreement.{
  flow_dst_port, SameAddress, rules_sig-SameAddress, make_flow-RuleAgrees,
}

-- The flow of a request from an owner, or to it.
abbrev pub flow_at : {Ip : Type 0} → RuleDir → Request → Option Ip → Option Ip → Flow Ip
flow_at dir_ingress req owner peer = make_flow req peer owner
flow_at dir_egress req owner peer = make_flow req owner peer

-- An actor whose policies are walked, if any are.
abbrev pub HasEndpoint : {Ip : Type 0} → Actor Ip → Type 0
HasEndpoint a = (a.unpoliced ≡ true) ⊎ ((w : WorkloadEndpoint) × (normal_wep a ≡ some w))

flow_at-SameProbe :
    {Ip : Type 0} (dir : RuleDir) (req : Request) (o p : Option Ip) (a b : Option Ip)
    → SameProbe (flow_at dir req o a) (flow_at dir req p b)
unfolding make_flow
flow_at-SameProbe dir_ingress req o p a b = record {
  src_port = refl;
  dst_port = refl;
  protocol = refl;
  http_method = refl;
  http_path = refl;
}
flow_at-SameProbe dir_egress req o p a b = record {
  src_port = refl;
  dst_port = refl;
  protocol = refl;
  http_method = refl;
  http_path = refl;
}

module _ ⦃net : Net⦄ ⦃checker : Checker net.Ip⦄ (store : PolicyStore checker.Rule checker.IpSet)
    (req : Request) where
  -- A rule sees two addresses alike at the ports of the request.
  abbrev pub Alike : Option net.Ip → Option net.Ip → checker.Rule → Type 0
  Alike = SameAddress store (protocol_number req.protocol) req.src_port (flow_dst_port req)

  toward-flow_at :
      (dir : RuleDir) (owner peer : Actor net.Ip)
      → toward store dir (make_flow req owner.ip owner.ip) peer ≡ flow_at dir req owner.ip peer.ip
  unfolding make_flow
  toward-flow_at dir_ingress owner peer = refl
  toward-flow_at dir_egress owner peer = refl

  flow_at-RuleAgrees :
      (dir : RuleDir) (o p a b : Option net.Ip) (r : checker.Rule)
      → Alike o p r
      → Alike a b r
      → RuleAgrees store (flow_at dir req o a) (flow_at dir req p b) r
  flow_at-RuleAgrees dir_ingress o p a b r owner peer =
      make_flow-RuleAgrees store req a b o p r peer owner
  flow_at-RuleAgrees dir_egress o p a b r owner peer =
      make_flow-RuleAgrees store req o p a b r owner peer

  -- The checker at ends that the endpoint's rules see alike.
  pub flow_at-verdict :
      (scope : PolicyScope) (dir : RuleDir) (v w : WorkloadEndpoint) (o p a b : Option net.Ip)
      → IsLocal store
      → v.tiers ≡ w.tiers
      → v.profile_ids ≡ w.profile_ids
      → All (Alike o p) (relevant_rules store (some v) dir)
      → All (Alike a b) (relevant_rules store (some v) dir)
      → verdict (checker.evaluate scope dir store (some v) (flow_at dir req o a))
        ≡ verdict (checker.evaluate scope dir store (some w) (flow_at dir req p b))
  flow_at-verdict scope dir v w o p a b local tiers profiles owner peer =
      local scope dir v w (flow_at dir req o a) (flow_at dir req p b) tiers profiles
        (flow_at-SameProbe dir req o p a b)
        (All-both (relevant_rules store (some v) dir) (Alike o p) (Alike a b) _
          (flow_at-RuleAgrees dir o p a b) owner peer)

  module _ (scope : PolicyScope) (dir : RuleDir) (owner : Actor net.Ip) where
    abbrev probe : Flow net.Ip
    probe = make_flow req owner.ip owner.ip

    abbrev checks : Actor net.Ip → Bool
    checks peer = check_owner store scope owner dir probe peer

    abbrev owner_sig : Actor net.Ip → Text
    owner_sig peer = sig (collect_owner_probes store owner dir probe) store peer.ip

    pub check_owner-verdict :
        (peer : Actor net.Ip)
        → checks peer
          ≡ verdict (
              checker.evaluate scope dir store
                (normal_wep owner)
                (flow_at dir req owner.ip peer.ip))
    unfolding check_owner
    check_owner-verdict peer =
        ap (λ f. verdict (checker.evaluate scope dir store (normal_wep owner) f))
          (toward-flow_at dir owner peer)

    owner_sig-SameAddress :
        (w : WorkloadEndpoint) (a b : Option net.Ip)
        → normal_wep owner ≡ some w
        → sig (collect_owner_probes store owner dir probe) store a
          ≡ sig (collect_owner_probes store owner dir probe) store b
        → All (Alike a b) (relevant_rules store (some w) dir)
    unfolding collect_owner_probes make_flow
    owner_sig-SameAddress w a b has e =
        subst (λ x. All (Alike a b) (relevant_rules store x dir)) has
          (rules_sig-SameAddress store (protocol_number req.protocol) req.src_port
            (flow_dst_port req) a b (relevant_rules store (normal_wep owner) dir) e)

    -- Peers with one signature under the owner's probes get one verdict.
    check_owner-sig :
        (w : WorkloadEndpoint) (p q : Actor net.Ip)
        → IsLocal store
        → normal_wep owner ≡ some w
        → owner_sig p ≡ owner_sig q
        → checks p ≡ checks q
    check_owner-sig w p q local has e =
        check_owner-verdict p
        ∙ (rw has (
              flow_at-verdict scope dir w w owner.ip owner.ip p.ip q.ip local refl refl
                (owner_sig-SameAddress w owner.ip owner.ip has refl)
                (owner_sig-SameAddress w p.ip q.ip has e))
            ∙ sym (check_owner-verdict q))

    -- What the memo knows of a signature holds of every peer that has it.
    abbrev IsSound : Map Text Bool → Type 0
    IsSound memo =
        (s : Text) (v : Bool)
        → get s memo ≡ some v
        → (p : Actor net.Ip) → owner_sig p ≡ s
        → checks p ≡ v

    empty-IsSound : IsSound []
    unfolding get
    empty-IsSound s v h p q = cc

    put-IsSound :
        (w : WorkloadEndpoint) (memo : Map Text Bool) (peer : Actor net.Ip)
        → IsLocal store
        → normal_wep owner ≡ some w
        → IsSound memo
        → IsSound (put (owner_sig peer) (checks peer) memo)
    put-IsSound w memo peer local has sound s v found p same =
        elim (Bool-cases (owner_sig peer == s)) [
          | inl e ↦
              let here = (text_beq_iff (owner_sig peer) s).0 e in
              let stored : checks peer ≡ v =
                ground (arith, get-put (owner_sig peer) s (checks peer) memo) in
              check_owner-sig w p peer local has (same ∙ sym here) ∙ stored
          | inr e ↦
              let old : get s memo ≡ some v =
                ground (arith, get-put (owner_sig peer) s (checks peer) memo) in
              sound s v old p same
        ]

    owner_row-map :
        (w : WorkloadEndpoint) (memo : Map Text Bool) (peers : List (Actor net.Ip))
        → IsLocal store
        → normal_wep owner ≡ some w
        → IsSound memo
        → owner_row store scope owner dir probe
            (collect_owner_probes store owner dir probe)
            memo
            peers
          ≡ map checks peers
    unfolding owner_row
    owner_row-map w memo [] local has sound = refl
    owner_row-map w memo (peer ∷ peers) local has sound =
        elim (Option-cases (get (owner_sig peer) memo)) [
          | inl e ↦ ground (
            arith,
            e,
            owner_row-map w (put (owner_sig peer) (checks peer) memo) peers local has
                (put-IsSound w memo peer local has sound),
          )
          | inr (v, e) ↦
              let known : checks peer ≡ v = sound (owner_sig peer) v e peer refl in
              ground (arith, e, known, owner_row-map w memo peers local has sound)
        ]

  -- The verdict of a class toward a peer class.
  unfoldable pub class_verdict : PolicyScope → RuleDir → Actor net.Ip → Actor net.Ip → Bool
  class_verdict scope dir owner peer = if owner.unpoliced then true else checks scope dir owner peer

  class_row-map :
      (scope : PolicyScope) (dir : RuleDir) (owner : Actor net.Ip) (peers : List (Actor net.Ip))
      → IsLocal store
      → HasEndpoint owner
      → class_row store scope req peers dir owner ≡ map (class_verdict scope dir owner) peers
  unfolding class_row class_verdict
  class_row-map scope dir owner peers local has =
      let probe : Flow net.Ip = make_flow req owner.ip owner.ip in
      let row =
        owner_row store scope owner dir probe (collect_owner_probes store owner dir probe) []
          peers in
      elim (Bool-cases owner.unpoliced) [
        | inl u ↦
            let open_row : class_row store scope req peers dir owner ≡ map (λ p. true) peers =
              ground (arith, u) in
            open_row
            ∙ map_pointwise (λ p. true) (class_verdict scope dir owner) peers
                (λ p. ground (arith, u))
        | inr u ↦
            let walked : class_row store scope req peers dir owner ≡ row = ground (arith, u) in
            elim has [
              | inl unpoliced ↦ ground arith
              | inr (w, wep) ↦
                  walked
                  ∙ (owner_row-map scope dir owner w [] peers local wep
                        (empty-IsSound scope dir owner)
                      ∙ map_pointwise (checks scope dir owner) (class_verdict scope dir owner) peers
                          (λ p. ground (arith, u)))
            ]
      ]

  -- The cell of a class and a peer class.
  pub evaluate_classes-cell :
      (scope : PolicyScope) (dir : RuleDir) (peers owners : List (Actor net.Ip)) (c p : ℕ)
      (o q : Actor net.Ip)
      → IsLocal store
      → All HasEndpoint owners
      → get_elem? owners c ≡ some o
      → get_elem? peers p ≡ some q
      → get_elem? (evaluate_classes store scope req peers owners dir) (c * length peers + p)
        ≡ some (class_verdict scope dir o q)
  unfolding evaluate_classes
  evaluate_classes-cell scope dir peers [] c p o q local has ho hq = ground arith
  evaluate_classes-cell scope dir peers (owner ∷ rest) zero p o q local has ho hq =
      let same : owner ≡ o = cc in
      let row = map (class_verdict scope dir owner) peers in
      let more = evaluate_classes store scope req peers rest dir in
      let found : get_elem? row p ≡ some (class_verdict scope dir o q) =
        rw (get_elem?-map (class_verdict scope dir owner) peers p, hq, same) refl in
      rw (class_row-map scope dir owner peers local has.0) (
        ap (get_elem? (row ++ more)) (omega arith)
        ∙ get_elem?-append_left row more p (class_verdict scope dir o q) found)
  evaluate_classes-cell scope dir peers (owner ∷ rest) (suc c) p o q local has ho hq =
      let row = map (class_verdict scope dir owner) peers in
      let more = evaluate_classes store scope req peers rest dir in
      rw (class_row-map scope dir owner peers local has.0) (
        get_elem?-append_right row more (c * length peers + p) (suc c * length peers + p)
          (omega (arith, length-map (class_verdict scope dir owner) peers))
        ∙ evaluate_classes-cell scope dir peers rest c p o q local has.1 ho hq)
