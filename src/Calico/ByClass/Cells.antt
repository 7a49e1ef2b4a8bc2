-- ===== src/Calico/ByClass/Cells.antt =====
-- provider/calico/collapse.go: the cell of a pair in the memo tables is the verdict of `evalFlow`.
use telepathy.Prelude.{
  ℕ, ◌+◌, ◌*◌, ◌≡◌, refl, sym, ap, ◌∙◌, inl, inr, Bool, ◌&&◌, ◌||◌, none, some, List, [], arith,
  Bool-cases, ℕ_eq, Text, text_eq, length, get_elem?, All, All-mono, int_eq,
}
use telepathy.Net.{Net}
use telepathy.Api.Types.{Request}
use telepathy.Calico.Store.{
  WorkloadEndpoint, RuleDir, dir_ingress, dir_egress, tiers_of, profile_ids_of, PolicyStore, Flow,
  Checker,
}
use telepathy.Calico.Flow.{verdict, make_flow, staged_scope}
use telepathy.Calico.Actors.{Actor, actor_wep, normal_wep, ActorBundle}
use telepathy.Calico.Eval.{pair_allows}
use telepathy.Calico.Hooks.{eval_flow-pods}
use telepathy.Calico.Collapse.{PeerProbes, collect_peer_probes}
use telepathy.Calico.Classes.{Groups, group_actors, evaluate_classes, relevant_rules, expand_cell}
use telepathy.Calico.Locality.{IsLocal}
use telepathy.Calico.ByClass.Agreement.{store_sig-SameAddress, flow_dst_port}
use telepathy.Calico.ByClass.Rows.{
  HasEndpoint, flow_at, Alike, flow_at-verdict, check_owner-verdict, class_verdict,
  evaluate_classes-cell,
}
use telepathy.Calico.ByClass.Classmates.{
  IsPlain, SamePolicies, peer_key, class_key, class_key-SamePolicies,
}
use telepathy.Calico.ByClass.Representatives.{Represents}

-- A workload with an endpoint in the store, unless it is unpoliced, and with plain names.
pub record IsPod {Ip : Type 0} (a : Actor Ip) : Type 0 where
  pub kind : a.kind ≡ actor_wep
  pub plain : IsPlain a
  pub endpoint : HasEndpoint a

module _ ⦃net : Net⦄ ⦃checker : Checker net.Ip⦄ (store : PolicyStore checker.Rule checker.IpSet)
    (req : Request) where
  -- The probes of the collapse.
  abbrev pub probes : PeerProbes net.Cidr
  probes =
      let probe : Flow net.Ip = make_flow req none none in
      collect_peer_probes store probe.protocol probe.src_port probe.dst_port

  abbrev pub key : Actor net.Ip → Text
  key = peer_key store probes

  -- The hook of one end of a pair.
  abbrev end_allows : RuleDir → Actor net.Ip → Actor net.Ip → Bool
  end_allows dir a peer =
      a.unpoliced
      || verdict (
          checker.evaluate (staged_scope req) dir store (normal_wep a)
            (flow_at dir req a.ip peer.ip))

  key-Alike :
      (a b : Actor net.Ip) (w : WorkloadEndpoint) (dir : RuleDir)
      → key a ≡ key b
      → All (Alike store req a.ip b.ip) (relevant_rules store (some w) dir)
  unfolding make_flow
  key-Alike a b w dir e =
      store_sig-SameAddress store _ req.src_port (flow_dst_port req) a.ip b.ip (some w) dir e

  -- The verdict of the class of an owner toward the class of a peer is that of the owner.
  class_verdict-end_allows :
      (dir : RuleDir) (a o peer q : Actor net.Ip)
      → IsLocal store
      → IsPod a
      → IsPod o
      → SamePolicies o a
      → key o ≡ key a
      → key q ≡ key peer
      → class_verdict store req (staged_scope req) dir o q ≡ end_allows dir a peer
  unfolding class_verdict
  class_verdict-end_allows dir a o peer q local ha ho same owners peers =
      elim (Bool-cases o.unpoliced) [
        | inl u ↦ ground (arith, u, same.unpoliced)
        | inr u ↦ elim ho.endpoint [
          | inl x ↦ ground arith
          | inr (v, at_o) ↦ elim ha.endpoint [
            | inl x ↦ ground (arith, same.unpoliced)
            | inr (w, at_a) ↦
                let tiers : v.tiers ≡ w.tiers =
                  ap tiers_of (sym at_o) ∙ (same.tiers u ∙ ap tiers_of at_a) in
                let profiles : v.profile_ids ≡ w.profile_ids =
                  ap profile_ids_of (sym at_o) ∙ (same.profiles u ∙ ap profile_ids_of at_a) in
                let walked =
                  flow_at-verdict store req (staged_scope req) dir v w o.ip a.ip q.ip peer.ip local
                    tiers profiles (key-Alike o a v dir owners) (key-Alike q peer v dir peers) in
                let at_rep = check_owner-verdict store req (staged_scope req) dir o q in
                ground (arith, u, same.unpoliced, walked, at_rep, at_o, at_a)
          ]
        ]
      ]

  module _ (actors : ActorBundle net.Ip) where
    pair_allows-ends :
        (src dst : Actor net.Ip)
        → actors.heps_by_node ≡ []
        → src.kind ≡ actor_wep
        → dst.kind ≡ actor_wep
        → pair_allows store req actors src dst
          ≡ (end_allows dir_egress src dst && end_allows dir_ingress dst src)
    unfolding pair_allows normal_wep
    pair_allows-ends src dst none_left hs hd =
        let f = make_flow req src.ip dst.ip in
        let rev = make_flow req dst.ip src.ip in
        rw (none_left, eval_flow-pods store (staged_scope req) src dst f rev hs hd, hs, hd) refl

    -- The tables of the collapse.
    abbrev pub groups : Groups net.Ip
    groups = group_actors store probes actors.list

    abbrev pub memo : RuleDir → List Bool
    memo = evaluate_classes store (staged_scope req) req groups.rep_peer groups.rep_class

    -- An actor with its class and its peer class.
    abbrev pub Placed : Actor net.Ip → ℕ → ℕ → Type 0
    Placed a c p =
        Represents (class_key store probes) IsPod groups.rep_class (class_key store probes a) c
        × Represents key IsPod groups.rep_peer (key a) p

    memo-end_allows :
        (dir : RuleDir) (a peer : Actor net.Ip) (ca pa cp pp : ℕ)
        → IsLocal store
        → IsPod a
        → All IsPod groups.rep_class
        → Placed a ca pa
        → Placed peer cp pp
        → get_elem? (memo dir) (ca * length groups.rep_peer + pp) ≡ some (end_allows dir a peer)
    memo-end_allows dir a peer ca pa cp pp local pod reps ((o, at_o, same_o, ho), _)
          (_, (q, at_q, same_q, hq)) =
        let (policies, sigs) = class_key-SamePolicies store probes o a ho.plain pod.plain same_o in
        evaluate_classes-cell store req (staged_scope req) dir groups.rep_peer groups.rep_class ca
          pp o q local (All-mono groups.rep_class IsPod HasEndpoint (λ x h. h.endpoint) reps) at_o
          at_q
        ∙ ap some (class_verdict-end_allows dir a o peer q local pod ho policies sigs same_q)

    pub expand_cell-pair_allows :
        (src dst : Actor net.Ip) (ci pi cj pj : ℕ)
        → actors.heps_by_node ≡ []
        → IsLocal store
        → IsPod src
        → IsPod dst
        → All IsPod groups.rep_class
        → Placed src ci pi
        → Placed dst cj pj
        → expand_cell (memo dir_egress) (memo dir_ingress) (length groups.rep_peer) ci pi cj pj
          ≡ some (pair_allows store req actors src dst)
    unfolding expand_cell
    expand_cell-pair_allows src dst ci pi cj pj none_left local hs hd reps at_src at_dst =
        rw
          (
            pair_allows-ends src dst none_left hs.kind hd.kind,
            memo-end_allows dir_egress src dst ci pi cj pj local hs reps at_src at_dst,
            memo-end_allows dir_ingress dst src cj pj ci pi local hd reps at_dst at_src,
          )
          (elim (Bool-cases (end_allows dir_egress src dst)) [
            | inl e ↦ rw e refl
            | inr e ↦ rw e refl
          ])
