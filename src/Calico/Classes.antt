-- ===== src/Calico/Classes.antt =====
-- provider/calico/collapse.go: the classes, one run of the checker for each pair of them, and the
-- expansion to the matrix. An index out of range would panic: that is `none`.
use telepathy.Prelude.{
  ℕ, ◌+◌, ◌*◌, Bool, true, false, Option, none, some, List, [], ◌∷◌, ◌++◌, map, if◌then◌else◌, Eq,
  ◌==◌, ℕ_eq, Text, codes, text_eq, length, get_elem?, fold, ◌>>=◌, Map, get, put, int_eq,
}
use telepathy.Net.{Net}
use telepathy.Api.Types.{Request}
use telepathy.Calico.Store.{
  PolicyId, policy_id_eq, TierInfo, WorkloadEndpoint, tiers_of, profile_ids_of, RuleDir,
  dir_ingress, dir_egress, PolicyScope, Rules, PolicyStore, Flow, Checker,
}
use telepathy.Calico.Flow.{verdict, make_flow, staged_scope}
use telepathy.Calico.Actors.{Actor, normal_wep, ActorBundle}
use telepathy.Calico.Matrix.{MatrixSink, put_verdict}
use telepathy.Calico.Eval.{verdict_text}
use telepathy.Calico.Collapse.{PeerProbes, collect_peer_probes, sig, owner_fingerprint}

-- The state of the loop of `groupActors`.
pub record Groups (Ip : Type 0) : Type 0 where
  pub peer_id : Map Text ℕ
  pub class_id : Map Text ℕ
  pub rep_peer : List (Actor Ip)
  pub rep_class : List (Actor Ip)
  pub peer_of : List ℕ
  pub class_of : List ℕ

abbrev pub no_groups : {Ip : Type 0} → Groups Ip
no_groups = record {
  peer_id = [];
  class_id = [];
  rep_peer = [];
  rep_class = [];
  peer_of = [];
  class_of = [];
}

-- The number of a key: the one it has, or the next one, with the actor that represents it.
unfoldable pub assign_id : {A : Type 0} → Text → A → Map Text ℕ × List A → ℕ × (Map Text ℕ × List A)
assign_id key a (ids, reps) = elim (get key ids) [
  | some n ↦ (n, (ids, reps))
  | none ↦ (length reps, (put key (length reps) ids, reps ++ (a ∷ [])))
]

-- The rules of the policies or profiles with the given IDs, in one direction.
unfoldable pub rules_in : {R : Type 0} → RuleDir → Option (Rules R) → List R
rules_in dir none = []
rules_in dir_ingress (some p) = p.inbound
rules_in dir_egress (some p) = p.outbound

unfoldable pub rules_of : {K R : Type 0} ⦃e : Eq K⦄ → RuleDir → Map K (Rules R) → List K → List R
rules_of dir m [] = []
rules_of dir m (id ∷ ids) = rules_in dir (get id m) ++ rules_of dir m ids

abbrev pub tier_policies : RuleDir → TierInfo → List PolicyId
tier_policies dir_ingress t = t.ingress_policies
tier_policies dir_egress t = t.egress_policies

unfoldable pub tier_rules : {R : Type 0} → RuleDir → Map PolicyId (Rules R) → List TierInfo → List R
unfolding rules_of rules_in
tier_rules dir m [] = []
tier_rules dir m (t ∷ ts) = rules_of dir m (tier_policies dir t) ++ tier_rules dir m ts

module _ ⦃net : Net⦄ ⦃checker : Checker net.Ip⦄
    (store : PolicyStore checker.Rule checker.IpSet) where
  -- The loop of `groupActors`: the class key is the fingerprint, a zero byte and the signature.
  unfoldable pub group_step : PeerProbes net.Cidr → Groups net.Ip → Actor net.Ip → Groups net.Ip
  unfolding assign_id
  group_step pp g a =
      let s = sig pp store a.ip in
      let peer = assign_id s a (g.peer_id, g.rep_peer) in
      let class = assign_id (owner_fingerprint a ++ (0 ∷ s)) a (g.class_id, g.rep_class) in
      record {
        peer_id = peer.1.0;
        class_id = class.1.0;
        rep_peer = peer.1.1;
        rep_class = class.1.1;
        peer_of = g.peer_of ++ (peer.0 ∷ []);
        class_of = g.class_of ++ (class.0 ∷ []);
      }

  unfoldable pub group_actors : PeerProbes net.Cidr → List (Actor net.Ip) → Groups net.Ip
  unfolding group_step fold
  group_actors pp list = fold (group_step pp) no_groups list

  -- The rules of the owner's policies and profiles, in the direction: what `collectOwnerProbes`
  -- gathers.
  unfoldable pub relevant_rules : Option WorkloadEndpoint → RuleDir → List checker.Rule
  unfolding tier_rules rules_of rules_in
  relevant_rules wep dir =
      tier_rules dir store.policy_by_id (tiers_of wep)
      ++ rules_of dir store.profile_by_id (profile_ids_of wep)

  unfoldable pub collect_owner_probes : Actor net.Ip → RuleDir → Flow net.Ip → PeerProbes net.Cidr
  unfolding relevant_rules
  collect_owner_probes owner dir probe =
      collect_peer_probes
        (record {
          policy_by_id = [];
          profile_by_id =
              (
                codes "probes",
                record { inbound = relevant_rules (normal_wep owner) dir; outbound = [] },
              )
              ∷ [];
          ip_set_by_id = [];
        })
        probe.protocol probe.src_port probe.dst_port

  -- The flow that is checked: the probe with the peer's address on the far side.
  abbrev pub toward : RuleDir → Flow net.Ip → Actor net.Ip → Flow net.Ip
  toward dir_ingress probe peer = record probe { src_ip = peer.ip }
  toward dir_egress probe peer = record probe { dst_ip = peer.ip }

  -- One run of the checker for an owner.
  unfoldable pub check_owner :
      PolicyScope → Actor net.Ip → RuleDir → Flow net.Ip → Actor net.Ip → Bool
  unfolding verdict
  check_owner scope owner dir probe peer =
      verdict (checker.evaluate scope dir store (normal_wep owner) (toward dir probe peer))

  -- `ownerDirectionEvaluator`, called at each peer in turn, with its memo.
  unfoldable pub owner_row :
      PolicyScope
      → Actor net.Ip
      → RuleDir
      → Flow net.Ip
      → PeerProbes net.Cidr
      → Map Text Bool
      → List (Actor net.Ip)
      → List Bool
  unfolding check_owner
  owner_row scope owner dir probe probes memo [] = []
  owner_row scope owner dir probe probes memo (peer ∷ peers) =
      let s = sig probes store peer.ip in
      let allow : Bool = elim (get s memo) [
        | some known ↦ known
        | none ↦ check_owner scope owner dir probe peer
      ] in
      let memo' : Map Text Bool = elim (get s memo) [
        | some known ↦ memo
        | none ↦ put s allow memo
      ] in
      allow ∷ owner_row scope owner dir probe probes memo' peers

  -- A row of `egMemo` or `inMemo`: the verdicts of a class toward every peer class.
  unfoldable pub class_row :
      PolicyScope → Request → List (Actor net.Ip) → RuleDir → Actor net.Ip → List Bool
  unfolding owner_row collect_owner_probes
  class_row scope req rep_peer dir owner =
      let probe = make_flow req owner.ip owner.ip in
      if owner.unpoliced
      then map (λ p. true) rep_peer
      else owner_row scope owner dir probe (collect_owner_probes owner dir probe) [] rep_peer

  -- `evaluateClasses`: the rows one after the other.
  unfoldable pub evaluate_classes :
      PolicyScope → Request → List (Actor net.Ip) → List (Actor net.Ip) → RuleDir → List Bool
  unfolding class_row
  evaluate_classes scope req rep_peer [] dir = []
  evaluate_classes scope req rep_peer (owner ∷ rest) dir =
      class_row scope req rep_peer dir owner ++ evaluate_classes scope req rep_peer rest dir

-- The verdict of a pair from the two memos, at the numbers of its ends.
unfoldable pub expand_cell :
    List Bool → List Bool → ℕ → (class_i peer_i class_j peer_j : ℕ) → Option Bool
expand_cell eg_memo in_memo n_peer class_i peer_i class_j peer_j = do
  egress ← get_elem? eg_memo (class_i * n_peer + peer_j)
  if egress then get_elem? in_memo (class_j * n_peer + peer_i) else some false

module _ {Ip : Type 0} (eg_memo in_memo : List Bool) (n_peer : ℕ) where
  -- The inner loop of the expansion, along the actors with their class and peer numbers.
  unfoldable pub expand_row :
      Actor Ip → ℕ → ℕ → List (Actor Ip) → List ℕ → List ℕ → MatrixSink → Option MatrixSink
  unfolding expand_cell
  expand_row src class_i peer_i (dst ∷ cols) (c ∷ cs) (p ∷ ps) sink = elim (src.id == dst.id) [
    | true ↦ expand_row src class_i peer_i cols cs ps sink
    | false ↦ expand_cell eg_memo in_memo n_peer class_i peer_i c p >>= λ allow.
        expand_row src class_i peer_i cols cs ps
          (put_verdict sink src.id dst.id (verdict_text allow))
  ]
  expand_row src class_i peer_i [] cs ps sink = some sink
  expand_row src class_i peer_i cols cs ps sink = none

  unfoldable pub expand_rows :
      List (Actor Ip)
      → List ℕ
      → List ℕ
      → List (Actor Ip)
      → List ℕ
      → List ℕ
      → MatrixSink
      → Option MatrixSink
  unfolding expand_row
  expand_rows (src ∷ rows) (c ∷ cs) (p ∷ ps) cols col_c col_p sink =
      expand_row src c p cols col_c col_p sink >>= expand_rows rows cs ps cols col_c col_p
  expand_rows [] cs ps cols col_c col_p sink = some sink
  expand_rows rows cs ps cols col_c col_p sink = none

-- `fillMatrixCollapsed`, on the HEP-free path of `Evaluate`.
unfoldable pub fill_matrix_collapsed :
    ⦃net : Net⦄ ⦃checker : Checker net.Ip⦄
    → PolicyStore checker.Rule checker.IpSet
    → Request
    → ActorBundle net.Ip
    → MatrixSink
    → Option MatrixSink
fill_matrix_collapsed ⦃net⦄ store req actors sink =
    let probe : Flow net.Ip = make_flow req none none in
    let pp = collect_peer_probes store probe.protocol probe.src_port probe.dst_port in
    let g = group_actors store pp actors.list in
    let scope = staged_scope req in
    let memo = evaluate_classes store scope req g.rep_peer g.rep_class in
    expand_rows (memo dir_egress) (memo dir_ingress) (length g.rep_peer) actors.list g.class_of
      g.peer_of actors.list g.class_of g.peer_of sink
