-- ===== src/Calico/Expansion.antt =====
-- provider/calico/collapse.go: the expansion of the class verdicts never leaves its tables.
use telepathy.Prelude.{
  length-map, ℕ, zero, suc, ◌+◌, ◌*◌, ◌<◌, ◌≡◌, refl, ap, inl, inr, Bool, true, false, none, some,
  List, [], ◌∷◌, arith, Bool-cases, ◌==◌, ℕ_eq, Text, text_eq, length, length-append, Map, get,
  int_eq,
}
use telepathy.Net.{Net}
use telepathy.Api.Types.{Request}
use telepathy.Calico.Store.{
  RuleDir, dir_ingress, dir_egress, PolicyScope, PolicyStore, Flow, Checker,
}
use telepathy.Calico.Flow.{make_flow, staged_scope}
use telepathy.Calico.Actors.{Actor, ActorBundle}
use telepathy.Calico.Matrix.{MatrixSink, put_verdict}
use telepathy.Calico.Eval.{verdict_text}
use telepathy.Calico.Collapse.{PeerProbes, collect_peer_probes}
use telepathy.Calico.Classes.{
  no_groups, group_actors, owner_row, collect_owner_probes, class_row, evaluate_classes,
  expand_cell, expand_row, expand_rows, fill_matrix_collapsed,
}
use telepathy.Calico.Bounds.{get_elem?-below, AllBelow, IsNumbered, fold-IsNumbered}

module _ ⦃net : Net⦄ ⦃checker : Checker net.Ip⦄
    (store : PolicyStore checker.Rule checker.IpSet) where
  length-owner_row :
      (scope : PolicyScope) (owner : Actor net.Ip) (dir : RuleDir) (probe : Flow net.Ip)
      (probes : PeerProbes net.Cidr) (peers : List (Actor net.Ip)) (memo : Map Text Bool)
      → length (owner_row store scope owner dir probe probes memo peers) ≡ length peers
  unfolding owner_row
  length-owner_row scope owner dir probe probes [] memo = refl
  length-owner_row scope owner dir probe probes (peer ∷ peers) memo =
      ap suc (length-owner_row scope owner dir probe probes peers _)

  length-class_row :
      (scope : PolicyScope) (req : Request) (peers : List (Actor net.Ip)) (dir : RuleDir)
      (owner : Actor net.Ip)
      → length (class_row store scope req peers dir owner) ≡ length peers
  unfolding class_row
  length-class_row scope req peers dir owner =
      let probe : Flow net.Ip = make_flow req owner.ip owner.ip in
      ground (
        arith,
        length-map (λ (p : Actor net.Ip). true) peers,
        length-owner_row scope owner dir probe (collect_owner_probes store owner dir probe) peers
            [],
      )

  length-evaluate_classes :
      (scope : PolicyScope) (req : Request) (peers owners : List (Actor net.Ip)) (dir : RuleDir)
      → length (evaluate_classes store scope req peers owners dir) ≡ length owners * length peers
  unfolding evaluate_classes
  length-evaluate_classes scope req peers [] dir = omega arith
  length-evaluate_classes scope req peers (owner ∷ rest) dir =
      let row = class_row store scope req peers dir owner in
      let rows = evaluate_classes store scope req peers rest dir in
      grind (
        arith,
        length-append row rows,
        length-class_row scope req peers dir owner,
        length-evaluate_classes scope req peers rest dir,
      )

cell_below : (c n p k : ℕ) → c < k → p < n → c * n + p < k * n
cell_below c n p zero hc hp = omega arith
cell_below zero n p (suc k) hc hp = omega arith
cell_below (suc c) n p (suc k) hc hp = omega (arith, cell_below c n p k (omega arith) hp)

module _ (eg_memo in_memo : List Bool) (n_class n_peer : ℕ) (eg : length eg_memo ≡ n_class * n_peer)
    (ing : length in_memo ≡ n_class * n_peer) where
  cell_found :
      (ci pi cj pj : ℕ)
      → ci < n_class
      → pi < n_peer
      → cj < n_class
      → pj < n_peer
      → (v : Bool) × (expand_cell eg_memo in_memo n_peer ci pi cj pj ≡ some v)
  unfolding expand_cell
  cell_found ci pi cj pj hci hpi hcj hpj =
      let (e, found) =
        get_elem?-below eg_memo (ci * n_peer + pj)
          (omega (arith, cell_below ci n_peer pj n_class hci hpj, eg)) in
      let (v, other) =
        get_elem?-below in_memo (cj * n_peer + pi)
          (omega (arith, cell_below cj n_peer pi n_class hcj hpi, ing)) in
      elim (Bool-cases e) [ inl h ↦ (v, rw (found, h) other) | inr h ↦ (false, rw (found, h) refl) ]

  row_found :
      {Ip : Type 0} (src : Actor Ip) (ci pi : ℕ) (cols : List (Actor Ip)) (cs ps : List ℕ)
      (sink : MatrixSink)
      → ci < n_class
      → pi < n_peer
      → AllBelow n_class cs
      → AllBelow n_peer ps
      → length cs ≡ length cols
      → length ps ≡ length cols
      → (out : MatrixSink) × (expand_row eg_memo in_memo n_peer src ci pi cols cs ps sink
          ≡ some out)
  unfolding expand_row
  row_found src ci pi [] cs ps sink hc hp hcs hps lc lp = (sink, refl)
  row_found src ci pi (dst ∷ cols) [] ps sink hc hp hcs hps lc lp = ground arith
  row_found src ci pi (dst ∷ cols) (c ∷ cs) [] sink hc hp hcs hps lc lp = ground arith
  row_found src ci pi (dst ∷ cols) (c ∷ cs) (p ∷ ps) sink hc hp hcs hps lc lp =
      let (v, found) = cell_found ci pi c p hc hp hcs.0 hps.0 in
      let next = put_verdict sink src.id dst.id (verdict_text v) in
      let (skip, skipped) =
        row_found src ci pi cols cs ps sink hc hp hcs.1 hps.1 (omega (arith, lc))
          (omega (arith, lp)) in
      let (out, done) =
        row_found src ci pi cols cs ps next hc hp hcs.1 hps.1 (omega (arith, lc))
          (omega (arith, lp)) in
      elim (Bool-cases (src.id == dst.id)) [
        | inl e ↦ (skip, ground (arith, skipped))
        | inr e ↦ (out, ground (arith, found, done))
      ]

  rows_found :
      {Ip : Type 0} (rows cols : List (Actor Ip)) (rcs rps cs ps : List ℕ) (sink : MatrixSink)
      → AllBelow n_class rcs
      → AllBelow n_peer rps
      → length rcs ≡ length rows
      → length rps ≡ length rows
      → AllBelow n_class cs
      → AllBelow n_peer ps
      → length cs ≡ length cols
      → length ps ≡ length cols
      → (out : MatrixSink) × (expand_rows eg_memo in_memo n_peer rows rcs rps cols cs ps sink
          ≡ some out)
  unfolding expand_rows
  rows_found [] cols rcs rps cs ps sink hrc hrp lrc lrp hcs hps lc lp = (sink, refl)
  rows_found (src ∷ rows) cols [] rps cs ps sink hrc hrp lrc lrp hcs hps lc lp = ground arith
  rows_found (src ∷ rows) cols (c ∷ rcs) [] cs ps sink hrc hrp lrc lrp hcs hps lc lp = ground arith
  rows_found (src ∷ rows) cols (c ∷ rcs) (p ∷ rps) cs ps sink hrc hrp lrc lrp hcs hps lc lp =
      let (next, found) = row_found src c p cols cs ps sink hrc.0 hrp.0 hcs hps lc lp in
      let (out, done) =
        rows_found rows cols rcs rps cs ps next hrc.1 hrp.1 (omega (arith, lrc))
          (omega (arith, lrp)) hcs hps lc lp in
      (out, ground (arith, found, done))

-- `fillMatrixCollapsed` never indexes out of range: for every store, request, list of actors and
-- sink, and whatever the checker answers, it returns a sink.
pub fill_matrix_collapsed-some :
    ⦃net : Net⦄ ⦃checker : Checker net.Ip⦄ (store : PolicyStore checker.Rule checker.IpSet)
    (req : Request) (actors : ActorBundle net.Ip) (sink : MatrixSink)
    → (out : MatrixSink) × (fill_matrix_collapsed store req actors sink ≡ some out)
unfolding fill_matrix_collapsed group_actors get
fill_matrix_collapsed-some ⦃net⦄ store req actors sink =
    let probe : Flow net.Ip = make_flow req none none in
    let pp = collect_peer_probes store probe.protocol probe.src_port probe.dst_port in
    let g = group_actors store pp actors.list in
    let scope = staged_scope req in
    let empty : IsNumbered store pp 0 no_groups = record {
      peer_ids = λ k i h. cc;
      class_ids = λ k i h. cc;
      peers = tt;
      classes = tt;
      peer_count = refl;
      class_count = refl;
    } in
    let n = fold-IsNumbered store pp 0 no_groups actors.list empty in
    let lengths =
      λ (dir : RuleDir). length-evaluate_classes store scope req g.rep_peer g.rep_class dir in
    let peer_count : length g.peer_of ≡ length actors.list = omega (arith, n.peer_count) in
    let class_count : length g.class_of ≡ length actors.list = omega (arith, n.class_count) in
    rows_found (evaluate_classes store scope req g.rep_peer g.rep_class dir_egress)
      (evaluate_classes store scope req g.rep_peer g.rep_class dir_ingress) (length g.rep_class)
      (length g.rep_peer) (lengths dir_egress) (lengths dir_ingress) actors.list actors.list
      g.class_of g.peer_of g.class_of g.peer_of sink n.classes n.peers class_count peer_count
      n.classes n.peers class_count peer_count
