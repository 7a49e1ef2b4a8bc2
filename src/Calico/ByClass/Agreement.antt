-- ===== src/Calico/ByClass/Agreement.antt =====
-- provider/calico/collapse.go: addresses with one signature, under the probes of some rules, are
-- alike to each of those rules.
use telepathy.Prelude.{
  ℕ, ◌≡◌, sym, ◌∙◌, inl, inr, false, not, Option, none, some, List, [], ◌∷◌, ◌++◌, arith,
  if◌then◌else◌, Bool-cases, Option-cases, Eq, ◌==◌, ℕ_eq, Text, codes, text_eq, All, All-append,
  All-append_parts, All-mono, Map, get, ℤ, pos, int_eq,
}
use mathlib.Core.Path.{subst}
use telepathy.Net.{Net}
use telepathy.Api.Types.{Request}
use telepathy.Calico.Flow.{make_flow, protocol_number, protocol_has_l4_ports}
use telepathy.Calico.Store.{
  PolicyId, policy_id_eq, TierInfo, WorkloadEndpoint, tiers_of, profile_ids_of, RuleDir,
  dir_ingress, dir_egress, Rules, PolicyStore, Checker,
}
use telepathy.Calico.Collapse.{
  ProbeSets, sorted_str_keys, port_suffix, visit_all, parse_nets, collect_peer_probes, ip_text,
  in_net, sig,
}
use telepathy.Calico.Classes.{rules_in, rules_of, tier_policies, tier_rules, relevant_rules}
use telepathy.Calico.Locality.{in_net_text, SameSets, SameNets, RuleAgrees}
use telepathy.Calico.ByClass.Signatures.{SameProbes, sig-SameProbes, sorted_str_keys-All}
use telepathy.Calico.ByClass.Coverage.{
  ip_ids, ip_port_ids, src_port_ids, net_texts, Covers, AllRules, AllRules-mono, Covers-mono,
  visit_all-Extends, visit_all-Covers,
}

-- The port that a flow of a request carries.
abbrev pub flow_dst_port : Request → ℤ
flow_dst_port req =
    if not (protocol_has_l4_ports (protocol_number req.protocol)) then pos 0 else req.port

-- A store that holds some rules and nothing else.
abbrev pub rules_store :
    ⦃net : Net⦄ ⦃checker : Checker net.Ip⦄
    → List checker.Rule
    → PolicyStore checker.Rule checker.IpSet
rules_store rs = record {
  policy_by_id = [];
  profile_by_id = (codes "probes", record { inbound = rs; outbound = [] }) ∷ [];
  ip_set_by_id = [];
}

-- One rule sees two addresses alike, at the ports of a probe.
module _ ⦃net : Net⦄ ⦃checker : Checker net.Ip⦄ (store : PolicyStore checker.Rule checker.IpSet)
    (proto : ℕ) (src_port dst_port : ℤ) where
  pub record SameAddress (a b : Option net.Ip) (r : checker.Rule) : Type 0 where
    pub ips : SameSets store (ip_text a) (ip_text b) (ip_ids r)
    pub ip_ports :
        SameSets store
          (ip_text a ++ port_suffix proto dst_port)
          (ip_text b ++ port_suffix proto dst_port)
          (ip_port_ids r)
    pub src_ports :
        SameSets store
          (ip_text a ++ port_suffix proto src_port)
          (ip_text b ++ port_suffix proto src_port)
          (src_port_ids r)
    pub blocks : SameNets store a b (net_texts r)

  -- A block that parses or not, in both readings.
  Parsed : Text → Option net.Cidr → Type 0
  Parsed n none =
      ((ns : List Text) → parse_nets (n ∷ ns) ≡ parse_nets ns)
      × ((a : Option net.Ip) → in_net_text store a n ≡ false)
  Parsed n (some c) =
      ((ns : List Text) → parse_nets (n ∷ ns) ≡ c ∷ parse_nets ns)
      × ((a : Option net.Ip) → in_net_text store a n ≡ in_net a c)

  parse_cidr-Parsed : (n : Text) (o : Option net.Cidr) → net.parse_cidr n ≡ o → Parsed n o
  unfolding parse_nets in_net_text Parsed
  parse_cidr-Parsed n none e = (λ ns. ground (arith, e), λ a. ground (arith, e))
  parse_cidr-Parsed n (some c) e = (λ ns. ground (arith, e), λ a. ground (arith, e))

  parse_nets-All :
      (a b : Option net.Ip) (ns : List Text)
      → All (λ c. in_net a c ≡ in_net b c) (parse_nets ns)
      → SameNets store a b ns
  unfolding Parsed
  parse_nets-All a b [] h = tt
  parse_nets-All a b (n ∷ ns) h = elim (Option-cases (net.parse_cidr n)) [
    | inl e ↦
        let (skipped, outside) = parse_cidr-Parsed n none e in
        let rest = subst (All (λ c. in_net a c ≡ in_net b c)) (skipped ns) h in
        (outside a ∙ sym (outside b), parse_nets-All a b ns rest)
    | inr (c, e) ↦
        let (found, inside) = parse_cidr-Parsed n (some c) e in
        let parts = subst (All (λ c. in_net a c ≡ in_net b c)) (found ns) h in
        (inside a ∙ (parts.0 ∙ sym (inside b)), parse_nets-All a b ns parts.1)
  ]

  -- The sets that `collectPeerProbes` gathers from a store.
  abbrev gathered : PolicyStore checker.Rule checker.IpSet → ProbeSets
  gathered st =
      visit_all
        (visit_all (record { ip_set = []; ip_port = []; src_port = []; net_str = [] })
          st.policy_by_id)
        st.profile_by_id

  covered-SameAddress :
      (st : PolicyStore checker.Rule checker.IpSet) (a b : Option net.Ip) (r : checker.Rule)
      → SameProbes store (collect_peer_probes st proto src_port dst_port) a b
      → Covers (gathered st) r
      → SameAddress a b r
  unfolding collect_peer_probes
  covered-SameAddress st a b r p c = record {
    ips = sorted_str_keys-All _ (gathered st).ip_set (ip_ids r) p.ips c.ip_sets;
    ip_ports = sorted_str_keys-All _ (gathered st).ip_port (ip_port_ids r) p.ip_ports c.ip_ports;
    src_ports =
        sorted_str_keys-All _ (gathered st).src_port (src_port_ids r) p.src_ports c.src_ports;
    blocks =
        sorted_str_keys-All (λ n. in_net_text store a n ≡ in_net_text store b n)
          (gathered st).net_str (net_texts r)
          (parse_nets-All a b (sorted_str_keys (gathered st).net_str) p.blocks) c.net_strs;
  }

  -- A predicate of every rule of a table holds of the rules that a lookup gives.
  rules_in-All :
      {K : Type 0} ⦃e : Eq K⦄ (Q : checker.Rule → Type 0) (dir : RuleDir)
      (m : Map K (Rules checker.Rule)) (id : K)
      → AllRules Q m
      → All Q (rules_in dir (get id m))
  unfolding get rules_in
  rules_in-All Q dir [] id h = tt
  rules_in-All ⦃e⦄ Q dir_ingress ((k, p) ∷ m) id h = elim (Bool-cases (k == id)) [
    | inl q ↦ rw q h.0.0
    | inr q ↦ rw q (rules_in-All Q dir_ingress m id h.1)
  ]
  rules_in-All ⦃e⦄ Q dir_egress ((k, p) ∷ m) id h = elim (Bool-cases (k == id)) [
    | inl q ↦ rw q h.0.1
    | inr q ↦ rw q (rules_in-All Q dir_egress m id h.1)
  ]

  rules_of-All :
      {K : Type 0} ⦃e : Eq K⦄ (Q : checker.Rule → Type 0) (dir : RuleDir)
      (m : Map K (Rules checker.Rule)) (ids : List K)
      → AllRules Q m
      → All Q (rules_of dir m ids)
  unfolding rules_of
  rules_of-All Q dir m [] h = tt
  rules_of-All Q dir m (id ∷ ids) h =
      All-append (rules_in dir (get id m)) (rules_of dir m ids) Q (rules_in-All Q dir m id h)
        (rules_of-All Q dir m ids h)

  tier_rules-All :
      (Q : checker.Rule → Type 0) (dir : RuleDir) (m : Map PolicyId (Rules checker.Rule))
      (ts : List TierInfo)
      → AllRules Q m
      → All Q (tier_rules dir m ts)
  unfolding tier_rules
  tier_rules-All Q dir m [] h = tt
  tier_rules-All Q dir m (t ∷ ts) h =
      All-append (rules_of dir m (tier_policies dir t)) (tier_rules dir m ts) Q
        (rules_of-All Q dir m (tier_policies dir t) h) (tier_rules-All Q dir m ts h)

  relevant_rules-All :
      (Q : checker.Rule → Type 0) (wep : Option WorkloadEndpoint) (dir : RuleDir)
      → AllRules Q store.policy_by_id
      → AllRules Q store.profile_by_id
      → All Q (relevant_rules store wep dir)
  unfolding relevant_rules
  relevant_rules-All Q wep dir hp hq =
      All-append (tier_rules dir store.policy_by_id (tiers_of wep))
        (rules_of dir store.profile_by_id (profile_ids_of wep)) Q
        (tier_rules-All Q dir store.policy_by_id (tiers_of wep) hp)
        (rules_of-All Q dir store.profile_by_id (profile_ids_of wep) hq)

  gathered-AllRules :
      (st : PolicyStore checker.Rule checker.IpSet)
      → AllRules (Covers (gathered st)) st.policy_by_id
        × AllRules (Covers (gathered st)) st.profile_by_id
  gathered-AllRules st =
      let start : ProbeSets = record { ip_set = []; ip_port = []; src_port = []; net_str = [] } in
      let policies = visit_all start st.policy_by_id in
      let later = visit_all-Extends policies st.profile_by_id in
      (
        AllRules-mono (Covers policies) (Covers (gathered st)) st.policy_by_id
            (λ r. Covers-mono policies (gathered st) r later)
            (visit_all-Covers start st.policy_by_id),
        visit_all-Covers policies st.profile_by_id,
      )

  -- The probes of the whole store separate addresses that some rule of an endpoint separates.
  pub store_sig-SameAddress :
      (a b : Option net.Ip) (wep : Option WorkloadEndpoint) (dir : RuleDir)
      → sig (collect_peer_probes store proto src_port dst_port) store a
        ≡ sig (collect_peer_probes store proto src_port dst_port) store b
      → All (SameAddress a b) (relevant_rules store wep dir)
  store_sig-SameAddress a b wep dir e =
      let same = sig-SameProbes store (collect_peer_probes store proto src_port dst_port) a b e in
      let all = gathered-AllRules store in
      let seen = λ (r : checker.Rule) (c : Covers (gathered store) r).
        covered-SameAddress store a b r same c in
      relevant_rules-All (SameAddress a b) wep dir
        (AllRules-mono (Covers (gathered store)) (SameAddress a b) store.policy_by_id seen all.0)
        (AllRules-mono (Covers (gathered store)) (SameAddress a b) store.profile_by_id seen all.1)

  -- So do the probes of one owner's rules.
  pub rules_sig-SameAddress :
      (a b : Option net.Ip) (rs : List checker.Rule)
      → sig (collect_peer_probes (rules_store rs) proto src_port dst_port) store a
        ≡ sig (collect_peer_probes (rules_store rs) proto src_port dst_port) store b
      → All (SameAddress a b) rs
  rules_sig-SameAddress a b rs e =
      let st = rules_store rs in
      let same = sig-SameProbes store (collect_peer_probes st proto src_port dst_port) a b e in
      All-mono rs (Covers (gathered st)) (SameAddress a b)
        (λ r c. covered-SameAddress st a b r same c) (gathered-AllRules st).1.0.0

-- Flows of a request between ends that a rule sees alike.
pub make_flow-RuleAgrees :
    ⦃net : Net⦄ ⦃checker : Checker net.Ip⦄ (store : PolicyStore checker.Rule checker.IpSet)
    (req : Request) (s t d e : Option net.Ip) (r : checker.Rule)
    → SameAddress store (protocol_number req.protocol) req.src_port (flow_dst_port req) s t r
    → SameAddress store (protocol_number req.protocol) req.src_port (flow_dst_port req) d e r
    → RuleAgrees store (make_flow req s d) (make_flow req t e) r
unfolding make_flow
make_flow-RuleAgrees ⦃net⦄ ⦃checker⦄ store req s t d e r src dst =
    let src_ips = All-append_parts (checker.src_ip_set_ids r) _ _ src.ips in
    let not_src_ips = All-append_parts (checker.not_src_ip_set_ids r) _ _ src_ips.1 in
    let dst_ips = All-append_parts (checker.src_ip_set_ids r) _ _ dst.ips in
    let dst_rest = All-append_parts (checker.not_src_ip_set_ids r) _ _ dst_ips.1 in
    let dst_sets = All-append_parts (checker.dst_ip_set_ids r) _ _ dst_rest.1 in
    let ports = All-append_parts (checker.dst_ip_port_set_ids r) _ _ dst.ip_ports in
    let named = All-append_parts (checker.dst_named_port_ip_set_ids r) _ _ ports.1 in
    let src_named = All-append_parts (checker.src_named_port_ip_set_ids r) _ _ src.src_ports in
    let src_nets = All-append_parts (checker.src_net r) _ _ src.blocks in
    let not_src_nets = All-append_parts (checker.not_src_net r) _ _ src_nets.1 in
    let dst_blocks = All-append_parts (checker.src_net r) _ _ dst.blocks in
    let dst_block_rest = All-append_parts (checker.not_src_net r) _ _ dst_blocks.1 in
    let dst_nets = All-append_parts (checker.dst_net r) _ _ dst_block_rest.1 in
    record {
      src_sets = src_ips.0;
      not_src_sets = not_src_ips.0;
      dst_sets = dst_sets.0;
      not_dst_sets = dst_sets.1;
      dst_port_sets = ports.0;
      dst_named = named.0;
      not_dst_named = named.1;
      src_named = src_named.0;
      not_src_named = src_named.1;
      src_nets = src_nets.0;
      not_src_nets = not_src_nets.0;
      dst_nets = dst_nets.0;
      not_dst_nets = dst_nets.1;
    }
