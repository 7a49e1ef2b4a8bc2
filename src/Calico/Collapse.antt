-- ===== src/Calico/Collapse.antt =====
-- provider/calico/collapse.go: the matrix by equivalence classes of actors.
use telepathy.Prelude.{
  ℕ, ◌+◌, Bool, true, false, Option, none, some, List, [], ◌∷◌, ◌++◌, map, nat_eq, if◌then◌else◌,
  ℕ_eq, Text, codes, text_eq, length, sort_texts, join, int_itoa, Map, or_zero, get, put, ℤ, int_eq,
}
use telepathy.Net.{Net}
use telepathy.Calico.Store.{
  PolicyId, policy_id_eq, TierInfo, tiers_of, profile_ids_of, Rules, PolicyStore, Checker,
}
use telepathy.Calico.Actors.{Actor, normal_wep}

-- The four sets that `visit` collects.
pub record ProbeSets : Type 0 where
  pub ip_set : Map Text Bool
  pub ip_port : Map Text Bool
  pub src_port : Map Text Bool
  pub net_str : Map Text Bool

pub record PeerProbes (Cidr : Type 0) : Type 0 where
  pub ip_set_ids : List Text
  pub src_port_set_ids : List Text
  pub src_port_suffix : Text
  pub ip_port_set_ids : List Text
  pub nets : List Cidr
  pub ip_port_suffix : Text

abbrev pub collapse_proto_name : Map ℕ Text
collapse_proto_name =
    (1, codes "icmp") ∷ (6, codes "tcp") ∷ (17, codes "udp") ∷ (132, codes "sctp") ∷ []

unfoldable pub add_ids : Map Text Bool → List Text → Map Text Bool
add_ids m [] = m
add_ids m (id ∷ ids) = add_ids (put id true m) ids

-- `sortedStrKeys`
unfoldable pub sorted_str_keys : Map Text Bool → List Text
sorted_str_keys m = sort_texts (map (λ e. e.0) m)

-- `"," + name + ":" + port`
unfoldable pub port_suffix : ℕ → ℤ → Text
unfolding get int_itoa
port_suffix proto port =
    codes "," ++ or_zero [] (get proto collapse_proto_name) ++ codes ":" ++ int_itoa port

abbrev pub bit : Bool → ℕ
bit true = b'1'
bit false = b'0'

unfoldable pub write_policy_ids : List PolicyId → Text
write_policy_ids [] = []
write_policy_ids (id ∷ ids) =
    id.kind ++ (b'/' ∷ (id.namespace ++ (b'/' ∷ (id.name ++ (b',' ∷ write_policy_ids ids)))))

unfoldable pub write_tiers : List TierInfo → Text
unfolding write_policy_ids
write_tiers [] = []
write_tiers (t ∷ ts) =
    t.name
    ++ (b'|'
        ∷ (t.default_action
            ++ (b'|'
                ∷ (write_policy_ids t.ingress_policies
                    ++ (b'|' ∷ (write_policy_ids t.egress_policies ++ (b';' ∷ write_tiers ts)))))))

module _ ⦃net : Net⦄ ⦃checker : Checker net.Ip⦄ where
  abbrev pub Store : Type 0
  Store = PolicyStore checker.Rule checker.IpSet

  unfoldable pub visit : ProbeSets → checker.Rule → ProbeSets
  unfolding add_ids
  visit s r = record {
    ip_set =
        add_ids
          (add_ids
            (add_ids (add_ids s.ip_set (checker.src_ip_set_ids r)) (checker.not_src_ip_set_ids r))
            (checker.dst_ip_set_ids r))
          (checker.not_dst_ip_set_ids r);
    ip_port =
        add_ids
          (add_ids (add_ids s.ip_port (checker.dst_ip_port_set_ids r))
            (checker.dst_named_port_ip_set_ids r))
          (checker.not_dst_named_port_ip_set_ids r);
    src_port =
        add_ids (add_ids s.src_port (checker.src_named_port_ip_set_ids r))
          (checker.not_src_named_port_ip_set_ids r);
    net_str =
        add_ids
          (add_ids (add_ids (add_ids s.net_str (checker.src_net r)) (checker.not_src_net r))
            (checker.dst_net r))
          (checker.not_dst_net r);
  }

  unfoldable pub visit_rules : ProbeSets → List checker.Rule → ProbeSets
  unfolding visit
  visit_rules s [] = s
  visit_rules s (r ∷ rs) = visit_rules (visit s r) rs

  unfoldable pub visit_all : {K : Type 0} → ProbeSets → Map K (Rules checker.Rule) → ProbeSets
  unfolding visit_rules
  visit_all s [] = s
  visit_all s ((k, p) ∷ rest) = visit_all (visit_rules (visit_rules s p.inbound) p.outbound) rest

  unfoldable pub parse_nets : List Text → List net.Cidr
  parse_nets [] = []
  parse_nets (n ∷ ns) =
      let rest = parse_nets ns in elim (net.parse_cidr n) [ none ↦ rest | some c ↦ c ∷ rest ]

  unfoldable pub collect_peer_probes : Store → ℕ → ℤ → ℤ → PeerProbes net.Cidr
  unfolding visit_all sorted_str_keys parse_nets port_suffix
  collect_peer_probes store proto src_port dst_port =
      let start : ProbeSets = record { ip_set = []; ip_port = []; src_port = []; net_str = [] } in
      let s = visit_all (visit_all start store.policy_by_id) store.profile_by_id in
      record {
        ip_set_ids = sorted_str_keys s.ip_set;
        src_port_set_ids = sorted_str_keys s.src_port;
        src_port_suffix = port_suffix proto src_port;
        ip_port_set_ids = sorted_str_keys s.ip_port;
        nets = parse_nets (sorted_str_keys s.net_str);
        ip_port_suffix = port_suffix proto dst_port;
      }

  -- `IP.String`, which is "<nil>" without an address, and `IPNet.Contains`, which is false.
  unfoldable pub ip_text : Option net.Ip → Text
  ip_text none = codes "<nil>"
  ip_text (some ip) = net.ip_string ip

  unfoldable pub in_net : Option net.Ip → net.Cidr → Bool
  in_net none c = false
  in_net (some ip) c = net.cidr_contains c ip

  -- `contains`
  unfoldable pub set_has : Store → Text → Text → Bool
  unfolding get
  set_has store value id = elim (get id store.ip_set_by_id) [
    | none ↦ false
    | some s ↦ checker.ip_set_contains s value
  ]

  -- The bytes of a signature, one to a probe.
  unfoldable pub sig_bits : PeerProbes net.Cidr → Store → Option net.Ip → Text
  unfolding set_has ip_text in_net
  sig_bits pp store ip =
      map (λ id. bit (set_has store (ip_text ip) id)) pp.ip_set_ids
      ++ (map (λ id. bit (set_has store (ip_text ip ++ pp.ip_port_suffix) id)) pp.ip_port_set_ids
          ++ (map (λ id. bit (set_has store (ip_text ip ++ pp.src_port_suffix) id))
                pp.src_port_set_ids
              ++ map (λ c. bit (in_net ip c)) pp.nets))

  unfoldable pub sig : PeerProbes net.Cidr → Store → Option net.Ip → Text
  unfolding sig_bits
  sig pp store ip =
      if nat_eq
        (length pp.ip_set_ids
          + length pp.ip_port_set_ids
          + length pp.src_port_set_ids
          + length pp.nets)
        0
      then []
      else sig_bits pp store ip

  unfoldable pub owner_fingerprint : Actor net.Ip → Text
  unfolding write_tiers normal_wep join
  owner_fingerprint a =
      if a.unpoliced
      then codes "U"
      else write_tiers (tiers_of (normal_wep a))
        ++ (b'#' ∷ join (profile_ids_of (normal_wep a)) (codes ","))
