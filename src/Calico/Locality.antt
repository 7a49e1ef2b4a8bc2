-- ===== src/Calico/Locality.antt =====
-- What collapse.go relies on in app-policy/checker: a verdict depends on the owner's tiers and
-- profiles, on the probe, and on the addresses only through the sets and blocks that the owner's
-- rules name. This is the behaviour that collapse.go documents of the checker.
use telepathy.Prelude.{
  ◌≡◌, Bool, false, Option, none, some, List, ◌++◌, ℕ_eq, Text, text_eq, All, int_eq,
}
use telepathy.Net.{Net}
use telepathy.Calico.Store.{WorkloadEndpoint, RuleDir, PolicyScope, PolicyStore, Flow, Checker}
use telepathy.Calico.Flow.{verdict}
use telepathy.Calico.Collapse.{port_suffix, ip_text, in_net, set_has}
use telepathy.Calico.Classes.{relevant_rules}

module _ ⦃net : Net⦄ ⦃checker : Checker net.Ip⦄
    (store : PolicyStore checker.Rule checker.IpSet) where
  -- Whether an address lies in a block written in a rule; an unreadable block holds nothing.
  unfoldable pub in_net_text : Option net.Ip → Text → Bool
  in_net_text ip n = elim (net.parse_cidr n) [ none ↦ false | some c ↦ in_net ip c ]

  -- Two values have the same answers in the named IP sets.
  abbrev pub SameSets : Text → Text → List Text → Type 0
  SameSets u v = All (λ id. set_has store u id ≡ set_has store v id)

  abbrev pub SameNets : Option net.Ip → Option net.Ip → List Text → Type 0
  SameNets a b = All (λ n. in_net_text a n ≡ in_net_text b n)

  abbrev pub src_value : Flow net.Ip → Text
  src_value f = ip_text f.src_ip ++ port_suffix f.protocol f.src_port

  abbrev pub dst_value : Flow net.Ip → Text
  dst_value f = ip_text f.dst_ip ++ port_suffix f.protocol f.dst_port

  -- A rule cannot tell two flows apart by their addresses.
  pub record RuleAgrees (f g : Flow net.Ip) (r : checker.Rule) : Type 0 where
    pub src_sets : SameSets (ip_text f.src_ip) (ip_text g.src_ip) (checker.src_ip_set_ids r)
    pub not_src_sets : SameSets (ip_text f.src_ip) (ip_text g.src_ip) (checker.not_src_ip_set_ids r)
    pub dst_sets : SameSets (ip_text f.dst_ip) (ip_text g.dst_ip) (checker.dst_ip_set_ids r)
    pub not_dst_sets : SameSets (ip_text f.dst_ip) (ip_text g.dst_ip) (checker.not_dst_ip_set_ids r)
    pub dst_port_sets : SameSets (dst_value f) (dst_value g) (checker.dst_ip_port_set_ids r)
    pub dst_named : SameSets (dst_value f) (dst_value g) (checker.dst_named_port_ip_set_ids r)
    pub not_dst_named :
        SameSets (dst_value f) (dst_value g) (checker.not_dst_named_port_ip_set_ids r)
    pub src_named : SameSets (src_value f) (src_value g) (checker.src_named_port_ip_set_ids r)
    pub not_src_named :
        SameSets (src_value f) (src_value g) (checker.not_src_named_port_ip_set_ids r)
    pub src_nets : SameNets f.src_ip g.src_ip (checker.src_net r)
    pub not_src_nets : SameNets f.src_ip g.src_ip (checker.not_src_net r)
    pub dst_nets : SameNets f.dst_ip g.dst_ip (checker.dst_net r)
    pub not_dst_nets : SameNets f.dst_ip g.dst_ip (checker.not_dst_net r)

-- Two flows are one probe, but for the addresses.
pub record SameProbe {Ip : Type 0} (f g : Flow Ip) : Type 0 where
  pub src_port : f.src_port ≡ g.src_port
  pub dst_port : f.dst_port ≡ g.dst_port
  pub protocol : f.protocol ≡ g.protocol
  pub http_method : f.http_method ≡ g.http_method
  pub http_path : f.http_path ≡ g.http_path

-- The checker's documented behaviour, over one store. Endpoints are compared where both exist.
abbrev pub IsLocal :
    ⦃net : Net⦄ ⦃checker : Checker net.Ip⦄ → PolicyStore checker.Rule checker.IpSet → Type 0
IsLocal ⦃net⦄ ⦃checker⦄ store =
    (scope : PolicyScope) (dir : RuleDir) (a b : WorkloadEndpoint) (f g : Flow net.Ip)
    → a.tiers ≡ b.tiers
    → a.profile_ids ≡ b.profile_ids
    → SameProbe f g
    → All (RuleAgrees store f g) (relevant_rules store (some a) dir)
    → verdict (checker.evaluate scope dir store (some a) f)
      ≡ verdict (checker.evaluate scope dir store (some b) g)
