-- ===== src/Tests/Icmp.antt =====
-- provider/calico/icmp.go on a rule that denies pings.
use telepathy.Prelude.{
  ◌≡◌, refl, ◌↔◌, true, none, some, [], ◌∷◌, ℕ_eq, Text, codes, text_eq, pos, int_eq,
}
use telepathy.Api.Types.{Request, no_request}
use telepathy.Calico.Icmp.Filtered.{IsFilteredFor, apply_icmp_filter-IsFilteredFor}
use telepathy.Calico.Icmp.{
  new_icmp_probe, IcmpProbe, IcmpRule, PolicyValue, network_policy, misses, excludes, contradicts,
  excluded, rule_icmp_matches_probe, keep_rules, filter_rules_by_icmp, filter_spec,
  apply_icmp_filter, Accepts, rule_icmp_matches_probe_iff,
}

abbrev ping : IcmpProbe
ping = record { typ = some (pos 8); code = some (pos 0) }

abbrev only_ping : IcmpRule Text
only_ping = record {
  icmp = some (record { typ = some (pos 8); code = none });
  not_icmp = none;
  body = codes "Deny";
}

abbrev no_ping : IcmpRule Text
no_ping = record {
  icmp = none;
  not_icmp = some (record { typ = some (pos 8); code = some (pos 0) });
  body = codes "Allow";
}

abbrev pings : PolicyValue Text
pings = network_policy (record { ingress = only_ping ∷ no_ping ∷ []; egress = no_ping ∷ [] })

pings_kept :
    apply_icmp_filter pings (some ping)
    ≡ network_policy (record { ingress = only_ping ∷ []; egress = [] })
unfolding apply_icmp_filter filter_spec filter_rules_by_icmp keep_rules rule_icmp_matches_probe
    contradicts excluded excludes misses
pings_kept = refl

rule_icmp_matches_probe_iff_example :
    (rule_icmp_matches_probe only_ping ping ≡ true) ↔ Accepts only_ping ping
rule_icmp_matches_probe_iff_example = rule_icmp_matches_probe_iff only_ping ping

abbrev ping_request : Request
ping_request = record no_request { icmp_type = some (pos 8); icmp_code = some (pos 0) }

apply_icmp_filter-IsFilteredFor_example :
    IsFilteredFor
      (some (pos 8))
      (some (pos 0))
      pings
      (apply_icmp_filter pings (new_icmp_probe ping_request))
apply_icmp_filter-IsFilteredFor_example = apply_icmp_filter-IsFilteredFor pings ping_request
