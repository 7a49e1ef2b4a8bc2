-- ===== src/Tests/Lint.antt =====
-- provider/calico/lint.go on small manifests.
use telepathy.Prelude.{
  ◌≡◌, refl, ◌↔◌, true, ◌∷◌, ◌++◌, ℕ_eq, Text, codes, text_eq, is_empty, trim_space, has_prefix,
  split_byte, int_eq,
}
use telepathy.Calico.Lint.{
  lines_of, next_section, trim_blanks, scan_http, has_http_on_egress, scan_icmp,
  has_icmp_type_or_code,
}
use telepathy.Calico.Lint.Egress.{HasHttpUnderEgress, has_http_on_egress_iff}

abbrev http_policy : Text
http_policy = codes "egress:" ++ (10 ∷ codes "  http:")

http_is_found : has_http_on_egress http_policy ≡ true
unfolding has_http_on_egress lines_of split_byte scan_http next_section trim_blanks has_prefix
http_is_found = refl

icmp_is_found : has_icmp_type_or_code (codes "icmp:" ++ (10 ∷ codes "  type: 8")) ≡ true
unfolding has_icmp_type_or_code lines_of split_byte scan_icmp trim_space has_prefix is_empty
icmp_is_found = refl

icmp_at_margin_is_found : has_icmp_type_or_code (codes "icmp:" ++ (10 ∷ codes "type: 8")) ≡ true
unfolding has_icmp_type_or_code lines_of split_byte scan_icmp trim_space has_prefix is_empty
icmp_at_margin_is_found = refl

has_http_on_egress_iff_example :
    (has_http_on_egress http_policy ≡ true) ↔ HasHttpUnderEgress (lines_of http_policy)
has_http_on_egress_iff_example = has_http_on_egress_iff http_policy
