-- ===== src/Calico/Lint.antt =====
-- provider/calico/lint.go: the warnings on the text of the policies. Decoding of a manifest's head
-- is a parameter; the table of Capabilities is left out.
pub mod Egress
use telepathy.Prelude.{
  ℕ, Bool, true, false, not, ◌&&◌, ◌||◌, Option, none, some, List, [], ◌∷◌, ◌++◌, nat_eq,
  if◌then◌else◌, ℕ_eq, Text, codes, text_eq, is_empty, trim_space, has_prefix, has_text, split_byte,
  is_nil, int_eq,
}
use telepathy.Api.Types.{PolicyInput, Request}

-- yaml.Unmarshal into `head`: the kind and the API version; `none` is an error.
pub record HeadDecoder : Type 0 where
  pub decode_head : Text → Option (Text × Text)

abbrev newline : ℕ
newline = 10

unfoldable pub lines_of : Text → List Text
unfolding split_byte
lines_of y = split_byte newline y

unfoldable pub trim_prefix_name : Text → Text
trim_prefix_name (a ∷ b ∷ c ∷ d ∷ e ∷ rest) = rest
trim_prefix_name s = []

-- The loop of `policyDisplayName`: `strings.TrimPrefix(s, "name:")` after the test for it.
unfoldable pub display_name : List Text → Text → Text
unfolding trim_space has_prefix trim_prefix_name
display_name [] kind = kind
display_name (line ∷ rest) kind =
    let later = display_name rest kind in
    if has_prefix (trim_space line) (codes "name:")
    then kind ++ codes " " ++ trim_space (trim_prefix_name (trim_space line))
    else later

unfoldable pub policy_display_name : Text → Text → Text
unfolding display_name lines_of
policy_display_name y kind = display_name (lines_of y) kind

-- The loop of `hasICMPTypeOrCode`, with `inICMP`.
unfoldable pub scan_icmp : Bool → List Text → Bool
unfolding trim_space has_prefix
scan_icmp in_icmp [] = false
scan_icmp in_icmp (line ∷ rest) =
    let s = trim_space line in
    let within = scan_icmp true rest in
    let next =
      scan_icmp
        (in_icmp
          && not (
              not (is_empty s)
              && (not (has_prefix line (codes " ")) && not (has_prefix line (9 ∷ [])))))
        rest in
    if has_prefix s (codes "icmp:") || has_prefix s (codes "notICMP:")
    then within
    else if in_icmp && (has_prefix s (codes "type:") || has_prefix s (codes "code:"))
    then true
    else next

unfoldable pub has_icmp_type_or_code : Text → Bool
unfolding scan_icmp lines_of
has_icmp_type_or_code y = scan_icmp false (lines_of y)

-- `strings.TrimLeft(line, " \t")`
unfoldable pub trim_blanks : Text → Text
trim_blanks [] = []
trim_blanks (c ∷ s) = if nat_eq c 32 || nat_eq c 9 then trim_blanks s else c ∷ s

-- `section`
pub data Section : Type 0 where
  no_section ingress_section egress_section : Section

abbrev pub is_egress : Section → Bool
is_egress egress_section = true
is_egress s = false

-- The section after a line.
unfoldable pub next_section : Section → Text → Section
unfolding trim_blanks has_prefix
next_section s line =
    if has_prefix (trim_blanks line) (codes "ingress:")
    then ingress_section
    else if has_prefix (trim_blanks line) (codes "egress:")
    then egress_section
    else s

-- The line is neither of the headers of a section.
abbrev pub is_http_line : Text → Bool
is_http_line line =
    not (has_prefix (trim_blanks line) (codes "ingress:"))
    && (not (has_prefix (trim_blanks line) (codes "egress:"))
        && has_prefix (trim_blanks line) (codes "http:"))

-- The loop of `hasHTTPOnEgress`.
unfoldable pub scan_http : Section → List Text → Bool
unfolding next_section trim_blanks has_prefix
scan_http s [] = false
scan_http s (line ∷ rest) =
    let later = scan_http (next_section s line) rest in
    if is_http_line line && is_egress s then true else later

unfoldable pub has_http_on_egress : Text → Bool
unfolding scan_http lines_of
has_http_on_egress y = scan_http no_section (lines_of y)

abbrev pub is_none : {A : Type 0} → Option A → Bool
is_none none = true
is_none (some a) = false

-- The dash of the messages, in UTF-8.
abbrev pub lint_dash : Text
lint_dash = 0xe2 ∷ 0x80 ∷ 0x94 ∷ []

-- The warnings on one policy whose head decodes.
unfoldable pub lint_policy : Request → PolicyInput → Text → Text → List Text
unfolding policy_display_name has_prefix has_text has_icmp_type_or_code has_http_on_egress
lint_policy req p kind api_version =
    let name = policy_display_name p.yaml kind in
    if has_prefix api_version (codes "policy.networking.k8s.io/v1alpha1")
    then (name
        ++ codes
            ": v1alpha1 ANP/BANP is not supported by this engine; rewrite as policy.networking.k8s.io/v1alpha2 ClusterNetworkPolicy")
      ∷ []
    else (if has_text p.yaml (codes "domains:") && is_nil req.dns
        then (name
            ++ codes ": references domains: but Request.DNS is empty "
            ++ lint_dash
            ++ codes " FQDN matching will resolve to empty IP sets")
          ∷ []
        else [])
      ++ (if has_icmp_type_or_code p.yaml && (is_none req.icmp_type && is_none req.icmp_code)
          then (name
              ++ codes
                  ": uses icmp.type / icmp.code but Request.ICMPType/ICMPCode are unset, so the matcher acts as a wildcard. Set them on the Request to filter rules by ICMP type/code.")
            ∷ []
          else [])
      ++ (if has_http_on_egress p.yaml
          then (name
              ++ codes
                  ": applies http: matchers under egress, which Calico rejects (HTTP matchers are ingress-only)")
            ∷ []
          else [])

module _ ⦃decoder : HeadDecoder⦄ where
  unfoldable pub lint_loop : Request → List PolicyInput → List Text
  unfolding lint_policy
  lint_loop req [] = []
  lint_loop req (p ∷ rest) = elim (decoder.decode_head p.yaml) [
    | none ↦ lint_loop req rest
    | some (kind, api_version) ↦ lint_policy req p kind api_version ++ lint_loop req rest
  ]

  -- The warnings, and the errors, which are none.
  unfoldable pub lint_policies : Request → List Text × List Text
  unfolding lint_loop
  lint_policies req = (lint_loop req req.policies, [])
