-- ===== src/Tests/Inline.antt =====
-- provider/calico/resources.go with a decoder that reads a kind from the first byte.
use telepathy.Prelude.{
  ℕ, ◌≡◌, refl, ◌↔◌, All, [], ◌∷◌, nat_eq, if◌then◌else◌, ℕ_eq, Text, codes, text_beq, text_eq,
  fold, pos, negsuc, int_eq,
}
use telepathy.Api.Types.{ServicePort, Request, no_request}
use telepathy.Calico.Ports.{
  signed_32, to_int32, IntOrString, from_core_service_ports, to_core_service_ports,
}
use telepathy.Calico.Ports.RoundTrip.{IsPlain, from_core_service_ports-to_core_service_ports_iff}
use telepathy.Calico.Inline.{
  Decoded, failed, decoded, ResourceDecoder, route_of, extract_routed, extract_step,
  add_service_account, extract_inline_resources, apply_inline_resources,
}
use telepathy.Calico.Inline.Parts.{collect, refused}
use telepathy.Calico.Inline.Taken.{without_inline, apply_inline_resources_lem}

-- Targets are numbers.
instance abbrev plain_targets : IntOrString
plain_targets = record {
  Target = ℕ;
  zero_target = 0;
  int_value = λ n. pos n;
  str_val = λ n. [];
  target_string = λ n. codes "port";
}

first_byte : Text → Decoded Text
first_byte [] = failed (codes "empty")
first_byte (c ∷ s) =
    if nat_eq c b'a' then decoded (codes "ServiceAccount") else decoded (codes "NetworkPolicy")

instance abbrev byte_decoder : ResourceDecoder ℕ
byte_decoder = record {
  decode_kind = first_byte;
  decode_service_account = λ s. decoded (record { name = s; namespace = []; labels = [] });
  decode_service = λ s. failed (codes "none");
}

abbrev mixed : Request
mixed = record no_request {
  policies =
      record { flavor = []; yaml = codes "a" } ∷ record { flavor = []; yaml = codes "p" } ∷ [];
}

inline_account :
    ((apply_inline_resources mixed).0.policies ≡ record { flavor = []; yaml = codes "p" } ∷ [])
    × ((apply_inline_resources mixed).0.service_accounts
        ≡ record { name = codes "a"; namespace = []; labels = [] } ∷ [])
unfolding apply_inline_resources extract_inline_resources extract_step extract_routed route_of
    add_service_account first_byte fold text_beq
inline_account = (refl, refl)

apply_inline_resources_lem_example :
    apply_inline_resources mixed ≡ (without_inline mixed, collect refused mixed.policies)
apply_inline_resources_lem_example = apply_inline_resources_lem mixed

wrapped : to_int32 (pos 4294967295) ≡ negsuc 0
unfolding to_int32 signed_32
wrapped = refl

abbrev dns_port : ServicePort
dns_port = record {
  name = codes "dns";
  port = pos 53;
  protocol = codes "UDP";
  target_port = codes "dns";
  node_port = pos 0;
}

-- A port with a target does not come back; the same port without it does.
abbrev plain_dns : ServicePort
plain_dns = record dns_port { protocol = codes "udp"; target_port = [] }

from_core_service_ports-to_core_service_ports_iff_example :
    (from_core_service_ports (to_core_service_ports (plain_dns ∷ [])) ≡ plain_dns ∷ [])
    ↔ All IsPlain (plain_dns ∷ [])
from_core_service_ports-to_core_service_ports_iff_example =
    from_core_service_ports-to_core_service_ports_iff refl refl (plain_dns ∷ [])
