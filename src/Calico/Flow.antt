-- ===== src/Calico/Flow.antt =====
-- provider/calico/flow.go, and `flowFactory` of eval.go.
use telepathy.Prelude.{
  ℕ, ◌+◌, ◌-◌, ◌*◌, Bool, true, false, not, ◌&&◌, ◌||◌, Option, none, some, List, [], ◌∷◌, leb,
  nat_eq, if◌then◌else◌, ℕ_eq, Text, codes, text_eq, is_empty, to_lower, trim_space, Map, or_zero,
  get, pos, int_eq,
}
use telepathy.Api.Types.{Request}
use telepathy.Calico.Store.{
  RuleAction, action_allow, RuleId, Flow, PolicyScope, enforced_only, staged_as_enforced,
}

-- The digits of a decimal number.
parse_digits : ℕ → Text → Option ℕ
parse_digits acc [] = some acc
parse_digits acc (c ∷ s) =
    let rest = parse_digits (10 * acc + (c - b'0')) s in
    if leb b'0' c && leb c b'9' then rest else none

unsigned : Text → Option ℕ
unfolding parse_digits
unsigned [] = none
unsigned (c ∷ s) = parse_digits 0 (c ∷ s)

-- `strconv.Atoi`, when the caller keeps only what lies in 0..255: a number too large for an int is
-- an error there and out of range here, and only "-0" is not negative.
atoi_byte : Text → Option ℕ
unfolding unsigned
atoi_byte [] = none
atoi_byte (c ∷ s) =
    let n : Option ℕ = if nat_eq c b'+' || nat_eq c b'-' then unsigned s else unsigned (c ∷ s) in
    elim n [
      | none ↦ none
      | some k ↦ if leb k 255 && (not (nat_eq c b'-') || nat_eq k 0) then some k else none
    ]

abbrev pub proto_by_name : Map Text ℕ
proto_by_name =
    (codes "tcp", 6)
    ∷ (codes "udp", 17)
    ∷ (codes "icmp", 1)
    ∷ (codes "icmpv6", 58)
    ∷ (codes "sctp", 132)
    ∷ (codes "udplite", 136)
    ∷ []

unfoldable pub protocol_number : Text → ℕ
unfolding trim_space atoi_byte
protocol_number s =
    let key = to_lower (trim_space s) in
    elim (get key proto_by_name) [ some n ↦ n | none ↦ or_zero 6 (atoi_byte key) ]

unfoldable pub protocol_has_l4_ports : ℕ → Bool
protocol_has_l4_ports p = nat_eq p 6 || nat_eq p 17 || nat_eq p 132 || nat_eq p 136

abbrev pub str_ptr : Text → Option Text
str_ptr s = if is_empty s then none else some s

abbrev pub is_allow : RuleAction → Bool
is_allow action_allow = true
is_allow _ = false

-- `verdict`: the action of the last step.
unfoldable pub verdict : List RuleId → Bool
verdict [] = false
verdict (r ∷ []) = is_allow r.action
verdict (r ∷ s ∷ rest) = verdict (s ∷ rest)

-- `flowFactory`, at the addresses of the two ends.
unfoldable pub make_flow : {Ip : Type 0} → Request → Option Ip → Option Ip → Flow Ip
unfolding protocol_number protocol_has_l4_ports
make_flow req src_ip dst_ip =
    let proto = protocol_number req.protocol in
    record {
      src_ip = src_ip;
      dst_ip = dst_ip;
      src_port = req.src_port;
      dst_port = if not (protocol_has_l4_ports proto) then pos 0 else req.port;
      protocol = proto;
      http_method = str_ptr req.http_method;
      http_path = str_ptr req.http_path;
    }

unfoldable pub staged_scope : Request → PolicyScope
staged_scope req = if req.evaluate_staged then staged_as_enforced else enforced_only
