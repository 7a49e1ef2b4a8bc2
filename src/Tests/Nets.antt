-- ===== src/Tests/Nets.antt =====
-- A net package for the tests of the engines.
use telepathy.Prelude.{has_prefix, none, some, is_empty, Text, if◌then◌else◌}
use telepathy.Net.{Net}

-- Addresses are texts, and a block is a prefix of its addresses.
instance abbrev pub text_net : Net
text_net = record {
  Ip = Text;
  Cidr = Text;
  parse_ip = λ s. if is_empty s then none else some s;
  parse_cidr = λ s. if is_empty s then none else some s;
  cidr_contains = λ c ip. has_prefix ip c;
  ip_string = λ ip. ip;
}
