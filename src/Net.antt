-- ===== src/Net.antt =====
-- Go's package net, as the providers use it.
use telepathy.Prelude.{Bool, Option, ℕ_eq, Text, text_eq, int_eq}

-- Package net: addresses, blocks, their parsers, `IPNet.Contains` and `IP.String`. Any
-- implementation serves.
pub record Net : Type 1 where
  pub Ip : Type 0
  pub Cidr : Type 0
  pub parse_ip : Text → Option Ip
  pub parse_cidr : Text → Option Cidr
  pub cidr_contains : Cidr → Ip → Bool
  pub ip_string : Ip → Text
