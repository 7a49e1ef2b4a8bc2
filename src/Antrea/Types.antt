-- ===== src/Antrea/Types.antt =====
-- engines/antrea/harness.go: the resolved policies, and the values of Go's net package that they
-- hold.
use telepathy.Prelude.{Bool, Option, List, ℕ_eq, Text, text_eq, Map, ℤ, negsuc, int_eq}

pub record ResolvedIpBlock (Cidr : Type 0) : Type 0 where
  pub cidr : Option Cidr
  pub except : List Cidr

pub record PortSpec : Type 0 where
  pub proto : Text
  pub port : ℤ
  pub end_port : ℤ
  pub named : Text

pub record ResolvedRule (Cidr : Type 0) : Type 0 where
  pub match_all_peers : Bool
  pub peer_pods : Map Text Bool
  pub ip_blocks : List (ResolvedIpBlock Cidr)
  pub ports : List PortSpec

pub record ResolvedPolicy (Cidr : Type 0) : Type 0 where
  pub name : Text
  pub ingress_isolate : Bool
  pub egress_isolate : Bool
  pub applied_to : Map Text Bool
  pub ingress : List (ResolvedRule Cidr)
  pub egress : List (ResolvedRule Cidr)

pub record Model (Cidr : Type 0) : Type 0 where
  pub policies : List (ResolvedPolicy Cidr)
  pub warnings : List Text
  pub errors : List Text

-- `portSpec.port == -1`: all ports of the protocol.
abbrev pub minus_one : ℤ
minus_one = negsuc 0
