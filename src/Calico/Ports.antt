-- ===== src/Calico/Ports.antt =====
-- provider/calico/resources.go: the ports of services in the Kubernetes types and back.
pub mod RoundTrip
use telepathy.Prelude.{
  ℕ, ◌-◌, ◌%◌, not, ◌||◌, List, [], map, ltb, if◌then◌else◌, ◌==◌, ℕ_eq, Text, codes, text_eq,
  is_empty, to_lower, ℤ, pos, negsuc, int_eq,
}
use telepathy.Api.Types.{ServicePort}

-- `int32(n)`: the low 32 bits, with the sign of the highest.
abbrev pub two_31 : ℕ
two_31 = 2147483648

abbrev pub two_32 : ℕ
two_32 = 4294967296

unfoldable pub signed_32 : ℕ → ℤ
signed_32 m = if ltb m two_31 then pos m else negsuc (two_32 - 1 - m)

unfoldable pub to_int32 : ℤ → ℤ
unfolding signed_32
to_int32 (pos n) = signed_32 (n % two_32)
to_int32 (negsuc n) = signed_32 (two_32 - 1 - n % two_32)

-- intstr.IntOrString of Kubernetes: its zero value, IntValue, the field StrVal, and String.
pub record IntOrString : Type 1 where
  pub Target : Type 0
  pub zero_target : Target
  pub int_value : Target → ℤ
  pub str_val : Target → Text
  pub target_string : Target → Text

-- corev1.ServicePort, as far as it is read and written.
pub record CoreServicePort (Target : Type 0) : Type 0 where
  pub name : Text
  pub port : ℤ
  pub protocol : Text
  pub target_port : Target

-- The constants corev1.ProtocolTCP, ProtocolUDP and ProtocolSCTP.
unfoldable pub core_protocol : Text → Text
unfolding to_lower
core_protocol p =
    if to_lower p == codes "udp"
    then codes "UDP"
    else if to_lower p == codes "sctp"
    then codes "SCTP"
    else codes "TCP"

unfoldable pub from_core_protocol : Text → Text
from_core_protocol p =
    if p == codes "UDP"
    then codes "udp"
    else if p == codes "SCTP"
    then codes "sctp"
    else codes "tcp"

module _ ⦃k8s : IntOrString⦄ where
  unfoldable pub to_core_service_port : ServicePort → CoreServicePort k8s.Target
  unfolding core_protocol to_int32
  to_core_service_port p = record {
    name = p.name;
    port = to_int32 p.port;
    protocol = core_protocol p.protocol;
    target_port = k8s.zero_target;
  }

  unfoldable pub to_core_service_ports : List ServicePort → List (CoreServicePort k8s.Target)
  unfolding to_core_service_port
  to_core_service_ports ps = map to_core_service_port ps

  unfoldable pub target_text : k8s.Target → Text
  target_text t =
      if not (k8s.int_value t == pos 0) || not (is_empty (k8s.str_val t))
      then k8s.target_string t
      else []

  unfoldable pub from_core_service_port : CoreServicePort k8s.Target → ServicePort
  unfolding from_core_protocol target_text
  from_core_service_port p = record {
    name = p.name;
    port = p.port;
    protocol = from_core_protocol p.protocol;
    target_port = target_text p.target_port;
    node_port = pos 0;
  }

  unfoldable pub from_core_service_ports : List (CoreServicePort k8s.Target) → List ServicePort
  unfolding from_core_service_port
  from_core_service_ports ps = map from_core_service_port ps
