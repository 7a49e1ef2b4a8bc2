-- ===== src/Calico/Ports/RoundTrip.antt =====
-- provider/calico/resources.go: which ports of a service come back from the Kubernetes
-- types. `fromCoreServicePorts` is called the inverse of `toCoreServicePorts`, which sets no
-- target.
use telepathy.Prelude.{
  ℕ, ◌-◌, ◌%◌, ◌<◌, ◌≡◌, refl, ◌↔◌, ◌⊎◌, inl, inr, true, false, List, [], ◌∷◌, arith, ltb, ltb→lt,
  lt→ltb, Bool-cases, ◌==◌, ℕ_eq, Text, codes, text_beq, text_eq, is_empty, to_lower, All, ℤ, pos,
  negsuc, int_eq,
}
use mathlib.Core.Path.{subst}
use telepathy.Api.Types.{ServicePort}
use telepathy.Calico.Ports.{
  two_31, two_32, signed_32, to_int32, IntOrString, core_protocol, from_core_protocol,
  to_core_service_port, to_core_service_ports, target_text, from_core_service_port,
  from_core_service_ports,
}

-- An integer that 32 bits with a sign hold.
abbrev pub IsInt32 : ℤ → Type 0
IsInt32 (pos n) = n < two_31
IsInt32 (negsuc n) = n < two_31

to_int32_id : (z : ℤ) → IsInt32 z → to_int32 z ≡ z
unfolding to_int32 signed_32
to_int32_id (pos n) h =
    let small : n % two_32 ≡ n = omega (arith, h) in
    let below : ltb n two_31 ≡ true = lt→ltb n two_31 h in rw (small, below) refl
to_int32_id (negsuc n) h =
    let small : n % two_32 ≡ n = omega (arith, h) in
    let above : ltb (two_32 - 1 - n) two_31 ≡ false = ground (arith, h) in
    let back : two_32 - 1 - (two_32 - 1 - n) ≡ n = omega (arith, h) in rw (small, above, back) refl

signed_32-IsInt32 : (m : ℕ) → m < two_32 → IsInt32 (signed_32 m)
unfolding signed_32
signed_32-IsInt32 m h = elim (Bool-cases (ltb m two_31)) [
  | inl e ↦ rw e (ltb→lt m two_31 e)
  | inr e ↦ let above : two_32 - 1 - m < two_31 = ground (arith, e) in rw e above
]

to_int32-IsInt32 : (z : ℤ) → IsInt32 (to_int32 z)
unfolding to_int32 signed_32
to_int32-IsInt32 (pos n) = signed_32-IsInt32 (n % two_32) (omega arith)
to_int32-IsInt32 (negsuc n) = signed_32-IsInt32 (two_32 - 1 - n % two_32) (omega arith)

-- The three protocols as the request writes them.
abbrev pub IsProtocol : Text → Type 0
IsProtocol p = (p ≡ codes "tcp") ⊎ (p ≡ codes "udp") ⊎ (p ≡ codes "sctp")

from_core_protocol-IsProtocol : (p : Text) → IsProtocol (from_core_protocol p)
unfolding from_core_protocol
from_core_protocol-IsProtocol p = elim (Bool-cases (p == codes "UDP")) [
  | inl e ↦ rw e (inr (inl refl))
  | inr e ↦ elim (Bool-cases (p == codes "SCTP")) [
    | inl n ↦ rw (e, n) (inr (inr refl))
    | inr n ↦ rw (e, n) (inl refl)
  ]
]

from_core_protocol-core_protocol :
    (p : Text) → IsProtocol p → from_core_protocol (core_protocol p) ≡ p
unfolding from_core_protocol core_protocol text_beq to_lower
from_core_protocol-core_protocol p (inl e) = rw e refl
from_core_protocol-core_protocol p (inr (inl e)) = rw e refl
from_core_protocol-core_protocol p (inr (inr e)) = rw e refl

-- A port that the Kubernetes types hold as they are read and written here: a number of 32 bits, a
-- protocol in lower case, and neither a target nor a node port.
abbrev pub IsPlain : ServicePort → Type 0
IsPlain p = IsInt32 p.port × IsProtocol p.protocol × (p.target_port ≡ []) × (p.node_port ≡ pos 0)

module _ ⦃k8s : IntOrString⦄ (zero_int : k8s.int_value k8s.zero_target ≡ pos 0)
    (zero_str : k8s.str_val k8s.zero_target ≡ []) where
  abbrev there_and_back : ServicePort → ServicePort
  there_and_back p = from_core_service_port (to_core_service_port p)

  no_target : target_text k8s.zero_target ≡ []
  unfolding target_text is_empty
  no_target = rw (zero_int, zero_str) refl

  there_and_back-IsPlain : (p : ServicePort) → IsPlain (there_and_back p)
  unfolding from_core_service_port to_core_service_port
  there_and_back-IsPlain p = (
    to_int32-IsInt32 p.port,
    from_core_protocol-IsProtocol (core_protocol p.protocol),
    no_target,
    refl,
  )

  there_and_back_of_IsPlain : (p : ServicePort) → IsPlain p → there_and_back p ≡ p
  unfolding from_core_service_port to_core_service_port
  there_and_back_of_IsPlain p h =
      cc (
        to_int32_id p.port h.0,
        from_core_protocol-core_protocol p.protocol h.1,
        no_target,
        h.2,
        h.3,
      )

  ports_sound :
      (ps : List ServicePort)
      → from_core_service_ports (to_core_service_ports ps) ≡ ps
      → All IsPlain ps
  unfolding from_core_service_ports to_core_service_ports
  ports_sound [] e = tt
  ports_sound (p ∷ ps) e =
      let first : there_and_back p ≡ p = cc e in
      let rest : from_core_service_ports (to_core_service_ports ps) ≡ ps = cc e in
      (subst IsPlain first (there_and_back-IsPlain p), ports_sound ps rest)

  ports_complete :
      (ps : List ServicePort)
      → All IsPlain ps
      → from_core_service_ports (to_core_service_ports ps) ≡ ps
  unfolding from_core_service_ports to_core_service_ports
  ports_complete [] h = refl
  ports_complete (p ∷ ps) h = cc (there_and_back_of_IsPlain p h.0, ports_complete ps h.1)

  -- If the zero IntOrString has the integer 0 and the empty string, `fromCoreServicePorts` undoes
  -- `toCoreServicePorts` on a list of ports exactly if each of them has a number that fits 32 bits
  -- with a sign, the protocol tcp, udp or sctp in lower case, no target port and the node port 0.
  pub from_core_service_ports-to_core_service_ports_iff :
      (ps : List ServicePort)
      → (from_core_service_ports (to_core_service_ports ps) ≡ ps) ↔ All IsPlain ps
  from_core_service_ports-to_core_service_ports_iff ps = (ports_sound ps, ports_complete ps)
