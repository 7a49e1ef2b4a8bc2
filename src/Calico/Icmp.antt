-- ===== src/Calico/Icmp.antt =====
-- provider/calico/icmp.go: rules whose ICMP matcher contradicts the probe are dropped before the
-- policies are fed to the calculation graph.
pub mod Filtered
use telepathy.Prelude.{
  ◌≡◌, refl, ap, ◌↔◌, ◌⊎◌, inl, inr, Bool, true, false, not, ◌&&◌, Option, none, some, List, [],
  ◌∷◌, arith, if◌then◌else◌, Bool-cases, ◌==◌, ℕ_eq, text_eq, ℤ, int_beq_iff, int_eq,
}
use telepathy.Api.Types.{Request}

pub record IcmpProbe : Type 0 where
  pub typ : Option ℤ
  pub code : Option ℤ

-- apiv3.ICMPFields, and the part of apiv3.Rule that is read here; `Body` is the rest of a rule.
pub record IcmpFields : Type 0 where
  pub typ : Option ℤ
  pub code : Option ℤ

pub record IcmpRule (Body : Type 0) : Type 0 where
  pub icmp : Option IcmpFields
  pub not_icmp : Option IcmpFields
  pub body : Body

-- The spec of a policy, and the kinds that the switch tells apart.
pub record PolicySpec (Body : Type 0) : Type 0 where
  pub ingress : List (IcmpRule Body)
  pub egress : List (IcmpRule Body)

pub data PolicyValue (Body : Type 0) : Type 0 where
  network_policy : PolicySpec Body → PolicyValue Body
  global_network_policy : PolicySpec Body → PolicyValue Body
  staged_network_policy : PolicySpec Body → PolicyValue Body
  staged_global_network_policy : PolicySpec Body → PolicyValue Body
  other_kind : PolicyValue Body

unfoldable pub new_icmp_probe : Request → Option IcmpProbe
new_icmp_probe req = elim req.icmp_type [
  | some t ↦ some (record { typ = req.icmp_type; code = req.icmp_code })
  | none ↦ elim req.icmp_code [
    | none ↦ none
    | some c ↦ some (record { typ = req.icmp_type; code = req.icmp_code })
  ]
]

-- `field != nil && (probe == nil || *field != *probe)`
unfoldable pub misses : Option ℤ → Option ℤ → Bool
misses none probe = false
misses (some t) none = true
misses (some t) (some q) = not (t == q)

abbrev pub is_unset : Option ℤ → Bool
is_unset none = true
is_unset (some t) = false

-- The variable `excludes` after the block on NotICMP.
unfoldable pub excludes : IcmpFields → IcmpProbe → Bool
unfolding misses
excludes f p =
    let by_type : Bool = if misses f.typ p.typ then false else true in
    let by_code : Bool = if by_type && misses f.code p.code then false else by_type in
    if is_unset f.typ && is_unset f.code then false else by_code

-- The tests on ICMP and on NotICMP.
unfoldable pub contradicts : Option IcmpFields → IcmpProbe → Bool
unfolding misses
contradicts none p = false
contradicts (some f) p = if misses f.typ p.typ then true else misses f.code p.code

unfoldable pub excluded : Option IcmpFields → IcmpProbe → Bool
unfolding excludes
excluded none p = false
excluded (some f) p = excludes f p

unfoldable pub rule_icmp_matches_probe : {Body : Type 0} → IcmpRule Body → IcmpProbe → Bool
unfolding contradicts excluded
rule_icmp_matches_probe r p =
    if contradicts r.icmp p then false else if excluded r.not_icmp p then false else true

module _ {Body : Type 0} where
  unfoldable pub keep_rules : List (IcmpRule Body) → IcmpProbe → List (IcmpRule Body)
  unfolding rule_icmp_matches_probe
  keep_rules [] p = []
  keep_rules (r ∷ rs) p =
      let rest = keep_rules rs p in if rule_icmp_matches_probe r p then r ∷ rest else rest

  unfoldable pub filter_rules_by_icmp :
      List (IcmpRule Body) → Option IcmpProbe → List (IcmpRule Body)
  unfolding keep_rules
  filter_rules_by_icmp rules none = rules
  filter_rules_by_icmp rules (some p) = keep_rules rules p

  unfoldable pub filter_spec : PolicySpec Body → Option IcmpProbe → PolicySpec Body
  filter_spec s p = record {
    ingress = filter_rules_by_icmp s.ingress p;
    egress = filter_rules_by_icmp s.egress p;
  }

  unfoldable pub apply_icmp_filter : PolicyValue Body → Option IcmpProbe → PolicyValue Body
  apply_icmp_filter v none = v
  apply_icmp_filter (network_policy s) (some p) = network_policy (filter_spec s (some p))
  apply_icmp_filter (global_network_policy s) (some p) =
      global_network_policy (filter_spec s (some p))
  apply_icmp_filter (staged_network_policy s) (some p) =
      staged_network_policy (filter_spec s (some p))
  apply_icmp_filter (staged_global_network_policy s) (some p) =
      staged_global_network_policy (filter_spec s (some p))
  apply_icmp_filter other_kind (some p) = other_kind

-- A field that is set must be the probe's.
abbrev pub Agrees : Option ℤ → Option ℤ → Type 0
Agrees field probe = (field ≡ none) ⊎ (field ≡ probe)

abbrev pub Covers : IcmpFields → IcmpProbe → Type 0
Covers f p = Agrees f.typ p.typ × Agrees f.code p.code

abbrev pub IsGiven : Option ℤ → Type 0
IsGiven field = (t : ℤ) × (field ≡ some t)

abbrev pub IcmpHolds : Option IcmpFields → IcmpProbe → Type 0
IcmpHolds none p = Unit
IcmpHolds (some f) p = Covers f p

abbrev pub NotIcmpHolds : Option IcmpFields → IcmpProbe → Type 0
NotIcmpHolds none p = ⊥
NotIcmpHolds (some f) p = (IsGiven f.typ ⊎ IsGiven f.code) × Covers f p

-- What the ICMP and NotICMP matchers of a rule ask of a probe.
abbrev pub Accepts : {Body : Type 0} → IcmpRule Body → IcmpProbe → Type 0
Accepts r p = IcmpHolds r.icmp p × ¬ NotIcmpHolds r.not_icmp p

misses_iff : (field probe : Option ℤ) → (misses field probe ≡ false) ↔ Agrees field probe
unfolding misses
misses_iff none probe = ground arith
misses_iff (some t) none = ground arith
misses_iff (some t) (some q) = ground (arith, int_beq_iff t q)

is_unset_iff : (field : Option ℤ) → (is_unset field ≡ false) ↔ IsGiven field
is_unset_iff none = (λ h. cc, λ h. cc (h.1))
is_unset_iff (some t) = (λ h. (t, refl), λ h. refl)

contradicts_iff :
    (o : Option IcmpFields) (p : IcmpProbe) → (contradicts o p ≡ false) ↔ IcmpHolds o p
unfolding contradicts
contradicts_iff none p = (λ h. tt, λ h. refl)
contradicts_iff (some f) p = ground (arith, misses_iff f.typ p.typ, misses_iff f.code p.code)

excluded_iff : (o : Option IcmpFields) (p : IcmpProbe) → (excluded o p ≡ true) ↔ NotIcmpHolds o p
unfolding excluded excludes
excluded_iff none p = (λ h. cc, λ h. elim h [ ])
excluded_iff (some f) p = ground (
  arith,
  misses_iff f.typ p.typ,
  misses_iff f.code p.code,
  is_unset_iff f.typ,
  is_unset_iff f.code,
)

-- A rule survives the filter exactly if its matchers accept the probe: a given ICMP covers it, and
-- a given NotICMP with a field set does not.
pub rule_icmp_matches_probe_iff :
    {Body : Type 0} (r : IcmpRule Body) (p : IcmpProbe)
    → (rule_icmp_matches_probe r p ≡ true) ↔ Accepts r p
unfolding rule_icmp_matches_probe
rule_icmp_matches_probe_iff r p =
    ground (arith, contradicts_iff r.icmp p, excluded_iff r.not_icmp p)
