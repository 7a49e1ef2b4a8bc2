-- ===== src/Calico/Icmp/Filtered.antt =====
-- provider/calico/icmp.go: what `applyICMPFilter` leaves of a policy.
use telepathy.Prelude.{
  ◌≡◌, refl, inl, inr, Option, none, some, List, [], ◌∷◌, Bool-cases, ℕ_eq, text_eq, ℤ, int_eq,
}
use telepathy.Api.Types.{Request}
use telepathy.Calico.Icmp.{
  IcmpProbe, IcmpRule, PolicySpec, PolicyValue, network_policy, global_network_policy,
  staged_network_policy, staged_global_network_policy, other_kind, new_icmp_probe,
  rule_icmp_matches_probe, keep_rules, filter_rules_by_icmp, filter_spec, apply_icmp_filter,
  Accepts, rule_icmp_matches_probe_iff,
}

-- The second list has, in order, the rules of the first that accept the probe, and no others.
pub data IsSelection {Body : Type 0} (p : IcmpProbe)
    : List (IcmpRule Body) → List (IcmpRule Body) → Type 0 where
  nothing : IsSelection p [] []
  kept :
      (r : IcmpRule Body) {rs out : List (IcmpRule Body)}
      → Accepts r p
      → IsSelection p rs out
      → IsSelection p (r ∷ rs) (r ∷ out)
  dropped :
      (r : IcmpRule Body) {rs out : List (IcmpRule Body)}
      → ¬ Accepts r p
      → IsSelection p rs out
      → IsSelection p (r ∷ rs) out

-- The same in both directions.
abbrev pub IsSelectedSpec : {Body : Type 0} → IcmpProbe → PolicySpec Body → PolicySpec Body → Type 0
IsSelectedSpec p s t = IsSelection p s.ingress t.ingress × IsSelection p s.egress t.egress

-- A value keeps its kind; the four kinds of policy are filtered in both directions.
abbrev pub IsFiltered : {Body : Type 0} → IcmpProbe → PolicyValue Body → PolicyValue Body → Type 0
IsFiltered p (network_policy s) (network_policy t) = IsSelectedSpec p s t
IsFiltered p (global_network_policy s) (global_network_policy t) = IsSelectedSpec p s t
IsFiltered p (staged_network_policy s) (staged_network_policy t) = IsSelectedSpec p s t
IsFiltered p (staged_global_network_policy s) (staged_global_network_policy t) =
    IsSelectedSpec p s t
IsFiltered p other_kind other_kind = Unit
IsFiltered p v w = ⊥

-- For the ICMP type and code of a request: without both, the value stays as it is.
abbrev pub IsFilteredFor :
    {Body : Type 0} → Option ℤ → Option ℤ → PolicyValue Body → PolicyValue Body → Type 0
IsFilteredFor none none v w = w ≡ v
IsFilteredFor none (some c) v w = IsFiltered (record { typ = none; code = some c }) v w
IsFilteredFor (some t) code v w = IsFiltered (record { typ = some t; code = code }) v w

module _ {Body : Type 0} where
  keep_rules-IsSelection :
      (rs : List (IcmpRule Body)) (p : IcmpProbe) → IsSelection p rs (keep_rules rs p)
  unfolding keep_rules
  keep_rules-IsSelection [] p = nothing
  keep_rules-IsSelection (r ∷ rs) p = elim (Bool-cases (rule_icmp_matches_probe r p)) [
    | inl e ↦ rw e (kept r ((rule_icmp_matches_probe_iff r p).0 e) (keep_rules-IsSelection rs p))
    | inr e ↦ rw e (
        dropped r (λ a. cc (e, (rule_icmp_matches_probe_iff r p).1 a))
          (keep_rules-IsSelection rs p))
  ]

  filter_spec-IsSelectedSpec :
      (s : PolicySpec Body) (p : IcmpProbe) → IsSelectedSpec p s (filter_spec s (some p))
  unfolding filter_spec filter_rules_by_icmp
  filter_spec-IsSelectedSpec s p =
      (keep_rules-IsSelection s.ingress p, keep_rules-IsSelection s.egress p)

  apply_icmp_filter-IsFiltered :
      (v : PolicyValue Body) (p : IcmpProbe) → IsFiltered p v (apply_icmp_filter v (some p))
  unfolding apply_icmp_filter
  apply_icmp_filter-IsFiltered (network_policy s) p = filter_spec-IsSelectedSpec s p
  apply_icmp_filter-IsFiltered (global_network_policy s) p = filter_spec-IsSelectedSpec s p
  apply_icmp_filter-IsFiltered (staged_network_policy s) p = filter_spec-IsSelectedSpec s p
  apply_icmp_filter-IsFiltered (staged_global_network_policy s) p = filter_spec-IsSelectedSpec s p
  apply_icmp_filter-IsFiltered other_kind p = tt

  probe_case :
      (v : PolicyValue Body) (req : Request) (typ code : Option ℤ)
      → req.icmp_type ≡ typ
      → req.icmp_code ≡ code
      → IsFilteredFor typ code v (apply_icmp_filter v (new_icmp_probe req))
  unfolding new_icmp_probe
  probe_case v req none none et ec = rw (et, ec) (unfold apply_icmp_filter in refl)
  probe_case v req none (some c) et ec = rw (et, ec, ec) (apply_icmp_filter-IsFiltered v _)
  probe_case v req (some t) code et ec = rw (et, ec) (apply_icmp_filter-IsFiltered v _)

  -- The filter of a request keeps the kind of a value, and of its ingress and of its egress rules,
  -- in order, exactly those that accept the ICMP type and code of the request; a value of another
  -- kind, or any value when the request sets neither, stays as it is.
  pub apply_icmp_filter-IsFilteredFor :
      (v : PolicyValue Body) (req : Request)
      → IsFilteredFor req.icmp_type req.icmp_code v (apply_icmp_filter v (new_icmp_probe req))
  apply_icmp_filter-IsFilteredFor v req = probe_case v req req.icmp_type req.icmp_code refl refl
