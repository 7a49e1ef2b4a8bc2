-- ===== src/Calico/TierMatch/Selected.antt =====
-- provider/calico/tiermatch.go: what the match of an endpoint names.
use telepathy.Prelude.{
  ◌≡◌, refl, sym, ap, ◌∙◌, inl, inr, Bool, true, false, not, ◌&&◌, ◌||◌, List, [], ◌∷◌, ◌++◌, arith,
  Bool-cases, ◌==◌, ℕ_eq, Text, text_beq_iff, text_eq, any, fold, fold-append, contains, is_nil,
  or_zero, get, int_eq,
}
use mathlib.Core.Path.{subst}
use telepathy.Calico.Store.{PolicyId, policy_id_eq, policy_id_beq_iff, TierInfo}
use telepathy.Calico.Actors.{Actor, hep_tiers, forward_tiers, pre_dnat_tiers, untracked_tiers}
use telepathy.Calico.TierMatch.Once.{
  AreOnce, contains-append, contains-one, append-AreOnce, Marks, put-Marks,
}
use telepathy.Calico.TierMatch.{
  Footprint, no_footprint, add_tier_name, add_policy_ref, tier_policies_of, collect_tier,
  collect_tier_policies, hep_match,
}

pub record IsFootprint (f : Footprint) : Type 0 where
  pub seen : Marks f.seen f.match_.policies
  pub seen_tier : Marks f.seen_tier f.match_.tiers
  pub policies : AreOnce f.match_.policies
  pub tiers : AreOnce f.match_.tiers

-- A state that has grown by the policies and the tier names that pass a test.
record Grows (f g : Footprint) (p : PolicyId → Bool) (t : Text → Bool) : Type 0 where
  kept : IsFootprint g
  policies : (q : PolicyId) → contains g.match_.policies q ≡ (contains f.match_.policies q || p q)
  tiers : (n : Text) → contains g.match_.tiers n ≡ (contains f.match_.tiers n || t n)

abbrev nothing : {A : Type 0} → A → Bool
nothing a = false

Grows-refl : (f : Footprint) → IsFootprint f → Grows f f nothing nothing
Grows-refl f h = record { kept = h; policies = λ q. ground arith; tiers = λ n. ground arith }

Grows-trans :
    (f g h : Footprint) (p q : PolicyId → Bool) (s t : Text → Bool)
    → Grows f g p s
    → Grows g h q t
    → Grows f h (λ x. p x || q x) (λ x. s x || t x)
Grows-trans f g h p q s t a b = record {
  kept = b.kept;
  policies = λ x. ground (arith, a.policies x, b.policies x);
  tiers = λ x. ground (arith, a.tiers x, b.tiers x);
}

add_policy_ref-Grows :
    (f : Footprint) (p : PolicyId)
    → IsFootprint f
    → Grows f (add_policy_ref f p) (λ q. p == q) nothing
unfolding add_policy_ref
add_policy_ref-Grows f p h = elim (Bool-cases (or_zero false (get p f.seen))) [
  | inl e ↦
      rw (e, add_policy_ref)
        (record {
          kept = h;
          policies = λ q. elim (Bool-cases (p == q)) [
            | inl same ↦
                let one = (policy_id_beq_iff p q).0 same in
                let there : contains f.match_.policies q ≡ true =
                  subst (λ x. contains f.match_.policies x ≡ true) one (sym (h.seen p) ∙ e) in
                ground (arith, there)
            | inr other ↦ ground (arith, other)
          ];
          tiers = λ n. ground arith;
        })
  | inr e ↦
      rw (e, add_policy_ref)
        (record {
          kept = record {
            seen = put-Marks f.seen f.match_.policies p h.seen;
            seen_tier = h.seen_tier;
            policies = append-AreOnce f.match_.policies p (sym (h.seen p) ∙ e) h.policies;
            tiers = h.tiers;
          };
          policies =
              λ q. ground (arith, contains-append f.match_.policies (p ∷ []) q, contains-one p q);
          tiers = λ n. ground arith;
        })
]

add_tier_name-Grows :
    (f : Footprint) (t : Text) → IsFootprint f → Grows f (add_tier_name f t) nothing (λ n. t == n)
unfolding add_tier_name
add_tier_name-Grows f t h = elim (Bool-cases (or_zero false (get t f.seen_tier))) [
  | inl e ↦
      rw (e, add_tier_name)
        (record {
          kept = h;
          policies = λ q. ground arith;
          tiers = λ n. elim (Bool-cases (t == n)) [
            | inl same ↦
                let one = (text_beq_iff t n).0 same in
                let there : contains f.match_.tiers n ≡ true =
                  subst (λ x. contains f.match_.tiers x ≡ true) one (sym (h.seen_tier t) ∙ e) in
                ground (arith, there)
            | inr other ↦ ground (arith, other)
          ];
        })
  | inr e ↦
      rw (e, add_tier_name)
        (record {
          kept = record {
            seen = h.seen;
            seen_tier = put-Marks f.seen_tier f.match_.tiers t h.seen_tier;
            policies = h.policies;
            tiers = append-AreOnce f.match_.tiers t (sym (h.seen_tier t) ∙ e) h.tiers;
          };
          policies = λ q. ground arith;
          tiers = λ n. ground (arith, contains-append f.match_.tiers (t ∷ []) n, contains-one t n);
        })
]

Grows-cong :
    (f g : Footprint) (p q : PolicyId → Bool) (s t : Text → Bool)
    → ((x : PolicyId) → p x ≡ q x)
    → ((n : Text) → s n ≡ t n)
    → Grows f g p s
    → Grows f g q t
Grows-cong f g p q s t hp ht h = record {
  kept = h.kept;
  policies = λ x. ground (arith, h.policies x, hp x);
  tiers = λ n. ground (arith, h.tiers n, ht n);
}

fold-Grows :
    (f : Footprint) (ps : List PolicyId)
    → IsFootprint f
    → Grows f (fold add_policy_ref f ps) (contains ps) nothing
unfolding fold contains
fold-Grows f [] h = Grows-refl f h
fold-Grows f (p ∷ ps) h =
    let one = add_policy_ref-Grows f p h in
    let rest = fold-Grows (add_policy_ref f p) ps one.kept in
    Grows-cong f (fold add_policy_ref f (p ∷ ps)) (λ q. p == q || contains ps q) (contains (p ∷ ps))
      (λ n. nothing n || nothing n) nothing (λ q. refl) (λ n. refl)
      (Grows-trans f (add_policy_ref f p) (fold add_policy_ref f (p ∷ ps)) (λ q. p == q)
        (contains ps) nothing nothing one rest)

-- A tier names a policy, and a tier with a policy has a name.
abbrev names_policy : PolicyId → TierInfo → Bool
names_policy p ti = contains (tier_policies_of ti) p

abbrev is_tier : Text → TierInfo → Bool
is_tier n ti = ti.name == n && not (is_nil (tier_policies_of ti))

nil_contains : (ps : List PolicyId) (q : PolicyId) → is_nil ps ≡ true → contains ps q ≡ false
unfolding contains
nil_contains [] q e = refl
nil_contains (p ∷ ps) q e = ground arith

collect_tier-Grows :
    (f : Footprint) (ti : TierInfo)
    → IsFootprint f
    → Grows f (collect_tier f ti) (λ p. names_policy p ti) (λ n. is_tier n ti)
unfolding collect_tier
collect_tier-Grows f ti h = elim (Bool-cases (is_nil (tier_policies_of ti))) [
  | inl e ↦
      let skipped : collect_tier f ti ≡ f = ground (arith, e) in
      subst (λ g. Grows f g (λ p. names_policy p ti) (λ n. is_tier n ti)) (sym skipped)
        (Grows-cong f f nothing (λ p. names_policy p ti) nothing (λ n. is_tier n ti)
          (λ p. sym (nil_contains (tier_policies_of ti) p e)) (λ n. ground (arith, e))
          (Grows-refl f h))
  | inr e ↦
      let named = add_tier_name-Grows f ti.name h in
      let all = fold-Grows (add_tier_name f ti.name) (tier_policies_of ti) named.kept in
      let taken : collect_tier f ti
          ≡ fold add_policy_ref (add_tier_name f ti.name) (tier_policies_of ti) =
        ground (arith, e) in
      subst (λ g. Grows f g (λ p. names_policy p ti) (λ n. is_tier n ti)) (sym taken)
        (Grows-cong f (fold add_policy_ref (add_tier_name f ti.name) (tier_policies_of ti))
          (λ p. nothing p || contains (tier_policies_of ti) p) (λ p. names_policy p ti)
          (λ n. ti.name == n || nothing n) (λ n. is_tier n ti) (λ p. refl) (λ n. ground (arith, e))
          (Grows-trans f (add_tier_name f ti.name)
            (fold add_policy_ref (add_tier_name f ti.name) (tier_policies_of ti)) nothing
            (contains (tier_policies_of ti)) (λ n. ti.name == n) nothing named all))
]

collect_tier_policies-Grows :
    (f : Footprint) (tiers : List TierInfo)
    → IsFootprint f
    → Grows f
        (collect_tier_policies f tiers)
        (λ p. any (names_policy p) tiers)
        (λ n. any (is_tier n) tiers)
unfolding collect_tier_policies fold any
collect_tier_policies-Grows f [] h = Grows-refl f h
collect_tier_policies-Grows f (ti ∷ tiers) h =
    let one = collect_tier-Grows f ti h in
    Grows-trans f (collect_tier f ti) (collect_tier_policies (collect_tier f ti) tiers) _ _ _ _ one
      (collect_tier_policies-Grows (collect_tier f ti) tiers one.kept)

no_footprint-IsFootprint : (id : Text) → IsFootprint (no_footprint id)
unfolding get contains
no_footprint-IsFootprint id = record {
  seen = λ a. refl;
  seen_tier = λ a. refl;
  policies = tt;
  tiers = tt;
}

-- All the tier lists of a host endpoint, in the order of evaluation.
abbrev pub all_tiers : {Ip : Type 0} → Actor Ip → List TierInfo
all_tiers a =
    pre_dnat_tiers a.hep ++ (untracked_tiers a.hep ++ (forward_tiers a.hep ++ hep_tiers a.hep))

-- The match of a host endpoint names a policy exactly if some tier of its four lists does, and a
-- tier exactly if one of that name in the four lists has a policy; it names nothing twice.
pub hep_match-exact :
    {Ip : Type 0} (a : Actor Ip)
    → ((p : PolicyId)
        → contains (hep_match a).policies p
          ≡ any (λ ti. contains (tier_policies_of ti) p) (all_tiers a))
      × ((n : Text)
          → contains (hep_match a).tiers n
            ≡ any (λ ti. ti.name == n && not (is_nil (tier_policies_of ti))) (all_tiers a))
      × AreOnce (hep_match a).policies
      × AreOnce (hep_match a).tiers
unfolding hep_match collect_tier_policies contains
hep_match-exact a =
    let start = no_footprint a.id in
    let whole = collect_tier_policies start (all_tiers a) in
    let joined : hep_match a ≡ whole.match_ =
      ap (λ f. f.match_)
        (sym (
          fold-append collect_tier start (pre_dnat_tiers a.hep) _
          ∙ (fold-append collect_tier _ (untracked_tiers a.hep) _
              ∙ fold-append collect_tier _ (forward_tiers a.hep) (hep_tiers a.hep)))) in
    let g = collect_tier_policies-Grows start (all_tiers a) (no_footprint-IsFootprint a.id) in
    subst
      (λ m.
        ((p : PolicyId)
          → contains m.policies p ≡ any (λ ti. contains (tier_policies_of ti) p) (all_tiers a))
        × ((n : Text)
            → contains m.tiers n
              ≡ any (λ ti. ti.name == n && not (is_nil (tier_policies_of ti))) (all_tiers a))
        × AreOnce m.policies
        × AreOnce m.tiers)
      (sym joined) (g.policies, g.tiers, g.kept.policies, g.kept.tiers)
