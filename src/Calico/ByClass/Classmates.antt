-- ===== src/Calico/ByClass/Classmates.antt =====
-- provider/calico/collapse.go, the class key: what actors of one class have in common.
use telepathy.Prelude.{
  ℕ, ◌≡◌, sym, ap, ◌∙◌, ◌≢◌, ◌⊎◌, inl, inr, true, false, List, [], ◌∷◌, ◌++◌, arith, Bool-cases,
  ℕ_eq, Text, codes, text_eq, length, length-append, All, join, int_eq,
}
use telepathy.Net.{Net}
use telepathy.Calico.Store.{TierInfo, tiers_of, profile_ids_of, PolicyStore, Checker}
use telepathy.Calico.Actors.{Actor, normal_wep}
use telepathy.Calico.Collapse.{PeerProbes, sig, write_tiers, owner_fingerprint}
use telepathy.Calico.ByClass.Signatures.{append-split, length-sig}
use telepathy.Calico.ByClass.Fingerprints.{
  IsPlainTier, IsPlainProfile, write_tiers-split, write_tiers-append, join-injective,
}

-- The names of an actor's tiers, policies and profiles hold no separator of the fingerprint.
pub record IsPlain {Ip : Type 0} (a : Actor Ip) : Type 0 where
  pub tiers : All IsPlainTier (tiers_of (normal_wep a))
  pub profiles : All IsPlainProfile (profile_ids_of (normal_wep a))

-- Two actors are policed alike.
pub record SamePolicies {Ip : Type 0} (a b : Actor Ip) : Type 0 where
  pub unpoliced : a.unpoliced ≡ b.unpoliced
  pub tiers : a.unpoliced ≡ false → tiers_of (normal_wep a) ≡ tiers_of (normal_wep b)
  pub profiles : a.unpoliced ≡ false → profile_ids_of (normal_wep a) ≡ profile_ids_of (normal_wep b)

unpoliced_mark : (c : ℕ) (u s : Text) → c ≢ b'U' → codes "U" ≡ u ++ (c ∷ s) → ⊥
unpoliced_mark c [] s ne e = ground arith
unpoliced_mark c (a ∷ []) s ne e = ground arith
unpoliced_mark c (a ∷ b ∷ u) s ne e = ground arith

-- The mark of an actor without policies is no list of tiers.
unpoliced_tiers : (ts : List TierInfo) (s : Text) → codes "U" ≡ write_tiers ts ++ (b'#' ∷ s) → ⊥
unfolding write_tiers
unpoliced_tiers [] s e = ground arith
unpoliced_tiers (t ∷ ts) s e =
    unpoliced_mark b'|' t.name _ (ground arith) (e ∙ write_tiers-append t ts (b'#' ∷ s))

module _ ⦃net : Net⦄ ⦃checker : Checker net.Ip⦄ where
  policed : Actor net.Ip → Text
  policed a =
      write_tiers (tiers_of (normal_wep a))
      ++ (b'#' ∷ join (profile_ids_of (normal_wep a)) (codes ","))

  fingerprint-cases :
      (a : Actor net.Ip)
      → ((a.unpoliced ≡ true) × (owner_fingerprint a ≡ codes "U"))
        ⊎ ((a.unpoliced ≡ false) × (owner_fingerprint a ≡ policed a))
  unfolding owner_fingerprint policed
  fingerprint-cases a = elim (Bool-cases a.unpoliced) [
    | inl e ↦ inl (e, ground (arith, e))
    | inr e ↦ inr (e, ground (arith, e))
  ]

  owner_fingerprint-SamePolicies :
      (a b : Actor net.Ip)
      → IsPlain a
      → IsPlain b
      → owner_fingerprint a ≡ owner_fingerprint b
      → SamePolicies a b
  unfolding policed
  owner_fingerprint-SamePolicies a b ha hb e = elim (fingerprint-cases a) [
    | inl (ua, fa) ↦ elim (fingerprint-cases b) [
      | inl (ub, fb) ↦ record {
        unpoliced = ua ∙ sym ub;
        tiers = λ n. ground arith;
        profiles = λ n. ground arith;
      }
      | inr (ub, fb) ↦ elim (unpoliced_tiers (tiers_of (normal_wep b)) _ (sym fa ∙ (e ∙ fb))) [ ]
    ]
    | inr (ua, fa) ↦ elim (fingerprint-cases b) [
      | inl (ub, fb) ↦
          elim (unpoliced_tiers (tiers_of (normal_wep a)) _ (sym fb ∙ (sym e ∙ fa))) [ ]
      | inr (ub, fb) ↦
          let (tiers, joined) =
            write_tiers-split (tiers_of (normal_wep a)) (tiers_of (normal_wep b)) _ _ ha.tiers
              hb.tiers (sym fa ∙ (e ∙ fb)) in
          let profiles =
            join-injective (profile_ids_of (normal_wep a)) (profile_ids_of (normal_wep b))
              ha.profiles hb.profiles joined in
          record { unpoliced = ua ∙ sym ub; tiers = λ n. tiers; profiles = λ n. profiles }
    ]
  ]

  module _ (store : PolicyStore checker.Rule checker.IpSet) (pp : PeerProbes net.Cidr) where
    abbrev pub peer_key : Actor net.Ip → Text
    peer_key a = sig pp store a.ip

    abbrev pub class_key : Actor net.Ip → Text
    class_key a = owner_fingerprint a ++ (0 ∷ sig pp store a.ip)

    pub class_key-SamePolicies :
        (a b : Actor net.Ip)
        → IsPlain a
        → IsPlain b
        → class_key a ≡ class_key b
        → SamePolicies a b × (peer_key a ≡ peer_key b)
    class_key-SamePolicies a b ha hb e =
        let fa = owner_fingerprint a in
        let fb = owner_fingerprint b in
        let sums = ap length e in
        let lengths : length fa ≡ length fb = omega (
          arith,
          length-append fa (0 ∷ peer_key a),
          length-append fb (0 ∷ peer_key b),
          length-sig store pp a.ip b.ip,
          sums,
        ) in
        let (prints, sigs) = append-split fa fb (0 ∷ peer_key a) (0 ∷ peer_key b) lengths e in
        (owner_fingerprint-SamePolicies a b ha hb prints, cc)
