-- ===== src/Calico/ByClass/Fingerprints.antt =====
-- provider/calico/collapse.go, `ownerFingerprint` and the class key: actors of one class carry the
-- same tiers and profiles.
use telepathy.Prelude.{
  ℕ, ◌≡◌, refl, sym, ◌∙◌, ◌≢◌, false, List, [], ◌∷◌, ◌++◌, append_assoc, append-nil, arith, ℕ_eq,
  Text, codes, text_eq, is_empty, All, join, int_eq,
}
use telepathy.Calico.Store.{PolicyId, TierInfo}
use telepathy.Calico.Collapse.{write_policy_ids, write_tiers}

-- No byte of the text is `c`.
abbrev pub IsFree : ℕ → Text → Type 0
IsFree c = All (λ b. b ≢ c)

-- A byte that ends a text is found from the left.
split_at :
    (c : ℕ) (u v s t : Text)
    → IsFree c u
    → IsFree c v
    → u ++ (c ∷ s) ≡ v ++ (c ∷ t)
    → (u ≡ v) × (s ≡ t)
split_at c [] [] s t hu hv e = (refl, cc)
split_at c [] (b ∷ v) s t hu hv e = ground arith
split_at c (a ∷ u) [] s t hu hv e = ground arith
split_at c (a ∷ u) (b ∷ v) s t hu hv e =
    let rest = split_at c u v s t hu.1 hv.1 cc in
    let parts : (u ≡ v) × (s ≡ t) = rest in let head : a ≡ b = cc in (cc, parts.1)

not_ended : (c d : ℕ) (u s t : Text) → c ≢ d → IsFree c u → c ∷ s ≡ u ++ (d ∷ t) → ⊥
not_ended c d [] s t ne free e = ground arith
not_ended c d (b ∷ u) s t ne free e = ground arith

-- The names that the separators of a fingerprint can tell apart.
pub record IsPlainId (id : PolicyId) : Type 0 where
  pub kind_slash : IsFree b'/' id.kind
  pub kind_bar : IsFree b'|' id.kind
  pub kind_semicolon : IsFree b';' id.kind
  pub namespace_slash : IsFree b'/' id.namespace
  pub name_comma : IsFree b',' id.name

pub record IsPlainTier (t : TierInfo) : Type 0 where
  pub name_bar : IsFree b'|' t.name
  pub name_hash : IsFree b'#' t.name
  pub default_bar : IsFree b'|' t.default_action
  pub ingress : All IsPlainId t.ingress_policies
  pub egress : All IsPlainId t.egress_policies

pub record IsPlainProfile (p : Text) : Type 0 where
  pub comma : IsFree b',' p
  pub nonempty : is_empty p ≡ false

write_policy_ids-append :
    (id : PolicyId) (ids : List PolicyId) (s : Text)
    → write_policy_ids (id ∷ ids) ++ s
      ≡ id.kind
        ++ (b'/' ∷ (id.namespace ++ (b'/' ∷ (id.name ++ (b',' ∷ (write_policy_ids ids ++ s))))))
unfolding write_policy_ids
write_policy_ids-append id ids s = simp append_assoc refl

-- A list of policies that is followed by a byte that no kind has.
write_policy_ids-split :
    (c : ℕ) (ids js : List PolicyId) (s t : Text)
    → c ≢ b'/'
    → All IsPlainId ids
    → All IsPlainId js
    → All (λ id. IsFree c id.kind) ids
    → All (λ id. IsFree c id.kind) js
    → write_policy_ids ids ++ (c ∷ s) ≡ write_policy_ids js ++ (c ∷ t)
    → (ids ≡ js) × (s ≡ t)
unfolding write_policy_ids
write_policy_ids-split c [] [] s t ne hi hj fi fj e = (refl, cc)
write_policy_ids-split c [] (j ∷ js) s t ne hi hj fi fj e =
    elim (not_ended c b'/' j.kind s _ ne fj.0 (e ∙ write_policy_ids-append j js (c ∷ t))) [ ]
write_policy_ids-split c (i ∷ ids) [] s t ne hi hj fi fj e =
    elim (not_ended c b'/' i.kind t _ ne fi.0 (sym e ∙ write_policy_ids-append i ids (c ∷ s))) [ ]
write_policy_ids-split c (i ∷ ids) (j ∷ js) s t ne hi hj fi fj e =
    let whole =
      sym (write_policy_ids-append i ids (c ∷ s)) ∙ (e ∙ write_policy_ids-append j js (c ∷ t)) in
    let (kinds, after_kind) =
      split_at b'/' i.kind j.kind _ _ hi.0.kind_slash hj.0.kind_slash whole in
    let (namespaces, after_namespace) =
      split_at b'/' i.namespace j.namespace _ _ hi.0.namespace_slash hj.0.namespace_slash
        after_kind in
    let (names, after_name) =
      split_at b',' i.name j.name _ _ hi.0.name_comma hj.0.name_comma after_namespace in
    let (rest, ends) = write_policy_ids-split c ids js s t ne hi.1 hj.1 fi.1 fj.1 after_name in
    (cc, ends)

kinds_free :
    (ids : List PolicyId)
    → All IsPlainId ids
    → All (λ id. IsFree b'|' id.kind) ids × All (λ id. IsFree b';' id.kind) ids
kinds_free [] h = (tt, tt)
kinds_free (id ∷ ids) h =
    let rest = kinds_free ids h.1 in ((h.0.kind_bar, rest.0), (h.0.kind_semicolon, rest.1))

pub write_tiers-append :
    (t : TierInfo) (ts : List TierInfo) (s : Text)
    → write_tiers (t ∷ ts) ++ s
      ≡ t.name
        ++ (b'|'
            ∷ (t.default_action
                ++ (b'|'
                    ∷ (write_policy_ids t.ingress_policies
                        ++ (b'|'
                            ∷ (write_policy_ids t.egress_policies
                                ++ (b';' ∷ (write_tiers ts ++ s))))))))
unfolding write_tiers
write_tiers-append t ts s = simp append_assoc refl

pub write_tiers-split :
    (ts us : List TierInfo) (s t : Text)
    → All IsPlainTier ts
    → All IsPlainTier us
    → write_tiers ts ++ (b'#' ∷ s) ≡ write_tiers us ++ (b'#' ∷ t)
    → (ts ≡ us) × (s ≡ t)
unfolding write_tiers
write_tiers-split [] [] s t ht hu e = (refl, cc)
write_tiers-split [] (u ∷ us) s t ht hu e =
    elim (not_ended b'#' b'|' u.name s _ (ground arith) hu.0.name_hash
      (e ∙ write_tiers-append u us (b'#' ∷ t))) [ ]
write_tiers-split (x ∷ ts) [] s t ht hu e =
    elim (not_ended b'#' b'|' x.name t _ (ground arith) ht.0.name_hash
      (sym e ∙ write_tiers-append x ts (b'#' ∷ s))) [ ]
write_tiers-split (x ∷ ts) (u ∷ us) s t ht hu e =
    let whole =
      sym (write_tiers-append x ts (b'#' ∷ s)) ∙ (e ∙ write_tiers-append u us (b'#' ∷ t)) in
    let (names, after_name) = split_at b'|' x.name u.name _ _ ht.0.name_bar hu.0.name_bar whole in
    let (defaults, after_default) =
      split_at b'|' x.default_action u.default_action _ _ ht.0.default_bar hu.0.default_bar
        after_name in
    let (ingress, after_ingress) =
      write_policy_ids-split b'|' x.ingress_policies u.ingress_policies _ _ (ground arith)
        ht.0.ingress hu.0.ingress (kinds_free x.ingress_policies ht.0.ingress).0
        (kinds_free u.ingress_policies hu.0.ingress).0 after_default in
    let (egress, after_egress) =
      write_policy_ids-split b';' x.egress_policies u.egress_policies _ _ (ground arith) ht.0.egress
        hu.0.egress (kinds_free x.egress_policies ht.0.egress).1
        (kinds_free u.egress_policies hu.0.egress).1 after_ingress in
    let (rest, ends) = write_tiers-split ts us s t ht.1 hu.1 after_egress in (cc, ends)

nonempty_append : (x s : Text) → is_empty x ≡ false → [] ≡ x ++ s → ⊥
unfolding is_empty
nonempty_append [] s h e = ground arith
nonempty_append (c ∷ x) s h e = ground arith

comma_inside : (x y s : Text) → IsFree b',' x → x ≡ y ++ (b',' ∷ s) → ⊥
comma_inside [] [] s h e = ground arith
comma_inside [] (c ∷ y) s h e = ground arith
comma_inside (b ∷ x) [] s h e = ground arith
comma_inside (b ∷ x) (c ∷ y) s h e = comma_inside x y s h.1 cc

join-cons :
    (x y : Text) (ys : List Text)
    → join (x ∷ y ∷ ys) (codes ",") ≡ x ++ (b',' ∷ join (y ∷ ys) (codes ","))
unfolding join
join-cons x y ys = simp append_assoc refl

pub join-injective :
    (xs ys : List Text)
    → All IsPlainProfile xs
    → All IsPlainProfile ys
    → join xs (codes ",") ≡ join ys (codes ",")
    → xs ≡ ys
unfolding join
join-injective [] [] hx hy e = refl
join-injective [] (y ∷ []) hx hy e =
    elim (nonempty_append y [] hy.0.nonempty (e ∙ sym (append-nil y))) [ ]
join-injective [] (y ∷ z ∷ ys) hx hy e =
    elim (nonempty_append y _ hy.0.nonempty (e ∙ join-cons y z ys)) [ ]
join-injective (x ∷ []) [] hx hy e =
    elim (nonempty_append x [] hx.0.nonempty (sym e ∙ sym (append-nil x))) [ ]
join-injective (x ∷ w ∷ xs) [] hx hy e =
    elim (nonempty_append x _ hx.0.nonempty (sym e ∙ join-cons x w xs)) [ ]
join-injective (x ∷ []) (y ∷ []) hx hy e = cc
join-injective (x ∷ []) (y ∷ z ∷ ys) hx hy e =
    elim (comma_inside x y _ hx.0.comma (e ∙ join-cons y z ys)) [ ]
join-injective (x ∷ w ∷ xs) (y ∷ []) hx hy e =
    elim (comma_inside y x _ hy.0.comma (sym e ∙ join-cons x w xs)) [ ]
join-injective (x ∷ w ∷ xs) (y ∷ z ∷ ys) hx hy e =
    let whole = sym (join-cons x w xs) ∙ (e ∙ join-cons y z ys) in
    let (heads, tails) = split_at b',' x y _ _ hx.0.comma hy.0.comma whole in
    let rest = join-injective (w ∷ xs) (z ∷ ys) hx.1 hy.1 tails in cc
