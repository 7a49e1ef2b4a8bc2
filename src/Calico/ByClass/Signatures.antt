-- ===== src/Calico/ByClass/Signatures.antt =====
-- provider/calico/collapse.go, `signer`: addresses with one signature are one to every rule probed.
use telepathy.Prelude.{
  ℕ, suc, ◌+◌, ◌≡◌, refl, sym, ap, ◌∙◌, inl, inr, Bool, true, false, Option, List, [], ◌∷◌, ◌++◌,
  map, arith, nat_eq, nat_eq_iff, Bool-cases, ◌==◌, ℕ_eq, Text, text_beq_iff, text_eq, length, All,
  All-mono, text_leb, insert_sorted, sort_texts, Map, get, int_eq,
}
use mathlib.Core.Path.{subst}
use telepathy.Net.{Net}
use telepathy.Calico.Store.{policy_id_eq, PolicyStore, Checker}
use telepathy.Calico.Collapse.{
  PeerProbes, sorted_str_keys, ip_text, in_net, set_has, bit, sig_bits, sig,
}
use telepathy.Calico.ByClass.Coverage.{Has}

-- Sorting keeps every element.
insert_sorted-All :
    (Q : Text → Type 0) (k : Text) (ks : List Text) → All Q (insert_sorted k ks) → Q k × All Q ks
unfolding insert_sorted
insert_sorted-All Q k [] h = (h.0, tt)
insert_sorted-All Q k (j ∷ ks) h = elim (Bool-cases (text_leb k j)) [
  | inl e ↦ let first : Q k × (Q j × All Q ks) = rw e at h in first
  | inr e ↦
      let later : Q j × All Q (insert_sorted k ks) = rw e at h in
      let rest = insert_sorted-All Q k ks later.1 in (rest.0, (later.0, rest.1))
]

sort_texts-All : (Q : Text → Type 0) (ks : List Text) → All Q (sort_texts ks) → All Q ks
unfolding sort_texts
sort_texts-All Q [] h = tt
sort_texts-All Q (k ∷ ks) h =
    let rest = insert_sorted-All Q k (sort_texts ks) h in (rest.0, sort_texts-All Q ks rest.1)

keys-All :
    (Q : Text → Type 0) (m : Map Text Bool) (k : Text) → All Q (map (λ e. e.0) m) → Has m k → Q k
unfolding get
keys-All Q [] k h has = cc
keys-All Q ((j, v) ∷ m) k h has = elim (Bool-cases (j == k)) [
  | inl e ↦ subst Q ((text_beq_iff j k).0 e) h.0
  | inr e ↦ keys-All Q m k h.1 (rw e at has)
]

pub sorted_str_keys-All :
    (Q : Text → Type 0) (m : Map Text Bool) (ks : List Text)
    → All Q (sorted_str_keys m)
    → All (Has m) ks
    → All Q ks
unfolding sorted_str_keys
sorted_str_keys-All Q m ks h has =
    All-mono ks (Has m) Q (λ k. keys-All Q m k (sort_texts-All Q (map (λ e. e.0) m) h)) has

-- Texts of one length that are followed by texts.
pub append-split : (u v s t : Text) → length u ≡ length v → u ++ s ≡ v ++ t → (u ≡ v) × (s ≡ t)
append-split [] [] s t l e = (refl, e)
append-split [] (b ∷ v) s t l e = ground arith
append-split (a ∷ u) [] s t l e = ground arith
append-split (a ∷ u) (b ∷ v) s t l e =
    let rest = append-split u v s t (omega (arith, l)) cc in (cc, rest.1)

bit-injective : (x y : Bool) → bit x ≡ bit y → x ≡ y
bit-injective true true e = refl
bit-injective false false e = refl
bit-injective true false e = ground arith
bit-injective false true e = ground arith

bits-All :
    {A : Type 0} (p q : A → Bool) (xs : List A)
    → map (λ x. bit (p x)) xs ≡ map (λ x. bit (q x)) xs
    → All (λ x. p x ≡ q x) xs
bits-All p q [] e = tt
bits-All p q (x ∷ xs) e = (bit-injective (p x) (q x) cc, bits-All p q xs cc)

length-bits :
    {A : Type 0} (p q : A → Bool) (xs : List A)
    → length (map (λ x. bit (p x)) xs) ≡ length (map (λ x. bit (q x)) xs)
length-bits p q [] = refl
length-bits p q (x ∷ xs) = ap suc (length-bits p q xs)

length-bits_append :
    {A : Type 0} (p q : A → Bool) (xs : List A) (s t : Text)
    → length s ≡ length t
    → length (map (λ x. bit (p x)) xs ++ s) ≡ length (map (λ x. bit (q x)) xs ++ t)
length-bits_append p q [] s t e = e
length-bits_append p q (x ∷ xs) s t e = ap suc (length-bits_append p q xs s t e)

bits-split :
    {A : Type 0} (p q : A → Bool) (xs : List A) (s t : Text)
    → map (λ x. bit (p x)) xs ++ s ≡ map (λ x. bit (q x)) xs ++ t
    → All (λ x. p x ≡ q x) xs × (s ≡ t)
bits-split p q xs s t e =
    let parts =
      append-split (map (λ x. bit (p x)) xs) (map (λ x. bit (q x)) xs) s t (length-bits p q xs) e in
    (bits-All p q xs parts.0, parts.1)

-- A signature without probes is empty either way.
no_probes : {A : Type 0} (f : A → ℕ) (xs : List A) → length xs ≡ 0 → map f xs ≡ []
no_probes f [] e = refl
no_probes f (x ∷ xs) e = ground arith

module _ ⦃net : Net⦄ ⦃checker : Checker net.Ip⦄ (store : PolicyStore checker.Rule checker.IpSet)
    (pp : PeerProbes net.Cidr) where
  sig-sig_bits : (a : Option net.Ip) → sig pp store a ≡ sig_bits pp store a
  unfolding sig sig_bits
  sig-sig_bits a =
      elim (Bool-cases (
        nat_eq
          (length pp.ip_set_ids
            + length pp.ip_port_set_ids
            + length pp.src_port_set_ids
            + length pp.nets)
          0)) [
            | inl e ↦
                let none_left =
                  (nat_eq_iff
                      (length pp.ip_set_ids
                        + length pp.ip_port_set_ids
                        + length pp.src_port_set_ids
                        + length pp.nets)
                      0).0
                    e in
                rw
                  (
                    e,
                    no_probes _ pp.ip_set_ids (omega (arith, none_left)),
                    no_probes _ pp.ip_port_set_ids (omega (arith, none_left)),
                    no_probes _ pp.src_port_set_ids (omega (arith, none_left)),
                    no_probes _ pp.nets (omega (arith, none_left)),
                  )
                  refl
            | inr e ↦ rw e refl
          ]

  pub length-sig : (a b : Option net.Ip) → length (sig pp store a) ≡ length (sig pp store b)
  unfolding sig_bits
  length-sig a b =
      rw (sig-sig_bits a, sig-sig_bits b)
        (length-bits_append _ _ pp.ip_set_ids _ _ (
          length-bits_append _ _ pp.ip_port_set_ids _ _
            (length-bits_append _ _ pp.src_port_set_ids _ _ (length-bits _ _ pp.nets))))

  -- What two addresses with one signature have in common.
  pub record SameProbes (a b : Option net.Ip) : Type 0 where
    pub ips : All (λ id. set_has store (ip_text a) id ≡ set_has store (ip_text b) id) pp.ip_set_ids
    pub ip_ports :
        All
          (λ id.
            set_has store (ip_text a ++ pp.ip_port_suffix) id
            ≡ set_has store (ip_text b ++ pp.ip_port_suffix) id)
          pp.ip_port_set_ids
    pub src_ports :
        All
          (λ id.
            set_has store (ip_text a ++ pp.src_port_suffix) id
            ≡ set_has store (ip_text b ++ pp.src_port_suffix) id)
          pp.src_port_set_ids
    pub blocks : All (λ c. in_net a c ≡ in_net b c) pp.nets

  pub sig-SameProbes : (a b : Option net.Ip) → sig pp store a ≡ sig pp store b → SameProbes a b
  unfolding sig_bits
  sig-SameProbes a b e =
      let bits : sig_bits pp store a ≡ sig_bits pp store b =
        sym (sig-sig_bits a) ∙ (e ∙ sig-sig_bits b) in
      let (ips, after_ips) = bits-split _ _ pp.ip_set_ids _ _ bits in
      let (ip_ports, after_ports) = bits-split _ _ pp.ip_port_set_ids _ _ after_ips in
      let (src_ports, after_src) = bits-split _ _ pp.src_port_set_ids _ _ after_ports in
      record {
        ips = ips;
        ip_ports = ip_ports;
        src_ports = src_ports;
        blocks = bits-All _ _ pp.nets after_src;
      }
