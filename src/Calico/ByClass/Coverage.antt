-- ===== src/Calico/ByClass/Coverage.antt =====
-- provider/calico/collapse.go, `visit`: every set and block that a rule names is among the probes.
use telepathy.Prelude.{
  ◌≡◌, refl, sym, Bool, true, some, List, [], ◌∷◌, ◌++◌, arith, ℕ_eq, Text, text_eq, All, All-mono,
  Map, get, put, get-put, get-put_self, int_eq,
}
use mathlib.Core.Path.{subst}
use telepathy.Net.{Net}
use telepathy.Calico.Store.{policy_id_eq, Rules, Checker}
use telepathy.Calico.Collapse.{ProbeSets, add_ids, visit, visit_rules, visit_all}

-- A set holds a key.
abbrev pub Has : Map Text Bool → Text → Type 0
Has m k = get k m ≡ some true

abbrev pub Keeps : Map Text Bool → Map Text Bool → Type 0
Keeps m n = (k : Text) → Has m k → Has n k

put-Keeps : (m : Map Text Bool) (id : Text) → Keeps m (put id true m)
put-Keeps m id k h = ground (arith, get-put id k true m)

add_ids-Keeps : (m : Map Text Bool) (ids : List Text) → Keeps m (add_ids m ids)
unfolding add_ids
add_ids-Keeps m [] k h = h
add_ids-Keeps m (id ∷ ids) k h = add_ids-Keeps (put id true m) ids k (put-Keeps m id k h)

add_ids-Has : (m : Map Text Bool) (ids : List Text) → All (Has (add_ids m ids)) ids
unfolding add_ids
add_ids-Has m [] = tt
add_ids-Has m (id ∷ ids) =
    (add_ids-Keeps (put id true m) ids id (get-put_self id true m), add_ids-Has (put id true m) ids)

add_ids-append :
    (m : Map Text Bool) (xs ys : List Text) → add_ids (add_ids m xs) ys ≡ add_ids m (xs ++ ys)
unfolding add_ids
add_ids-append m [] ys = refl
add_ids-append m (x ∷ xs) ys = add_ids-append (put x true m) xs ys

add_ids_three :
    (m : Map Text Bool) (xs ys zs : List Text)
    → add_ids (add_ids (add_ids m xs) ys) zs ≡ add_ids m (xs ++ (ys ++ zs))
add_ids_three m xs ys zs = rw (add_ids-append (add_ids m xs) ys zs) (add_ids-append m xs (ys ++ zs))

add_ids_four :
    (m : Map Text Bool) (ws xs ys zs : List Text)
    → add_ids (add_ids (add_ids (add_ids m ws) xs) ys) zs ≡ add_ids m (ws ++ (xs ++ (ys ++ zs)))
add_ids_four m ws xs ys zs =
    rw (add_ids_three (add_ids m ws) xs ys zs) (add_ids-append m ws (xs ++ (ys ++ zs)))

pub record Extends (s t : ProbeSets) : Type 0 where
  pub ip_sets : Keeps s.ip_set t.ip_set
  pub ip_ports : Keeps s.ip_port t.ip_port
  pub src_ports : Keeps s.src_port t.src_port
  pub net_strs : Keeps s.net_str t.net_str

Extends-refl : (s : ProbeSets) → Extends s s
Extends-refl s = record {
  ip_sets = λ k h. h;
  ip_ports = λ k h. h;
  src_ports = λ k h. h;
  net_strs = λ k h. h;
}

Extends-trans : (s t u : ProbeSets) → Extends s t → Extends t u → Extends s u
Extends-trans s t u a b = record {
  ip_sets = λ k h. b.ip_sets k (a.ip_sets k h);
  ip_ports = λ k h. b.ip_ports k (a.ip_ports k h);
  src_ports = λ k h. b.src_ports k (a.src_ports k h);
  net_strs = λ k h. b.net_strs k (a.net_strs k h);
}

module _ ⦃net : Net⦄ ⦃checker : Checker net.Ip⦄ where
  -- What a rule names: sets of addresses, sets of addresses with a port on either side, blocks.
  abbrev pub ip_ids : checker.Rule → List Text
  ip_ids r =
      checker.src_ip_set_ids r
      ++ (checker.not_src_ip_set_ids r
          ++ (checker.dst_ip_set_ids r ++ checker.not_dst_ip_set_ids r))

  abbrev pub ip_port_ids : checker.Rule → List Text
  ip_port_ids r =
      checker.dst_ip_port_set_ids r
      ++ (checker.dst_named_port_ip_set_ids r ++ checker.not_dst_named_port_ip_set_ids r)

  abbrev pub src_port_ids : checker.Rule → List Text
  src_port_ids r = checker.src_named_port_ip_set_ids r ++ checker.not_src_named_port_ip_set_ids r

  abbrev pub net_texts : checker.Rule → List Text
  net_texts r =
      checker.src_net r ++ (checker.not_src_net r ++ (checker.dst_net r ++ checker.not_dst_net r))

  pub record Covers (s : ProbeSets) (r : checker.Rule) : Type 0 where
    pub ip_sets : All (Has s.ip_set) (ip_ids r)
    pub ip_ports : All (Has s.ip_port) (ip_port_ids r)
    pub src_ports : All (Has s.src_port) (src_port_ids r)
    pub net_strs : All (Has s.net_str) (net_texts r)

  pub Covers-mono : (s t : ProbeSets) (r : checker.Rule) → Extends s t → Covers s r → Covers t r
  Covers-mono s t r e c = record {
    ip_sets = All-mono (ip_ids r) _ _ e.ip_sets c.ip_sets;
    ip_ports = All-mono (ip_port_ids r) _ _ e.ip_ports c.ip_ports;
    src_ports = All-mono (src_port_ids r) _ _ e.src_ports c.src_ports;
    net_strs = All-mono (net_texts r) _ _ e.net_strs c.net_strs;
  }

  -- The four sets after a rule, each a single run of `add_ids`.
  abbrev visited : ProbeSets → checker.Rule → ProbeSets
  visited s r = record {
    ip_set = add_ids s.ip_set (ip_ids r);
    ip_port = add_ids s.ip_port (ip_port_ids r);
    src_port = add_ids s.src_port (src_port_ids r);
    net_str = add_ids s.net_str (net_texts r);
  }

  visit-visited : (s : ProbeSets) (r : checker.Rule) → visit s r ≡ visited s r
  unfolding visit
  visit-visited s r =
      rw
        (
          add_ids_four s.ip_set (checker.src_ip_set_ids r) (checker.not_src_ip_set_ids r)
              (checker.dst_ip_set_ids r) (checker.not_dst_ip_set_ids r),
          add_ids_three s.ip_port (checker.dst_ip_port_set_ids r)
              (checker.dst_named_port_ip_set_ids r) (checker.not_dst_named_port_ip_set_ids r),
          add_ids-append s.src_port (checker.src_named_port_ip_set_ids r)
              (checker.not_src_named_port_ip_set_ids r),
          add_ids_four s.net_str (checker.src_net r) (checker.not_src_net r) (checker.dst_net r)
              (checker.not_dst_net r),
        )
        refl

  visit-Extends : (s : ProbeSets) (r : checker.Rule) → Extends s (visit s r)
  visit-Extends s r = subst (Extends s) (sym (visit-visited s r)) (record {
    ip_sets = add_ids-Keeps s.ip_set (ip_ids r);
    ip_ports = add_ids-Keeps s.ip_port (ip_port_ids r);
    src_ports = add_ids-Keeps s.src_port (src_port_ids r);
    net_strs = add_ids-Keeps s.net_str (net_texts r);
  })

  visit-Covers : (s : ProbeSets) (r : checker.Rule) → Covers (visit s r) r
  visit-Covers s r =
      subst (λ t. Covers t r) (sym (visit-visited s r))
        (record {
          ip_sets = add_ids-Has s.ip_set (ip_ids r);
          ip_ports = add_ids-Has s.ip_port (ip_port_ids r);
          src_ports = add_ids-Has s.src_port (src_port_ids r);
          net_strs = add_ids-Has s.net_str (net_texts r);
        })

  visit_rules-Extends : (s : ProbeSets) (rs : List checker.Rule) → Extends s (visit_rules s rs)
  unfolding visit_rules
  visit_rules-Extends s [] = Extends-refl s
  visit_rules-Extends s (r ∷ rs) =
      Extends-trans s (visit s r) (visit_rules (visit s r) rs) (visit-Extends s r)
        (visit_rules-Extends (visit s r) rs)

  visit_rules-Covers : (s : ProbeSets) (rs : List checker.Rule) → All (Covers (visit_rules s rs)) rs
  unfolding visit_rules
  visit_rules-Covers s [] = tt
  visit_rules-Covers s (r ∷ rs) = (
    Covers-mono (visit s r) (visit_rules (visit s r) rs) r (visit_rules-Extends (visit s r) rs)
        (visit-Covers s r),
    visit_rules-Covers (visit s r) rs,
  )

  -- A predicate of every rule of every policy.
  abbrev pub AllRules : {K : Type 0} → (checker.Rule → Type 0) → Map K (Rules checker.Rule) → Type 0
  AllRules Q m = All (λ e. All Q e.1.inbound × All Q e.1.outbound) m

  pub AllRules-mono :
      {K : Type 0} (Q R : checker.Rule → Type 0) (m : Map K (Rules checker.Rule))
      → ((r : checker.Rule) → Q r → R r)
      → AllRules Q m
      → AllRules R m
  AllRules-mono Q R m f h =
      All-mono m (λ e. All Q e.1.inbound × All Q e.1.outbound) _
        (λ e b. (All-mono e.1.inbound Q R f b.0, All-mono e.1.outbound Q R f b.1)) h

  pub visit_all-Extends :
      {K : Type 0} (s : ProbeSets) (m : Map K (Rules checker.Rule)) → Extends s (visit_all s m)
  unfolding visit_all
  visit_all-Extends s [] = Extends-refl s
  visit_all-Extends s ((k, p) ∷ rest) =
      let inward = visit_rules s p.inbound in
      let both = visit_rules inward p.outbound in
      Extends-trans s inward (visit_all both rest) (visit_rules-Extends s p.inbound) (
        Extends-trans inward both (visit_all both rest) (visit_rules-Extends inward p.outbound)
          (visit_all-Extends both rest))

  pub visit_all-Covers :
      {K : Type 0} (s : ProbeSets) (m : Map K (Rules checker.Rule))
      → AllRules (Covers (visit_all s m)) m
  unfolding visit_all
  visit_all-Covers s [] = tt
  visit_all-Covers s ((k, p) ∷ rest) =
      let inward = visit_rules s p.inbound in
      let both = visit_rules inward p.outbound in
      let after = visit_all-Extends both rest in
      (
        (
          All-mono p.inbound (Covers inward) _
              (λ r. Covers-mono inward (visit_all both rest) r (
                Extends-trans inward both (visit_all both rest)
                  (visit_rules-Extends inward p.outbound) after))
              (visit_rules-Covers s p.inbound),
          All-mono p.outbound (Covers both) _ (λ r. Covers-mono both (visit_all both rest) r after)
              (visit_rules-Covers inward p.outbound),
        ),
        visit_all-Covers both rest,
      )
