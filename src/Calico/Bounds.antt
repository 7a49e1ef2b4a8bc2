-- ===== src/Calico/Bounds.antt =====
-- provider/calico/collapse.go: every index that the expansion uses is in range.
use telepathy.Prelude.{
  ℕ, zero, suc, ◌+◌, ◌≤◌, ◌<◌, ◌≡◌, refl, sym, inl, inr, some, List, [], ◌∷◌, ◌++◌, arith,
  Bool-cases, Option-cases, ◌==◌, ℕ_eq, Text, text_eq, length, get_elem?, length-append, All,
  All-append, fold, Map, get, put, get-put, int_eq,
}
use mathlib.Core.Path.{subst}
use telepathy.Net.{Net}
use telepathy.Calico.Store.{PolicyStore, Checker}
use telepathy.Calico.Actors.{Actor}
use telepathy.Calico.Collapse.{PeerProbes, sig, owner_fingerprint}
use telepathy.Calico.Classes.{Groups, assign_id, group_step}

pub get_elem?-below :
    {A : Type 0} (xs : List A) (i : ℕ) → i < length xs → (a : A) × (get_elem? xs i ≡ some a)
get_elem?-below [] i h = ground arith
get_elem?-below (x ∷ xs) zero h = (x, refl)
get_elem?-below (x ∷ xs) (suc i) h = get_elem?-below xs i (omega arith)

-- Every number that a map gives is below a bound.
abbrev pub Below : ℕ → Map Text ℕ → Type 0
Below n ids = (k : Text) (i : ℕ) → get k ids ≡ some i → i < n

-- The numbers of a list are below a bound.
abbrev pub AllBelow : ℕ → List ℕ → Type 0
AllBelow n = All (λ i. i < n)

AllBelow-mono : (n m : ℕ) (is : List ℕ) → n ≤ m → AllBelow n is → AllBelow m is
AllBelow-mono n m [] h a = tt
AllBelow-mono n m (i ∷ is) h a = (omega (arith, a.0), AllBelow-mono n m is h a.1)

-- What numbering a key leaves: all numbers are below the count of representatives, which grows.
abbrev Numbered : {A : Type 0} → Map Text ℕ × List A → ℕ × (Map Text ℕ × List A) → Type 0
Numbered s r = Below (length r.1.1) r.1.0 × (r.0 < length r.1.1) × (length s.1 ≤ length r.1.1)

assign_id-Numbered :
    {A : Type 0} (key : Text) (a : A) (s : Map Text ℕ × List A)
    → Below (length s.1) s.0
    → Numbered s (assign_id key a s)
unfolding assign_id
assign_id-Numbered {A} key a (ids, reps) below = elim (Option-cases (get key ids)) [
  | inr (n, e) ↦
      let known : assign_id key a (ids, reps) ≡ (n, (ids, reps)) = ground arith in
      subst (Numbered (ids, reps)) (sym known) (below, below key n e, omega arith)
  | inl e ↦
      let next : ℕ × (Map Text ℕ × List A) =
        (length reps, (put key (length reps) ids, reps ++ (a ∷ []))) in
      let fresh : assign_id key a (ids, reps) ≡ next = ground arith in
      let grown = length-append reps (a ∷ []) in
      subst (Numbered (ids, reps)) (sym fresh) (
        λ k i h. elim (Bool-cases (key == k)) [
          | inl q ↦
              let same : i ≡ length reps = ground (arith, get-put key k (length reps) ids) in
              omega (arith, grown, same)
          | inr q ↦
              let old : get k ids ≡ some i = ground (arith, get-put key k (length reps) ids) in
              omega (arith, grown, below k i old)
        ],
        omega (arith, grown),
        omega (arith, grown),
      )
]

module _ ⦃net : Net⦄ ⦃checker : Checker net.Ip⦄ (store : PolicyStore checker.Rule checker.IpSet)
    (pp : PeerProbes net.Cidr) where
  -- The numbers of the actors grouped so far, `n` of them.
  pub record IsNumbered (n : ℕ) (g : Groups net.Ip) : Type 0 where
    pub peer_ids : Below (length g.rep_peer) g.peer_id
    pub class_ids : Below (length g.rep_class) g.class_id
    pub peers : AllBelow (length g.rep_peer) g.peer_of
    pub classes : AllBelow (length g.rep_class) g.class_of
    pub peer_count : length g.peer_of ≡ n
    pub class_count : length g.class_of ≡ n

  group_step-IsNumbered :
      (n : ℕ) (g : Groups net.Ip) (a : Actor net.Ip)
      → IsNumbered n g
      → IsNumbered (suc n) (group_step store pp g a)
  unfolding group_step
  group_step-IsNumbered n g a h =
      let s = sig pp store a.ip in
      let (peer_ids, peer, peer_grows) =
        assign_id-Numbered s a (g.peer_id, g.rep_peer) h.peer_ids in
      let (class_ids, class, class_grows) =
        assign_id-Numbered (owner_fingerprint a ++ (0 ∷ s)) a (g.class_id, g.rep_class)
          h.class_ids in
      let p = (assign_id s a (g.peer_id, g.rep_peer)).0 in
      let c = (assign_id (owner_fingerprint a ++ (0 ∷ s)) a (g.class_id, g.rep_class)).0 in
      record {
        peer_ids = peer_ids;
        class_ids = class_ids;
        peers =
            All-append g.peer_of (p ∷ []) _ (AllBelow-mono _ _ g.peer_of peer_grows h.peers)
              (peer, tt);
        classes =
            All-append g.class_of (c ∷ []) _ (AllBelow-mono _ _ g.class_of class_grows h.classes)
              (class, tt);
        peer_count = omega (arith, length-append g.peer_of (p ∷ []), h.peer_count);
        class_count = omega (arith, length-append g.class_of (c ∷ []), h.class_count);
      }

  pub fold-IsNumbered :
      (n : ℕ) (g : Groups net.Ip) (list : List (Actor net.Ip))
      → IsNumbered n g
      → IsNumbered (n + length list) (fold (group_step store pp) g list)
  unfolding fold
  fold-IsNumbered n g [] h = subst (λ k. IsNumbered k g) (omega arith) h
  fold-IsNumbered n g (a ∷ list) h =
      subst (λ k. IsNumbered k (fold (group_step store pp) g (a ∷ list))) (omega arith)
        (fold-IsNumbered (suc n) (group_step store pp g a) list (group_step-IsNumbered n g a h))
