-- ===== src/Calico/ByClass/Representatives.antt =====
-- provider/calico/collapse.go, `groupActors`: the number of an actor leads to a representative with
-- the actor's key.
use telepathy.Prelude.{
  ℕ, ◌≡◌, refl, sym, inl, inr, some, List, [], ◌∷◌, ◌++◌, append_assoc, append-nil, arith,
  Bool-cases, Option-cases, ◌==◌, ℕ_eq, Text, text_beq_iff, text_eq, length, get_elem?, All,
  All-append, fold, get_elem?-append_left, get_elem?-append_end, Map, get, put, get-put, int_eq,
}
use mathlib.Core.Path.{subst}
use telepathy.Net.{Net}
use telepathy.Calico.Store.{PolicyStore, Checker}
use telepathy.Calico.Actors.{Actor}
use telepathy.Calico.Collapse.{PeerProbes}
use telepathy.Calico.Classes.{Groups, no_groups, assign_id, group_step, group_actors}
use telepathy.Calico.ByClass.Classmates.{peer_key, class_key}

module _ {A : Type 0} (key : A → Text) (Q : A → Type 0) where
  -- The number `n` leads to an element with the key `k`.
  abbrev pub Represents : List A → Text → ℕ → Type 0
  Represents reps k n = (r : A) × (get_elem? reps n ≡ some r) × (key r ≡ k) × Q r

  abbrev pub IsFaithful : Map Text ℕ → List A → Type 0
  IsFaithful ids reps = (k : Text) (n : ℕ) → get k ids ≡ some n → Represents reps k n

  Represents-append :
      (reps : List A) (a : A) (k : Text) (n : ℕ)
      → Represents reps k n
      → Represents (reps ++ (a ∷ [])) k n
  Represents-append reps a k n (r, found, same, good) =
      (r, get_elem?-append_left reps (a ∷ []) n r found, same, good)

  -- Each element of a list with its number.
  abbrev pub Marks : List A → List A → List ℕ → Type 0
  Marks reps [] [] = Unit
  Marks reps [] (n ∷ ns) = ⊥
  Marks reps (a ∷ xs) [] = ⊥
  Marks reps (a ∷ xs) (n ∷ ns) = Represents reps (key a) n × Marks reps xs ns

  Marks-grow :
      (reps more : List A) (xs : List A) (ns : List ℕ)
      → ((k : Text) (n : ℕ) → Represents reps k n → Represents more k n)
      → Marks reps xs ns
      → Marks more xs ns
  Marks-grow reps more [] [] grow h = tt
  Marks-grow reps more [] (n ∷ ns) grow h = elim h [ ]
  Marks-grow reps more (a ∷ xs) [] grow h = elim h [ ]
  Marks-grow reps more (a ∷ xs) (n ∷ ns) grow h =
      (grow (key a) n h.0, Marks-grow reps more xs ns grow h.1)

  Marks-append :
      (reps : List A) (xs : List A) (ns : List ℕ) (a : A) (n : ℕ)
      → Marks reps xs ns
      → Represents reps (key a) n
      → Marks reps (xs ++ (a ∷ [])) (ns ++ (n ∷ []))
  Marks-append reps [] [] a n h new = (new, tt)
  Marks-append reps [] (m ∷ ns) a n h new = elim h [ ]
  Marks-append reps (b ∷ xs) [] a n h new = elim h [ ]
  Marks-append reps (b ∷ xs) (m ∷ ns) a n h new = (h.0, Marks-append reps xs ns a n h.1 new)

  -- What one more key leaves.
  pub record IsAssigned (a : A) (reps : List A) (r : ℕ × (Map Text ℕ × List A)) : Type 0 where
    pub faithful : IsFaithful r.1.0 r.1.1
    pub here : Represents r.1.1 (key a) r.0
    pub grows : (k : Text) (n : ℕ) → Represents reps k n → Represents r.1.1 k n
    pub good : All Q r.1.1

  pub assign_id-IsAssigned :
      (a : A) (ids : Map Text ℕ) (reps : List A)
      → Q a
      → IsFaithful ids reps
      → All Q reps
      → IsAssigned a reps (assign_id (key a) a (ids, reps))
  unfolding assign_id
  assign_id-IsAssigned a ids reps qa faithful good = elim (Option-cases (get (key a) ids)) [
    | inr (n, e) ↦
        let known : assign_id (key a) a (ids, reps) ≡ (n, (ids, reps)) = ground arith in
        subst (IsAssigned a reps) (sym known) (record {
          faithful = faithful;
          here = faithful (key a) n e;
          grows = λ k m h. h;
          good = good;
        })
    | inl e ↦
        let next : ℕ × (Map Text ℕ × List A) =
          (length reps, (put (key a) (length reps) ids, reps ++ (a ∷ []))) in
        let fresh : assign_id (key a) a (ids, reps) ≡ next = ground arith in
        let here : Represents (reps ++ (a ∷ [])) (key a) (length reps) =
          (a, get_elem?-append_end reps a, refl, qa) in
        subst (IsAssigned a reps) (sym fresh) (record {
          faithful = λ k m h. elim (Bool-cases (key a == k)) [
            | inl q ↦
                let same : length reps ≡ m = ground (arith, get-put (key a) k (length reps) ids) in
                let keys = (text_beq_iff (key a) k).0 q in
                subst (Represents (reps ++ (a ∷ [])) k) same
                  (subst (λ j. Represents (reps ++ (a ∷ [])) j (length reps)) keys here)
            | inr q ↦
                let old : get k ids ≡ some m =
                  ground (arith, get-put (key a) k (length reps) ids) in
                Represents-append reps a k m (faithful k m old)
          ];
          here = here;
          grows = Represents-append reps a;
          good = All-append reps (a ∷ []) Q good (qa, tt);
        })
  ]

module _ ⦃net : Net⦄ ⦃checker : Checker net.Ip⦄ (store : PolicyStore checker.Rule checker.IpSet)
    (pp : PeerProbes net.Cidr) (Q : Actor net.Ip → Type 0) where
  -- The actors grouped so far.
  pub record IsGrouped (done : List (Actor net.Ip)) (g : Groups net.Ip) : Type 0 where
    pub peer_ids : IsFaithful (peer_key store pp) Q g.peer_id g.rep_peer
    pub class_ids : IsFaithful (class_key store pp) Q g.class_id g.rep_class
    pub peers : Marks (peer_key store pp) Q g.rep_peer done g.peer_of
    pub classes : Marks (class_key store pp) Q g.rep_class done g.class_of
    pub good_peers : All Q g.rep_peer
    pub good_classes : All Q g.rep_class

  group_step-IsGrouped :
      (done : List (Actor net.Ip)) (g : Groups net.Ip) (a : Actor net.Ip)
      → Q a
      → IsGrouped done g
      → IsGrouped (done ++ (a ∷ [])) (group_step store pp g a)
  unfolding group_step
  group_step-IsGrouped done g a qa h =
      let peer =
        assign_id-IsAssigned (peer_key store pp) Q a g.peer_id g.rep_peer qa h.peer_ids
          h.good_peers in
      let class =
        assign_id-IsAssigned (class_key store pp) Q a g.class_id g.rep_class qa h.class_ids
          h.good_classes in
      let p = assign_id (peer_key store pp a) a (g.peer_id, g.rep_peer) in
      let c = assign_id (class_key store pp a) a (g.class_id, g.rep_class) in
      record {
        peer_ids = peer.faithful;
        class_ids = class.faithful;
        peers =
            Marks-append (peer_key store pp) Q p.1.1 done g.peer_of a p.0
              (Marks-grow (peer_key store pp) Q g.rep_peer p.1.1 done g.peer_of peer.grows h.peers)
              peer.here;
        classes =
            Marks-append (class_key store pp) Q c.1.1 done g.class_of a c.0
              (Marks-grow (class_key store pp) Q g.rep_class c.1.1 done g.class_of class.grows
                h.classes)
              class.here;
        good_peers = peer.good;
        good_classes = class.good;
      }

  fold-IsGrouped :
      (done list : List (Actor net.Ip)) (g : Groups net.Ip)
      → All Q list
      → IsGrouped done g
      → IsGrouped (done ++ list) (fold (group_step store pp) g list)
  unfolding fold
  fold-IsGrouped done [] g q h = subst (λ l. IsGrouped l g) (sym (append-nil done)) h
  fold-IsGrouped done (a ∷ list) g q h =
      subst (λ l. IsGrouped l (fold (group_step store pp) g (a ∷ list)))
        (append_assoc done (a ∷ []) list)
        (fold-IsGrouped (done ++ (a ∷ [])) list (group_step store pp g a) q.1
          (group_step-IsGrouped done g a q.0 h))

  pub group_actors-IsGrouped :
      (list : List (Actor net.Ip)) → All Q list → IsGrouped list (group_actors store pp list)
  unfolding group_actors get
  group_actors-IsGrouped list q = fold-IsGrouped [] list no_groups q (record {
    peer_ids = λ k n h. ground arith;
    class_ids = λ k n h. ground arith;
    peers = tt;
    classes = tt;
    good_peers = tt;
    good_classes = tt;
  })
