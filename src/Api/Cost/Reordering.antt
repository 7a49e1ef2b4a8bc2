-- ===== src/Api/Cost/Reordering.antt =====
-- api/cost.go: the order in which Go ranges over the maps of a manifest changes no count.
use telepathy.Prelude.{
  suc, ◌≡◌, refl, ap, ◌∙◌, Bool, ◌||◌, arith, ℕ_eq, Text, text_eq, length, contains, int_eq,
}
use telepathy.Api.Documents.{
  Value, Values, Members, json_array, json_object, no_values, more_values, no_members, more_members,
  Counts, add_counts, values_list, array_length, key_counts, walk_counts, walk_values, walk_members,
  has_constraint_key, values_constrain, members_constrain, constraint_keys,
}

-- Two decodings of one manifest: the members of every map in it, at any depth, in any order.
mutual
  pub data Reordered : Value → Value → Type 0 where
    unchanged : {v : Value} → Reordered v v
    in_array : {vs ws : Values} → ReorderedEach vs ws → Reordered (json_array vs) (json_array ws)
    in_object : {m n : Members} → ReorderedMembers m n → Reordered (json_object m) (json_object n)

  pub data ReorderedEach : Values → Values → Type 0 where
    no_more : ReorderedEach no_values no_values
    one_more :
        {v w : Value} {vs ws : Values}
        → Reordered v w
        → ReorderedEach vs ws
        → ReorderedEach (more_values v vs) (more_values w ws)

  pub data ReorderedMembers : Members → Members → Type 0 where
    at_end : ReorderedMembers no_members no_members
    keep :
        {k : Text} {v w : Value} {m n : Members}
        → Reordered v w
        → ReorderedMembers m n
        → ReorderedMembers (more_members k v m) (more_members k w n)
    swap :
        {j k : Text} {v w : Value} {m : Members}
        → ReorderedMembers
            (more_members j v (more_members k w m))
            (more_members k w (more_members j v m))
    followed :
        {m n o : Members} → ReorderedMembers m n → ReorderedMembers n o → ReorderedMembers m o

values_list-length :
    (vs ws : Values) → ReorderedEach vs ws → length (values_list vs) ≡ length (values_list ws)
unfolding values_list
values_list-length no_values no_values no_more = refl
values_list-length no_values (more_values w ws) h = elim h [ ]
values_list-length (more_values v vs) no_values h = elim h [ ]
values_list-length (more_values v vs) (more_values w ws) (one_more h hs) =
    ap suc (values_list-length vs ws hs)

key_counts-Reordered : (k : Text) (v w : Value) → Reordered v w → key_counts k v ≡ key_counts k w
unfolding key_counts array_length
key_counts-Reordered k v w unchanged = refl
key_counts-Reordered k v w (in_array {vs} {ws} h) = rw (values_list-length vs ws h) refl
key_counts-Reordered k v w (in_object h) = refl

add_three :
    {a b c d e f : Counts}
    → a ≡ b
    → c ≡ d
    → e ≡ f
    → add_counts (add_counts a c) e ≡ add_counts (add_counts b d) f
add_three h i j = cc

or_swap : (a b c d r : Bool) → (a || b || (c || d || r)) ≡ (c || d || (a || b || r))
or_swap a b c d r = ground arith

mutual
  unfolding walk_counts

  walk_counts-same : (v w : Value) → Reordered v w → walk_counts v ≡ walk_counts w
  walk_counts-same v w unchanged = refl
  walk_counts-same v w (in_array {vs} {ws} h) = walk_values-same vs ws h
  walk_counts-same v w (in_object {m} {n} h) = walk_members-same m n h

  walk_values-same : (vs ws : Values) → ReorderedEach vs ws → walk_values vs ≡ walk_values ws
  walk_values-same vs ws no_more = refl
  walk_values-same vs ws (one_more {v} {w} {vs = xs} {ws = ys} h hs) =
      rw (walk_counts-same v w h, walk_values-same xs ys hs) refl

  walk_members-same : (m n : Members) → ReorderedMembers m n → walk_members m ≡ walk_members n
  walk_members-same m n at_end = refl
  walk_members-same m n (keep {k} {v} {w} {m = x} {n = y} h hs) =
      add_three (key_counts-Reordered k v w h) (walk_counts-same v w h) (walk_members-same x y hs)
  walk_members-same m n (swap {j} {k} {v} {w} {m = x}) = ground arith
  walk_members-same m n (followed {m = a} {n = b} {o = c} h g) =
      walk_members-same a b h ∙ walk_members-same b c g

mutual
  unfolding has_constraint_key

  has_constraint_key-same :
      (v w : Value) → Reordered v w → has_constraint_key v ≡ has_constraint_key w
  has_constraint_key-same v w unchanged = refl
  has_constraint_key-same v w (in_array {vs} {ws} h) = values_constrain-same vs ws h
  has_constraint_key-same v w (in_object {m} {n} h) = members_constrain-same m n h

  values_constrain-same :
      (vs ws : Values) → ReorderedEach vs ws → values_constrain vs ≡ values_constrain ws
  values_constrain-same vs ws no_more = refl
  values_constrain-same vs ws (one_more {v} {w} {vs = xs} {ws = ys} h hs) =
      rw (has_constraint_key-same v w h, values_constrain-same xs ys hs) refl

  members_constrain-same :
      (m n : Members) → ReorderedMembers m n → members_constrain m ≡ members_constrain n
  members_constrain-same m n at_end = refl
  members_constrain-same m n (keep {k} {v} {w} {m = x} {n = y} h hs) =
      rw (has_constraint_key-same v w h, members_constrain-same x y hs) refl
  members_constrain-same m n (swap {j} {k} {v} {w} {m = x}) =
      or_swap (contains constraint_keys j) (has_constraint_key v) (contains constraint_keys k)
        (has_constraint_key w) (members_constrain x)
  members_constrain-same m n (followed {m = a} {n = b} {o = c} h g) =
      members_constrain-same a b h ∙ members_constrain-same b c g

-- The counts of a manifest, and whether a peer of it is constrained, do not depend on the order
-- in which its maps, at any depth, are visited.
pub walk_counts-Reordered :
    (v w : Value)
    → Reordered v w
    → (walk_counts v ≡ walk_counts w) × (has_constraint_key v ≡ has_constraint_key w)
walk_counts-Reordered v w h = (walk_counts-same v w h, has_constraint_key-same v w h)
