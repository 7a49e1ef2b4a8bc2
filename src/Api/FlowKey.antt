-- ===== src/Api/FlowKey.antt =====
-- The key "src->dst" of a flow: written by every provider, split by api/diff.go.
use telepathy.Prelude.{
  ℕ, ◌≡◌, refl, ap, ◌&&◌, Option, none, some, [], ◌∷◌, ◌++◌, arith, nat_eq, if◌then◌else◌, ℕ_eq,
  Text, codes, text_eq, int_eq,
}
use telepathy.Api.Types.{flow_key}

-- Whether a text starts with "->", and what follows.
after_arrow : Text → Option Text
after_arrow (a ∷ b ∷ s) = if nat_eq a b'-' && nat_eq b b'>' then some s else none
after_arrow s = none

-- `strings.Index(k, "->")`, with the two sides.
unfoldable pub find_arrow : Text → Option (Text × Text)
unfolding after_arrow
find_arrow [] = none
find_arrow (c ∷ s) = elim (after_arrow (c ∷ s)) [
  | some rest ↦ some ([], rest)
  | none ↦ elim (find_arrow s) [ none ↦ none | some (l, r) ↦ some (c ∷ l, r) ]
]

unfoldable pub split_flow_key : Text → Text × Text
unfolding find_arrow
split_flow_key k = elim (find_arrow k) [ none ↦ (k, []) | some (l, r) ↦ (l, r) ]

-- No arrow stands in the text.
abbrev pub IsArrowFree : Text → Type 0
IsArrowFree s = find_arrow s ≡ none

find_arrow_tail : (c : ℕ) (s : Text) → find_arrow (c ∷ s) ≡ none → find_arrow s ≡ none
unfolding find_arrow
find_arrow_tail c s h = ground arith

find_arrow-flow_key : (a b : Text) → IsArrowFree a → find_arrow (a ++ codes "->" ++ b) ≡ some (a, b)
unfolding find_arrow
find_arrow-flow_key [] b h = refl
find_arrow-flow_key (c ∷ []) b h = ground arith
find_arrow-flow_key (c ∷ d ∷ a) b h =
    ground (arith, find_arrow-flow_key (d ∷ a) b, find_arrow_tail c (d ∷ a) h)

-- Splitting the key of a flow gives its two ends back, if the source's ID holds no "->".
pub split_flow_key-flow_key :
    (src dst : Text) → IsArrowFree src → split_flow_key (flow_key src dst) ≡ (src, dst)
unfolding flow_key split_flow_key
split_flow_key-flow_key src dst h = ground (arith, find_arrow-flow_key src dst h)

-- So flows with different ends have different keys.
pub flow_key-injective :
    (a b c d : Text)
    → IsArrowFree a
    → IsArrowFree c
    → flow_key a b ≡ flow_key c d
    → (a ≡ c) × (b ≡ d)
flow_key-injective a b c d ha hc e =
    ground
      (arith, split_flow_key-flow_key a b ha, split_flow_key-flow_key c d hc, ap split_flow_key e)
