-- ===== src/Prelude/Texts.antt =====
-- Go strings as lists of bytes. `strings.ToLower` and `strings.EqualFold` are the ASCII ones:
-- the program compares protocol names and keywords with them.
use Prim.Native.Nat.{ℕ, zero, suc, ◌+◌, ◌-◌, ◌/◌, ◌%◌}
use Prim.Native.Char.{code}
use Prim.Native.String.{String}
use mathlib.Core.Bool.{Bool, true, false, ◌&&◌, ◌||◌}
use mathlib.Core.List.{reverse, List, [], ◌∷◌, ◌++◌, map}
use mathlib.Core.Logic.{◌↔◌}
use mathlib.Core.Option.{Option, none, some}
use mathlib.Core.Path.{◌≡◌, refl}
use native.Mathlib.Omega.{arith}
use telepathy.Prelude.Tests.{ltb, leb, nat_eq, if◌then◌else◌, Eq, ◌==◌}

abbrev pub Text : Type 0
Text = List ℕ

-- The bytes of an ASCII literal.
abbrev pub codes : String → Text
codes String.[] = []
codes (String.◌∷◌ c s) = code c ∷ codes s

unfoldable pub text_beq : Text → Text → Bool
text_beq [] [] = true
text_beq (a ∷ s) (b ∷ t) = nat_eq a b && text_beq s t
text_beq _ _ = false

text_beq_sound : (s t : Text) → text_beq s t ≡ true → s ≡ t
unfolding text_beq
text_beq_sound [] [] h = refl
text_beq_sound [] (b ∷ t) h = ground arith
text_beq_sound (a ∷ s) [] h = ground arith
text_beq_sound (a ∷ s) (b ∷ t) h = ground (arith, text_beq_sound s t)

text_beq_refl : (s : Text) → text_beq s s ≡ true
unfolding text_beq
text_beq_refl [] = refl
text_beq_refl (a ∷ s) = ground (arith, text_beq_refl s)

pub text_beq_iff : (s t : Text) → (text_beq s t ≡ true) ↔ (s ≡ t)
text_beq_iff s t = (text_beq_sound s t, λ e. rw e (text_beq_refl t))

instance abbrev pub text_eq : Eq Text
text_eq = record { beq = text_beq; beq_iff = text_beq_iff }

-- `s == ""`
unfoldable pub is_empty : Text → Bool
is_empty [] = true
is_empty (c ∷ s) = false

unfoldable pub lower : ℕ → ℕ
lower c = if leb b'A' c && leb c b'Z' then c + 32 else c

abbrev is_space : ℕ → Bool
is_space c = nat_eq c 32 || (leb 9 c && leb c 13)

trim_left : Text → Text
trim_left [] = []
trim_left (c ∷ s) = if is_space c then trim_left s else c ∷ s

-- `strings.TrimSpace`, on ASCII.
unfoldable pub trim_space : Text → Text
unfolding trim_left
trim_space s = reverse (trim_left (reverse (trim_left s)))

-- `strings.ToLower`
unfoldable pub to_lower : Text → Text
unfolding lower
to_lower s = map lower s

-- `strings.EqualFold`
unfoldable pub equal_fold : Text → Text → Bool
unfolding text_beq to_lower
equal_fold s t = to_lower s == to_lower t

-- `strings.HasPrefix(s, prefix)`
unfoldable pub has_prefix : Text → Text → Bool
has_prefix s [] = true
has_prefix [] (c ∷ prefix) = false
has_prefix (a ∷ s) (c ∷ prefix) = nat_eq a c && has_prefix s prefix

-- `strings.Split(s, sep)` for a separator of one byte, which gives at least one text.
unfoldable pub split_byte : ℕ → Text → List Text
split_byte c [] = [] ∷ []
split_byte c (a ∷ s) = elim (split_byte c s) [
  | [] ↦ []
  | t ∷ ts ↦ if nat_eq a c then [] ∷ t ∷ ts else (a ∷ t) ∷ ts
]

-- `strings.Contains(s, sub)`
unfoldable pub has_text : Text → Text → Bool
unfolding has_prefix
has_text [] sub = has_prefix [] sub
has_text (c ∷ s) sub = has_prefix (c ∷ s) sub || has_text s sub

-- `strings.IndexByte(s, c)` with the two sides of the split; `none` for -1.
unfoldable pub cut_byte : ℕ → Text → Option (Text × Text)
cut_byte c [] = none
cut_byte c (a ∷ s) = elim (nat_eq a c) [
  | true ↦ some ([], s)
  | false ↦ elim (cut_byte c s) [ none ↦ none | some (l, r) ↦ some (a ∷ l, r) ]
]

-- `strconv.Itoa` of a counter. With more fuel than digits the loop ends by its test.
digits : ℕ → ℕ → Text → Text
digits zero n tail = tail
digits (suc fuel) n tail =
    let more = digits fuel (n / 10) ((n % 10 + b'0') ∷ tail) in
    if ltb n 10 then (n + b'0') ∷ tail else more

unfoldable pub itoa : ℕ → Text
unfolding digits
itoa n = digits (suc n) n []

-- One byte of `strconv.Quote`: the verb %q. Bytes above 127 stand for themselves.
hex_digit : ℕ → ℕ
hex_digit n = if ltb n 10 then n + b'0' else n - 10 + b'a'

quote_byte : ℕ → Text
unfolding hex_digit
quote_byte c =
    if nat_eq c 0x22 || nat_eq c 0x5c
    then 0x5c ∷ c ∷ []
    else if nat_eq c 7
    then codes "\\a"
    else if nat_eq c 8
    then codes "\\b"
    else if nat_eq c 12
    then codes "\\f"
    else if nat_eq c 10
    then codes "\\n"
    else if nat_eq c 13
    then codes "\\r"
    else if nat_eq c 9
    then codes "\\t"
    else if nat_eq c 11
    then codes "\\v"
    else if ltb c 32 || nat_eq c 127
    then codes "\\x" ++ (hex_digit (c / 16) ∷ hex_digit (c % 16) ∷ [])
    else c ∷ []

quote_bytes : Text → Text
unfolding quote_byte
quote_bytes [] = []
quote_bytes (c ∷ s) = quote_byte c ++ quote_bytes s

unfoldable pub quote : Text → Text
unfolding quote_bytes
quote s = 0x22 ∷ quote_bytes s ++ (0x22 ∷ [])

-- `a <= b` on Go strings.
unfoldable pub text_leb : Text → Text → Bool
text_leb [] t = true
text_leb (a ∷ s) [] = false
text_leb (a ∷ s) (b ∷ t) = ltb a b || (nat_eq a b && text_leb s t)

-- `sort.Strings`
unfoldable pub insert_sorted : Text → List Text → List Text
unfolding text_leb
insert_sorted k [] = k ∷ []
insert_sorted k (j ∷ ks) = if text_leb k j then k ∷ j ∷ ks else j ∷ insert_sorted k ks

unfoldable pub sort_texts : List Text → List Text
unfolding insert_sorted
sort_texts [] = []
sort_texts (k ∷ ks) = insert_sorted k (sort_texts ks)

-- `strings.Join`
unfoldable pub join : List Text → Text → Text
join [] sep = []
join (s ∷ []) sep = s
join (s ∷ t ∷ rest) sep = s ++ sep ++ join (t ∷ rest) sep
