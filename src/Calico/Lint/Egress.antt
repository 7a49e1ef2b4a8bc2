-- ===== src/Calico/Lint/Egress.antt =====
-- provider/calico/lint.go: which texts make `hasHTTPOnEgress` true.
use telepathy.Prelude.{
  ℕ, ◌≡◌, refl, sym, ap, ◌∙◌, ◌↔◌, ◌⊎◌, inl, inr, Bool, true, false, not, ◌&&◌, ◌||◌, List, [], ◌∷◌,
  ◌++◌, arith, nat_eq, if◌then◌else◌, Bool-cases, ℕ_eq, Text, codes, text_eq, has_prefix, All,
  int_eq,
}
use mathlib.Core.Path.{subst}
use telepathy.Calico.Lint.{
  lines_of, trim_blanks, Section, no_section, ingress_section, egress_section, is_egress,
  next_section, scan_http, has_http_on_egress,
}

-- A line is blanks, then the word, then anything.
abbrev pub IsBlank : ℕ → Type 0
IsBlank c = (c ≡ 32) ⊎ (c ≡ 9)

abbrev pub StartsWith : Text → Text → Type 0
StartsWith word line =
    (blanks : Text) × (rest : Text) × All IsBlank blanks × (line ≡ blanks ++ (word ++ rest))

-- Some line starts with `http:`, and no line above it in the list with `ingress:`.
abbrev pub HasOpenHttp : List Text → Type 0
HasOpenHttp lines =
    (between : List Text) × (http : Text) × (after : List Text) × (lines
      ≡ between ++ (http ∷ after))
    × All (λ line. ¬ StartsWith (codes "ingress:") line) between
    × StartsWith (codes "http:") http

-- Such a line stands below a line that starts with `egress:`.
abbrev pub HasHttpUnderEgress : List Text → Type 0
HasHttpUnderEgress lines =
    (before : List Text) × (egress : Text) × (below : List Text) × (lines
      ≡ before ++ (egress ∷ below))
    × StartsWith (codes "egress:") egress
    × HasOpenHttp below

-- The test of the code.
starts : Text → Text → Bool
starts word line = has_prefix (trim_blanks line) word

has_prefix_sound : (s w : Text) → has_prefix s w ≡ true → (rest : Text) × (s ≡ w ++ rest)
unfolding has_prefix
has_prefix_sound s [] h = (s, refl)
has_prefix_sound [] (c ∷ w) h = cc
has_prefix_sound (a ∷ s) (c ∷ w) h =
    let same : a ≡ c = ground arith in
    let later : has_prefix s w ≡ true = ground arith in
    let (rest, e) = has_prefix_sound s w later in (rest, cc (same, e))

has_prefix-append : (w rest : Text) → has_prefix (w ++ rest) w ≡ true
unfolding has_prefix
has_prefix-append [] rest = refl
has_prefix-append (c ∷ w) rest = ground (arith, has_prefix-append w rest)

starts_sound : (c : ℕ) (w line : Text) → starts (c ∷ w) line ≡ true → StartsWith (c ∷ w) line
unfolding starts trim_blanks has_prefix
starts_sound c w [] h = cc
starts_sound c w (a ∷ line) h = elim (Bool-cases (nat_eq a 32 || nat_eq a 9)) [
  | inl e ↦
      let later : starts (c ∷ w) line ≡ true = rw e at h in
      let blank : IsBlank a = ground (arith, e) in
      let (blanks, rest, all, eq) = starts_sound c w line later in
      (a ∷ blanks, rest, (blank, all), ap (◌∷◌ a) eq)
  | inr e ↦
      let here : has_prefix (a ∷ line) (c ∷ w) ≡ true = rw e at h in
      let (rest, eq) = has_prefix_sound (a ∷ line) (c ∷ w) here in ([], rest, tt, eq)
]

starts_blanks :
    (c : ℕ) (w blanks rest : Text)
    → (nat_eq c 32 || nat_eq c 9) ≡ false
    → All IsBlank blanks
    → starts (c ∷ w) (blanks ++ (c ∷ (w ++ rest))) ≡ true
unfolding starts trim_blanks
starts_blanks c w [] rest h all = rw h (has_prefix-append (c ∷ w) rest)
starts_blanks c w (b ∷ blanks) rest h all =
    let blank : (nat_eq b 32 || nat_eq b 9) ≡ true = ground (arith, all.0) in
    rw blank (starts_blanks c w blanks rest h all.1)

starts_complete :
    (c : ℕ) (w line : Text)
    → (nat_eq c 32 || nat_eq c 9) ≡ false
    → StartsWith (c ∷ w) line
    → starts (c ∷ w) line ≡ true
starts_complete c w line h (blanks, rest, all, eq) =
    subst (λ l. starts (c ∷ w) l ≡ true) (sym eq) (starts_blanks c w blanks rest h all)

-- No text starts with two words that begin differently.
prefix_apart :
    (a b : ℕ) (u v s : Text)
    → nat_eq a b ≡ false
    → has_prefix s (a ∷ u) ≡ true
    → has_prefix s (b ∷ v) ≡ false
unfolding has_prefix
prefix_apart a b u v [] h k = refl
prefix_apart a b u v (c ∷ s) h k = ground arith

abbrev in_word : Text
in_word = codes "ingress:"

abbrev eg_word : Text
eg_word = codes "egress:"

abbrev http_word : Text
http_word = codes "http:"

-- One line of the loop.
scan_http-cons :
    (s : Section) (line : Text) (rest : List Text)
    → scan_http s (line ∷ rest) ≡ (
        if (not (starts in_word line) && (not (starts eg_word line) && starts http_word line))
          && is_egress s
        then true
        else scan_http
            (if starts in_word line
              then ingress_section
              else if starts eg_word line
              then egress_section
              else s)
            rest)
unfolding scan_http next_section starts
scan_http-cons s line rest = refl

-- The three words of one line, as the code tests them.
in_excludes_eg : (line : Text) → starts eg_word line ≡ true → starts in_word line ≡ false
unfolding starts
in_excludes_eg line = prefix_apart b'e' b'i' _ _ (trim_blanks line) refl

in_excludes_http : (line : Text) → starts http_word line ≡ true → starts in_word line ≡ false
unfolding starts
in_excludes_http line = prefix_apart b'h' b'i' _ _ (trim_blanks line) refl

eg_excludes_http : (line : Text) → starts http_word line ≡ true → starts eg_word line ≡ false
unfolding starts
eg_excludes_http line = prefix_apart b'h' b'e' _ _ (trim_blanks line) refl

below_later :
    (line : Text) (lines : List Text) → HasHttpUnderEgress lines → HasHttpUnderEgress (line ∷ lines)
below_later line lines (before, egress, below, eq, at, open_http) =
    (line ∷ before, egress, below, ap (◌∷◌ line) eq, at, open_http)

open_later :
    (line : Text) (lines : List Text)
    → starts in_word line ≡ false
    → HasOpenHttp lines
    → HasOpenHttp (line ∷ lines)
open_later line lines h (between, http, after, eq, none_in, at) =
    let not_in : ¬ StartsWith in_word line =
      λ s. let t : starts in_word line ≡ true = starts_complete b'i' _ line refl s in cc (h, t) in
    (line ∷ between, http, after, ap (◌∷◌ line) eq, (not_in, none_in), at)

abbrev Found : Section → List Text → Type 0
Found s lines = ((is_egress s ≡ true) × HasOpenHttp lines) ⊎ HasHttpUnderEgress lines

-- What the rest of the loop finds, past a line that is not itself found.
Found-later :
    (s : Section) (line : Text) (lines : List Text) (i e : Bool)
    → starts in_word line ≡ i
    → starts eg_word line ≡ e
    → Found (if i then ingress_section else if e then egress_section else s) lines
    → Found s (line ∷ lines)
Found-later s line lines true e hi he (inl f) = cc (f.0)
Found-later s line lines true e hi he (inr f) = inr (below_later line lines f)
Found-later s line lines false true hi he (inl f) =
    inr ([], line, lines, refl, starts_sound b'e' _ line he, f.1)
Found-later s line lines false true hi he (inr f) = inr (below_later line lines f)
Found-later s line lines false false hi he (inl f) = inl (f.0, open_later line lines hi f.1)
Found-later s line lines false false hi he (inr f) = inr (below_later line lines f)

here_parts : (i e h g : Bool) → (not i && (not e && h)) && g ≡ true → (h ≡ true) × (g ≡ true)
here_parts i e h g k = ground arith

scan_http_sound : (s : Section) (lines : List Text) → scan_http s lines ≡ true → Found s lines
unfolding scan_http
scan_http_sound s [] h = cc
scan_http_sound s (line ∷ lines) h =
    let i = starts in_word line in
    let e = starts eg_word line in
    let step = sym (scan_http-cons s line lines) ∙ h in
    let next = if i then ingress_section else if e then egress_section else s in
    elim (Bool-cases ((not i && (not e && starts http_word line)) && is_egress s)) [
      | inl k ↦
          let (http, at) = here_parts i e (starts http_word line) (is_egress s) k in
          inl (at, ([], line, lines, refl, tt, starts_sound b'h' _ line http))
      | inr k ↦
          let rest : scan_http next lines ≡ true = rw k at step in
          Found-later s line lines i e refl refl (scan_http_sound next lines rest)
    ]

true_either : (c x : Bool) → x ≡ true → (if c then true else x) ≡ true
true_either c x h = ground arith

if_same : {A : Type 0} (b : Bool) (x : A) → (if b then x else x) ≡ x
if_same true x = refl
if_same false x = refl

scan_http_below :
    (s : Section) (line : Text) (lines : List Text)
    → ((t : Section) → scan_http t lines ≡ true)
    → scan_http s (line ∷ lines) ≡ true
scan_http_below s line lines h = scan_http-cons s line lines ∙ true_either _ _ (h _)

scan_http_open :
    (between : List Text) (http : Text) (after : List Text)
    → All (λ line. ¬ StartsWith in_word line) between
    → StartsWith http_word http
    → scan_http egress_section (between ++ (http ∷ after)) ≡ true
scan_http_open [] http after none_in at =
    let h = starts_complete b'h' _ http refl at in
    scan_http-cons egress_section http after
    ∙ rw (in_excludes_http http h, eg_excludes_http http h, h) refl
scan_http_open (line ∷ between) http after none_in at =
    let later = scan_http_open between http after none_in.1 at in
    elim (Bool-cases (starts in_word line)) [
      | inl k ↦ absurd (none_in.0 (starts_sound b'i' _ line k))
      | inr k ↦
          scan_http-cons egress_section line (between ++ (http ∷ after))
          ∙ rw (k, if_same (starts eg_word line) egress_section, later) (if_same _ true)
    ]

scan_http_complete :
    (s : Section) (before : List Text) (egress : Text) (below : List Text)
    → StartsWith eg_word egress
    → HasOpenHttp below
    → scan_http s (before ++ (egress ∷ below)) ≡ true
scan_http_complete s [] egress below at (between, http, after, eq, none_in, http_at) =
    let e = starts_complete b'e' _ egress refl at in
    scan_http-cons s egress below
    ∙ rw (in_excludes_eg egress e, e)
        (subst (λ l. scan_http egress_section l ≡ true) (sym eq)
          (scan_http_open between http after none_in http_at))
scan_http_complete s (line ∷ before) egress below at open_http =
    scan_http_below s line (before ++ (egress ∷ below))
      (λ t. scan_http_complete t before egress below at open_http)

-- `hasHTTPOnEgress` is true exactly if a line of the text that starts, past blanks, with `http:`
-- stands below one that starts with `egress:`, and no line between them starts with `ingress:`.
pub has_http_on_egress_iff :
    (y : Text) → (has_http_on_egress y ≡ true) ↔ HasHttpUnderEgress (lines_of y)
unfolding has_http_on_egress
has_http_on_egress_iff y = (
  λ h. elim (scan_http_sound no_section (lines_of y) h) [ inl f ↦ cc (f.0) | inr f ↦ f ],
  λ (before, egress, below, eq, at, open_http).
      subst (λ l. scan_http no_section l ≡ true) (sym eq)
        (scan_http_complete no_section before egress below at open_http),
)
