-- ===== src/Calico/Matrix.antt =====
-- provider/calico/matrix.go: the matrix under construction, in memory or streamed.
use telepathy.Prelude.{
  Bool, true, false, Option, none, some, [], ◌∷◌, ◌++◌, if◌then◌else◌, ℕ_eq, Text, text_eq, Map,
  or_zero, get, put, int_eq,
}
use telepathy.Api.Types.{flow_key}

-- `w` is the text written so far, or `none` without a writer; a nil `keep` keeps every column.
pub record MatrixSink : Type 0 where
  pub w : Option Text
  pub keep : Option (Map Text Bool)
  pub m : Map Text Text

unfoldable pub new_matrix_sink : Bool → Option (Map Text Bool) → MatrixSink
new_matrix_sink streaming keep = record {
  w = if streaming then some [] else none;
  keep = keep;
  m = [];
}

-- One line of the stream: `src->dst`, a tab, the verdict, a line feed.
unfoldable pub matrix_line : Text → Text → Text → Text
unfolding flow_key
matrix_line src dst verdict = flow_key src dst ++ (9 ∷ (verdict ++ (10 ∷ [])))

-- Whether a column stays in memory: always without a writer.
abbrev pub is_kept : MatrixSink → Text → Bool
is_kept s dst = elim s.w [
  | none ↦ true
  | some _ ↦ elim s.keep [ none ↦ true | some k ↦ or_zero false (get dst k) ]
]

unfoldable pub put_verdict : MatrixSink → Text → Text → Text → MatrixSink
unfolding matrix_line flow_key
put_verdict s src dst verdict = record {
  w = elim s.w [ none ↦ none | some t ↦ some (t ++ matrix_line src dst verdict) ];
  keep = s.keep;
  m = if is_kept s dst then put (flow_key src dst) verdict s.m else s.m;
}

-- A missing entry reads as the empty text.
unfoldable pub get_verdict : MatrixSink → Text → Text → Text
unfolding flow_key get
get_verdict s src dst = or_zero [] (get (flow_key src dst) s.m)
