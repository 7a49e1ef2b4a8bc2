-- ===== src/Api/Load.antt =====
-- api/load.go: requests, responses and policy files from bytes. sigs.k8s.io/yaml and the regular
-- expression of the separator are not part of the repository.
use telepathy.Prelude.{
  Bool, true, false, not, ◌&&◌, ◌||◌, Option, none, some, List, [], ◌∷◌, ◌++◌, if◌then◌else◌, ◌==◌,
  ℕ_eq, Text, codes, text_eq, is_empty, trim_space, has_prefix, split_byte, int_eq,
}
use telepathy.Api.Types.{PolicyInput, Request, no_request, Response}

pub data Loaded (A : Type 0) : Type 0 where
  loaded : A → Loaded A
  failed : Text → Loaded A

-- yaml.Unmarshal into a request, a response, and kind and apiVersion (`none` is an error), and
-- `docSep.Split(s, -1)`.
pub record Files : Type 0 where
  pub unmarshal_request : Text → Loaded Request
  pub unmarshal_response : Text → Loaded Response
  pub unmarshal_type : Text → Option (Text × Text)
  pub split_documents : Text → List Text

unfoldable pub is_blank_line : Text → Bool
unfolding trim_space has_prefix
is_blank_line line = let t = trim_space line in is_empty t || has_prefix t (codes "#")

blank_lines : List Text → Bool
unfolding is_blank_line
blank_lines [] = true
blank_lines (line ∷ rest) = if not (is_blank_line line) then false else blank_lines rest

unfoldable pub is_blank_doc : Text → Bool
unfolding blank_lines split_byte
is_blank_doc doc = blank_lines (split_byte 10 doc)

module _ ⦃files : Files⦄ where
  unfoldable pub decode_request : Text → Loaded Request
  decode_request data_bytes =
      if is_empty (trim_space data_bytes)
      then loaded no_request
      else elim (files.unmarshal_request data_bytes) [
        | loaded req ↦ loaded req
        | failed e ↦ failed (codes "decode request: " ++ e)
      ]

  unfoldable pub decode_response : Text → Loaded Response
  decode_response data_bytes =
      if is_empty (trim_space data_bytes)
      then failed (codes "empty response (no matrix to diff)")
      else elim (files.unmarshal_response data_bytes) [
        | loaded resp ↦ loaded resp
        | failed e ↦ failed (codes "decode response: " ++ e)
      ]

  unfoldable pub flavor_of : Option (Text × Text) → Text
  unfolding has_prefix
  flavor_of none = []
  flavor_of (some (kind, api_version)) =
      if kind == codes "NetworkPolicy" && has_prefix api_version (codes "networking.k8s.io/")
      then codes "k8s"
      else []

  unfoldable pub detect_flavor : Text → Text
  unfolding flavor_of
  detect_flavor doc = flavor_of (files.unmarshal_type doc)

  unfoldable pub keep_documents : List Text → List PolicyInput
  unfolding is_blank_doc detect_flavor
  keep_documents [] = []
  keep_documents (doc ∷ docs) =
      let rest = keep_documents docs in
      if is_blank_doc doc then rest else record { flavor = detect_flavor doc; yaml = doc } ∷ rest

  unfoldable pub parse_policy_manifests : Text → List PolicyInput
  unfolding keep_documents
  parse_policy_manifests data_bytes = keep_documents (files.split_documents data_bytes)
