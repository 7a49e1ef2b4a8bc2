-- ===== src/Api/Documents.antt =====
-- api/cost.go: decoded manifests, as trees of values, and what is counted in them. Decoding by
-- sigs.k8s.io/yaml and encoding by encoding/json are not part of the repository.
use telepathy.Prelude.{
  ℕ, ◌+◌, Bool, true, false, ◌||◌, Option, none, some, List, [], ◌∷◌, if◌then◌else◌, ◌==◌, ℕ_eq,
  Text, codes, text_eq, has_prefix, length, contains, int_eq,
}

-- `interface{}` as yaml.Unmarshal fills it; a number is kept as its text, which nothing here reads.
-- `json_null` is nil, which is also what a missing key of a map reads as.
mutual
  pub data Value : Type 0 where
    json_null : Value
    json_bool : Bool → Value
    json_number : Text → Value
    json_string : Text → Value
    json_array : Values → Value
    json_object : Members → Value

  pub data Values : Type 0 where
    no_values : Values
    more_values : Value → Values → Values

  pub data Members : Type 0 where
    no_members : Members
    more_members : Text → Value → Members → Members

-- yaml.Unmarshal into `head` and into `doc`, and json.Marshal; `none` is an error.
pub record Codec : Type 0 where
  pub decode_kind : Text → Option Text
  pub decode_doc : Text → Option Members
  pub marshal : Value → Option Text

unfoldable pub member : Text → Members → Value
member k no_members = json_null
member k (more_members j v m) = if j == k then v else member k m

-- The type assertions `v.(map[string]interface{})`, `v.([]interface{})` and `v.(string)`; without
-- `ok`, a failed one gives nil or the empty string.
abbrev pub as_object : Value → Option Members
as_object (json_object m) = some m
as_object v = none

abbrev pub object_or_empty : Value → Members
object_or_empty (json_object m) = m
object_or_empty v = no_members

unfoldable pub values_list : Values → List Value
values_list no_values = []
values_list (more_values v vs) = v ∷ values_list vs

unfoldable pub array_or_empty : Value → List Value
unfolding values_list
array_or_empty (json_array vs) = values_list vs
array_or_empty v = []

abbrev pub as_string : Value → Option Text
as_string (json_string s) = some s
as_string v = none

-- `len` of the list in a value that may be one.
unfoldable pub array_length : Value → ℕ
unfolding values_list
array_length (json_array vs) = length (values_list vs)
array_length v = 0

unfoldable pub count_if : Bool → ℕ
count_if true = 1
count_if false = 0

pub record Counts : Type 0 where
  pub cidrs : ℕ
  pub ports : ℕ
  pub negs : ℕ

abbrev pub add_counts : Counts → Counts → Counts
add_counts a b = record {
  cidrs = a.cidrs + b.cidrs;
  ports = a.ports + b.ports;
  negs = a.negs + b.negs;
}

abbrev pub no_counts : Counts
no_counts = record { cidrs = 0; ports = 0; negs = 0 }

abbrev is_text : Value → Bool
is_text (json_string s) = true
is_text v = false

-- What the switch on the key adds, and the test for a negation.
unfoldable pub key_counts : Text → Value → Counts
unfolding has_prefix count_if array_length
key_counts k v = record {
  cidrs =
      if k == codes "nets" || (k == codes "notNets" || k == codes "except")
      then array_length v
      else if k == codes "cidr"
      then count_if (is_text v)
      else 0;
  ports = if k == codes "ports" || k == codes "notPorts" then array_length v else 0;
  negs = count_if (has_prefix k (codes "not") || k == codes "except");
}

-- `walkCounts`
unfoldable mutual
  unfolding key_counts

  pub walk_counts : Value → Counts
  walk_counts (json_object m) = walk_members m
  walk_counts (json_array vs) = walk_values vs
  walk_counts v = no_counts

  pub walk_values : Values → Counts
  walk_values no_values = no_counts
  walk_values (more_values v vs) = add_counts (walk_counts v) (walk_values vs)

  pub walk_members : Members → Counts
  walk_members no_members = no_counts
  walk_members (more_members k v m) =
      add_counts (add_counts (key_counts k v) (walk_counts v)) (walk_members m)

-- The keys that constrain a peer.
abbrev pub constraint_keys : List Text
constraint_keys =
    codes "selector"
    ∷ codes "namespaceSelector"
    ∷ codes "podSelector"
    ∷ codes "nets"
    ∷ codes "cidr"
    ∷ codes "domains"
    ∷ codes "serviceAccounts"
    ∷ codes "serviceAccountSelector"
    ∷ []

-- `hasConstraintKey`
unfoldable mutual
  unfolding contains

  pub has_constraint_key : Value → Bool
  has_constraint_key (json_object m) = members_constrain m
  has_constraint_key (json_array vs) = values_constrain vs
  has_constraint_key v = false

  pub values_constrain : Values → Bool
  values_constrain no_values = false
  values_constrain (more_values v vs) = has_constraint_key v || values_constrain vs

  pub members_constrain : Members → Bool
  members_constrain no_members = false
  members_constrain (more_members k v m) =
      contains constraint_keys k || has_constraint_key v || members_constrain m
