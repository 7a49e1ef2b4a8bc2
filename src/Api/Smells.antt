-- ===== src/Api/Smells.antt =====
-- api/cost.go: the findings on the rules of a direction, one function to each.
use telepathy.Prelude.{
  ℕ, suc, Bool, true, false, not, ◌&&◌, ◌||◌, Option, none, some, List, [], ◌∷◌, ◌++◌, nat_eq,
  if◌then◌else◌, ℕ_eq, Text, codes, text_eq, equal_fold, length, every, is_nil, itoa, Map, or_zero,
  get, put, int_eq,
}
use telepathy.Api.Documents.{
  Value, Members, Codec, json_null, json_array, json_object, no_values, no_members, member,
  as_object, as_string,
}

pub record Finding : Type 0 where
  pub policy : Text
  pub rule : ℕ
  pub code : Text
  pub detail : Text
  pub penalty : ℕ

abbrev pub penalty_broad_selector : ℕ
penalty_broad_selector = 10

abbrev pub penalty_duplicate_rule : ℕ
penalty_duplicate_rule = 5

abbrev pub penalty_inline_net_set : ℕ
penalty_inline_net_set = 8

abbrev pub penalty_unreachable : ℕ
penalty_unreachable = 6

abbrev pub penalty_log_action : ℕ
penalty_log_action = 4

abbrev pub cidrs_inline_threshold : ℕ
cidrs_inline_threshold = 5

abbrev pub ports_inline_threshold : ℕ
ports_inline_threshold = 8

-- The UTF-8 bytes of the dash in the messages.
abbrev pub dash : Text
dash = 0xe2 ∷ 0x80 ∷ 0x94 ∷ []

-- `rule["action"].(string)`
abbrev pub action_of : Members → Option Text
action_of rule = as_string (member (codes "action") rule)

abbrev pub match_keys : List Text
match_keys =
    codes "source"
    ∷ codes "destination"
    ∷ codes "from"
    ∷ codes "to"
    ∷ codes "protocol"
    ∷ codes "notProtocol"
    ∷ codes "ports"
    ∷ codes "notPorts"
    ∷ codes "icmp"
    ∷ codes "notICMP"
    ∷ codes "http"
    ∷ codes "ipVersion"
    ∷ codes "serviceAccounts"
    ∷ []

-- A value that constrains nothing: absent or without elements.
abbrev pub is_unset : Value → Bool
is_unset json_null = true
is_unset (json_object no_members) = true
is_unset (json_array no_values) = true
is_unset v = false

unfoldable pub is_match_all : Members → Bool
unfolding every member
is_match_all rule = every (λ k. is_unset (member k rule)) match_keys

unfoldable pub is_terminal_action : Members → Bool
unfolding member equal_fold
is_terminal_action rule = elim (action_of rule) [
  | none ↦ true
  | some act ↦ equal_fold act (codes "Allow") || equal_fold act (codes "Deny")
]

-- Whether a rule ends the evaluation of everything.
unfoldable pub shadows : Value → Bool
unfolding is_match_all is_terminal_action
shadows v = elim (as_object v) [
  | none ↦ false
  | some rule ↦ is_match_all rule && is_terminal_action rule
]

-- The loop of `unreachableRuleFinding`, at rule number `i` counted from 1: the first rule that
-- shadows rules after it, and their number.
unfoldable pub find_shadow : ℕ → List Value → Option (ℕ × ℕ)
unfolding shadows
find_shadow i [] = none
find_shadow i (r ∷ rest) =
    let later = find_shadow (suc i) rest in
    if not (is_nil rest) && shadows r then some (i, length rest) else later

unfoldable pub unreachable_rule_finding : Text → Text → List Value → List Finding
unfolding find_shadow itoa
unreachable_rule_finding name dir rules = elim (find_shadow 1 rules) [
  | none ↦ []
  | some (i, after) ↦
      record {
        policy = name;
        rule = i;
        code = codes "unreachable-rules";
        detail =
            dir
            ++ codes " rule "
            ++ itoa i
            ++ codes " matches all traffic and terminates "
            ++ dash
            ++ codes " the "
            ++ itoa after
            ++ codes " rule(s) after it are unreachable";
        penalty = penalty_unreachable;
      }
      ∷ []
]

unfoldable pub logs : Value → Bool
unfolding member equal_fold
logs v = elim (as_object v) [
  | none ↦ false
  | some rule ↦ equal_fold (or_zero [] (action_of rule)) (codes "Log")
]

unfoldable pub count_logs : List Value → ℕ
unfolding logs
count_logs [] = 0
count_logs (r ∷ rest) = if logs r then suc (count_logs rest) else count_logs rest

unfoldable pub log_action_finding : Text → Text → List Value → List Finding
unfolding count_logs itoa
log_action_finding name dir rules =
    if nat_eq (count_logs rules) 0
    then []
    else record {
      policy = name;
      rule = 0;
      code = codes "log-action";
      detail =
          itoa (count_logs rules)
          ++ codes " "
          ++ dir
          ++ codes " rule(s) use action: Log "
          ++ dash
          ++ codes " every matching packet is logged";
      penalty = penalty_log_action;
    }
      ∷ []

-- The loop of `duplicateRuleFindings`, at rule number `i` counted from 1, with the map `seen`.
module _ ⦃codec : Codec⦄ (name dir : Text) where
  unfoldable pub duplicate_finding : ℕ → ℕ → Finding
  duplicate_finding i j = record {
    policy = name;
    rule = i;
    code = codes "duplicate-rule";
    detail = dir ++ codes " rule " ++ itoa i ++ codes " exactly duplicates rule " ++ itoa j;
    penalty = penalty_duplicate_rule;
  }

  unfoldable pub find_duplicates : Map Text ℕ → ℕ → List Value → List Finding
  unfolding duplicate_finding
  find_duplicates seen i [] = []
  find_duplicates seen i (r ∷ rest) = elim (codec.marshal r) [
    | none ↦ find_duplicates seen (suc i) rest
    | some b ↦ elim (get b seen) [
      | some j ↦ duplicate_finding i j ∷ find_duplicates seen (suc i) rest
      | none ↦ find_duplicates (put b i seen) (suc i) rest
    ]
  ]

  unfoldable pub duplicate_rule_findings : List Value → List Finding
  unfolding find_duplicates get put
  duplicate_rule_findings rules = find_duplicates [] 1 rules
