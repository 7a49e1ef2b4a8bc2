-- ===== src/Cilium/Defaults.antt =====
-- engines/cilium/defaults.go: the directions of each endpoint that some compiled rule affects.
use telepathy.Prelude.{
  Bool, true, false, none, some, List, [], ◌∷◌, map, if◌then◌else◌, ℕ_eq, text_eq, int_eq,
}
use telepathy.Cilium.Repository.{Identity, PolicyEntry, CiliumLib}

pub record EndpointDirections : Type 0 where
  pub ingress : Bool
  pub egress : Bool

module _ ⦃lib : CiliumLib⦄ where
  -- `rule.Subject == nil || rule.Subject.Matches(id.LabelArray)`
  unfoldable pub applies : PolicyEntry lib.Selector → Identity lib.Label lib.LabelArray → Bool
  applies rule id = elim rule.subject [ none ↦ true | some s ↦ lib.selects s id.label_array ]

  -- What the first loop leaves at an endpoint.
  unfoldable pub init_directions : Identity lib.Label lib.LabelArray → EndpointDirections
  init_directions id =
      if lib.has_init id.label_array
      then record { ingress = true; egress = true }
      else record { ingress = false; egress = false }

  -- What one rule does to an endpoint.
  unfoldable pub affect :
      PolicyEntry lib.Selector
      → Identity lib.Label lib.LabelArray
      → EndpointDirections
      → EndpointDirections
  affect rule id d =
      if applies rule id
      then (if rule.ingress then record d { ingress = true } else record d { egress = true })
      else d

  -- The inner loop, over the endpoints and their slots of the result, which are as many.
  unfoldable pub affect_all :
      PolicyEntry lib.Selector
      → List (Identity lib.Label lib.LabelArray)
      → List EndpointDirections
      → List EndpointDirections
  affect_all rule (id ∷ ids) (d ∷ out) = affect rule id d ∷ affect_all rule ids out
  affect_all rule [] out = out
  affect_all rule (id ∷ ids) [] = []

  unfoldable pub affect_rules :
      List (PolicyEntry lib.Selector)
      → List (Identity lib.Label lib.LabelArray)
      → List EndpointDirections
      → List EndpointDirections
  affect_rules [] ids out = out
  affect_rules (rule ∷ rules) ids out = affect_rules rules ids (affect_all rule ids out)

  unfoldable pub affected_directions :
      lib.Repository → List (Identity lib.Label lib.LabelArray) → List EndpointDirections
  affected_directions repo ids = affect_rules (lib.iterate repo) ids (map init_directions ids)
