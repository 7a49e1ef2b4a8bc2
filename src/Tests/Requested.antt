-- ===== src/Tests/Requested.antt =====
-- provider/calico/pairs.go on a small store.
use telepathy.Prelude.{
  ◌≡◌, refl, true, false, none, [], ◌∷◌, ℕ_eq, text_beq, text_eq, fold, contains, get, int_eq,
}
use telepathy.Api.Types.{Request, no_request, flow_key}
use telepathy.Api.FlowKey.{find_arrow}
use telepathy.Api.Pairs.{pair_eq, pair_beq}
use telepathy.Tests.Nets.{text_net}
use telepathy.Tests.Calico.{set_checker, set_store, client, server, internet, with_internet}
use telepathy.Calico.Matrix.{new_matrix_sink}
use telepathy.Calico.Eval.{fill_matrix}
use telepathy.Calico.Requested.{services_by_column, pair_between, fill_matrix_pairs}
use telepathy.Calico.Requested.Uncached.{put_pair_decision, first_pairs}
use telepathy.Calico.Requested.Decisions.{fill_matrix_pairs-first_pairs}
use telepathy.Calico.Requested.FullMatrix.{fill_matrix_pairs-fill_matrix}

abbrev two_pairs : Request
two_pairs = record no_request {
  matrix_pairs = pair_between client server ∷ pair_between internet server ∷ [];
}

fill_matrix_pairs-first_pairs_example :
    fill_matrix_pairs set_store two_pairs with_internet (new_matrix_sink true none)
    ≡ fold
        (put_pair_decision set_store two_pairs with_internet)
        (new_matrix_sink true none)
        (first_pairs [] two_pairs.matrix_pairs)
fill_matrix_pairs-first_pairs_example =
    fill_matrix_pairs-first_pairs set_store two_pairs with_internet (new_matrix_sink true none)

fill_matrix_pairs-fill_matrix_example :
    get
      (flow_key internet.id server.id)
      (fill_matrix_pairs set_store two_pairs with_internet (new_matrix_sink false none)).m
    ≡ get
        (flow_key internet.id server.id)
        (fill_matrix set_store two_pairs with_internet (new_matrix_sink false none)).m
unfolding contains text_beq pair_beq find_arrow get services_by_column fold
fill_matrix_pairs-fill_matrix_example =
    fill_matrix_pairs-fill_matrix set_store two_pairs with_internet 2 1 internet server
      (new_matrix_sink false none) (refl, (refl, (refl, tt))) (refl, (refl, (refl, tt))) refl refl
      refl refl
