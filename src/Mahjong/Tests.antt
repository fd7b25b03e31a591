-- ===== src/Mahjong/Tests.antt =====
-- A run of the generator on the turtle.
use convite.Prelude.{
  ℕ, length, List, ◌∷◌, ◌+◌, ◌≡◌, refl, Bool, true, false, [], Option, none, some,
}
use convite.Mahjong.Tile.{all_tiles, faces, bonus_tiles, tile_id, match_key, match_key_by_tile_id}
use convite.Mahjong.Layout.{Position, layout}
use convite.Mahjong.Board.{
  MatchState, RemovePairAction, is_free, covered_from_above, blocks_before, occupied_from,
  free_tiles, pairs_of, pairs_with, get_legal_actions, get_outcome,
}
use convite.Mahjong.Solitaire.{
  SolitaireMatchState, remove_pair, ok, cleared, outcome_of, is_offered, apply_removal, apply_open,
  apply_action,
}
use convite.Mahjong.Removals.{IsPair, apply_action-IsPair}
use convite.Mahjong.Deal.{
  pair_keys, keys_of_counts, count_keys, count_key, deal_pairs, generate_deal, GeneratedDeal,
  shuffle_from, ids_by_match_key, pools_of, add_id, pop, put_pool, two_faces, step_of, without_both,
  place_both, choose_free_position, top_layer, free_anywhere, free_on_top, partners,
  take_solvable_pair,
}
use convite.Mahjong.Winning.{IsWinnable}
use convite.Mahjong.Turtle.{generate_deal-IsWinnable}

-- The source that always gives its least value.
abbrev least : ℕ → ℕ → ℕ
least number size = 0

deal_or_empty : Option GeneratedDeal → GeneratedDeal
deal_or_empty none = record { placements = []; solution = [] }
deal_or_empty (some deal) = deal

is_complete : Option GeneratedDeal → Bool
is_complete none = false
is_complete (some deal) = true

completed : (o : Option GeneratedDeal) → is_complete o ≡ true → o ≡ some (deal_or_empty o)
unfolding deal_or_empty is_complete
completed none e = cc
completed (some deal) e = refl

least_completes : is_complete (generate_deal layout least) ≡ true
unfolding is_complete layout pair_keys keys_of_counts count_keys count_key generate_deal deal_pairs
    shuffle_from ids_by_match_key pools_of add_id all_tiles faces bonus_tiles tile_id match_key pop
    put_pool two_faces step_of without_both place_both choose_free_position top_layer free_anywhere
    free_on_top partners take_solvable_pair is_free covered_from_above blocks_before
least_completes = refl

generate_deal-IsWinnable_example :
    IsWinnable layout "ana" (deal_or_empty (generate_deal layout least))
generate_deal-IsWinnable_example =
    generate_deal-IsWinnable least (deal_or_empty (generate_deal layout least)) "ana"
      (completed (generate_deal layout least) least_completes)

abbrev little : List Position
little = record { x = 0; y = 0; z = 0 } ∷ record { x = 6; y = 0; z = 0 } ∷ []

abbrev two_winds : MatchState
two_winds = record { player_id = "ana"; tiles = some "wind-east" ∷ some "wind-east" ∷ [] }

abbrev open_match : SolitaireMatchState
open_match = record { player_id = "ana"; board = some two_winds; abandoned = false }

abbrev both : RemovePairAction
both = record { player_id = "ana"; a = 0; b = 1 }

abbrev won_match : SolitaireMatchState
won_match = record open_match { board = some (record two_winds { tiles = none ∷ none ∷ [] }) }

removing : apply_action little open_match (remove_pair both) ≡ ok won_match
unfolding apply_action outcome_of get_outcome apply_open apply_removal is_offered get_legal_actions
    occupied_from free_tiles is_free covered_from_above blocks_before pairs_of pairs_with cleared
    match_key_by_tile_id all_tiles faces bonus_tiles tile_id match_key
removing = refl

apply_action-IsPair_example :
    (board : MatchState) × (open_match.board ≡ some board)
    × (open_match.abandoned ≡ false)
    × (both.player_id ≡ board.player_id)
    × IsPair little board.tiles (occupied_from 0 board.tiles) (occupied_from 0 board.tiles) 0 1
    × (won_match ≡ record open_match { board = some (cleared board both) })
    × (length (occupied_from 0 (cleared board both).tiles) + 2
        ≡ length (occupied_from 0 board.tiles))
apply_action-IsPair_example = apply_action-IsPair little open_match won_match both removing
