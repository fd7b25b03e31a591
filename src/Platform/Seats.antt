-- ===== src/Platform/Seats.antt =====
-- The seats of a table, which the platform gives to a module: SeatAssignment of packages/platform-contract/src,
-- and the map from seats to players that the modules build of them.
use convite.Prelude.{ℕ, ◌==◌, String, List, [], ◌∷◌, Option, none, some, if◌then◌else◌}

pub record SeatAssignment : Type 0 where
  pub player_id : String
  pub seat : ℕ

abbrev pub later_or : Option String → Option String → Option String
later_or none earlier = earlier
later_or (some id) earlier = some id

-- The map of the seats: of two entries for a seat the later one stays.
unfoldable pub by_seat : ℕ → List SeatAssignment → Option String
by_seat seat [] = none
by_seat seat (assigned ∷ seats) =
    later_or (by_seat seat seats) (if assigned.seat == seat then some assigned.player_id else none)
