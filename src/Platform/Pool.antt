-- ===== src/Platform/Pool.antt =====
-- presence.ts: the pool of players that wait for a table. The queues are a function from their keys, which
-- the source builds from the game, the modality and the pool; a key without a queue has an empty one. An
-- operation is one step: no other runs while a sweep waits for an answer of isAlive.
use convite.Prelude.{
  ℕ, zero, suc, ◌==◌, leb, Bool, true, false, String, List, [], ◌∷◌, ◌++◌, Option, none, some,
  if◌then◌else◌, any, length, get_elem?, take, drop, same_id,
}

pub record WaitingPlayer : Type 0 where
  pub connection_id : String
  pub player_id : String

abbrev pub MatchmakingPool : Type 0
MatchmakingPool = String → List WaitingPlayer

abbrev pub empty_pool : MatchmakingPool
empty_pool key = []

unfoldable pub with_queue : String → List WaitingPlayer → MatchmakingPool → MatchmakingPool
with_queue key queue pool other = if same_id other key then queue else pool other

unfoldable pub is_waiting : String → List WaitingPlayer → Bool
is_waiting connection_id queue = any (λ entry. same_id entry.connection_id connection_id) queue

unfoldable pub join : String → WaitingPlayer → MatchmakingPool → MatchmakingPool
join key player pool =
    if is_waiting player.connection_id (pool key)
    then pool
    else with_queue key (pool key ++ player ∷ []) pool

-- The first entry of the connection goes.
unfoldable pub without_connection : String → List WaitingPlayer → List WaitingPlayer
without_connection connection_id [] = []
without_connection connection_id (entry ∷ queue) =
    let rest = without_connection connection_id queue in
    if same_id entry.connection_id connection_id then queue else entry ∷ rest

unfoldable pub leave : String → String → MatchmakingPool → MatchmakingPool
leave key connection_id pool = with_queue key (without_connection connection_id (pool key)) pool

abbrev pub count_waiting : String → MatchmakingPool → ℕ
count_waiting key pool = length (pool key)

pub data PairResult : Type 0 where
  paired : List WaitingPlayer → MatchmakingPool → PairResult
  too_few thrown : PairResult

-- A table of no seats is an exception.
unfoldable pub try_pair_seats : String → ℕ → MatchmakingPool → PairResult
try_pair_seats key seat_count pool =
    if seat_count == 0
    then thrown
    else (if leb seat_count (length (pool key))
        then paired (take seat_count (pool key)) (with_queue key (drop seat_count (pool key)) pool)
        else too_few)

-- `queue.splice(index, 1)`
unfoldable pub splice : ℕ → List WaitingPlayer → List WaitingPlayer
splice index [] = []
splice zero (entry ∷ queue) = queue
splice (suc index) (entry ∷ queue) = entry ∷ splice index queue

abbrev pub is_dead : (String → Bool) → Option WaitingPlayer → Bool
is_dead is_alive none = false
is_dead is_alive (some entry) = if is_alive entry.connection_id then false else true

-- The loop over the indices below the given one, from the last on.
unfoldable pub sweep_below : (String → Bool) → ℕ → List WaitingPlayer → List WaitingPlayer
sweep_below is_alive zero queue = queue
sweep_below is_alive (suc index) queue =
    sweep_below is_alive index
      (if is_dead is_alive (get_elem? queue index) then splice index queue else queue)

unfoldable pub sweep : (String → Bool) → MatchmakingPool → MatchmakingPool
sweep is_alive pool key = sweep_below is_alive (length (pool key)) (pool key)
