-- ===== src/Platform/Tests.antt =====
-- A run of the limiter.
use convite.Prelude.{
  ◌≡◌, ◌++◌, String, Bool, same_id, ◌*◌, ◌+◌, ◌≤◌, ◌<◌, All, [], ◌∷◌, List, max, arith,
}
use convite.Platform.Limiter.{RateLimiterOptions, Bucket}
use convite.Platform.Pool.{WaitingPlayer, MatchmakingPool, empty_pool}
use convite.Platform.Queues.{Request, joining, pairing, seated, queued, after_all, seated-after_all}
use convite.Platform.Buckets.{IsMap}
use convite.Platform.Windows.{admitted-le}
use convite.Platform.Credit.{Call, admitted}

abbrev options : RateLimiterOptions
options = record { limit = 2; window_ms = 10; max_tracked_keys = 1 }

abbrev buckets : List Bucket
buckets = record { key = "ana"; count = 1; window_start = 3 } ∷ []

abbrev calls : List Call
calls =
    record { key = "ana"; now = 12 }
    ∷ record { key = "beto"; now = 13 }
    ∷ record { key = "ana"; now = 14 }
    ∷ []

one_bucket : IsMap buckets
unfolding IsMap
one_bucket = (tt, tt)

in_stretch : All (λ call. (12 ≤ call.now) × (call.now < 12 + 10)) calls
in_stretch =
    ((omega arith, omega arith), ((omega arith, omega arith), ((omega arith, omega arith), tt)))

admitted-le_example : admitted options "ana" calls buckets ≤ 2 * max 1 2
admitted-le_example = admitted-le options 12 "ana" calls buckets one_bucket in_stretch

abbrev ana : WaitingPlayer
ana = record { connection_id = "c1"; player_id = "ana" }

abbrev beto : WaitingPlayer
beto = record { connection_id = "c2"; player_id = "beto" }

abbrev carla : WaitingPlayer
carla = record { connection_id = "c3"; player_id = "carla" }

abbrev requests : List Request
requests =
    joining "truco" ana
    ∷ joining "escoba" beto
    ∷ joining "truco" beto
    ∷ joining "truco" carla
    ∷ pairing "truco" 2
    ∷ []

seated-after_all_example :
    seated "truco" requests empty_pool ++ after_all requests empty_pool "truco"
    ≡ empty_pool "truco" ++ queued "truco" requests empty_pool
seated-after_all_example = seated-after_all "truco" requests empty_pool

abbrev waiting : MatchmakingPool
waiting key = ana ∷ beto ∷ carla ∷ []

abbrev is_alive : String → Bool
is_alive id = same_id id "c2"
