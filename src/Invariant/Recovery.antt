-- ===== src/Invariant/Recovery.antt =====
-- A crash of the whole broker, in any state that it comes to.
use marchiq.Base.{ℕ, ◌≡◌, false, List, Result, ok}
use marchiq.Codec.{Record}
use marchiq.Log.{PartitionLog}
use marchiq.Log.View.{IsLog, IsValid, contents}
use marchiq.Log.Open.Surviving.{surviving}
use marchiq.Log.Open.Reopen.{Recoverable}
use marchiq.Broker.{Broker}
use marchiq.Invariant.Reach.{Reach}

-- What opening finds of a partition after a crash: its sealed records and the first of the active
-- segment, up to the byte `k`. The partition can come back from the next crash.
abbrev pub Recovers : PartitionLog → ℕ → Result PartitionLog → Type 0
Recovers p k res =
    (rss : List (List Record)) × (rs : List Record) × IsLog p rss rs
    × ((q : PartitionLog) × (res ≡ ok q)
        × IsValid q (contents rss (surviving k rs))
        × Recoverable q
        × (q.failed ≡ false)
        × (q.closed ≡ false))
