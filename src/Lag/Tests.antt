-- ===== src/Lag/Tests.antt =====
-- The lag of two groups on one topic.
use marchiq.Base.{true, List, none, [], ◌∷◌, some, pos}
use marchiq.Names.{Name, member_name}
use marchiq.Broker.{Broker}
use marchiq.Groups.{join_group, commit_offset}
use marchiq.Catalog.Tests.{fine_save}
use marchiq.Groups.Tests.{joined, no_groups}
use marchiq.Lag.{GroupLag, PartitionLag}

abbrev committed_first : Broker
committed_first =
    (commit_offset fine_save no_groups joined (b'g' ∷ []) (b'a' ∷ []) (pos 0) (pos 0)).1

abbrev two_groups : Broker
two_groups = (join_group true committed_first (b'f' ∷ []) (b'a' ∷ []) [] (pos 1)).1

abbrev lag_of : PartitionLag
lag_of = record { partition = 1; committed = none; next_fetch = 0; latest = 2; lag = pos 2 }

abbrev report : List GroupLag
report =
    record {
      group = b'f' ∷ [];
      topic = b'a' ∷ [];
      members = member_name 1 ∷ [];
      partitions = record lag_of { partition = 0 } ∷ lag_of ∷ [];
    }
    ∷ record {
      group = b'g' ∷ [];
      topic = b'a' ∷ [];
      members = member_name 1 ∷ [];
      partitions =
          record { partition = 0; committed = some 0; next_fetch = 1; latest = 2; lag = pos 1 }
          ∷ lag_of
          ∷ [];
    }
    ∷ []

-- No name asks for all groups.
abbrev every : Name
every = []
