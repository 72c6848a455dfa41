-- ===== src/Index/Tests.antt =====
-- A search in an index of two entries.
use marchiq.Base.{zero, suc, List, [], ◌∷◌, arith}
use marchiq.Index.{IndexEntry, lookup_index}
use marchiq.Index.Lookup.{Sorted, IsClosest, lookup_index-IsClosest}

abbrev two_entries : List IndexEntry
two_entries =
    record { rel_offset = 0; position = 0 } ∷ record { rel_offset = 3; position = 90 } ∷ []

two_entries-Sorted : Sorted two_entries
two_entries-Sorted zero j le lt = omega arith
two_entries-Sorted (suc zero) zero le lt = absurd (omega arith)
two_entries-Sorted (suc zero) (suc zero) le lt = omega arith
two_entries-Sorted (suc zero) (suc (suc j)) le lt = absurd (omega arith)
two_entries-Sorted (suc (suc i)) j le lt = absurd (omega arith)

lookup_index-IsClosest_example : IsClosest two_entries 2 (lookup_index two_entries 2)
lookup_index-IsClosest_example = lookup_index-IsClosest two_entries 2 two_entries-Sorted
