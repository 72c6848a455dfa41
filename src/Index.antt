-- ===== src/Index.antt =====
-- storage/index.go: the sparse index of a segment, and the search in it.
pub mod Lookup
mod Tests
use marchiq.Base.{ℕ, ◌-◌, List, ◌++◌, length, get_or, ltb, ◌==◌, if◌then◌else◌}
use marchiq.BigEndian.{put_uint}
use marchiq.Search.{search_first}

-- An entry: the number of a record within its segment, and where its frame begins in the file.
pub record IndexEntry : Type 0 where
  pub rel_offset : ℕ
  pub position : ℕ

abbrev pub zero_entry : IndexEntry
zero_entry = record { rel_offset = 0; position = 0 }

unfoldable pub encode_index_entry : IndexEntry → List ℕ
encode_index_entry e = put_uint 8 e.rel_offset ++ put_uint 8 e.position

-- The last entry at or before `target`.
unfoldable pub lookup_index : List IndexEntry → ℕ → IndexEntry
unfolding search_first
lookup_index index target =
    let i = search_first (length index) (λ i. ltb target (get_or index i zero_entry).rel_offset) in
    if i == 0 then zero_entry else get_or index (i - 1) zero_entry
