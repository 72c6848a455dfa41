-- ===== src/Log/Listing.antt =====
-- storage/partition_log.go: `listSegmentBases`; storage/types.go: the names of a segment's files.
pub mod Found
use marchiq.Base.{
  ℕ, zero, suc, ◌-◌, ℤ, ltb_int, Bool, true, false, not, List, [], ◌∷◌, ◌++◌, length, Option, none,
  some, if◌then◌else◌, other, Result, ok, err, ◌>>=◌,
}
use marchiq.Names.{Name, eq_name, decimal}
use marchiq.Sorting.{sort}
use marchiq.Strconv.{parse_int}

abbrev pub log_suffix : Name
log_suffix = b'.' ∷ b'l' ∷ b'o' ∷ b'g' ∷ []

abbrev pub index_suffix : Name
index_suffix = b'.' ∷ b'i' ∷ b'n' ∷ b'd' ∷ b'e' ∷ b'x' ∷ []

abbrev pub zeros : ℕ → Name → Name
zeros zero digits = digits
zeros (suc n) digits = b'0' ∷ zeros n digits

-- `%020d`
abbrev pub padded : ℕ → Name
padded base = zeros (20 - length (decimal base)) (decimal base)

abbrev pub segment_name : ℕ → Name
segment_name base = padded base ++ log_suffix

abbrev pub index_name : ℕ → Name
index_name base = padded base ++ index_suffix

pub record DirEntry : Type 0 where
  pub name : Name
  pub is_dir : Bool

abbrev pub behind_byte : ℕ → Option Name → Option Name
behind_byte b none = none
behind_byte b (some s) = some (b ∷ s)

-- What stands before the suffix, if the name has it.
abbrev pub before : Name → Name → Option Name
before suffix [] = if eq_name [] suffix then some [] else none
before suffix (b ∷ bs) =
    let rest = before suffix bs in if eq_name (b ∷ bs) suffix then some [] else behind_byte b rest

abbrev pub with_base : Option ℤ → Result (List ℤ) → Result (List ℤ)
with_base none rest = err other
with_base (some i) rest = do is ← rest; ok (i ∷ is)

abbrev pub with_name : Option Name → Result (List ℤ) → Result (List ℤ)
with_name none rest = rest
with_name (some s) rest = with_base (parse_int s) rest

-- The loop over the entries of the directory.
unfoldable pub list_loop : List DirEntry → Result (List ℤ)
list_loop [] = ok []
list_loop (e ∷ es) =
    let rest = list_loop es in if e.is_dir then rest else with_name (before log_suffix e.name) rest

unfoldable pub list_segment_bases : Bool → List DirEntry → Result (List ℤ)
list_segment_bases readable entries =
    if not readable then err other else do bases ← list_loop entries; ok (sort ltb_int bases)
