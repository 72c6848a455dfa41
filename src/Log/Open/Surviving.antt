-- ===== src/Log/Open/Surviving.antt =====
-- The records that survive when a file of frames is cut at any byte.
use marchiq.Base.{
  ℕ, zero, suc, ◌-◌, ◌≤◌, ◌≡◌, refl, List, [], ◌∷◌, length, length-append, take, leb, if◌then◌else◌,
  arith,
}
use marchiq.Codec.{Record, frame_of}
use marchiq.Codec.RoundTrip.{frame_length, length-frame_of}
use marchiq.Log.View.{frames}

-- The records whose frames lie whole within the first `k` bytes.
abbrev pub surviving : ℕ → List Record → List Record
surviving k [] = []
surviving k (r ∷ rs) =
    let rest = surviving (k - frame_length r) rs in if leb (frame_length r) k then r ∷ rest else []

pub surviving-le : (k : ℕ) (rs : List Record) → length (frames (surviving k rs)) ≤ k
surviving-le k [] = omega arith
surviving-le k (r ∷ rs) = ground (
  arith,
  surviving-le (k - frame_length r) rs,
  length-append (frame_of r) (frames (surviving (k - frame_length r) rs)),
  length-frame_of r,
)

-- They are a prefix of the records, and a record whose frame ended within `k` bytes is among them.
pub surviving-prefix :
    (k : ℕ) (rs : List Record) → surviving k rs ≡ take (length (surviving k rs)) rs
surviving-prefix k [] = refl
surviving-prefix k (r ∷ rs) = ground (arith, surviving-prefix (k - frame_length r) rs)

pub surviving-keeps :
    (k i : ℕ) (rs : List Record)
    → length (frames (take i rs)) ≤ k
    → i ≤ length rs
    → i ≤ length (surviving k rs)
surviving-keeps k zero rs h le = omega arith
surviving-keeps k (suc i) [] h le = absurd (omega arith)
surviving-keeps k (suc i) (r ∷ rs) h le = ground (
  arith,
  length-append (frame_of r) (frames (take i rs)),
  length-frame_of r,
  surviving-keeps (k - frame_length r) i rs,
)

-- Where nothing was lost, all records survive.
pub surviving_all : (k : ℕ) (rs : List Record) → length (frames rs) ≤ k → surviving k rs ≡ rs
surviving_all k [] h = refl
surviving_all k (r ∷ rs) h = ground (
  arith,
  length-append (frame_of r) (frames rs),
  length-frame_of r,
  surviving_all (k - frame_length r) rs,
)
