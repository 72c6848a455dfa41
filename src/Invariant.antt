-- ===== src/Invariant.antt =====
-- The state of a broker between two requests: every partition is valid and can come back from a
-- crash, and a topic has as many partitions as its configuration says.
pub mod Producing
pub mod Sweeping
pub mod Reading
pub mod Delivery
pub mod Reach
pub mod Recovery
pub mod Tests
use marchiq.Base.{
  ℕ, zero, suc, ◌≡◌, refl, ap, ◌∙◌, pos, List, [], ◌∷◌, length, get_elem?, Option, none, some, All,
  ok, err, Result, arith, negsuc, ℤ,
}
use mathlib.Core.Path.{subst}
use marchiq.Names.{Name, eq_name}
use marchiq.Maps.{get, get-All}
use marchiq.Codec.{Record}
use marchiq.Log.{PartitionLog}
use marchiq.Log.View.{IsValid}
use marchiq.Log.Open.Reopen.{Recoverable}
use marchiq.Broker.{Broker, Topic, replace}

abbrev pub IsSound : PartitionLog → Type 0
IsSound p = ((all : List Record) × IsValid p all) × Recoverable p

pub record IsTopicSound (t : Topic) : Type 0 where
  pub partitions : All IsSound t.partitions
  pub counted : t.config.partitions ≡ pos (length t.partitions)

abbrev pub AreSound : List (Name × Topic) → Type 0
AreSound ts = All (λ e. IsTopicSound e.1) ts

abbrev pub SoundAfter : {A : Type 0} → A × Broker → Type 0
SoundAfter x = AreSound x.1.topics

pub get_elem?-All {ℓ κ} :
    {A : Type ℓ} (P : A → Type κ) (xs : List A) (n : ℕ) (x : A)
    → All P xs
    → get_elem? xs n ≡ some x
    → P x
get_elem?-All P [] n x h e = cc
get_elem?-All P (y ∷ ys) zero x h e = subst P (some-injective e) h.0
  where
    some-injective : some y ≡ some x → y ≡ x
    some-injective i = cc
get_elem?-All P (y ∷ ys) (suc n) x h e = get_elem?-All P ys n x h.1 e

pub replace-All :
    {A : Type 0} (P : A → Type 0) (n : ℕ) (x : A) (xs : List A)
    → P x
    → All P xs
    → All P (replace n x xs)
replace-All P n x [] p h = tt
replace-All P zero x (y ∷ ys) p h = (p, h.1)
replace-All P (suc n) x (y ∷ ys) p h = (h.0, replace-All P n x ys p h.1)

pub length-replace :
    {A : Type 0} (n : ℕ) (x : A) (xs : List A) → length (replace n x xs) ≡ length xs
length-replace n x [] = refl
length-replace zero x (y ∷ ys) = refl
length-replace (suc n) x (y ∷ ys) = ap suc (length-replace n x ys)
