-- ===== src/Saving.antt =====
-- The protocol by which storage/topic.go (`saveCatalog`) and storage/group.go (`saveGroupsLocked`)
-- replace a file: write a temporary file, sync it, rename it over the live one, sync the directory.
use marchiq.Base.{◌≡◌, Bool, true, false, not, ◌⊎◌, if◌then◌else◌, arith}

-- Whether each call succeeds. `encode` is `json.MarshalIndent`.
pub record SaveIo : Type 0 where
  pub encode : Bool
  pub open_tmp : Bool
  pub write : Bool
  pub sync : Bool
  pub close : Bool
  pub rename : Bool
  pub sync_dir : Bool

-- Whether the save succeeded, and what the live file holds then.
unfoldable pub save {ℓ} : {A : Type ℓ} → SaveIo → A → A → Bool × A
save io old new =
    if not io.encode
    then (false, old)
    else if not io.open_tmp
    then (false, old)
    else if not io.write
    then (false, old)
    else if not io.sync
    then (false, old)
    else if not io.close
    then (false, old)
    else if not io.rename
    then (false, old)
    else (io.sync_dir, new)

-- A save that succeeds leaves the new state.
pub saved_file {ℓ} :
    {A : Type ℓ} (io : SaveIo) (old new : A)
    → (save io old new).0 ≡ true
    → (save io old new).1 ≡ new
unfolding save
saved_file io old new = ground arith

-- Every step up to the rename succeeded, and only the last one failed: the sync of the directory.
abbrev pub OnlyLastFailed : SaveIo → Type 0
OnlyLastFailed io =
    (io.encode ≡ true)
    × (io.open_tmp ≡ true)
    × (io.write ≡ true)
    × (io.sync ≡ true)
    × (io.close ≡ true)
    × (io.rename ≡ true)
    × (io.sync_dir ≡ false)

-- A save that fails leaves the old state, unless only its last step failed.
pub unsaved_file {ℓ} :
    {A : Type ℓ} (io : SaveIo) (old new : A)
    → (save io old new).0 ≡ false
    → ((save io old new).1 ≡ old) ⊎ (((save io old new).1 ≡ new) × OnlyLastFailed io)
unfolding save
unsaved_file io old new = ground arith
