-- ===== src/Storage/Files/Lifecycle.antt =====
-- What may become of a file: pending at first, then uploaded, failed or gone; and deleted in the end.
pub mod Tables
pub mod Reading
pub mod Changes
pub mod Pending
pub mod Created
pub mod Cleaned
pub mod Reach
pub mod Over
use graphql_prisma_postgres.Prelude.{ℕ, ◌≡◌, ◌≢◌, ◌⊎◌, List}
use mathlib.Core.List.{Memᴰ}
use graphql_prisma_postgres.Storage.State.{
  FileStatus, pending, uploaded, failed, deleted, StoredFile,
}

pub data StatusMove : FileStatus → FileStatus → Type 0 where
  stays : (s : FileStatus) → StatusMove s s
  confirms : StatusMove pending uploaded
  misses : StatusMove pending failed
  deletes : (s : FileStatus) → StatusMove s deleted

-- The row of the same file before and after; its owner, its object and its place stay.
pub record IsNextOf (f g : StoredFile) : Type 0 where
  pub id : g.id ≡ f.id
  pub owner_id : g.owner_id ≡ f.owner_id
  pub storage_key : g.storage_key ≡ f.storage_key
  pub folder_id : g.folder_id ≡ f.folder_id
  pub status : StatusMove f.status g.status

abbrev pub HasIds : List StoredFile → Type 0
HasIds fs = (f g : StoredFile) → Memᴰ f fs → Memᴰ g fs → f.id ≡ g.id → f ≡ g

-- A table after a step for some owners: its rows are those before, each a step on, or new pending ones;
-- only a pending row goes; and the rows of the others are as they were.
pub record IsStep (Mine : ℕ → Type 0) (fs gs : List StoredFile) : Type 0 where
  pub ids : HasIds gs
  pub origin :
      (g : StoredFile)
      → Memᴰ g gs
      → ((f : StoredFile) × (Memᴰ f fs × IsNextOf f g))
        ⊎ ((g.status ≡ pending) × ((f : StoredFile) → Memᴰ f fs → f.id ≢ g.id))
  pub future :
      (f : StoredFile)
      → Memᴰ f fs
      → ((g : StoredFile) × (Memᴰ g gs × IsNextOf f g)) ⊎ (f.status ≡ pending)
  pub others : (f : StoredFile) → Memᴰ f fs → ¬ Mine f.owner_id → Memᴰ f gs
