-- ===== src/Storage/Files/Lifecycle/Over.antt =====
-- A file that failed or was deleted.
use graphql_prisma_postgres.Prelude.{ℕ, ◌≡◌, ◌≢◌, Bool, true, false, List}
use mathlib.Core.List.{Memᴰ}
use graphql_prisma_postgres.Storage.State.{
  FileStatus, pending, uploaded, failed, deleted, StoredFile, Store, Answer, answer,
}
use graphql_prisma_postgres.Storage.Files.{FileStream}

abbrev pub is_over : FileStatus → Bool
is_over pending = false
is_over uploaded = false
is_over failed = true
is_over deleted = true

-- The file is there, and over.
IsOverIn : List StoredFile → ℕ → Type 0
IsOverIn fs id = (g : StoredFile) × (Memᴰ g fs × (g.id ≡ id) × (is_over g.status ≡ true))

-- The answer is not a stream.
abbrev IsRefused : Answer FileStream × Store → Type 0
IsRefused r = (s : FileStream) → r.0 ≢ answer s
