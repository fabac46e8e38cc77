-- ===== src/Storage/Uploads/Settling.antt =====
-- services/storage/src/services/upload.service.ts: a pending upload is confirmed, found missing,
-- cancelled or too late.
use graphql_prisma_postgres.Prelude.{
  ℕ, Bool, true, false, not, ◌&&◌, Option, none, some, List, [], ◌∷◌, ◌==◌, ltb, find?, keep, elem,
  length,
}
use graphql_prisma_postgres.Effects.{p2025}
use graphql_prisma_postgres.Storage.State.{
  FileStatus, pending, uploaded, failed, StoredFile, ShareLink, Store, bad_request, database,
  Answer, answer, failure, S, return, fail, ◌>>=◌, ◌>>◌, demand, query, statement,
}
use graphql_prisma_postgres.Storage.Folders.{is_in}
use graphql_prisma_postgres.Storage.Files.{
  is_file, is_among, ask, attempt, quietly, own_file, update_file_row, set_file_status,
  delete_objects, FileWithUrl, with_url,
}

abbrev pub is_pending_status : FileStatus → Bool
is_pending_status pending = true
is_pending_status _ = false

abbrev pub set_uploaded : StoredFile → StoredFile
set_uploaded f = record f { status = uploaded; expires_at = none }

-- The object is there, or the upload has failed.
unfoldable pub settle_upload : StoredFile → Bool → S FileWithUrl
unfolding statement
settle_upload file false =
    statement (update_file_row file.id (set_file_status failed)) >> fail bad_request
settle_upload file true = do
  attempt (λ p n. p.set_file_visibility n file.storage_key file.is_public)
  updated ← statement (update_file_row file.id set_uploaded)
  with_url updated

-- `confirmUpload`
unfoldable pub confirm_upload : ℕ → ℕ → S FileWithUrl
confirm_upload id owner = do
  file ← own_file id owner
  demand (is_pending_status file.status) bad_request
  exists ← ask (λ p n. p.file_exists n file.storage_key)
  settle_upload file exists

abbrev pub is_file_of : ℕ → ShareLink → Bool
is_file_of id l = is_in id l.file_id

abbrev pub is_other_file : ℕ → StoredFile → Bool
is_other_file id f = not (f.id == id)

-- `prisma.file.delete`: the links to it go with it.
unfoldable pub remove_file : ℕ → Store → Answer (Unit {0}) × Store
remove_file id w = elim (find? (is_file id) w.files) [
  | none ↦ (failure (database p2025), w)
  | some _ ↦ (
    answer tt,
    record w {
      files = keep (is_other_file id) w.files;
      links = keep (λ l. not (is_file_of id l)) w.links;
    },
  )
]

-- `cancelUpload`
unfoldable pub cancel_upload : ℕ → ℕ → S Bool
unfolding statement
cancel_upload id owner = do
  file ← own_file id owner
  demand (is_pending_status file.status) bad_request
  quietly (λ p n. p.delete_file n file.storage_key)
  statement (remove_file id)
  return true

abbrev pub is_late : ℕ → Option ℕ → Bool
is_late now none = false
is_late now (some t) = ltb t now

abbrev pub is_expired_pending : ℕ → StoredFile → Bool
is_expired_pending now f = is_pending_status f.status && is_late now f.expires_at

abbrev pub id_of : List StoredFile → List ℕ
id_of [] = []
id_of (f ∷ fs) = f.id ∷ id_of fs

abbrev pub is_link_among : List ℕ → ShareLink → Bool
is_link_among ids l = elim l.file_id [ none ↦ false | some id ↦ elem id ids ]

-- `prisma.file.deleteMany` by ids.
unfoldable pub remove_files : List ℕ → Store → Answer (Unit {0}) × Store
remove_files ids w = (
  answer tt,
  record w {
    files = keep (λ f. not (is_among ids f)) w.files;
    links = keep (λ l. not (is_link_among ids l)) w.links;
  },
)

-- `cleanupExpiredPendingFiles`, which answers how many there were.
unfoldable pub cleanup_expired_pending_files : S ℕ
unfolding query statement
cleanup_expired_pending_files env w =
    (do
      expired ← query (λ v. keep (is_expired_pending w.clock) v.files)
      delete_objects expired
      statement (remove_files (id_of expired))
      return (length expired))
      env w
