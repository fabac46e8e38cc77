-- ===== src/Storage/Files.antt =====
-- services/storage/src/services/file.service.ts: the files of an owner. A call of the provider ticks
-- as one of the database does, and may throw.
pub mod Lifecycle
use graphql_prisma_postgres.Prelude.{
  ℕ, Bool, true, false, not, ◌&&◌, ◌||◌, Option, none, some, List, [], ◌∷◌, ◌==◌, if◌then◌else◌,
  any, find?, keep, update_where, elem, length,
}
use graphql_prisma_postgres.Effects.{p2025}
use graphql_prisma_postgres.Storage.State.{
  FileStatus, pending, uploaded, failed, deleted, StoredFile, Store, StoreEnv, Provider,
  bad_request, access_denied, missing_row, provider_failed, database, Answer, answer, failure, S,
  return, fail, ◌>>=◌, ◌>>◌, demand, or_fail, query, statement, tick,
}
use graphql_prisma_postgres.Storage.ShareLinks.{is_uploaded}

abbrev pub is_file : ℕ → StoredFile → Bool
is_file id f = f.id == id

-- A call of the provider: it throws where it has no result.
unfoldable pub ask : {A : Type 0} → (Provider → ℕ → Option A) → S A
ask f env w = elim (f env.provider w.calls) [
  | none ↦ (failure provider_failed, tick env w)
  | some a ↦ (answer a, tick env w)
]

unfoldable pub attempt : (Provider → ℕ → Bool) → S (Unit {0})
attempt f env w =
    if f env.provider w.calls
    then (answer tt, tick env w)
    else (failure provider_failed, tick env w)

-- In a `try` whose `catch` goes on.
unfoldable pub quietly : (Provider → ℕ → Bool) → S (Unit {0})
quietly f env w = (answer tt, tick env w)

unfoldable pub find_file : ℕ → S (Option StoredFile)
unfolding query
find_file id = query (λ w. find? (is_file id) w.files)

unfoldable pub own_file : ℕ → ℕ → S StoredFile
own_file id owner = do
  found ← find_file id
  file ← or_fail found missing_row
  demand (file.owner_id == owner) access_denied
  return file

-- `prisma.file.update`
unfoldable pub update_file_row : ℕ → (StoredFile → StoredFile) → Store → Answer StoredFile × Store
update_file_row id f w = elim (find? (is_file id) w.files) [
  | none ↦ (failure (database p2025), w)
  | some row ↦ (answer (f row), record w { files = update_where (is_file id) f w.files })
]

-- `resolveFileUrl`
unfoldable pub resolve_file_url : StoredFile → S ℕ
resolve_file_url file env w =
    if env.file_proxy_mode
    then (answer (env.proxy_url file.id), w)
    else if file.is_public
    then (answer (env.provider.get_public_url file.storage_key), w)
    else ask (λ p n. p.generate_signed_download_url n file.storage_key) env w

pub record FileWithUrl : Type 0 where
  pub file : StoredFile
  pub url : ℕ

abbrev pub may_read : ℕ → StoredFile → Bool
may_read owner file = file.is_public || file.owner_id == owner

abbrev pub with_url : StoredFile → S FileWithUrl
with_url file = resolve_file_url file >>= (λ url. return (record { file = file; url = url }))

-- `getFileById`
unfoldable pub get_file_by_id : ℕ → ℕ → S (Option FileWithUrl)
get_file_by_id id owner = do
  found ← find_file id
  elim found [
    | none ↦ return none
    | some file ↦
        demand (may_read owner file) access_denied
        >> (with_url file >>= (λ shown. return (some shown)))
  ]

-- `getFileDownloadUrl`
unfoldable pub get_file_download_url : ℕ → ℕ → S ℕ
get_file_download_url id owner = do
  found ← find_file id
  file ← or_fail found missing_row
  demand (may_read owner file) access_denied
  resolve_file_url file

pub record FileStream : Type 0 where
  pub stream : ℕ
  pub mime_type : ℕ
  pub size : ℕ
  pub filename : List ℕ

-- `getFileStream`
unfoldable pub get_file_stream : ℕ → S FileStream
get_file_stream id = do
  found ← find_file id
  file ← or_fail found missing_row
  demand (is_uploaded file.status) missing_row
  stream ← ask (λ p n. p.get_file_stream n file.storage_key)
  return (record {
    stream = stream;
    mime_type = file.mime_type;
    size = file.size;
    filename = file.original_name;
  })

-- The objects of some files, each deleted or not.
unfoldable pub delete_objects : List StoredFile → S (Unit {0})
delete_objects [] = return tt
delete_objects (f ∷ fs) = quietly (λ p n. p.delete_file n f.storage_key) >> delete_objects fs

abbrev pub set_file_status : FileStatus → StoredFile → StoredFile
set_file_status status f = record f { status = status }

abbrev pub is_among : List ℕ → StoredFile → Bool
is_among ids f = elem f.id ids

-- `prisma.file.updateMany` by ids.
unfoldable pub mark_deleted : List ℕ → Store → Answer (Unit {0}) × Store
mark_deleted ids w =
    (answer tt, record w { files = update_where (is_among ids) (set_file_status deleted) w.files })

abbrev pub is_foreign : ℕ → StoredFile → Bool
is_foreign owner f = not (f.owner_id == owner)

abbrev pub is_unlisted : List StoredFile → ℕ → Bool
is_unlisted fs id = not (any (is_file id) fs)

abbrev pub is_none : List ℕ → Bool
is_none [] = true
is_none (_ ∷ _) = false

-- `deleteFiles`, which answers how many there were.
unfoldable pub delete_files : List ℕ → ℕ → S ℕ
unfolding query statement
delete_files ids owner = do
  demand (not (is_none ids)) bad_request
  files ← query (λ w. keep (is_among ids) w.files)
  demand (not (any (is_foreign owner) files)) access_denied
  demand (not (any (is_unlisted files) ids)) missing_row
  delete_objects files
  statement (mark_deleted ids)
  return (length files)

abbrev pub set_is_public : Bool → StoredFile → StoredFile
set_is_public b f = record f { is_public = b }

-- `toggleFilePublic`
unfoldable pub toggle_file_public : ℕ → ℕ → S StoredFile
unfolding statement
toggle_file_public id owner = do
  file ← own_file id owner
  attempt (λ p n. p.set_file_visibility n file.storage_key (not file.is_public))
  statement (update_file_row id (set_is_public (not file.is_public)))

abbrev pub set_is_public? : Option Bool → StoredFile → StoredFile
set_is_public? none f = f
set_is_public? (some b) f = record f { is_public = b }

-- The provider is told of a visibility that changes.
abbrev pub tell_visibility : Option Bool → StoredFile → S (Unit {0})
tell_visibility none file = return tt
tell_visibility (some b) file =
    if (b && file.is_public) || (not b && not file.is_public)
    then return tt
    else attempt (λ p n. p.set_file_visibility n file.storage_key b)

-- `updateFile`
unfoldable pub update_file : ℕ → ℕ → Option Bool → S StoredFile
unfolding statement
update_file id owner is_public = do
  file ← own_file id owner
  tell_visibility is_public file
  statement (update_file_row id (set_is_public? is_public))
