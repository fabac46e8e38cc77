-- ===== src/Storage/ShareLinks.antt =====
-- services/storage/src/services/share-link.service.ts, and the guards of the routes of
-- services/storage/src/routes/share.routes.ts that serve a shared file or folder.
pub mod Views
pub mod Granted
pub mod Shared
use graphql_prisma_postgres.Prelude.{
  ℕ, ◌+◌, ◌*◌, Bool, true, false, not, ◌&&◌, ◌||◌, Option, none, some, List, [], ◌∷◌, ltb, leb,
  ◌==◌, if◌then◌else◌, any, find?, keep, update_where, some_truthy, truthy, length,
}
use graphql_prisma_postgres.Effects.{p2025}
use graphql_prisma_postgres.Storage.State.{
  FileStatus, uploaded, StoredFile, Folder, ShareLink, Store, StoreEnv, bad_request, access_denied,
  missing_row, database, answer, failure, S, return, fail, ◌>>=◌, ◌>>◌, demand, or_fail, query,
  statement,
}

-- `DEFAULT_EXPIRY_MINUTES`
abbrev pub default_expiry_minutes : ℕ
default_expiry_minutes = 60 * 24 * 7

pub record CreateShareLinkInput : Type 0 where
  pub file_id : Option ℕ
  pub folder_id : Option ℕ
  pub owner_id : ℕ
  pub expires_in_minutes : Option ℕ
  pub max_views : Option ℕ
  pub password : Option ℕ

abbrev pub is_uploaded : FileStatus → Bool
is_uploaded uploaded = true
is_uploaded _ = false

-- The owner's file, which is uploaded; the owner's folder.
unfoldable pub verify_file : Option ℕ → ℕ → S (Unit {0})
unfolding query
verify_file none owner = return tt
verify_file (some id) owner =
    if truthy id
    then (do
      found ← query (λ w. find? (λ f. f.id == id) w.files)
      file ← or_fail found missing_row
      demand (file.owner_id == owner) access_denied
      demand (is_uploaded file.status) bad_request)
    else return tt

unfoldable pub verify_folder : Option ℕ → ℕ → S (Unit {0})
unfolding query
verify_folder none owner = return tt
verify_folder (some id) owner =
    if truthy id
    then (do
      found ← query (λ w. find? (λ f. f.id == id) w.folders)
      folder ← or_fail found missing_row
      demand (folder.owner_id == owner) access_denied)
    else return tt

abbrev pub minutes_or_default : Option ℕ → ℕ
minutes_or_default none = default_expiry_minutes
minutes_or_default (some m) = m

abbrev pub hash_or_none : (ℕ → ℕ) → Option ℕ → Option ℕ
hash_or_none sha256 none = none
hash_or_none sha256 (some password) = if truthy password then some (sha256 password) else none

abbrev pub new_share_link : CreateShareLinkInput → StoreEnv → Store → ShareLink
new_share_link input env w = record {
  id = env.cuid (2 * w.calls);
  token = env.cuid (2 * w.calls + 1);
  file_id = input.file_id;
  folder_id = input.folder_id;
  owner_id = input.owner_id;
  expires_at = w.clock + minutes_or_default input.expires_in_minutes * 60 * 1000;
  max_views = input.max_views;
  views = 0;
  password = hash_or_none env.sha256 input.password;
}

unfoldable pub insert_share_link : CreateShareLinkInput → S ShareLink
unfolding statement
insert_share_link input env w =
    let l = new_share_link input env w in
    statement (λ v. (answer l, record v { links = l ∷ v.links })) env w

unfoldable pub create_share_link : CreateShareLinkInput → S ShareLink
create_share_link input = do
  demand (some_truthy input.file_id || some_truthy input.folder_id) bad_request
  demand (not (some_truthy input.file_id && some_truthy input.folder_id)) bad_request
  verify_file input.file_id input.owner_id
  verify_folder input.folder_id input.owner_id
  insert_share_link input

-- The link has a view left.
abbrev pub has_view_left : ShareLink → Bool
has_view_left l = elim l.max_views [ none ↦ true | some most ↦ ltb l.views most ]

abbrev pub live_link : ℕ → Option ShareLink → Option ShareLink
live_link date none = none
live_link date (some l) = if leb date l.expires_at && has_view_left l then some l else none

-- `getShareLinkByToken`; the date is that of the answer.
unfoldable pub get_share_link_by_token : ℕ → S (Option ShareLink)
unfolding query
get_share_link_by_token token =
    query (λ w. live_link w.clock (find? (λ l. l.token == token) w.links))

-- `verifyShareLinkPassword`
abbrev pub verify_share_link_password : (ℕ → ℕ) → ShareLink → ℕ → Bool
verify_share_link_password sha256 l password = elim l.password [
  | none ↦ true
  | some hash ↦ not (truthy hash) || sha256 password == hash
]

abbrev pub count_view : ShareLink → ShareLink
count_view l = record l { views = l.views + 1 }

-- `incrementShareLinkViews`; a row that is not there is an error of the database.
unfoldable pub increment_share_link_views : ℕ → S (Unit {0})
unfolding statement
increment_share_link_views id = statement λ w. elim (find? (λ l. l.id == id) w.links) [
  | none ↦ (failure (database p2025), w)
  | some _ ↦ (answer tt, record w { links = update_where (λ l. l.id == id) count_view w.links })
]

-- The guard of a link with a password; the empty password is none.
abbrev pub passes_password : (ℕ → ℕ) → ShareLink → ℕ → Bool
passes_password sha256 l password =
    not (some_truthy l.password)
    || (truthy password && verify_share_link_password sha256 l password)

-- `GET /:token` up to the content: the link is live, the password is right, and the view is counted.
unfoldable pub access_shared : ℕ → ℕ → S ShareLink
access_shared token password env w =
    (do
      found ← get_share_link_by_token token
      link ← or_fail found missing_row
      demand (passes_password env.sha256 link password) access_denied
      increment_share_link_views link.id
      return link)
      env w

-- The link is to a file that is there.
abbrev pub has_shared_file : List StoredFile → ShareLink → Bool
has_shared_file files l = elim l.file_id [
  | none ↦ false
  | some id ↦ truthy id && any (λ f. f.id == id) files
]

-- `GET /:token/download` up to the content; the file is read with its link.
unfoldable pub download_shared : ℕ → ℕ → S ShareLink
download_shared token password env w =
    (do
      found ← get_share_link_by_token token
      link ← or_fail found missing_row
      demand (has_shared_file w.files link) missing_row
      demand (passes_password env.sha256 link password) access_denied
      increment_share_link_views link.id
      return link)
      env w

-- `deleteShareLink`
unfoldable pub delete_share_link : ℕ → ℕ → S Bool
unfolding query statement
delete_share_link id owner = do
  found ← query (λ w. find? (λ l. l.id == id) w.links)
  link ← or_fail found missing_row
  demand (link.owner_id == owner) access_denied
  statement (λ w. (answer tt, record w { links = keep (λ l. not (l.id == id)) w.links }))
  return true

-- `cleanupExpiredShareLinks`: how many links were deleted.
unfoldable pub cleanup_expired_share_links : S ℕ
unfolding statement
cleanup_expired_share_links = statement λ w. (
  answer (length (keep (λ l. ltb l.expires_at w.clock) w.links)),
  record w { links = keep (λ l. not (ltb l.expires_at w.clock)) w.links },
)
