-- ===== src/Storage/ShareLinks/Shared.antt =====
-- The route `GET /:token/file/:fileId` of services/storage/src/routes/share.routes.ts.
use graphql_prisma_postgres.Prelude.{
  ℕ, ◌≤◌, ◌≡◌, ◌⊎◌, inl, inr, refl, ap, ◌∙◌, Bool, true, false, ◌||◌, Option, none, some, List,
  arith, Option-cases, Bool-cases, ◌==◌, if◌then◌else◌, find?, find?-some, truthy,
}
use mathlib.Core.Path.{subst}
use mathlib.Core.List.{Memᴰ}
use graphql_prisma_postgres.Storage.State.{
  StoredFile, Folder, ShareLink, Store, StoreEnv, missing_row, access_denied, answer, FileStatus,
  pending, failed, deleted, S, return, ◌>>=◌, ◌>>◌, demand, or_fail, query, tick, uploaded,
}
use graphql_prisma_postgres.Storage.Paths.Prefixes.{IsUnder, is_under, IsUnder-of}
use graphql_prisma_postgres.Storage.Rows.{find?-Memᴰ}
use graphql_prisma_postgres.Storage.Folders.Tree.{IsTree}
use graphql_prisma_postgres.Storage.Folders.Tree.Owners.{owner_under}
use graphql_prisma_postgres.Storage.ShareLinks.{
  is_uploaded, has_view_left, get_share_link_by_token, passes_password,
}

abbrev pub truthy_key : Option ℕ → Option ℕ
truthy_key none = none
truthy_key (some id) = if truthy id then some id else none

-- The file with its folder.
abbrev pub folder_of : Store → StoredFile → Option Folder
folder_of w f = elim f.folder_id [ none ↦ none | some id ↦ find? (λ g. g.id == id) w.folders ]

abbrev pub with_folder : Store → Option StoredFile → Option (StoredFile × Option Folder)
with_folder w none = none
with_folder w (some f) = some (f, folder_of w f)

-- The file is in the folder, or in one whose path goes on behind its path and a slash.
abbrev pub is_in_shared : Folder → StoredFile × Option Folder → Bool
is_in_shared root (f, folder) =
    elim f.folder_id [ none ↦ false | some id ↦ id == root.id ]
    || elim folder [ none ↦ false | some g ↦ is_under root.path g.path ]

-- The uploaded file, which is in the folder or below it.
unfoldable pub file_in_root : ℕ → ℕ → S StoredFile
unfolding query
file_in_root root_id file_id = do
  stored ← query (λ w. with_folder w (find? (λ f. f.id == file_id) w.files))
  file ← or_fail stored missing_row
  demand (is_uploaded file.0.status) missing_row
  there ← query (λ w. find? (λ g. g.id == root_id) w.folders)
  root ← or_fail there missing_row
  demand (is_in_shared root file) access_denied
  return file.0

-- The route up to the content.
unfoldable pub file_of_shared : ℕ → ℕ → ℕ → S StoredFile
file_of_shared token file_id password env w =
    (do
      found ← get_share_link_by_token token
      link ← or_fail found missing_row
      root_id ← or_fail (truthy_key link.folder_id) missing_row
      demand (passes_password env.sha256 link password) access_denied
      file_in_root root_id file_id)
      env w

-- The uploaded file is in the folder, or in one below it, of the same owner.
pub record IsInRoot (root_id file_id : ℕ) (files : List StoredFile) (folders : List Folder)
    (f : StoredFile) : Type 0 where
  pub stored : find? (λ g. g.id == file_id) files ≡ some f
  pub is_ready : f.status ≡ uploaded
  pub root : Folder
  pub root_stored : find? (λ g. g.id == root_id) folders ≡ some root
  pub folder : Folder
  pub folder_stored : Memᴰ folder folders
  pub holds : f.folder_id ≡ some folder.id
  pub below : (folder ≡ root) ⊎ (IsUnder root.path folder.path)
  pub same_owner : folder.owner_id ≡ root.owner_id

uploaded_of : (s : FileStatus) → is_uploaded s ≡ true → s ≡ uploaded
uploaded_of pending h = absurd (ground (arith, h))
uploaded_of uploaded h = refl
uploaded_of failed h = absurd (ground (arith, h))
uploaded_of deleted h = absurd (ground (arith, h))

-- A file that passes is in the folder or in one under it.
Placed : Folder → List Folder → StoredFile → Type 0
Placed root folders f =
    (g : Folder) × (Memᴰ g folders
      × (f.folder_id ≡ some g.id)
      × ((g ≡ root) ⊎ (IsUnder root.path g.path)))

is_in_shared-Placed :
    (root : Folder) (f : StoredFile) (v : Store)
    → Memᴰ root v.folders
    → is_in_shared root (f, folder_of v f) ≡ true
    → Placed root v.folders f
unfolding Placed
is_in_shared-Placed root f v present h = elim (Option-cases f.folder_id) [
  | inl loose ↦ absurd (ground (arith, h, loose))
  | inr (id, inside) ↦ elim (Bool-cases (id == root.id)) [
    | inl here ↦
        let same : id ≡ root.id = ground (arith, here) in
        (root, (present, inside ∙ ap some same, inl refl))
    | inr there ↦ elim (Option-cases (find? (λ g. g.id == id) v.folders)) [
      | inl missing ↦ absurd (ground (arith, h, inside, there, missing))
      | inr (g, found) ↦
          let named = find?-some (λ j. j.id == id) v.folders g found in
          let same : id ≡ g.id = ground (arith, named) in
          let under : is_under root.path g.path ≡ true = ground (arith, h, inside, there, found) in
          (
            g,
            (
              find?-Memᴰ (λ j. j.id == id) v.folders g found,
              inside ∙ ap some same,
              inr (IsUnder-of root.path g.path under),
            ),
          )
    ]
  ]
]

same_owner_of :
    (fs : List Folder) (root g : Folder)
    → IsTree fs
    → Memᴰ root fs
    → Memᴰ g fs
    → (g ≡ root) ⊎ (IsUnder root.path g.path)
    → g.owner_id ≡ root.owner_id
same_owner_of fs root g tree present mg (inl is_root) = ap (λ j. j.owner_id) is_root
same_owner_of fs root g tree present mg (inr under) = owner_under fs tree root present g mg under

IsInRoot-of :
    (root_id file_id : ℕ) (w : Store) (f : StoredFile) (root : Folder)
    → IsTree w.folders
    → find? (λ g. g.id == file_id) w.files ≡ some f
    → find? (λ g. g.id == root_id) w.folders ≡ some root
    → is_uploaded f.status ≡ true
    → is_in_shared root (f, folder_of w f) ≡ true
    → IsInRoot root_id file_id w.files w.folders f
unfolding Placed
IsInRoot-of root_id file_id w f root tree stored there ready passes =
    let present = find?-Memᴰ (λ g. g.id == root_id) w.folders root there in
    let (g, (mg, inside, below)) = is_in_shared-Placed root f w present passes in
    record {
      stored = stored;
      is_ready = uploaded_of f.status ready;
      root = root;
      root_stored = there;
      folder = g;
      folder_stored = mg;
      holds = inside;
      below = below;
      same_owner = same_owner_of w.folders root g tree present mg below;
    }

file_in_root-IsInRoot :
    (root_id file_id : ℕ) (env : StoreEnv) (w : Store) (f : StoredFile)
    → IsTree w.folders
    → (file_in_root root_id file_id env w).0 ≡ answer f
    → IsInRoot root_id file_id w.files w.folders f
unfolding file_in_root query
file_in_root-IsInRoot root_id file_id env w f tree e =
    elim (Option-cases (find? (λ g. g.id == file_id) w.files)) [
      | inl missing ↦ absurd (ground (arith, e, missing))
      | inr (h, stored) ↦ elim (Option-cases (find? (λ g. g.id == root_id) w.folders)) [
        | inl missing ↦ absurd (ground (arith, e, stored, missing))
        | inr (root, there) ↦
            let same : h ≡ f = ground (arith, e, stored, there) in
            let ready : is_uploaded h.status ≡ true = ground (arith, e, stored) in
            let passes : is_in_shared root (h, folder_of w h) ≡ true =
              ground (arith, e, stored, there, ready) in
            subst (IsInRoot root_id file_id w.files w.folders) same
              (IsInRoot-of root_id file_id w h root tree stored there ready passes)
      ]
    ]

-- What a request with a token and a password reads of a link's folder.
pub record IsShared (token file_id password : ℕ) (env : StoreEnv) (w : Store) (f : StoredFile)
    : Type 0 where
  pub link : ShareLink
  pub found : find? (λ l. l.token == token) w.links ≡ some link
  pub is_left : has_view_left link ≡ true
  pub in_time : (tick env w).clock ≤ link.expires_at
  pub passes : passes_password env.sha256 link password ≡ true
  pub root_id : ℕ
  pub shared : link.folder_id ≡ some root_id
  pub placed : IsInRoot root_id file_id w.files w.folders f

-- A file that the route `GET /:token/file/:fileId` goes on to, where the folders are a tree, is the file
-- of the request; it is uploaded, and it is in the folder of the token's link or in one below it, which
-- has the same owner; the link has not expired, has a view left, and the password is right.
pub file_of_shared-IsShared :
    (token file_id password : ℕ) (env : StoreEnv) (w : Store) (f : StoredFile)
    → IsTree w.folders
    → (file_of_shared token file_id password env w).0 ≡ answer f
    → IsShared token file_id password env w f
unfolding file_of_shared get_share_link_by_token query
file_of_shared-IsShared token file_id password env w f tree e =
    elim (Option-cases (find? (λ l. l.token == token) w.links)) [
      | inl missing ↦ absurd (ground (arith, e, missing))
      | inr (k, found) ↦ elim (Option-cases k.folder_id) [
        | inl bare ↦ absurd (ground (arith, e, found, bare))
        | inr (root_id, shared) ↦
            let in_time : (tick env w).clock ≤ k.expires_at = ground (arith, e, found) in
            let left : has_view_left k ≡ true = ground (arith, e, found) in
            let passes : passes_password env.sha256 k password ≡ true =
              ground (arith, e, found, shared, left) in
            let e' : (file_in_root root_id file_id env (tick env w)).0 ≡ answer f =
              ground (arith, e, found, shared, left, passes) in
            record {
              link = k;
              found = found;
              is_left = left;
              in_time = in_time;
              passes = passes;
              root_id = root_id;
              shared = shared;
              placed = file_in_root-IsInRoot root_id file_id env (tick env w) f tree e';
            }
      ]
    ]
