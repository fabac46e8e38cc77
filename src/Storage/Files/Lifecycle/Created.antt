-- ===== src/Storage/Files/Lifecycle/Created.antt =====
-- A file that is created.
use graphql_prisma_postgres.Prelude.{
  ℕ, ◌≡◌, inl, inr, refl, sym, ◌∙◌, false, Option, none, some, List, [], ◌∷◌, Bool-cases, find?,
  any, ◌==◌, truthy,
}
use mathlib.Core.Path.{subst}
use graphql_prisma_postgres.Storage.State.{
  pending, StoredFile, Folder, Provider, SignedUpload, Store, StoreEnv, access_denied, missing_row,
  internal, database, bad_request, provider_failed, already_there, Answer, answer, failure, S,
  return, ◌>>=◌, ◌>>◌, and_then, demand, or_fail, query, tick,
}
use graphql_prisma_postgres.Storage.Paths.{
  sanitize_folder_name, build_folder_path, generate_storage_key,
}
use graphql_prisma_postgres.Storage.Reading.{
  Reads-and_then, query-view, statement-view, Keeps, Keeps-and_then, demand-Keeps, or_fail-Keeps,
  Reads-of_view,
}
use graphql_prisma_postgres.Storage.Folders.{
  is_folder, find_folder, own_folder, parent_exists, folder_clashes, add_folder, insert_folder,
}
use graphql_prisma_postgres.Storage.Files.{ask}
use graphql_prisma_postgres.Storage.Uploads.{
  CreateSignedUrlInput, SignedUrlResponse, Target, in_folder, has_name_of, or_retrieve,
  create_or_retrieve, named_folder, target_named, target_by_name, target_of, file_clashes, add_file,
  new_file, insert_file, respond, storage_key_of, create_signed_upload_url,
}
use graphql_prisma_postgres.Storage.Uploads.Retrieval.{retrieve_folder-Keeps}
use graphql_prisma_postgres.Storage.Files.Lifecycle.{HasIds, IsStep}
use graphql_prisma_postgres.Storage.Files.Lifecycle.Tables.{cons-IsStep}
use graphql_prisma_postgres.Storage.Files.Lifecycle.Reading.{files_of, ask-Reads}
use graphql_prisma_postgres.Storage.Files.Lifecycle.Changes.{Only, LeavesStep, same_files}

own_folder-files : (id owner : ℕ) → Keeps files_of (own_folder id owner)
unfolding own_folder find_folder
own_folder-files id owner =
    let checked : Folder → S Folder = λ f. demand (f.owner_id == owner) access_denied >> return f in
    Keeps-and_then files_of (find_folder id) (λ found. or_fail found missing_row >>= checked)
      (query-view files_of (λ _ _. refl) (λ w. find? (is_folder id) w.folders))
      (λ found.
        Keeps-and_then files_of (or_fail found missing_row) checked
          (or_fail-Keeps files_of found missing_row)
          (λ f.
            Keeps-and_then files_of (demand (f.owner_id == owner) access_denied) (λ _. return f)
              (demand-Keeps files_of (f.owner_id == owner) access_denied) (λ _ env w. refl)))

add_folder-files : (f : Folder) (w : Store) → (add_folder f w).1.files ≡ w.files
unfolding add_folder
add_folder-files f w = elim (Bool-cases (any (folder_clashes f) w.folders)) [
  | inl y ↦ rw (add_folder, y) refl
  | inr n ↦ elim (Bool-cases (parent_exists f.parent_id w.folders)) [
    | inl e ↦ rw (add_folder, n, e) refl
    | inr m ↦ rw (add_folder, n, m) refl
  ]
]

-- The folder that is made for a name.
abbrev top_folder : List ℕ → ℕ → ℕ → Folder
top_folder name owner id = record {
  id = id;
  name = name;
  path = build_folder_path none name;
  parent_id = none;
  owner_id = owner;
  is_public = false;
}

create_or_retrieve-files :
    (name : List ℕ) (owner : ℕ) → Keeps files_of (create_or_retrieve name owner)
unfolding create_or_retrieve insert_folder
create_or_retrieve-files name owner env w =
    go (insert_folder name (build_folder_path none name) none owner false env w) (
      statement-view files_of (λ _ _. refl) (λ t. t ≡ w.files)
        (add_folder (top_folder name owner (env.cuid w.calls))) env w refl
        (add_folder-files (top_folder name owner (env.cuid w.calls)) (tick env w)))
  where
    go :
        (r : Answer Folder × Store)
        → r.1.files ≡ w.files
        → (or_retrieve (build_folder_path none name) owner env r).1.files ≡ w.files
    go (answer f, v) h = h
    go (failure (database c), v) h =
        retrieve_folder-Keeps files_of (λ _ _. refl) (build_folder_path none name) owner c env v ∙ h
    go (failure bad_request, v) h = h
    go (failure access_denied, v) h = h
    go (failure missing_row, v) h = h
    go (failure already_there, v) h = h
    go (failure internal, v) h = h
    go (failure provider_failed, v) h = h

named_folder-files : (name : List ℕ) (owner : ℕ) → Keeps files_of (named_folder name owner)
unfolding named_folder
named_folder-files name owner =
    let look = λ (w : Store). find? (has_name_of name owner) w.folders in
    let use_or_make : Option Folder → S Folder =
      λ found. elim found [ some f ↦ return f | none ↦ create_or_retrieve name owner ] in
    Keeps-and_then files_of (query look) use_or_make (query-view files_of (λ _ _. refl) look)
      (λ found. elim found as (λ o. Keeps files_of (use_or_make o)) [
        | some f ↦ λ env w. refl
        | none ↦ create_or_retrieve-files name owner
      ])

target_named-files : (name : List ℕ) (owner : ℕ) → Keeps files_of (target_named name owner)
target_named-files [] owner = λ env w. refl
target_named-files (c ∷ s) owner =
    Keeps-and_then files_of (named_folder (c ∷ s) owner) (λ f. return (in_folder f))
      (named_folder-files (c ∷ s) owner) (λ f env w. refl)

target_by_name-files :
    (name : Option (List ℕ)) (owner : ℕ) → Keeps files_of (target_by_name name owner)
target_by_name-files none owner = λ env w. refl
target_by_name-files (some name) owner = target_named-files (sanitize_folder_name name) owner

target_of-files :
    (id : Option ℕ) (name : Option (List ℕ)) (owner : ℕ) → Keeps files_of (target_of id name owner)
unfolding target_of
target_of-files none name owner = target_by_name-files name owner
target_of-files (some id) name owner = elim (Bool-cases (truthy id)) [
  | inl real ↦ rw real (
      Keeps-and_then files_of (own_folder id owner) (λ f. return (in_folder f))
        (own_folder-files id owner) (λ f env w. refl))
  | inr unreal ↦ rw unreal (target_by_name-files name owner)
]

module _ (fs : List StoredFile) (ids : HasIds fs) where
  add_file-LeavesStep :
      (owner : ℕ) (f : StoredFile) (w : Store)
      → f.status ≡ pending
      → w.files ≡ fs
      → LeavesStep fs ids owner (add_file f w)
  unfolding add_file
  add_file-LeavesStep owner f w is_new here = elim (Bool-cases (any (file_clashes f) w.files)) [
    | inl taken ↦ rw (add_file, taken) (same_files fs ids owner internal w here)
    | inr fresh ↦ elim (Bool-cases (parent_exists f.folder_id w.folders)) [
      | inr missing ↦ rw (add_file, fresh, missing) (same_files fs ids owner internal w here)
      | inl exists ↦
          rw (add_file, fresh, exists)
            (subst (λ t. IsStep (Only owner) fs (f ∷ t)) (sym here)
              (cons-IsStep (Only owner) fs ids f (rw here at fresh) is_new))
    ]
  ]

  pub create_signed_upload_url-LeavesStep :
      (input : CreateSignedUrlInput) (env : StoreEnv) (w : Store)
      → w.files ≡ fs
      → LeavesStep fs ids input.owner_id (create_signed_upload_url input env w)
  unfolding create_signed_upload_url insert_file respond generate_storage_key
  create_signed_upload_url-LeavesStep input env w here =
      let owner = input.owner_id in
      let insert = λ (t : Target) (key : List ℕ) (signed : SignedUpload).
        insert_file input t key signed.expires_at >>= respond signed key in
      let sign = λ (key : List ℕ) (p : Provider) (n : ℕ). p.generate_signed_upload_url n key in
      let store : Target → List ℕ → S SignedUrlResponse =
        λ t key. ask (sign key) >>= insert t key in
      let find_target = target_of input.folder_id input.folder_name owner in
      Reads-and_then files_of fs (λ (_ : Target). Unit {0}) (LeavesStep fs ids owner)
        (find_target env w) (λ t. storage_key_of input t >>= store t) env
        (Reads-of_view files_of fs (find_target env w)
          (target_of-files input.folder_id input.folder_name owner env w ∙ here))
        (same_files fs ids owner)
        (λ t w here _.
          Reads-and_then files_of fs (λ (_ : List ℕ). Unit {0}) (LeavesStep fs ids owner)
            (storage_key_of input t env w) (store t) env (here, tt) (same_files fs ids owner)
            (λ key w here _.
              Reads-and_then files_of fs (λ (_ : SignedUpload). Unit {0}) (LeavesStep fs ids owner)
                (ask (sign key) env w) (insert t key) env (ask-Reads fs (sign key) env w here)
                (same_files fs ids owner)
                (λ signed w here _.
                  let f = new_file input t key signed.expires_at (env.cuid w.calls) in
                  responded (insert_file input t key signed.expires_at env w) signed key env (
                    statement-view files_of (λ _ _. refl) (IsStep (Only owner) fs) (add_file f) env
                      w (same_files fs ids owner internal w here)
                      (add_file-LeavesStep owner f (tick env w) refl here)))))
    where
      responded :
          (r : Answer StoredFile × Store) (signed : SignedUpload) (key : List ℕ) (env : StoreEnv)
          → LeavesStep fs ids input.owner_id r
          → LeavesStep fs ids input.owner_id (and_then r (respond signed key) env)
      responded (answer f, v) signed key env h = h
      responded (failure e, v) signed key env h = h
