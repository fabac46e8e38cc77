-- ===== src/Storage/Folders/Tree/Uploads.antt =====
-- The folder that an upload makes by its name.
use graphql_prisma_postgres.Prelude.{
  ℕ, ◌≡◌, inl, inr, refl, sym, false, Option, none, some, List, [], ◌∷◌, Bool-cases, Option-cases,
  truthy, any, find?,
}
use mathlib.Core.Path.{subst}
use graphql_prisma_postgres.Storage.State.{
  StoredFile, Folder, Provider, Store, StoreEnv, bad_request, access_denied, missing_row,
  already_there, internal, provider_failed, database, Answer, answer, failure, S, and_then, return,
  ◌>>=◌, query, tick,
}
use graphql_prisma_postgres.Storage.Paths.{
  sanitize_folder_name, build_folder_path, generate_storage_key,
}
use graphql_prisma_postgres.Storage.Paths.Names.{sanitize_folder_name-settled}
use graphql_prisma_postgres.Storage.Folders.{own_folder, insert_folder, parent_exists}
use graphql_prisma_postgres.Storage.Files.{ask}
use graphql_prisma_postgres.Storage.Uploads.{
  CreateSignedUrlInput, SignedUrlResponse, Target, in_folder, has_name_of, or_retrieve,
  create_or_retrieve, named_folder, target_named, target_by_name, target_of, file_clashes, add_file,
  new_file, insert_file, respond, storage_key_of, create_signed_upload_url,
}
use graphql_prisma_postgres.Storage.Reading.{
  Reads-and_then, query-Reads, statement-view, Keeps, Keeps-and_then,
}
use graphql_prisma_postgres.Storage.Folders.Tree.{IsTree}
use graphql_prisma_postgres.Storage.Folders.Tree.Owners.{IsTreeBut}
use graphql_prisma_postgres.Storage.Folders.Tree.Reading.{folders_of, IsOwn, own_folder-Reads}
use graphql_prisma_postgres.Storage.Folders.Tree.Operations.{LeavesTree, still}
use graphql_prisma_postgres.Storage.Folders.Tree.Rows.{MakesIds, insert_top-LeavesTree}
use graphql_prisma_postgres.Storage.Folders.Tree.{IsName}
use graphql_prisma_postgres.Storage.Uploads.Retrieval.{retrieve_folder-Keeps}

add_file-folders : (f : StoredFile) (w : Store) → (add_file f w).1.folders ≡ w.folders
unfolding add_file
add_file-folders f w = elim (Bool-cases (any (file_clashes f) w.files)) [
  | inl y ↦ rw (add_file, y) refl
  | inr n ↦ elim (Bool-cases (parent_exists f.folder_id w.folders)) [
    | inl e ↦ rw (add_file, n, e) refl
    | inr m ↦ rw (add_file, n, m) refl
  ]
]

-- What the rest of the upload leaves of the folders.
rest_of_upload : CreateSignedUrlInput → Target → List ℕ → S SignedUrlResponse
rest_of_upload input t key =
    ask (λ p n. p.generate_signed_upload_url n key)
    >>= (λ signed. insert_file input t key signed.expires_at >>= respond signed key)

insert_file-folders :
    (input : CreateSignedUrlInput) (t : Target) (key : List ℕ) (until : ℕ)
    → Keeps folders_of (insert_file input t key until)
unfolding insert_file
insert_file-folders input t key until env w =
    let f = new_file input t key until (env.cuid w.calls) in
    statement-view folders_of (λ _ _. refl) (λ fs. fs ≡ w.folders) (add_file f) env w refl
      (add_file-folders f (tick env w))

ask-folders : {A : Type 0} (f : Provider → ℕ → Option A) → Keeps folders_of (ask f)
unfolding ask
ask-folders f env w = elim (Option-cases (f env.provider w.calls)) [
  | inl e ↦ rw (ask, e) refl
  | inr (a, e) ↦ rw (ask, e) refl
]

rest_of_upload-folders :
    (input : CreateSignedUrlInput) (t : Target) (key : List ℕ)
    → Keeps folders_of (rest_of_upload input t key)
unfolding rest_of_upload respond
rest_of_upload-folders input t key =
    let sign = λ (p : Provider) (n : ℕ). p.generate_signed_upload_url n key in
    Keeps-and_then folders_of (ask sign)
      (λ signed. insert_file input t key signed.expires_at >>= respond signed key)
      (ask-folders sign)
      (λ signed.
        Keeps-and_then folders_of (insert_file input t key signed.expires_at) (respond signed key)
          (insert_file-folders input t key signed.expires_at) (λ f env w. refl))

-- What keeps the folders goes on after what leaves a tree.
tree_then :
    {A B : Type 0} (owner : ℕ) (fs : List Folder) (r : Answer A × Store) (k : A → S B)
    (env : StoreEnv)
    → LeavesTree owner fs r
    → ((a : A) → Keeps folders_of (k a))
    → LeavesTree owner fs (and_then r k env)
tree_then owner fs (answer a, w) k env h keeps = subst (IsTreeBut owner fs) (sym (keeps a env w)) h
tree_then owner fs (failure e, w) k env h keeps = h

module _ (fs : List Folder) (tree : IsTree fs) (owner : ℕ) where
  or_retrieve-LeavesTree :
      (path : List ℕ) (env : StoreEnv) (r : Answer Folder × Store)
      → LeavesTree owner fs r
      → LeavesTree owner fs (or_retrieve path owner env r)
  or_retrieve-LeavesTree path env (answer f, v) h = h
  or_retrieve-LeavesTree path env (failure (database c), v) h =
      subst (IsTreeBut owner fs)
        (sym (retrieve_folder-Keeps folders_of (λ _ _. refl) path owner c env v)) h
  or_retrieve-LeavesTree path env (failure bad_request, v) h = h
  or_retrieve-LeavesTree path env (failure access_denied, v) h = h
  or_retrieve-LeavesTree path env (failure missing_row, v) h = h
  or_retrieve-LeavesTree path env (failure already_there, v) h = h
  or_retrieve-LeavesTree path env (failure internal, v) h = h
  or_retrieve-LeavesTree path env (failure provider_failed, v) h = h

  module _ (env : StoreEnv) (ids : MakesIds env) where
    named_folder-LeavesTree :
        (name : List ℕ) (w : Store)
        → IsName name
        → w.folders ≡ fs
        → LeavesTree owner fs (named_folder name owner env w)
    unfolding named_folder create_or_retrieve
    named_folder-LeavesTree name w is_name here =
        let look = λ (v : Store). find? (has_name_of name owner) v.folders in
        let use_or_make : Option Folder → S Folder =
          λ found. elim found [ some f ↦ return f | none ↦ create_or_retrieve name owner ] in
        Reads-and_then folders_of fs (λ (_ : Option Folder). Unit {0}) (LeavesTree owner fs)
          (query look env w) use_or_make env
          (query-Reads folders_of (λ _ _. refl) fs (λ _. Unit {0}) look env w here tt)
          (still fs tree owner)
          (λ found v here _. elim found as (λ o. LeavesTree owner fs (use_or_make o env v)) [
            | some f ↦ still fs tree owner internal v here
            | none ↦
                or_retrieve-LeavesTree (build_folder_path none name) env
                  (insert_folder name (build_folder_path none name) none owner false env v)
                  (insert_top-LeavesTree fs tree owner name env v ids is_name here)
          ])

    target_named-LeavesTree :
        (name : List ℕ) (w : Store)
        → sanitize_folder_name name ≡ name
        → w.folders ≡ fs
        → LeavesTree owner fs (target_named name owner env w)
    target_named-LeavesTree [] w settled here = still fs tree owner internal w here
    target_named-LeavesTree (c ∷ s) w settled here =
        tree_then owner fs (named_folder (c ∷ s) owner env w) (λ f. return (in_folder f)) env
          (named_folder-LeavesTree (c ∷ s) w (settled, refl) here) (λ f env w. refl)

    target_by_name-LeavesTree :
        (name : Option (List ℕ)) (w : Store)
        → w.folders ≡ fs
        → LeavesTree owner fs (target_by_name name owner env w)
    target_by_name-LeavesTree none w here = still fs tree owner internal w here
    target_by_name-LeavesTree (some name) w here =
        target_named-LeavesTree (sanitize_folder_name name) w (sanitize_folder_name-settled name).0
          here

    target_of-LeavesTree :
        (id : Option ℕ) (name : Option (List ℕ)) (w : Store)
        → w.folders ≡ fs
        → LeavesTree owner fs (target_of id name owner env w)
    unfolding target_of
    target_of-LeavesTree none name w here = target_by_name-LeavesTree name w here
    target_of-LeavesTree (some id) name w here = elim (Bool-cases (truthy id)) [
      | inr unreal ↦ rw unreal (target_by_name-LeavesTree name w here)
      | inl real ↦ rw real (
          Reads-and_then folders_of fs (IsOwn fs id owner) (LeavesTree owner fs)
            (own_folder id owner env w) (λ f. return (in_folder f)) env
            (own_folder-Reads fs id owner env w here) (still fs tree owner)
            (λ f v here _. still fs tree owner internal v here))
    ]

    pub create_signed_upload_url-LeavesTree :
        (input : CreateSignedUrlInput) (w : Store)
        → input.owner_id ≡ owner
        → w.folders ≡ fs
        → LeavesTree owner fs (create_signed_upload_url input env w)
    unfolding create_signed_upload_url rest_of_upload generate_storage_key
    create_signed_upload_url-LeavesTree input w by here =
        tree_then owner fs (target_of input.folder_id input.folder_name input.owner_id env w)
          (λ t. storage_key_of input t >>= rest_of_upload input t) env
          (subst (λ o. LeavesTree owner fs (target_of input.folder_id input.folder_name o env w))
            (sym by) (target_of-LeavesTree input.folder_id input.folder_name w here))
          (λ t.
            Keeps-and_then folders_of (storage_key_of input t) (rest_of_upload input t)
              (λ env w. refl) (rest_of_upload-folders input t))
