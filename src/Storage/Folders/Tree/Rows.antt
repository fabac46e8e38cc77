-- ===== src/Storage/Folders/Tree/Rows.antt =====
-- A folder is created.
use graphql_prisma_postgres.Prelude.{
  ℕ, ◌≡◌, inl, inr, refl, sym, ap, ◌∙◌, Bool, true, false, not, Option, none, some, List, ◌∷◌,
  arith, Bool-cases, truthy, any,
}
use mathlib.Core.Path.{subst}
use mathlib.Core.List.{Memᴰ}
use graphql_prisma_postgres.Storage.State.{
  Folder, Store, StoreEnv, bad_request, internal, database, S, return, ◌>>=◌, ◌>>◌, demand, tick,
}
use graphql_prisma_postgres.Effects.{p2002, p2003}
use graphql_prisma_postgres.Storage.Paths.{sanitize_folder_name, is_empty, build_folder_path}
use graphql_prisma_postgres.Storage.Paths.Names.{sanitize_folder_name-settled}
use graphql_prisma_postgres.Storage.Folders.{
  is_folder, own_folder, parent_path_of, demand_free, anyone, folder_clashes, parent_exists,
  add_folder, insert_folder, create_named, create_folder,
}
use graphql_prisma_postgres.Storage.Rows.{any-some}
use graphql_prisma_postgres.Storage.Folders.Tree.{IsName, IsPlaced, IsTree}
use graphql_prisma_postgres.Storage.Folders.Tree.Changes.{IsTree-cons}
use graphql_prisma_postgres.Storage.Folders.Tree.Places.{build-top, build-in, path-not_empty}
use graphql_prisma_postgres.Storage.Reading.{Reads, Reads-and_then, statement-view, demand-Reads}
use graphql_prisma_postgres.Storage.Folders.Tree.Reading.{
  folders_of, IsOwn, own_folder-Reads, demand_free-Reads,
}
use graphql_prisma_postgres.Storage.Folders.Tree.Owners.{IsTreeBut}
use graphql_prisma_postgres.Storage.Folders.Tree.Operations.{LeavesTree, still}

-- `cuid()` makes no empty text.
abbrev pub MakesIds : StoreEnv → Type 0
MakesIds env = (n : ℕ) → truthy (env.cuid n) ≡ true

module _ (fs : List Folder) (tree : IsTree fs) (owner : ℕ) where
  -- The path that was read is the parent's.
  ParentRead : Option ℕ → Option (List ℕ) → Type 0
  ParentRead none path = path ≡ none
  ParentRead (some p) path =
      truthy p ≡ true
      → (g : Folder) × (Memᴰ g fs × (g.id ≡ p) × (g.owner_id ≡ owner) × (path ≡ some g.path))

  parent_path_of-Reads :
      (parent : Option ℕ) (env : StoreEnv) (w : Store)
      → w.folders ≡ fs
      → Reads folders_of fs (ParentRead parent) (parent_path_of parent owner env w)
  unfolding parent_path_of ParentRead
  parent_path_of-Reads none env w here = (here, refl)
  parent_path_of-Reads (some p) env w here = elim (Bool-cases (truthy p)) [
    | inr unreal ↦ rw unreal (here, λ real. absurd (ground (arith, real, unreal)))
    | inl real ↦ rw real (
        Reads-and_then folders_of fs (IsOwn fs p owner) (Reads folders_of fs (ParentRead (some p)))
          (own_folder p owner env w) (λ g. return (some g.path)) env
          (own_folder-Reads fs p owner env w here) (λ e v same. same)
          (λ g v here (m, ig, og). (here, λ _. (g, (m, ig, og, refl)))))
  ]

  -- The row's key for its parent is that of a folder, so the parent was read.
  new_place :
      (f : Folder) (q : Option ℕ) (path : Option (List ℕ))
      → f.owner_id ≡ owner
      → IsName f.name
      → ParentRead q path
      → parent_exists q fs ≡ true
      → f.path ≡ build_folder_path path f.name
      → IsPlaced fs f q
  unfolding ParentRead
  new_place f none path own name read exists e = e ∙ (rw read (build-top f.name name))
  new_place f (some p) path own name read exists e =
      let (h, (mh, ih)) = any-some (is_folder p) fs exists in
      let (g, (m, ig, og, same)) = read (ground (arith, ih, tree.real h mh)) in
      (
        g,
        (
          m,
          ig,
          og ∙ sym own,
          e
              ∙ (ap (λ s. build_folder_path s f.name) same
                  ∙ build-in g.path f.name name (path-not_empty fs tree g m g m)),
        ),
      )

  add_folder-LeavesTree :
      (f : Folder) (path : Option (List ℕ)) (w : Store)
      → w.folders ≡ fs
      → f.owner_id ≡ owner
      → IsName f.name
      → truthy f.id ≡ true
      → ParentRead f.parent_id path
      → f.path ≡ build_folder_path path f.name
      → LeavesTree owner fs (add_folder f w)
  unfolding add_folder
  add_folder-LeavesTree f path w here own name real read e =
      elim (Bool-cases (any (folder_clashes f) w.folders)) [
        | inl taken ↦ rw taken (still fs tree owner (database p2002) w here)
        | inr fresh ↦ elim (Bool-cases (parent_exists f.parent_id w.folders)) [
          | inr missing ↦ rw (fresh, missing) (still fs tree owner (database p2003) w here)
          | inl exists ↦
              rw (fresh, exists)
                (subst (λ t. IsTreeBut owner fs (f ∷ t)) (sym here)
                  (
                    IsTree-cons fs tree f (rw here at fresh) name real
                        (new_place f f.parent_id path own name read (rw here at exists) e),
                    λ g m _. Memᴰ.tail m,
                  ))
        ]
      ]

  insert_folder-LeavesTree :
      (name : List ℕ) (path : Option (List ℕ)) (parent : Option ℕ) (is_public : Bool)
      (env : StoreEnv) (w : Store)
      → MakesIds env
      → IsName name
      → ParentRead parent path
      → w.folders ≡ fs
      → LeavesTree owner fs
          (insert_folder name (build_folder_path path name) parent owner is_public env w)
  unfolding insert_folder
  insert_folder-LeavesTree name path parent is_public env w ids is_name read here =
      let f : Folder = record {
        id = env.cuid w.calls;
        name = name;
        path = build_folder_path path name;
        parent_id = parent;
        owner_id = owner;
        is_public = is_public;
      } in
      statement-view folders_of (λ _ _. refl) (IsTreeBut owner fs) (add_folder f) env w
        (still fs tree owner internal w here)
        (add_folder-LeavesTree f path (tick env w) here refl is_name (ids w.calls) read refl)

  pub insert_top-LeavesTree :
      (name : List ℕ) (env : StoreEnv) (w : Store)
      → MakesIds env
      → IsName name
      → w.folders ≡ fs
      → LeavesTree owner fs
          (insert_folder name (build_folder_path none name) none owner false env w)
  unfolding ParentRead
  insert_top-LeavesTree name env w ids is_name here =
      insert_folder-LeavesTree name none none false env w ids is_name refl here

  create_named-LeavesTree :
      (name : List ℕ) (parent : Option ℕ) (is_public : Bool) (env : StoreEnv) (w : Store)
      → MakesIds env
      → sanitize_folder_name name ≡ name
      → w.folders ≡ fs
      → LeavesTree owner fs (create_named name parent is_public owner env w)
  unfolding create_named
  create_named-LeavesTree name parent is_public env w ids settled here =
      let insert = λ (path : Option (List ℕ)).
        insert_folder name (build_folder_path path name) parent owner is_public in
      let placed : Option (List ℕ) → S Folder =
        λ path. demand_free (build_folder_path path name) owner anyone >> insert path in
      Reads-and_then folders_of fs (λ (_ : Unit {0}). not (is_empty name) ≡ true)
        (LeavesTree owner fs) (demand (not (is_empty name)) bad_request env w)
        (λ _. parent_path_of parent owner >>= placed) env
        (demand-Reads folders_of fs (not (is_empty name)) bad_request env w here)
        (still fs tree owner)
        (λ _ w here full.
          Reads-and_then folders_of fs (ParentRead parent) (LeavesTree owner fs)
            (parent_path_of parent owner env w) placed env (parent_path_of-Reads parent env w here)
            (still fs tree owner)
            (λ path w here read.
              Reads-and_then folders_of fs (λ (_ : Unit {0}). Unit {0}) (LeavesTree owner fs)
                (demand_free (build_folder_path path name) owner anyone env w) (λ _. insert path)
                env (demand_free-Reads fs (build_folder_path path name) owner anyone env w here)
                (still fs tree owner)
                (λ _ w here _.
                  insert_folder-LeavesTree name path parent is_public env w ids
                    (settled, ground (arith, full)) read here)))

  pub create_folder-LeavesTree :
      (name : List ℕ) (parent : Option ℕ) (is_public : Bool) (env : StoreEnv) (w : Store)
      → MakesIds env
      → w.folders ≡ fs
      → LeavesTree owner fs (create_folder name parent is_public owner env w)
  unfolding create_folder
  create_folder-LeavesTree name parent is_public env w ids here =
      create_named-LeavesTree (sanitize_folder_name name) parent is_public env w ids
        (sanitize_folder_name-settled name).0 here
