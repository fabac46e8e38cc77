-- ===== src/Storage/Folders/Tree/Operations.antt =====
-- The operations on folders, each from a tree to a tree.
use graphql_prisma_postgres.Prelude.{
  ℕ, ◌≡◌, inl, inr, refl, sym, ap, ◌∙◌, true, not, Option, none, some, List, arith, Bool-cases,
  truthy, find?, keep,
}
use mathlib.Core.Path.{subst}
use mathlib.Core.List.{Memᴰ}
use mathlib.Core.List.Memᴰ
use graphql_prisma_postgres.Storage.State.{
  Folder, Store, StoreEnv, Failure, bad_request, internal, Answer, answer, failure, Answer-cases, S,
  return, ◌>>=◌, ◌>>◌, demand, query, statement, tick,
}
use graphql_prisma_postgres.Storage.Paths.{
  sanitize_folder_name, is_empty, build_folder_path, before_last_slash, starts_with,
}
use graphql_prisma_postgres.Storage.Paths.Names.{sanitize_folder_name-settled}
use graphql_prisma_postgres.Storage.Paths.Prefixes.{is_under, is_like_under}
use graphql_prisma_postgres.Storage.Folders.{
  is_other_than, is_folder, find_folder, own_folder, demand_free, parent_exists,
}
use graphql_prisma_postgres.Storage.Folders.Relocation.{
  update_folder_row, update_paths, relocate, relocate_folder, set_name_path, rename_named,
  rename_folder, set_parent_path, target_path_of, move_to, move_folder,
}
use graphql_prisma_postgres.Storage.Folders.Below.{
  relocate-Image, keep-below, FindsOnlyBelow, IsUnmistaken,
}
use graphql_prisma_postgres.Storage.Folders.Tables.{KeepsId, update_folder_row-parent}
use graphql_prisma_postgres.Storage.Rows.{any-some}
use graphql_prisma_postgres.Storage.Folders.Tree.{IsName, IsTree}
use graphql_prisma_postgres.Storage.Folders.Tree.Moving.{IsRelocation, relocated-IsTree}
use graphql_prisma_postgres.Storage.Folders.Tree.Owners.{IsTreeBut, relocated-others}
use graphql_prisma_postgres.Storage.Reading.{
  Reads, Reads-and_then, query-Reads, query-view, statement-view, demand-Reads, and_then-view,
}
use graphql_prisma_postgres.Storage.Folders.Tree.Reading.{
  folders_of, IsOwn, own_folder-Reads, demand_free-Reads,
}
use graphql_prisma_postgres.Storage.Folders.Tree.Places.{
  IsTarget, rename-IsRelocation, move-IsRelocation,
}

-- The state that is left holds a tree, with all that other owners had.
abbrev pub LeavesTree : {A : Type 0} → ℕ → List Folder → Answer A × Store → Type 0
LeavesTree owner fs r = IsTreeBut owner fs r.1.folders

module _ (fs : List Folder) (tree : IsTree fs) (owner : ℕ) where
  pub still : (e : Failure) (w : Store) → w.folders ≡ fs → IsTreeBut owner fs w.folders
  still e w here = subst (IsTreeBut owner fs) (sym here) (tree, λ f m _. m)

  -- The transaction fails as a whole, or relocates.
  relocate-LeavesTree :
      (folder : Folder) (present : Memᴰ folder fs) (own : folder.owner_id ≡ owner)
      (u : Folder → Folder) (w : Store)
      → KeepsId u
      → (parent_exists (u folder).parent_id fs ≡ true → IsRelocation fs tree folder present u)
      → w.folders ≡ fs
      → LeavesTree owner fs (
          relocate folder.id u folder.path
            (u folder).path
            (keep (λ g. is_under folder.path g.path) fs)
            w)
  unfolding relocate
  relocate-LeavesTree folder present own u w keeps relocates here =
      let cs = keep (λ g. is_under folder.path g.path) fs in
      let run = relocate folder.id u folder.path (u folder).path cs w in
      elim (Answer-cases (update_folder_row folder.id u w.folders)) [
        | inr (x, stopped) ↦
            let same : run ≡ (failure x, w) = ground (arith, stopped) in
            subst (LeavesTree owner fs) (sym same) (still x w here)
        | inl (gs, went) ↦ elim (Answer-cases (update_paths folder.path (u folder).path cs gs)) [
          | inr (x, stopped) ↦
              let same : run ≡ (failure x, w) = ground (arith, went, stopped) in
              subst (LeavesTree owner fs) (sym same) (still x w here)
          | inl (hs, ended) ↦
              let same : run ≡ (answer tt, record w { folders = hs }) =
                ground (arith, went, ended) in
              let there =
                update_folder_row-parent folder u fs gs tree.keyed present (rw here at went) in
              let relocation = relocates there in
              let (image, keys) =
                relocate-Image folder.id u keeps folder.path (u folder).path fs tree.keyed w
                  (record w { folders = hs }) here tree.pathed same in
              subst (LeavesTree owner fs) (sym same) (
                relocated-IsTree fs tree folder present u relocation hs image keys,
                λ f m other.
                    Memᴰ.cast
                      (sym (
                        relocated-others fs tree folder present u (u folder).path f m
                          (λ e. other (e ∙ own))))
                      (image.0 f m),
              )
        ]
      ]

  relocate_folder-LeavesTree :
      (folder : Folder) (present : Memᴰ folder fs) (own : folder.owner_id ≡ owner)
      (u : Folder → Folder) (env : StoreEnv) (w : Store)
      → KeepsId u
      → (parent_exists (u folder).parent_id fs ≡ true → IsRelocation fs tree folder present u)
      → FindsOnlyBelow folder.path fs
      → w.folders ≡ fs
      → LeavesTree owner fs (relocate_folder folder u (u folder).path owner env w)
  unfolding relocate_folder find_folder
  relocate_folder-LeavesTree folder present own u env w keeps relocates only here =
      let path = (u folder).path in
      let below = λ (v : Store). keep (λ g. is_like_under folder.path g.path) v.folders in
      let is_below = λ (cs : List Folder). cs ≡ keep (λ g. is_under folder.path g.path) fs in
      let run = λ (cs : List Folder). relocate folder.id u folder.path path cs in
      let act : List Folder → S (Option Folder) =
        λ cs. statement (run cs) >> find_folder folder.id in
      Reads-and_then folders_of fs (λ _. Unit) (LeavesTree owner fs)
        (demand_free path owner (is_other_than folder.id) env w) (λ _. query below >>= act) env
        (demand_free-Reads fs path owner (is_other_than folder.id) env w here) still
        (λ _ v here _.
          Reads-and_then folders_of fs is_below (LeavesTree owner fs) (query below env v) act env
            (query-Reads folders_of (λ _ _. refl) fs is_below below env v here
              (ap (keep (λ g. is_like_under folder.path g.path)) here
                ∙ keep-below folder.path fs only))
            still
            (λ cs v here same.
              and_then-view folders_of (IsTreeBut owner fs) (statement (run cs) env v)
                (find_folder folder.id) env
                (query-view folders_of (λ _ _. refl) (λ t. find? (is_folder folder.id) t.folders)
                  env)
                (statement-view folders_of (λ _ _. refl) (IsTreeBut owner fs) (run cs) env v
                  (still internal v here)
                  (subst (λ t. IsTreeBut owner fs (run t (tick env v)).1.folders) (sym same)
                    (relocate-LeavesTree folder present own u (tick env v) keeps relocates here)))))

  pub rename_folder-LeavesTree :
      (id : ℕ) (name : List ℕ) (env : StoreEnv) (w : Store)
      → IsUnmistaken id fs
      → w.folders ≡ fs
      → LeavesTree owner fs (rename_folder id name owner env w)
  unfolding rename_folder rename_named
  rename_folder-LeavesTree id name env w only here =
      let clean = sanitize_folder_name name in
      let is_full = λ (_ : Unit {0}). not (is_empty clean) ≡ true in
      let act = λ (folder : Folder). rename_named folder clean owner in
      Reads-and_then folders_of fs (IsOwn fs id owner) (LeavesTree owner fs)
        (own_folder id owner env w)
        (λ folder. demand (not (is_empty clean)) bad_request >> act folder) env
        (own_folder-Reads fs id owner env w here) still
        (λ folder v here (present, ident, own).
          Reads-and_then folders_of fs is_full (LeavesTree owner fs)
            (demand (not (is_empty clean)) bad_request env v) (λ _. act folder) env
            (demand-Reads folders_of fs (not (is_empty clean)) bad_request env v here) still
            (λ _ v here full.
              let is_name : IsName clean =
                ((sanitize_folder_name-settled name).0, ground (arith, full)) in
              let path = build_folder_path (before_last_slash folder.path) clean in
              relocate_folder-LeavesTree folder present own (set_name_path clean path) env v
                (λ f. refl) (λ _. rename-IsRelocation fs tree folder present clean is_name)
                (only folder present ident) here))

  -- A parent that is there is the target that was read.
  IsTargetRead : (folder : Folder) → Memᴰ folder fs → Option ℕ → Option (List ℕ) → Type 0
  IsTargetRead folder present parent path =
      parent_exists parent fs ≡ true → IsTarget fs tree folder present parent path

  parent_exists-truthy : (p : ℕ) → parent_exists (some p) fs ≡ true → truthy p ≡ true
  parent_exists-truthy p there =
      let (g, (m, same)) = any-some (is_folder p) fs there in ground (arith, same, tree.real g m)

  target_path_of-Reads :
      (folder : Folder) (present : Memᴰ folder fs) (parent : Option ℕ) (env : StoreEnv) (w : Store)
      → folder.owner_id ≡ owner
      → w.folders ≡ fs
      → Reads folders_of fs
          (IsTargetRead folder present parent)
          (target_path_of parent owner folder.path env w)
  unfolding target_path_of IsTargetRead
  target_path_of-Reads folder present none env w own here = (here, λ _. refl)
  target_path_of-Reads folder present (some p) env w own here = elim (Bool-cases (truthy p)) [
    | inr unreal ↦
        rw unreal (here, λ real. absurd (ground (arith, parent_exists-truthy p real, unreal)))
    | inl real ↦
        let Q = IsTargetRead folder present (some p) in
        let free = λ (g : Folder). not (starts_with folder.path g.path) in
        let act = λ (g : Folder). demand (free g) bad_request >> return (some g.path) in
        rw real (
          Reads-and_then folders_of fs (IsOwn fs p owner) (Reads folders_of fs Q)
            (own_folder p owner env w) act env (own_folder-Reads fs p owner env w here)
            (λ e v same. same)
            (λ g v here (m, ig, og).
              Reads-and_then folders_of fs (λ (_ : Unit {0}). free g ≡ true) (Reads folders_of fs Q)
                (demand (free g) bad_request env v) (λ _. return (some g.path)) env
                (demand-Reads folders_of fs (free g) bad_request env v here) (λ e v same. same)
                (λ _ v here apart.
                  (here, λ _. (g, (m, ig, og ∙ sym own, refl, ground (arith, apart)))))))
  ]

  pub move_folder-LeavesTree :
      (id : ℕ) (parent : Option ℕ) (env : StoreEnv) (w : Store)
      → IsUnmistaken id fs
      → w.folders ≡ fs
      → LeavesTree owner fs (move_folder id parent owner env w)
  unfolding move_folder move_to IsTargetRead
  move_folder-LeavesTree id parent env w only here =
      let act = λ (folder : Folder) (path : Option (List ℕ)). move_to folder parent path owner in
      Reads-and_then folders_of fs (IsOwn fs id owner) (LeavesTree owner fs)
        (own_folder id owner env w)
        (λ folder. target_path_of parent owner folder.path >>= act folder) env
        (own_folder-Reads fs id owner env w here) still
        (λ folder v here (present, ident, own).
          Reads-and_then folders_of fs (IsTargetRead folder present parent) (LeavesTree owner fs)
            (target_path_of parent owner folder.path env v) (act folder) env
            (target_path_of-Reads folder present parent env v own here) still
            (λ path v here target.
              let u = set_parent_path parent (build_folder_path path folder.name) in
              relocate_folder-LeavesTree folder present own u env v (λ f. refl)
                (λ there. move-IsRelocation fs tree folder present parent path (target there))
                (only folder present ident) here))
