-- ===== src/Storage/Folders/Tree/Removal.antt =====
-- A folder is deleted.
use graphql_prisma_postgres.Prelude.{
  ℕ, ◌≡◌, ◌≢◌, inl, inr, refl, sym, ap, ◌∙◌, Bool, true, false, not, ◌||◌, Option, some, List,
  arith, Bool-cases, Option-cases, ◌==◌, any, find?, find?-some,
}
use mathlib.Core.List.{Memᴰ}
use graphql_prisma_postgres.Storage.State.{
  Folder, Store, StoreEnv, bad_request, missing_row, access_denied, internal, database, S, return,
  ◌>>=◌, ◌>>◌, demand, or_fail, query, statement, tick,
}
use graphql_prisma_postgres.Effects.{p2025}
use graphql_prisma_postgres.Storage.Folders.{
  is_other_than, is_folder, is_in, counted_folder, remove_folder, delete_folder,
}
use graphql_prisma_postgres.Storage.Rows.{find?-Memᴰ, Memᴰ-keep}
use graphql_prisma_postgres.Storage.Folders.Tree.{IsTree}
use graphql_prisma_postgres.Storage.Folders.Tree.Changes.{IsTree-keep}
use graphql_prisma_postgres.Storage.Reading.{
  Reads-and_then, query-Reads, statement-view, demand-Reads, or_fail-Reads, and_then-view,
}
use graphql_prisma_postgres.Storage.Folders.Tree.Reading.{folders_of}
use graphql_prisma_postgres.Storage.Folders.Tree.Owners.{IsTreeBut}
use graphql_prisma_postgres.Storage.Folders.Tree.Operations.{LeavesTree, still}

or-second : (a b : Bool) → (a || b) ≡ false → b ≡ false
or-second a b e = ground (arith, e)

owns_of :
    (owner : ℕ) (folder f : Folder)
    → some folder ≡ some f
    → (folder.owner_id == owner) ≡ true
    → f.owner_id ≡ owner
owns_of owner folder f e own =
    let same : folder ≡ f = ground (arith, e) in
    ap (λ h. h.owner_id) (sym same) ∙ ground (arith, own)

module _ (fs : List Folder) (tree : IsTree fs) (owner : ℕ) where
  not_owned :
      (id : ℕ) (f g : Folder)
      → Memᴰ g fs
      → find? (is_folder id) fs ≡ some f
      → f.owner_id ≡ owner
      → g.owner_id ≢ owner
      → is_other_than id g ≡ true
  not_owned id f g m found own other = elim (Bool-cases (g.id == id)) [
    | inr n ↦ rw n refl
    | inl y ↦
        let same : g ≡ f =
          tree.keyed g f m (find?-Memᴰ (is_folder id) fs f found)
            (ground (arith, y, find?-some (is_folder id) fs f found)) in
        absurd (other (ap (λ h. h.owner_id) same ∙ own))
  ]

  remove_folder-LeavesTree :
      (id : ℕ) (w : Store)
      → w.folders ≡ fs
      → ((f : Folder) → find? (is_folder id) fs ≡ some f → f.owner_id ≡ owner)
      → any (λ g. is_in id g.parent_id) fs ≡ false
      → LeavesTree owner fs (remove_folder id w)
  unfolding remove_folder
  remove_folder-LeavesTree id w here own childless =
      elim (Option-cases (find? (is_folder id) w.folders)) [
        | inl missing ↦ rw (remove_folder, missing) (still fs tree owner (database p2025) w here)
        | inr (f, found) ↦
            rw (remove_folder, found, here)
              (
                IsTree-keep fs tree id childless,
                λ g m other.
                    Memᴰ-keep (is_other_than id) fs g m
                      (not_owned id f g m (rw here at found) (own f (rw here at found)) other),
              )
      ]

  pub delete_folder-LeavesTree :
      (id : ℕ) (env : StoreEnv) (w : Store)
      → w.folders ≡ fs
      → LeavesTree owner fs (delete_folder id owner env w)
  unfolding delete_folder
  delete_folder-LeavesTree id env w here =
      let childless = λ (c : Option Folder × Bool).
        (c.0 ≡ find? (is_folder id) fs)
        × (c.1 ≡ false → any (λ g. is_in id g.parent_id) fs ≡ false) in
      let act : S Bool = statement (remove_folder id) >> return true in
      let counted : Option Folder × Bool → S Bool = λ c. or_fail c.0 missing_row >>= (λ folder.
        demand (folder.owner_id == owner) access_denied >> (demand (not c.1) bad_request >> act)) in
      Reads-and_then folders_of fs childless (LeavesTree owner fs) (query (counted_folder id) env w)
        counted env
        (query-Reads folders_of (λ _ _. refl) fs childless (counted_folder id) env w here
          (
            ap (find? (is_folder id)) here,
            λ e. rw here at (
                or-second (any (λ f. is_in id f.folder_id) w.files)
                  (any (λ g. is_in id g.parent_id) w.folders) e),
          ))
        (still fs tree owner)
        (λ c w here (read, no_child).
          Reads-and_then folders_of fs (λ (f : Folder). c.0 ≡ some f) (LeavesTree owner fs)
            (or_fail c.0 missing_row env w)
            (λ folder.
              demand (folder.owner_id == owner) access_denied
              >> (demand (not c.1) bad_request >> act))
            env (or_fail-Reads folders_of fs c.0 missing_row env w here) (still fs tree owner)
            (λ folder w here is_some.
              Reads-and_then folders_of fs (λ (_ : Unit {0}). (folder.owner_id == owner) ≡ true)
                (LeavesTree owner fs) (demand (folder.owner_id == owner) access_denied env w)
                (λ _. demand (not c.1) bad_request >> act) env
                (demand-Reads folders_of fs (folder.owner_id == owner) access_denied env w here)
                (still fs tree owner)
                (λ _ w here own.
                  Reads-and_then folders_of fs (λ (_ : Unit {0}). not c.1 ≡ true)
                    (LeavesTree owner fs) (demand (not c.1) bad_request env w) (λ _. act) env
                    (demand-Reads folders_of fs (not c.1) bad_request env w here)
                    (still fs tree owner)
                    (λ _ w here empty.
                      and_then-view folders_of (IsTreeBut owner fs)
                        (statement (remove_folder id) env w) (return true) env (λ v. refl)
                        (statement-view folders_of (λ _ _. refl) (IsTreeBut owner fs)
                          (remove_folder id) env w (still fs tree owner internal w here)
                          (remove_folder-LeavesTree id (tick env w) here
                            (λ f found. owns_of owner folder f (sym is_some ∙ (read ∙ found)) own)
                            (no_child (ground (arith, empty)))))))))
