-- ===== src/Storage/Folders/Tree/Reading.antt =====
-- What the operations on folders read.
use graphql_prisma_postgres.Prelude.{
  ℕ, ◌≡◌, refl, sym, ap, ◌∙◌, Bool, true, false, not, some, List, arith, find?, find?-some, ◌==◌,
  any,
}
use mathlib.Core.List.{Memᴰ}
use graphql_prisma_postgres.Storage.State.{
  Folder, Store, StoreEnv, S, demand, or_fail, query, return, ◌>>=◌, ◌>>◌, access_denied,
  missing_row, already_there,
}
use graphql_prisma_postgres.Storage.Reading.{
  Reads, Reads-and_then, query-Reads, demand-Reads, or_fail-Reads,
}
use graphql_prisma_postgres.Storage.Folders.{
  is_folder, find_folder, own_folder, demand_free, has_path_of,
}
use graphql_prisma_postgres.Storage.Rows.{find?-Memᴰ}

abbrev pub folders_of : Store → List Folder
folders_of w = w.folders

-- The owner's folder of an id.
abbrev pub IsOwn : List Folder → ℕ → ℕ → Folder → Type 0
IsOwn fs id owner f = Memᴰ f fs × (f.id ≡ id) × (f.owner_id ≡ owner)

pub own_folder-Reads :
    (fs : List Folder) (id owner : ℕ) (env : StoreEnv) (w : Store)
    → w.folders ≡ fs
    → Reads folders_of fs (IsOwn fs id owner) (own_folder id owner env w)
unfolding own_folder find_folder
own_folder-Reads fs id owner env w here =
    Reads-and_then folders_of fs (λ o. o ≡ find? (is_folder id) fs)
      (Reads folders_of fs (IsOwn fs id owner)) (find_folder id env w)
      (λ found. or_fail found missing_row >>= checked) env
      (query-Reads folders_of (λ _ _. refl) fs (λ o. o ≡ find? (is_folder id) fs)
        (λ v. find? (is_folder id) v.folders) env w here (ap (find? (is_folder id)) here))
      (λ e v same. same)
      (λ o v same is_found.
        Reads-and_then folders_of fs (λ f. o ≡ some f) (Reads folders_of fs (IsOwn fs id owner))
          (or_fail o missing_row env v) checked env
          (or_fail-Reads folders_of fs o missing_row env v same) (λ e v same. same)
          (λ f v same is_some.
            Reads-and_then folders_of fs (λ (_ : Unit {0}). (f.owner_id == owner) ≡ true)
              (Reads folders_of fs (IsOwn fs id owner))
              (demand (f.owner_id == owner) access_denied env v) (λ _. return f) env
              (demand-Reads folders_of fs (f.owner_id == owner) access_denied env v same)
              (λ e v same. same)
              (λ _ v same own. (
                same,
                (
                  find?-Memᴰ (is_folder id) fs f (sym is_found ∙ is_some),
                  ground (arith, find?-some (is_folder id) fs f (sym is_found ∙ is_some)),
                  ground (arith, own),
                ),
              ))))
  where
    checked : Folder → S Folder
    checked folder = demand (folder.owner_id == owner) access_denied >> return folder

pub demand_free-Reads :
    (fs : List Folder) (path : List ℕ) (owner : ℕ) (is_other : Folder → Bool) (env : StoreEnv)
    (w : Store)
    → w.folders ≡ fs
    → Reads folders_of fs (λ _. Unit {0}) (demand_free path owner is_other env w)
unfolding demand_free
demand_free-Reads fs path owner is_other env w here =
    let taken = λ (v : Store). any (has_path_of path owner is_other) v.folders in
    Reads-and_then folders_of fs (λ _. Unit {0}) (Reads folders_of fs (λ _. Unit {0}))
      (query taken env w) (λ existing. demand (not existing) already_there) env
      (query-Reads folders_of (λ _ _. refl) fs (λ _. Unit {0}) taken env w here tt)
      (λ e v same. same) (λ existing v same _. free existing v same)
  where
    free :
        (existing : Bool) (v : Store)
        → v.folders ≡ fs
        → Reads folders_of fs (λ _. Unit {0}) (demand (not existing) already_there env v)
    free true v same = same
    free false v same = (same, tt)
