-- ===== src/Storage/Folders/Tree/Renamed.antt =====
-- What a rename or a move that answers has done.
use graphql_prisma_postgres.Prelude.{
  ℕ, ◌≡◌, ◌≢◌, inl, inr, refl, sym, ap, ◌∙◌, true, false, not, Option, List, ◌∷◌, ◌++◌, arith,
  find?, keep,
}
use mathlib.Core.Path.{subst}
use mathlib.Core.List.{Memᴰ}
use mathlib.Core.List.Memᴰ
use graphql_prisma_postgres.Storage.State.{
  Folder, Store, StoreEnv, bad_request, Answer, answer, failure, S, and_then, ◌>>=◌, ◌>>◌, demand,
  query, statement, tick,
}
use graphql_prisma_postgres.Storage.Paths.{
  slash, sanitize_folder_name, is_empty, build_folder_path, before_last_slash,
}
use graphql_prisma_postgres.Storage.Paths.Prefixes.{is_under, is_like_under}
use graphql_prisma_postgres.Storage.Rows.{Image}
use graphql_prisma_postgres.Storage.Reading.{
  Reads-and_then, query-Reads, query-view, demand-Reads, and_then-view, Fate-cases,
}
use graphql_prisma_postgres.Storage.Folders.{
  is_folder, is_other_than, find_folder, own_folder, demand_free,
}
use graphql_prisma_postgres.Storage.Folders.Relocation.{
  relocate, relocate_folder, set_name_path, rename_named, rename_folder,
}
use graphql_prisma_postgres.Storage.Folders.Tables.{KeepsId}
use graphql_prisma_postgres.Storage.Folders.Below.{
  relocated, relocate-Image, keep-below, FindsOnlyBelow, IsUnmistaken,
}
use graphql_prisma_postgres.Storage.Folders.Tree.{IsTree}
use graphql_prisma_postgres.Storage.Folders.Tree.Moving.{
  now_self, now-apart, now-under, now-KeepsId,
}
use graphql_prisma_postgres.Storage.Folders.Tree.Reading.{
  folders_of, IsOwn, own_folder-Reads, demand_free-Reads,
}

-- The folder has become another row; the paths below it begin with the path of that row; all else is
-- as it was, and there are no other rows.
pub record IsRelocated (folder row : Folder) (fs gs : List Folder) : Type 0 where
  pub itself : Memᴰ row gs
  pub below :
      (f : Folder) (r : List ℕ)
      → Memᴰ f fs
      → f.path ≡ folder.path ++ (slash ∷ r)
      → Memᴰ (record f { path = row.path ++ (slash ∷ r) }) gs
  pub apart :
      (f : Folder)
      → Memᴰ f fs
      → f.path ≢ folder.path
      → is_under folder.path f.path ≡ false
      → Memᴰ f gs
  pub only : (g : Folder) → Memᴰ g gs → (f : Folder) × (Memᴰ f fs × (g.id ≡ f.id))

-- The folder of the id has the name, and the path of the name in the folder that it is in.
abbrev pub IsRenamed : List Folder → ℕ → List ℕ → ℕ → List Folder → Type 0
IsRenamed fs id name owner gs =
    (folder : Folder) × (IsOwn fs id owner folder
      × IsRelocated folder
          (record folder {
            name = name;
            path = build_folder_path (before_last_slash folder.path) name;
          })
          fs gs)

-- A statement that answers was done.
statement-answers :
    {A : Type 0} (f : Store → Answer A × Store) (env : StoreEnv) (w : Store) (a : A)
    → (statement f env w).0 ≡ answer a
    → statement f env w ≡ f (tick env w)
unfolding statement
statement-answers f env w a e = elim (Fate-cases (env.fate w.calls)) [
  | inl done ↦ rw (statement, done) refl
  | inr (inl (c, refused)) ↦ absurd (ground (arith, refused, e))
  | inr (inr (c, lost)) ↦ absurd (ground (arith, lost, e))
]

and_then-answers :
    {A B : Type 0} (r : Answer A × Store) (k : A → S B) (env : StoreEnv) (b : B)
    → (and_then r k env).0 ≡ answer b
    → (a : A) × (r.0 ≡ answer a)
and_then-answers (answer a, w) k env b e = (a, refl)
and_then-answers (failure x, w) k env b e = absurd (ground (arith, e))

-- What is left if there is an answer.
abbrev IfAnswered : {A : Type 0} → (List Folder → Type 0) → Answer A × Store → Type 0
IfAnswered {A} P r = (a : A) → r.0 ≡ answer a → P r.1.folders

module _ (fs : List Folder) (tree : IsTree fs) where
  Image-IsRelocated :
      (folder : Folder) (present : Memᴰ folder fs) (u : Folder → Folder) (gs : List Folder)
      → KeepsId u
      → Image (relocated folder.id u folder.path (u folder).path) fs gs
      → IsRelocated folder (u folder) fs gs
  Image-IsRelocated folder present u gs k (to, of) = record {
    itself = Memᴰ.cast (sym (now_self fs tree folder present u)) (to folder present);
    below = λ f r m e. Memᴰ.cast (sym (now-under fs tree folder present u f r m e)) (to f m);
    apart = λ f m other out.
        Memᴰ.cast (sym (now-apart fs tree folder present u f m other out)) (to f m);
    only = λ g m.
        let (f, (mf, e)) = of g m in
        (f, (mf, ap (λ h. h.id) e ∙ now-KeepsId fs tree folder present u k f));
  }

  relocate-IsRelocated :
      (folder : Folder) (present : Memᴰ folder fs) (u : Folder → Folder) (cs : List Folder)
      (w : Store)
      → KeepsId u
      → cs ≡ keep (λ g. is_under folder.path g.path) fs
      → w.folders ≡ fs
      → IfAnswered
          (IsRelocated folder (u folder) fs)
          (relocate folder.id u folder.path (u folder).path cs w)
  relocate-IsRelocated folder present u cs w k same here a e =
      let run = λ (ds : List Folder). relocate folder.id u folder.path (u folder).path ds w in
      let answered : run cs ≡ (answer tt, (run cs).1) = ap (λ r. (r, (run cs).1)) e in
      let kept : run (keep (λ g. is_under folder.path g.path) fs) ≡ (answer tt, (run cs).1) =
        ap run (sym same) ∙ answered in
      let (image, _) =
        relocate-Image folder.id u k folder.path (u folder).path fs tree.keyed w (run cs).1 here
          tree.pathed kept in
      Image-IsRelocated folder present u (run cs).1.folders k image

  relocate_folder-IsRelocated :
      (folder : Folder) (present : Memᴰ folder fs) (u : Folder → Folder) (owner : ℕ)
      (env : StoreEnv) (w : Store)
      → KeepsId u
      → FindsOnlyBelow folder.path fs
      → w.folders ≡ fs
      → IfAnswered
          (IsRelocated folder (u folder) fs)
          (relocate_folder folder u (u folder).path owner env w)
  unfolding relocate_folder find_folder
  relocate_folder-IsRelocated folder present u owner env w k only here =
      let path = (u folder).path in
      let below = λ (v : Store). keep (λ g. is_like_under folder.path g.path) v.folders in
      let is_below = λ (cs : List Folder). cs ≡ keep (λ g. is_under folder.path g.path) fs in
      let run = λ (cs : List Folder). relocate folder.id u folder.path path cs in
      let act : List Folder → S (Option Folder) =
        λ cs. statement (run cs) >> find_folder folder.id in
      let P = IsRelocated folder (u folder) fs in
      Reads-and_then folders_of fs (λ _. Unit) (IfAnswered P)
        (demand_free path owner (is_other_than folder.id) env w) (λ _. query below >>= act) env
        (demand_free-Reads fs path owner (is_other_than folder.id) env w here)
        (λ x v _ a e. absurd (ground (arith, e)))
        (λ _ v here _.
          Reads-and_then folders_of fs is_below (IfAnswered P) (query below env v) act env
            (query-Reads folders_of (λ _ _. refl) fs is_below below env v here
              (ap (keep (λ g. is_like_under folder.path g.path)) here
                ∙ keep-below folder.path fs only))
            (λ x v _ a e. absurd (ground (arith, e)))
            (λ cs v here same a e.
              let (x, went) =
                and_then-answers (statement (run cs) env v) (λ _. find_folder folder.id) env a e in
              let done = statement-answers (run cs) env v x went in
              and_then-view folders_of P (statement (run cs) env v) (find_folder folder.id) env
                (query-view folders_of (λ _ _. refl) (λ t. find? (is_folder folder.id) t.folders)
                  env)
                (subst (λ r. P r.1.folders) (sym done)
                  (relocate-IsRelocated folder present u cs (tick env v) k same here x
                    (ap (λ r. r.0) (sym done) ∙ went)))))

  rename_folder-relocates :
      (id : ℕ) (name : List ℕ) (owner : ℕ) (env : StoreEnv) (w : Store)
      → IsUnmistaken id fs
      → w.folders ≡ fs
      → IfAnswered
          (IsRenamed fs id (sanitize_folder_name name) owner)
          (rename_folder id name owner env w)
  unfolding rename_folder rename_named
  rename_folder-relocates id name owner env w only here =
      let clean = sanitize_folder_name name in
      let P = IsRenamed fs id clean owner in
      let is_full = λ (_ : Unit {0}). not (is_empty clean) ≡ true in
      let act = λ (folder : Folder). rename_named folder clean owner in
      Reads-and_then folders_of fs (IsOwn fs id owner) (IfAnswered P) (own_folder id owner env w)
        (λ folder. demand (not (is_empty clean)) bad_request >> act folder) env
        (own_folder-Reads fs id owner env w here) (λ x v _ a e. absurd (ground (arith, e)))
        (λ folder v here own.
          Reads-and_then folders_of fs is_full (IfAnswered P)
            (demand (not (is_empty clean)) bad_request env v) (λ _. act folder) env
            (demand-Reads folders_of fs (not (is_empty clean)) bad_request env v here)
            (λ x v _ a e. absurd (ground (arith, e)))
            (λ _ v here full a e.
              let path = build_folder_path (before_last_slash folder.path) clean in
              (
                folder,
                (
                  own,
                  relocate_folder-IsRelocated folder own.0 (set_name_path clean path) owner env v
                      (λ f. refl) (only folder own.0 own.1) here a e,
                ),
              )))

-- A rename that answers, in a tree of folders in which no folder's path is like that of the renamed
-- folder and a slash unless it begins with it (an underscore is like any character), has renamed a folder of the caller: its row has the
-- cleaned name and the path of that name in the folder it is in, the paths of all folders below it
-- begin with that path in place of the old one, every other row is as it was, and no row is new.
pub rename_folder-IsRenamed :
    (id : ℕ) (name : List ℕ) (owner : ℕ) (env : StoreEnv) (w : Store) (a : Option Folder)
    → IsTree w.folders
    → IsUnmistaken id w.folders
    → (rename_folder id name owner env w).0 ≡ answer a
    → IsRenamed w.folders id
        (sanitize_folder_name name)
        owner
        (rename_folder id name owner env w).1.folders
rename_folder-IsRenamed id name owner env w a tree only e =
    rename_folder-relocates w.folders tree id name owner env w only refl a e
