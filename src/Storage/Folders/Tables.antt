-- ===== src/Storage/Folders/Tables.antt =====
-- Tables of folders: their keys, and the update of one row.
use graphql_prisma_postgres.Prelude.{
  ℕ, ◌≡◌, ◌≢◌, inl, inr, refl, sym, ap, ◌∙◌, true, false, some, List, arith, Option-cases,
  Bool-cases, ◌==◌, any, find?, find?-some, update_where, same_text_refl,
}
use mathlib.Core.Path.{subst}
use mathlib.Core.List.{Memᴰ}
use graphql_prisma_postgres.Storage.State.{Folder, answer}
use graphql_prisma_postgres.Storage.Folders.{is_folder, parent_exists}
use graphql_prisma_postgres.Storage.Folders.Relocation.{takes_path, update_folder_row}
use graphql_prisma_postgres.Storage.Rows.{find?-Memᴰ, any-none, Image, changed, update_where-Image}

-- The id is a key of the table, and so is the path.
abbrev pub IsKeyed : List Folder → Type 0
IsKeyed fs = (f g : Folder) → Memᴰ f fs → Memᴰ g fs → f.id ≡ g.id → f ≡ g

abbrev pub IsPathed : List Folder → Type 0
IsPathed fs = (f g : Folder) → Memᴰ f fs → Memᴰ g fs → f.path ≡ g.path → f.id ≡ g.id

abbrev pub KeepsId : (Folder → Folder) → Type 0
KeepsId u = (f : Folder) → (u f).id ≡ f.id

pub changed-KeepsId :
    (id : ℕ) (u : Folder → Folder) → KeepsId u → KeepsId (changed (is_folder id) u)
changed-KeepsId id u k f = elim (Bool-cases (f.id == id)) [ inl y ↦ rw y (k f) | inr n ↦ rw n refl ]

pub Image-IsKeyed :
    (u : Folder → Folder) (fs gs : List Folder)
    → KeepsId u
    → Image u fs gs
    → IsKeyed fs
    → IsKeyed gs
Image-IsKeyed u fs gs k (to, of) keyed f' g' mf mg e =
    let (f, (jf, ef)) = of f' mf in
    let (g, (jg, eg)) = of g' mg in
    let ids : f.id ≡ g.id =
      sym (k f) ∙ (ap (λ h. h.id) (sym ef) ∙ (e ∙ (ap (λ h. h.id) eg ∙ k g))) in
    ef ∙ (ap u (keyed f g jf jg ids) ∙ sym eg)

module _ (id : ℕ) (u : Folder → Folder) (fs : List Folder) (row : Folder) (keyed : IsKeyed fs)
    (found : find? (is_folder id) fs ≡ some row)
    (free : any (takes_path id (u row).path) fs ≡ false) where
  private_row : (f : Folder) → Memᴰ f fs → f.id ≡ id → f ≡ row
  private_row f m e =
      keyed f row m (find?-Memᴰ (is_folder id) fs row found)
        (ground (arith, e, find?-some (is_folder id) fs row found))

  apart :
      (f g : Folder)
      → Memᴰ f fs
      → Memᴰ g fs
      → f.id ≡ id
      → (g.id == id) ≡ false
      → (u f).path ≢ g.path
  apart f g mf mg here there same =
      let other = any-none (takes_path id (u row).path) fs g free mg in
      let path : g.path ≡ (u row).path = sym same ∙ ap (λ h. (u h).path) (private_row f mf here) in
      ground (arith, rw (path, same_text_refl (u row).path) at other, there)

  row-IsPathed : KeepsId u → IsPathed fs → IsPathed (update_where (is_folder id) u fs)
  row-IsPathed k pathed f' g' mf mg e =
      let (f, (jf, ef)) = (update_where-Image (is_folder id) u fs).1 f' mf in
      let (g, (jg, eg)) = (update_where-Image (is_folder id) u fs).1 g' mg in
      let ids : f.id ≡ g.id → f'.id ≡ g'.id = λ same.
        ap (λ h. h.id) ef
        ∙ (changed-KeepsId id u k f
            ∙ (same ∙ (sym (changed-KeepsId id u k g) ∙ ap (λ h. h.id) (sym eg)))) in
      elim (Bool-cases (f.id == id)) [
        | inl a ↦ elim (Bool-cases (g.id == id)) [
          | inl b ↦ ids (ground (arith, a, b))
          | inr b ↦ absurd (
              apart f g jf jg (ground (arith, a)) b
                (ap (λ h. h.path) (sym (rw a at ef)) ∙ (e ∙ ap (λ h. h.path) (rw b at eg))))
        ]
        | inr a ↦ elim (Bool-cases (g.id == id)) [
          | inl b ↦ absurd (
              apart g f jg jf (ground (arith, b)) a
                (ap (λ h. h.path) (sym (rw b at eg)) ∙ (sym e ∙ ap (λ h. h.path) (rw a at ef))))
          | inr b ↦ ids (
              pathed f g jf jg
                (ap (λ h. h.path) (sym (rw a at ef)) ∙ (e ∙ ap (λ h. h.path) (rw b at eg))))
        ]
      ]

abbrev pub HasKeys : List Folder → Type 0
HasKeys fs = IsKeyed fs × IsPathed fs

pub update_folder_row-Image :
    (id : ℕ) (u : Folder → Folder) (fs gs : List Folder)
    → KeepsId u
    → HasKeys fs
    → update_folder_row id u fs ≡ answer gs
    → Image (changed (is_folder id) u) fs gs × HasKeys gs
unfolding update_folder_row
update_folder_row-Image id u fs gs k (keyed, pathed) e =
    elim (Option-cases (find? (is_folder id) fs)) [
      | inl missing ↦ absurd (ground (arith, missing))
      | inr (row, found) ↦ elim (Bool-cases (any (takes_path id (u row).path) fs)) [
        | inl taken ↦ absurd (ground (arith, found, taken))
        | inr free ↦ elim (Bool-cases (parent_exists (u row).parent_id fs)) [
          | inr orphan ↦ absurd (ground (arith, found, free, orphan))
          | inl there ↦
              let same : update_where (is_folder id) u fs ≡ gs =
                ground (arith, found, free, there) in
              let image = update_where-Image (is_folder id) u fs in
              subst (λ t. Image (changed (is_folder id) u) fs t × HasKeys t) same
                (
                  image,
                  (
                    Image-IsKeyed (changed (is_folder id) u) fs (update_where (is_folder id) u fs)
                        (changed-KeepsId id u k) image keyed,
                    row-IsPathed id u fs row keyed found free k pathed,
                  ),
                )
        ]
      ]
    ]

-- The row that was updated is in a folder that is there.
pub update_folder_row-parent :
    (folder : Folder) (u : Folder → Folder) (fs gs : List Folder)
    → IsKeyed fs
    → Memᴰ folder fs
    → update_folder_row folder.id u fs ≡ answer gs
    → parent_exists (u folder).parent_id fs ≡ true
unfolding update_folder_row
update_folder_row-parent folder u fs gs keyed m e =
    elim (Option-cases (find? (is_folder folder.id) fs)) [
      | inl missing ↦ absurd (ground (arith, missing))
      | inr (row, found) ↦
          let same : row ≡ folder =
            keyed row folder (find?-Memᴰ (is_folder folder.id) fs row found) m
              (ground (arith, find?-some (is_folder folder.id) fs row found)) in
          subst (λ r. parent_exists (u r).parent_id fs ≡ true) same
            (elim (Bool-cases (any (takes_path folder.id (u row).path) fs)) [
              | inl taken ↦ absurd (ground (arith, found, taken))
              | inr free ↦ elim (Bool-cases (parent_exists (u row).parent_id fs)) [
                | inr orphan ↦ absurd (ground (arith, found, free, orphan))
                | inl there ↦ there
              ]
            ])
    ]
