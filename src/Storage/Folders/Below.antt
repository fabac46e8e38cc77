-- ===== src/Storage/Folders/Below.antt =====
-- What a renamed or moved folder takes with it.
use graphql_prisma_postgres.Prelude.{
  ℕ, ◌≡◌, inl, inr, refl, sym, ap, ◌∙◌, Bool, true, false, List, [], ◌∷◌, arith, Bool-cases,
  if◌then◌else◌, ◌==◌, any, keep, All, length,
}
use mathlib.Core.Path.{subst, ap₂}
use mathlib.Core.List.{Memᴰ}
use graphql_prisma_postgres.Storage.State.{Folder, answer, Answer-cases, Store}
use graphql_prisma_postgres.Storage.Paths.{slash, replace_first}
use graphql_prisma_postgres.Storage.Paths.Prefixes.{
  is_under, is_like_under, is_under-is_like, is_like-is_under, has_wildcard, IsUnder-of,
  length-append,
}
use graphql_prisma_postgres.Storage.Folders.{is_folder}
use graphql_prisma_postgres.Storage.Folders.Relocation.{
  update_folder_row, set_path, update_paths, relocate,
}
use graphql_prisma_postgres.Storage.Rows.{
  Image, Image-trans, Image-congr, changed, any-one, any-some, Memᴰ-keep, Memᴰ_of_keep, All-of,
}
use graphql_prisma_postgres.Storage.Folders.Tables.{
  changed-KeepsId, KeepsId, IsKeyed, IsPathed, HasKeys, update_folder_row-Image,
}

Bool-same : (a b : Bool) → (a ≡ true → b ≡ true) → (b ≡ true → a ≡ true) → a ≡ b
Bool-same true b to of = sym (to refl)
Bool-same false true to of = of refl
Bool-same false false to of = refl

-- A row after the updates of some rows, in their order.
below : List ℕ → List ℕ → List Folder → Folder → Folder
below old new [] f = f
below old new (c ∷ cs) f =
    below old new cs (changed (is_folder c.id) (set_path (replace_first old new c.path)) f)

below-KeepsId : (old new : List ℕ) (cs : List Folder) → KeepsId (below old new cs)
unfolding below
below-KeepsId old new [] f = refl
below-KeepsId old new (c ∷ cs) f =
    let u = set_path (replace_first old new c.path) in
    below-KeepsId old new cs (changed (is_folder c.id) u f) ∙ changed-KeepsId c.id u (λ g. refl) f

update_paths-Image :
    (old new : List ℕ) (cs fs gs : List Folder)
    → HasKeys fs
    → update_paths old new cs fs ≡ answer gs
    → Image (below old new cs) fs gs × HasKeys gs
unfolding update_paths below
update_paths-Image old new [] fs gs keys e =
    let same : fs ≡ gs = ground (arith, e) in
    subst (λ t. Image (λ f. f) fs t × HasKeys t) same ((λ f m. m, λ f m. (f, (m, refl))), keys)
update_paths-Image old new (c ∷ cs) fs gs keys e =
    let u = set_path (replace_first old new c.path) in
    elim (Answer-cases (update_folder_row c.id u fs)) [
      | inr (x, stopped) ↦ absurd (ground (arith, stopped))
      | inl (hs, went) ↦
          let (first, keys') = update_folder_row-Image c.id u fs hs (λ f. refl) keys went in
          let (rest, keys'') = update_paths-Image old new cs hs gs keys' (ground (arith, went)) in
          (Image-trans (changed (is_folder c.id) u) (below old new cs) fs hs gs first rest, keys'')
    ]

-- The rows of the list that are this row have its path.
abbrev AgreesOn : Folder → Folder → Type 0
AgreesOn f c = c.id ≡ f.id → c.path ≡ f.path

below-once :
    (old new : List ℕ) (cs : List Folder) (f g : Folder)
    → All (AgreesOn f) cs
    → g.id ≡ f.id
    → below old new cs g
      ≡ (if any (is_folder f.id) cs then set_path (replace_first old new f.path) g else g)
unfolding below
below-once old new [] f g h same = refl
below-once old new (c ∷ cs) f g (agrees, h) same = elim (Bool-cases (c.id == f.id)) [
  | inl here ↦
      let path : c.path ≡ f.path = agrees (ground (arith, here)) in
      let hit : (g.id == c.id) ≡ true = ground (arith, here, same) in
      rw
        (
          hit,
          here,
          path,
          below-once old new cs f (set_path (replace_first old new f.path) g) h same,
        )
        (elim (Bool-cases (any (is_folder f.id) cs)) [ inl y ↦ rw y refl | inr n ↦ rw n refl ])
  | inr there ↦
      let miss : (g.id == c.id) ≡ false = ground (arith, there, same) in
      rw (miss, there) (below-once old new cs f g h same)
]

pub not_under_self : (s : List ℕ) → is_under s s ≡ false
not_under_self s = elim (Bool-cases (is_under s s)) [
  | inr n ↦ n
  | inl y ↦
      let (r, e) = IsUnder-of s s y in
      absurd (omega (arith, ap length e, length-append s (slash ∷ r)))
]

-- What becomes of a row when a folder gets another path.
abbrev pub relocated : ℕ → (Folder → Folder) → List ℕ → List ℕ → Folder → Folder
relocated id u old new f =
    let g = changed (is_folder id) u f in
    if is_under old f.path then set_path (replace_first old new f.path) g else g

-- The database finds no folder for the path that is not under it.
abbrev pub FindsOnlyBelow : List ℕ → List Folder → Type 0
FindsOnlyBelow old fs =
    (g : Folder) → Memᴰ g fs → is_like_under old g.path ≡ true → is_under old g.path ≡ true

-- No folder is mistaken for one below the folder of the id.
abbrev pub IsUnmistaken : ℕ → List Folder → Type 0
IsUnmistaken id fs = (f : Folder) → Memᴰ f fs → f.id ≡ id → FindsOnlyBelow f.path fs

-- None is where the path has no wildcard.
pub plain-IsUnmistaken :
    (id : ℕ) (fs : List Folder)
    → ((f : Folder) → Memᴰ f fs → f.id ≡ id → has_wildcard f.path ≡ false)
    → IsUnmistaken id fs
plain-IsUnmistaken id fs plain f m same g mg h = is_like-is_under f.path g.path (plain f m same) h

-- So the database finds those under it.
pub keep-below :
    (old : List ℕ) (fs : List Folder)
    → FindsOnlyBelow old fs
    → keep (λ g. is_like_under old g.path) fs ≡ keep (λ g. is_under old g.path) fs
keep-below old [] only = refl
keep-below old (f ∷ fs) only =
    let same : is_like_under old f.path ≡ is_under old f.path =
      Bool-same (is_like_under old f.path) (is_under old f.path) (only f (Memᴰ.head refl))
        (is_under-is_like old f.path) in
    ap₂ (λ b rest. if b then f ∷ rest else rest) same
      (keep-below old fs (λ g m. only g (Memᴰ.tail m)))

module _ (id : ℕ) (u : Folder → Folder) (k : KeepsId u) (old new : List ℕ) (fs : List Folder)
    (keyed : IsKeyed fs) where
  abbrev under_old : Folder → Bool
  under_old g = is_under old g.path

  agrees_all : (f : Folder) → Memᴰ f fs → All (AgreesOn f) (keep under_old fs)
  agrees_all f m =
      All-of (AgreesOn f) (keep under_old fs)
        (λ c mc same. ap (λ g. g.path) (keyed c f (Memᴰ_of_keep under_old fs c mc).0 m same))

  listed : (f : Folder) → Memᴰ f fs → any (is_folder f.id) (keep under_old fs) ≡ under_old f
  listed f m = elim (Bool-cases (under_old f)) [
    | inl y ↦
        any-one (is_folder f.id) (keep under_old fs) f (Memᴰ-keep under_old fs f m y) (ground arith)
        ∙ sym y
    | inr n ↦ elim (Bool-cases (any (is_folder f.id) (keep under_old fs))) [
      | inr none_is ↦ none_is ∙ sym n
      | inl some_is ↦
          let (c, (mc, here)) = any-some (is_folder f.id) (keep under_old fs) some_is in
          let (mc', passes) = Memᴰ_of_keep under_old fs c mc in
          let same : c ≡ f = keyed c f mc' m (ground (arith, here)) in
          absurd (ground (arith, rw same at passes, n))
    ]
  ]

  below-relocated :
      (f : Folder)
      → Memᴰ f fs
      → below old new (keep under_old fs) (changed (is_folder id) u f) ≡ relocated id u old new f
  below-relocated f m =
      below-once old new (keep under_old fs) f (changed (is_folder id) u f) (agrees_all f m)
        (changed-KeepsId id u k f)
      ∙ ap
          (λ b.
            if b
            then set_path (replace_first old new f.path) (changed (is_folder id) u f)
            else changed (is_folder id) u f)
          (listed f m)

  -- A relocation that succeeds makes every row what it becomes, and keeps the keys.
  pub relocate-Image :
      (w w' : Store)
      → w.folders ≡ fs
      → IsPathed fs
      → relocate id u old new (keep under_old fs) w ≡ (answer tt, w')
      → Image (relocated id u old new) fs w'.folders × HasKeys w'.folders
  unfolding relocate
  relocate-Image w w' same pathed e = elim (Answer-cases (update_folder_row id u w.folders)) [
    | inr (x, stopped) ↦ absurd (ground (arith, stopped))
    | inl (gs, went) ↦ elim (Answer-cases (update_paths old new (keep under_old fs) gs)) [
      | inr (x, stopped) ↦ absurd (ground (arith, went, stopped))
      | inl (hs, ended) ↦
          let (first, keys) =
            update_folder_row-Image id u fs gs k (keyed, pathed) (rw same at went) in
          let (rest, keys') = update_paths-Image old new (keep under_old fs) gs hs keys ended in
          let after : w'.folders ≡ hs = ground (arith, e, went, ended) in
          let whole =
            Image-trans (changed (is_folder id) u) (below old new (keep under_old fs)) fs gs hs
              first rest in
          subst (λ t. Image (relocated id u old new) fs t × HasKeys t) (sym after)
            (
              Image-congr (λ f. below old new (keep under_old fs) (changed (is_folder id) u f))
                  (relocated id u old new) fs hs below-relocated whole,
              keys',
            )
    ]
  ]
