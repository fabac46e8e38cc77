-- ===== src/Storage/Folders/Tree/Moving.antt =====
-- A relocation keeps the tree, when the folder's new place is outside of it.
use graphql_prisma_postgres.Prelude.{
  ℕ, ◌≡◌, ◌≢◌, inl, inr, refl, sym, ap, ◌∙◌, false, Option, none, some, List, [], ◌∷◌, ◌++◌, arith,
  Bool-cases, ◌==◌, length,
}
use mathlib.Core.Path.{subst}
use mathlib.Core.List.{Memᴰ, append_assoc}
use mathlib.Core.List.Memᴰ
use graphql_prisma_postgres.Storage.State.{Folder}
use graphql_prisma_postgres.Storage.Paths.{slash}
use graphql_prisma_postgres.Storage.Paths.Names.{IsFlat, sanitize_folder_name-settled}
use graphql_prisma_postgres.Storage.Paths.Prefixes.{
  is_under, IsUnder-of, is_under-of, split-IsUnder, length-append, replace_first-prefix, not-IsFlat,
}
use graphql_prisma_postgres.Storage.Folders.Relocation.{set_path}
use graphql_prisma_postgres.Storage.Rows.{Image}
use graphql_prisma_postgres.Storage.Folders.Tables.{KeepsId, HasKeys}
use graphql_prisma_postgres.Storage.Folders.Below.{relocated, not_under_self}
use graphql_prisma_postgres.Storage.Folders.Tree.{IsName, IsPlaced, IsTree}

append-cancel : (a b c : List ℕ) → a ++ b ≡ a ++ c → b ≡ c
append-cancel [] b c e = e
append-cancel (x ∷ a) b c e = append-cancel a b c (ground (arith, e))

pub IsName-IsFlat : (n : List ℕ) → IsName n → IsFlat n
IsName-IsFlat n (settled, _) = subst IsFlat settled (sanitize_folder_name-settled n).1

-- A new place that is not in the folder itself.
abbrev pub IsPlacedOutside : List Folder → List ℕ → Folder → Option ℕ → Type 0
IsPlacedOutside fs old f none = f.path ≡ f.name
IsPlacedOutside fs old f (some parent) =
    (g : Folder) × (Memᴰ g fs
      × (g.id ≡ parent)
      × (g.owner_id ≡ f.owner_id)
      × (f.path ≡ g.path ++ (slash ∷ f.name))
      × (g.path ≢ old)
      × (is_under old g.path ≡ false))

module _ (fs : List Folder) (tree : IsTree fs) (folder : Folder) (present : Memᴰ folder fs)
    (u : Folder → Folder) where
  abbrev pub now : Folder → Folder
  now f = relocated folder.id u folder.path (u folder).path f

  pub now_self : now folder ≡ u folder
  now_self = ground (arith, not_under_self folder.path)

  pub now-apart :
      (g : Folder)
      → Memᴰ g fs
      → g.path ≢ folder.path
      → is_under folder.path g.path ≡ false
      → now g ≡ g
  now-apart g m other out = elim (Bool-cases (g.id == folder.id)) [
    | inr n ↦ rw (out, n) refl
    | inl y ↦ absurd (other (ap (λ h. h.path) (tree.keyed g folder m present (ground (arith, y)))))
  ]

  pub now-under :
      (g : Folder) (r : List ℕ)
      → Memᴰ g fs
      → g.path ≡ folder.path ++ (slash ∷ r)
      → now g ≡ set_path ((u folder).path ++ (slash ∷ r)) g
  now-under g r m e = elim (Bool-cases (g.id == folder.id)) [
    | inr n ↦
        rw
          (
            e,
            is_under-of folder.path r,
            n,
            replace_first-prefix folder.path (u folder).path (slash ∷ r),
          )
          refl
    | inl y ↦
        let same : g.path ≡ folder.path =
          ap (λ h. h.path) (tree.keyed g folder m present (ground (arith, y))) in
        absurd (omega (arith, ap length same, ap length e, length-append folder.path (slash ∷ r)))
  ]

  module _ (gs : List Folder) (image : Image now fs gs) where
    -- A folder below the one that moves.
    IsPlaced-under :
        (f : Folder) (r : List ℕ) (q : Option ℕ)
        → Memᴰ f fs
        → IsName f.name
        → f.path ≡ folder.path ++ (slash ∷ r)
        → IsPlaced fs f q
        → (u folder).owner_id ≡ folder.owner_id
        → (u folder).id ≡ folder.id
        → IsPlaced gs (now f) q
    IsPlaced-under f r none m name e here k ki =
        absurd (not-IsFlat folder.path r (rw e at (rw (sym here) at (IsName-IsFlat f.name name))))
    IsPlaced-under f r (some p) m name e (g, (mg, ig, og, pg)) k ki =
        subst (λ h. IsPlaced gs h (some p)) (sym (now-under f r m e))
          (elim (split-IsUnder g.path f.name folder.path r (IsName-IsFlat f.name name)
            (sym pg ∙ e)) [
              | inl at_folder ↦
                  let same : g ≡ folder =
                    tree.keyed g folder mg present (tree.pathed g folder mg present at_folder) in
                  (
                    u folder,
                    (
                      Memᴰ.cast (sym now_self) (image.0 folder present),
                      ki ∙ (ap (λ h. h.id) (sym same) ∙ ig),
                      k ∙ (ap (λ h. h.owner_id) (sym same) ∙ og),
                      ap (λ s. (u folder).path ++ s)
                          (append-cancel folder.path (slash ∷ r) (slash ∷ f.name)
                            (sym e ∙ rw at_folder at pg)),
                    ),
                  )
              | inr (t, under) ↦
                  let longer : slash ∷ r ≡ (slash ∷ t) ++ (slash ∷ f.name) =
                    append-cancel folder.path (slash ∷ r) ((slash ∷ t) ++ (slash ∷ f.name)) (
                      sym e
                      ∙ (rw under at pg ∙ append_assoc folder.path (slash ∷ t) (slash ∷ f.name))) in
                  (
                    set_path ((u folder).path ++ (slash ∷ t)) g,
                    (
                      Memᴰ.cast (sym (now-under g t mg under)) (image.0 g mg),
                      ig,
                      og,
                      ap (λ s. (u folder).path ++ s) longer
                          ∙ sym (append_assoc (u folder).path (slash ∷ t) (slash ∷ f.name)),
                    ),
                  )
            ])

    -- A folder elsewhere.
    IsPlaced-apart :
        (f : Folder) (q : Option ℕ)
        → Memᴰ f fs
        → now f ≡ f
        → is_under folder.path f.path ≡ false
        → IsPlaced fs f q
        → IsPlaced gs (now f) q
    IsPlaced-apart f none m same out here = subst (λ h. IsPlaced gs h none) (sym same) here
    IsPlaced-apart f (some p) m same out (g, (mg, ig, og, pg)) =
        let under : (r : List ℕ) → f.path ≢ folder.path ++ (slash ∷ r) =
          λ r e. absurd (ground (arith, rw e at out, is_under-of folder.path r)) in
        let other : g.path ≢ folder.path = λ e. under f.name (rw e at pg) in
        let not_in : is_under folder.path g.path ≡ false =
          elim (Bool-cases (is_under folder.path g.path)) [
            | inr n ↦ n
            | inl y ↦
                let (t, e) = IsUnder-of folder.path g.path y in
                absurd (
                  under (t ++ (slash ∷ f.name))
                    (rw e at pg ∙ append_assoc folder.path (slash ∷ t) (slash ∷ f.name)))
          ] in
        subst (λ h. IsPlaced gs h (some p)) (sym same)
          (g, (Memᴰ.cast (sym (now-apart g mg other not_in)) (image.0 g mg), ig, og, pg))

    -- The folder itself.
    IsPlaced-self :
        (q : Option ℕ) → IsPlacedOutside fs folder.path (u folder) q → IsPlaced gs (now folder) q
    IsPlaced-self none here = subst (λ h. IsPlaced gs h none) (sym now_self) here
    IsPlaced-self (some p) (g, (mg, ig, og, pg, other, out)) =
        subst (λ h. IsPlaced gs h (some p)) (sym now_self)
          (g, (Memᴰ.cast (sym (now-apart g mg other out)) (image.0 g mg), ig, og, pg))

  -- What a relocation needs of the change to the folder itself.
  abbrev pub IsRelocation : Type 0
  IsRelocation =
      KeepsId u
      × ((u folder).owner_id ≡ folder.owner_id)
      × IsName (u folder).name
      × IsPlacedOutside fs folder.path (u folder) (u folder).parent_id

  now-apart_row :
      (f : Folder)
      → Memᴰ f fs
      → (f.id == folder.id) ≡ false
      → is_under folder.path f.path ≡ false
      → now f ≡ f
  now-apart_row f m n out = rw (out, n) refl

  -- A row after the relocation is the folder changed, or the row with another path.
  IsPlaced-now :
      IsRelocation
      → (gs : List Folder) → Image now fs gs
      → (f : Folder) → Memᴰ f fs
      → (IsPlaced gs (now f) (now f).parent_id) × IsName (now f).name
  IsPlaced-now (kept, owner, name, outside) gs image f m = elim (Bool-cases (f.id == folder.id)) [
    | inl y ↦
        let same : f ≡ folder = tree.keyed f folder m present (ground (arith, y)) in
        subst (λ h. (IsPlaced gs (now h) (now h).parent_id) × IsName (now h).name) (sym same)
          (
            IsPlaced-self gs image (now folder).parent_id (
                subst (λ h. IsPlacedOutside fs folder.path (u folder) h.parent_id) (sym now_self)
                  outside),
            subst (λ h. IsName h.name) (sym now_self) name,
          )
    | inr n ↦ elim (Bool-cases (is_under folder.path f.path)) [
      | inl under ↦
          let (r, e) = IsUnder-of folder.path f.path under in
          let moved = now-under f r m e in
          (
            subst (λ h. IsPlaced gs (now f) h.parent_id) (sym moved)
                (IsPlaced-under gs image f r f.parent_id m (tree.named f m) e (tree.placed f m)
                  owner (kept folder)),
            subst (λ h. IsName h.name) (sym moved) (tree.named f m),
          )
      | inr out ↦
          let stays = now-apart_row f m n out in
          (
            subst (λ h. IsPlaced gs (now f) h.parent_id) (sym stays)
                (IsPlaced-apart gs image f f.parent_id m stays out (tree.placed f m)),
            subst (λ h. IsName h.name) (sym stays) (tree.named f m),
          )
    ]
  ]

  pub now-KeepsId : KeepsId u → KeepsId now
  now-KeepsId k f = elim (Bool-cases (f.id == folder.id)) [
    | inl y ↦ elim (Bool-cases (is_under folder.path f.path)) [
      | inl a ↦ rw (y, a) (k f)
      | inr b ↦ rw (y, b) (k f)
    ]
    | inr n ↦ elim (Bool-cases (is_under folder.path f.path)) [
      | inl a ↦ rw (n, a) refl
      | inr b ↦ rw (n, b) refl
    ]
  ]

  pub relocated-IsTree :
      IsRelocation → (gs : List Folder) → Image now fs gs → HasKeys gs → IsTree gs
  relocated-IsTree r gs image (keyed, pathed) = record {
    keyed = keyed;
    pathed = pathed;
    named = λ f' m'.
        let (f, (m, e)) = image.1 f' m' in
        subst (λ h. IsName h.name) (sym e) (IsPlaced-now r gs image f m).1;
    real = λ f' m'.
        let (f, (m, e)) = image.1 f' m' in
        ground (arith, ap (λ h. h.id) e, now-KeepsId r.0 f, tree.real f m);
    placed = λ f' m'.
        let (f, (m, e)) = image.1 f' m' in
        subst (λ h. IsPlaced gs h h.parent_id) (sym e) (IsPlaced-now r gs image f m).0;
  }
