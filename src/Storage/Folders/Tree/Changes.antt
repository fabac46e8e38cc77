-- ===== src/Storage/Folders/Tree/Changes.antt =====
-- The tables that the operations leave: a folder more, a folder less, a folder elsewhere.
use graphql_prisma_postgres.Prelude.{
  ℕ, ◌≡◌, ◌≢◌, inl, inr, sym, ap, ◌∙◌, true, false, Option, none, some, List, ◌∷◌, arith, truthy,
  any, keep, same_text_refl,
}
use mathlib.Core.Path.{subst}
use mathlib.Core.List.{Memᴰ}
use mathlib.Core.List.Memᴰ
use graphql_prisma_postgres.Storage.State.{Folder}
use graphql_prisma_postgres.Storage.Folders.{is_other_than, folder_clashes, is_in}
use graphql_prisma_postgres.Storage.Rows.{any-none, Memᴰ-keep, Memᴰ_of_keep}
use graphql_prisma_postgres.Storage.Folders.Tree.{IsName, IsPlaced, IsTree}

-- A place is one in every table that holds the folders of the first.
IsPlaced-more :
    (fs gs : List Folder) (f : Folder) (q : Option ℕ)
    → ((g : Folder) → Memᴰ g fs → q ≡ some g.id → Memᴰ g gs)
    → IsPlaced fs f q
    → IsPlaced gs f q
IsPlaced-more fs gs f none more here = here
IsPlaced-more fs gs f (some p) more (g, (m, ig, og, pg)) =
    (g, (more g m (ap some (sym ig)), ig, og, pg))

module _ (fs : List Folder) (tree : IsTree fs) where
  module _ (f : Folder) (fresh : any (folder_clashes f) fs ≡ false) where
    clashes_not : (g : Folder) → Memᴰ g fs → (g.id ≢ f.id) × (g.path ≢ f.path)
    clashes_not g m =
        let no = any-none (folder_clashes f) fs g fresh m in
        (
          λ e. absurd (ground (arith, no, e)),
          λ e. absurd (ground (arith, rw (e, same_text_refl f.path) at no)),
        )

    pub IsTree-cons :
        IsName f.name → truthy f.id ≡ true → IsPlaced fs f f.parent_id → IsTree (f ∷ fs)
    IsTree-cons name real here = record {
      keyed = λ a b ma mb e. elim (Memᴰ.cases_cons ma) [
        | inl ea ↦ elim (Memᴰ.cases_cons mb) [
          | inl eb ↦ ea ∙ sym eb
          | inr kb ↦ absurd ((clashes_not b kb).0 (sym e ∙ ap (λ h. h.id) ea))
        ]
        | inr ka ↦ elim (Memᴰ.cases_cons mb) [
          | inl eb ↦ absurd ((clashes_not a ka).0 (e ∙ ap (λ h. h.id) eb))
          | inr kb ↦ tree.keyed a b ka kb e
        ]
      ];
      pathed = λ a b ma mb e. elim (Memᴰ.cases_cons ma) [
        | inl ea ↦ elim (Memᴰ.cases_cons mb) [
          | inl eb ↦ ap (λ h. h.id) (ea ∙ sym eb)
          | inr kb ↦ absurd ((clashes_not b kb).1 (sym e ∙ ap (λ h. h.path) ea))
        ]
        | inr ka ↦ elim (Memᴰ.cases_cons mb) [
          | inl eb ↦ absurd ((clashes_not a ka).1 (e ∙ ap (λ h. h.path) eb))
          | inr kb ↦ tree.pathed a b ka kb e
        ]
      ];
      named = λ a m. elim (Memᴰ.cases_cons m) [
        | inl e ↦ subst (λ h. IsName h.name) (sym e) name
        | inr k ↦ tree.named a k
      ];
      real = λ a m. elim (Memᴰ.cases_cons m) [
        | inl e ↦ subst (λ h. truthy h.id ≡ true) (sym e) real
        | inr k ↦ tree.real a k
      ];
      placed = λ a m. elim (Memᴰ.cases_cons m) [
        | inl e ↦
            subst (λ h. IsPlaced (f ∷ fs) h h.parent_id) (sym e)
              (IsPlaced-more fs (f ∷ fs) f f.parent_id (λ g k _. Memᴰ.tail k) here)
        | inr k ↦ IsPlaced-more fs (f ∷ fs) a a.parent_id (λ g j _. Memᴰ.tail j) (tree.placed a k)
      ];
    }

  -- A folder that no other is in may go.
  pub IsTree-keep :
      (id : ℕ) → any (λ g. is_in id g.parent_id) fs ≡ false → IsTree (keep (is_other_than id) fs)
  IsTree-keep id childless =
      let of : (f : Folder) → Memᴰ f (keep (is_other_than id) fs) → Memᴰ f fs =
        λ f m. (Memᴰ_of_keep (is_other_than id) fs f m).0 in
      record {
        keyed = λ a b ma mb e. tree.keyed a b (of a ma) (of b mb) e;
        pathed = λ a b ma mb e. tree.pathed a b (of a ma) (of b mb) e;
        named = λ a m. tree.named a (of a m);
        real = λ a m. tree.real a (of a m);
        placed = λ a m.
            IsPlaced-more fs (keep (is_other_than id) fs) a a.parent_id
              (λ g k e.
                let no = any-none (λ h. is_in id h.parent_id) fs a childless (of a m) in
                Memᴰ-keep (is_other_than id) fs g k (ground (arith, rw e at no)))
              (tree.placed a (of a m));
      }
