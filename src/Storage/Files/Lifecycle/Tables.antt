-- ===== src/Storage/Files/Lifecycle/Tables.antt =====
-- The tables that the operations on files leave.
use graphql_prisma_postgres.Prelude.{
  ℕ, ◌≡◌, ◌≢◌, inl, inr, refl, sym, ap, ◌∙◌, Bool, true, false, List, ◌∷◌, arith, Bool-cases, any,
  keep, update_where,
}
use mathlib.Core.Path.{subst}
use mathlib.Core.List.{Memᴰ}
use mathlib.Core.List.Memᴰ
use graphql_prisma_postgres.Storage.State.{pending, StoredFile}
use graphql_prisma_postgres.Storage.Uploads.{file_clashes}
use graphql_prisma_postgres.Storage.Rows.{
  any-none, Memᴰ-keep, Memᴰ_of_keep, changed, update_where-Image,
}
use graphql_prisma_postgres.Storage.Files.Lifecycle.{stays, IsNextOf, HasIds, IsStep}

pub same : (f : StoredFile) → IsNextOf f f
same f = record {
  id = refl;
  owner_id = refl;
  storage_key = refl;
  folder_id = refl;
  status = stays f.status;
}

module _ (Mine : ℕ → Type 0) (fs : List StoredFile) (ids : HasIds fs) where
  pub IsStep-refl : IsStep Mine fs fs
  IsStep-refl = record {
    ids = ids;
    origin = λ g m. inl (g, (m, same g));
    future = λ f m. inl (f, (m, same f));
    others = λ f m _. m;
  }

  -- Rows of these owners that are rewritten, each a step on.
  pub update_where-IsStep :
      (p : StoredFile → Bool) (u : StoredFile → StoredFile)
      → ((f : StoredFile) → Memᴰ f fs → p f ≡ true → IsNextOf f (u f) × Mine f.owner_id)
      → IsStep Mine fs (update_where p u fs)
  update_where-IsStep p u step =
      let (to, of) = update_where-Image p u fs in
      let next : (f : StoredFile) → Memᴰ f fs → IsNextOf f (changed p u f) =
        λ f m. elim (Bool-cases (p f)) [ inl y ↦ rw y (step f m y).0 | inr n ↦ rw n (same f) ] in
      record {
        ids = λ a b ma mb e.
            let (f, (mf, ef)) = of a ma in
            let (g, (mg, eg)) = of b mb in
            let one : f ≡ g = ids f g mf mg (
              sym (next f mf).id
              ∙ (ap (λ h. h.id) (sym ef) ∙ (e ∙ (ap (λ h. h.id) eg ∙ (next g mg).id)))) in
            ef ∙ (ap (changed p u) one ∙ sym eg);
        origin = λ g m.
            let (f, (mf, e)) = of g m in inl (f, (mf, subst (IsNextOf f) (sym e) (next f mf)));
        future = λ f m. inl (changed p u f, (to f m, next f m));
        others = λ f m other. elim (Bool-cases (p f)) [
          | inl y ↦ absurd (other (step f m y).1)
          | inr n ↦ Memᴰ.cast (rw n refl) (to f m)
        ];
      }

  -- A new pending row.
  pub cons-IsStep :
      (f : StoredFile)
      → any (file_clashes f) fs ≡ false
      → f.status ≡ pending
      → IsStep Mine fs (f ∷ fs)
  cons-IsStep f fresh is_new =
      let apart : (g : StoredFile) → Memᴰ g fs → g.id ≢ f.id =
        λ g m e. absurd (ground (arith, any-none (file_clashes f) fs g fresh m, e)) in
      record {
        ids = λ a b ma mb e. elim (Memᴰ.cases_cons ma) [
          | inl ea ↦ elim (Memᴰ.cases_cons mb) [
            | inl eb ↦ ea ∙ sym eb
            | inr kb ↦ absurd (apart b kb (sym e ∙ ap (λ h. h.id) ea))
          ]
          | inr ka ↦ elim (Memᴰ.cases_cons mb) [
            | inl eb ↦ absurd (apart a ka (e ∙ ap (λ h. h.id) eb))
            | inr kb ↦ ids a b ka kb e
          ]
        ];
        origin = λ g m. elim (Memᴰ.cases_cons m) [
          | inl e ↦
              inr (
                ap (λ h. h.status) e ∙ is_new,
                λ h k same_id. apart h k (same_id ∙ ap (λ j. j.id) e),
              )
          | inr k ↦ inl (g, (k, same g))
        ];
        future = λ g m. inl (g, (Memᴰ.tail m, same g));
        others = λ g m _. Memᴰ.tail m;
      }

  -- Pending rows of these owners that go.
  pub keep-IsStep :
      (p : StoredFile → Bool)
      → ((f : StoredFile) → Memᴰ f fs → p f ≡ false → (f.status ≡ pending) × Mine f.owner_id)
      → IsStep Mine fs (keep p fs)
  keep-IsStep p goes = record {
    ids = λ a b ma mb e. ids a b (Memᴰ_of_keep p fs a ma).0 (Memᴰ_of_keep p fs b mb).0 e;
    origin = λ g m. inl (g, ((Memᴰ_of_keep p fs g m).0, same g));
    future = λ f m. elim (Bool-cases (p f)) [
      | inl y ↦ inl (f, (Memᴰ-keep p fs f m y, same f))
      | inr n ↦ inr (goes f m n).0
    ];
    others = λ f m other. elim (Bool-cases (p f)) [
      | inl y ↦ Memᴰ-keep p fs f m y
      | inr n ↦ absurd (other (goes f m n).1)
    ];
  }
