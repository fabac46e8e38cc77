-- ===== src/Storage/Files/Lifecycle/Cleaned.antt =====
-- The late uploads that are cleaned up.
use graphql_prisma_postgres.Prelude.{
  ℕ, ◌≡◌, inl, inr, refl, sym, ap, ◌∙◌, true, not, List, [], ◌∷◌, arith, Bool-cases, keep, elem,
  length, ◌==◌,
}
use mathlib.Core.Path.{subst}
use mathlib.Core.List.{Memᴰ}
use graphql_prisma_postgres.Storage.State.{
  StoredFile, Store, StoreEnv, Failure, internal, Answer, S, return, ◌>>◌, query, statement,
}
use graphql_prisma_postgres.Storage.Reading.{
  Reads-and_then, query-Reads, statement-view, and_then-view,
}
use graphql_prisma_postgres.Storage.Rows.{Memᴰ_of_keep}
use graphql_prisma_postgres.Storage.Files.{is_among, delete_objects}
use graphql_prisma_postgres.Storage.Uploads.Settling.{
  is_expired_pending, id_of, remove_files, cleanup_expired_pending_files,
}
use graphql_prisma_postgres.Storage.Files.Lifecycle.{HasIds, IsStep}
use graphql_prisma_postgres.Storage.Files.Lifecycle.Tables.{IsStep-refl, keep-IsStep}
use graphql_prisma_postgres.Storage.Files.Lifecycle.Reading.{files_of, delete_objects-Reads}
use graphql_prisma_postgres.Storage.Files.Lifecycle.Pending.{is_pending_status-eq}

module _ (fs : List StoredFile) (ids : HasIds fs) where
  elem-id_of :
      (a : ℕ) (gs : List StoredFile)
      → elem a (id_of gs) ≡ true
      → (g : StoredFile) × (Memᴰ g gs × (g.id ≡ a))
  elem-id_of a [] e = absurd (ground (arith, e))
  elem-id_of a (g ∷ gs) e = elim (Bool-cases (a == g.id)) [
    | inl y ↦ (g, (Memᴰ.head refl, ground (arith, y)))
    | inr n ↦
        let (h, (m, same)) = elem-id_of a gs (ground (arith, e, n)) in (h, (Memᴰ.tail m, same))
  ]

  pub remove_late-IsStep :
      (now : ℕ)
      → IsStep
          (λ _. Unit {0})
          fs
          (keep (λ f. not (is_among (id_of (keep (is_expired_pending now) fs)) f)) fs)
  remove_late-IsStep now =
      let late = keep (is_expired_pending now) fs in
      keep-IsStep (λ _. Unit {0}) fs ids (λ f. not (is_among (id_of late) f))
        (λ f m gone.
          let (g, (k, same_id)) = elem-id_of f.id late (ground (arith, gone)) in
          let (mg, passes) = Memᴰ_of_keep (is_expired_pending now) fs g k in
          let one : g ≡ f = ids g f mg m same_id in
          (
            ap (λ h. h.status) (sym one) ∙ is_pending_status-eq g.status (ground (arith, passes)),
            tt,
          ))

  pub cleanup-IsStep :
      (env : StoreEnv) (w : Store)
      → w.files ≡ fs
      → IsStep (λ _. Unit {0}) fs (cleanup_expired_pending_files env w).1.files
  unfolding cleanup_expired_pending_files remove_files
  cleanup-IsStep env w here =
      let Mine = λ (_ : ℕ). Unit {0} in
      let late = keep (is_expired_pending w.clock) fs in
      let find = λ (v : Store). keep (is_expired_pending w.clock) v.files in
      let is_late = λ (gs : List StoredFile). gs ≡ late in
      let C = λ (r : Answer ℕ × Store). IsStep Mine fs r.1.files in
      let stays : (e : Failure) (v : Store) → v.files ≡ fs → IsStep Mine fs v.files =
        λ e v here. subst (IsStep Mine fs) (sym here) (IsStep-refl Mine fs ids) in
      let finish : List StoredFile → S ℕ =
        λ gs. statement (remove_files (id_of gs)) >> return (length gs) in
      Reads-and_then files_of fs is_late C (query find env w) (λ gs. delete_objects gs >> finish gs)
        env
        (query-Reads files_of (λ _ _. refl) fs is_late find env w here
          (ap (keep (is_expired_pending w.clock)) here))
        stays
        (λ gs v here same.
          Reads-and_then files_of fs (λ (_ : Unit {0}). Unit {0}) C (delete_objects gs env v)
            (λ _. finish gs) env (delete_objects-Reads fs gs env v here) stays
            (λ _ v here _.
              and_then-view files_of (IsStep Mine fs) (statement (remove_files (id_of gs)) env v)
                (return (length gs)) env (λ _. refl)
                (statement-view files_of (λ _ _. refl) (IsStep Mine fs) (remove_files (id_of gs))
                  env v (stays internal v here) (rw (here, same) (remove_late-IsStep w.clock)))))
