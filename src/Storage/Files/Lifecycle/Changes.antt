-- ===== src/Storage/Files/Lifecycle/Changes.antt =====
-- The operations of file.service.ts that change rows.
use graphql_prisma_postgres.Prelude.{
  ℕ, ◌≡◌, inl, inr, refl, sym, ap, ◌∙◌, Bool, true, false, not, Option, none, some, List, arith,
  Option-cases, find?, any, keep, length,
}
use mathlib.Core.Path.{subst}
use graphql_prisma_postgres.Storage.State.{
  deleted, StoredFile, Store, StoreEnv, Failure, bad_request, access_denied, missing_row, internal,
  Answer, S, return, ◌>>=◌, ◌>>◌, demand, query, statement, tick,
}
use graphql_prisma_postgres.Storage.Reading.{
  Reads, Reads-and_then, query-Reads, statement-view, demand-Reads, and_then-view,
}
use graphql_prisma_postgres.Storage.Rows.{any-none, Memᴰ-keep}
use graphql_prisma_postgres.Storage.Files.{
  is_file, own_file, attempt, update_file_row, set_file_status, set_is_public, set_is_public?,
  is_among, is_foreign, is_unlisted, is_none, mark_deleted, delete_objects, delete_files,
  toggle_file_public, tell_visibility, update_file,
}
use graphql_prisma_postgres.Storage.Files.Lifecycle.{stays, deletes, IsNextOf, HasIds, IsStep}
use graphql_prisma_postgres.Storage.Files.Lifecycle.Tables.{same, IsStep-refl, update_where-IsStep}
use graphql_prisma_postgres.Storage.Files.Lifecycle.Reading.{
  files_of, attempt-Reads, delete_objects-Reads, tell_visibility-Reads, IsOwnFile, own_file-Reads,
}

-- The owners whose rows an owner's call may change.
abbrev pub Only : ℕ → ℕ → Type 0
Only owner other = other ≡ owner

module _ (fs : List StoredFile) (ids : HasIds fs) (owner : ℕ) where
  -- The state that is left is a step on.
  abbrev pub LeavesStep : {A : Type 0} → Answer A × Store → Type 0
  LeavesStep r = IsStep (Only owner) fs r.1.files

  pub same_files : (e : Failure) (w : Store) → w.files ≡ fs → IsStep (Only owner) fs w.files
  same_files e w here = subst (IsStep (Only owner) fs) (sym here) (IsStep-refl (Only owner) fs ids)

  -- The update of the owner's row.
  pub update_file_row-LeavesStep :
      (f : StoredFile) (id : ℕ) (u : StoredFile → StoredFile) (w : Store)
      → IsOwnFile fs id owner f
      → IsNextOf f (u f)
      → w.files ≡ fs
      → LeavesStep (update_file_row id u w)
  unfolding update_file_row
  update_file_row-LeavesStep f id u w (m, same_id, own) step here =
      elim (Option-cases (find? (is_file id) w.files)) [
        | inl missing ↦ rw (update_file_row, missing) (same_files internal w here)
        | inr (row, found) ↦
            rw (update_file_row, found, here)
              (update_where-IsStep (Only owner) fs ids (is_file id) u (λ g k e.
                let one : g ≡ f = ids g f k m (ground (arith, e, same_id)) in
                (subst (λ h. IsNextOf h (u h)) (sym one) step, ap (λ h. h.owner_id) one ∙ own)))
      ]

  -- An operation on the owner's file that asks the provider first.
  pub updated_file-LeavesStep :
      (f : StoredFile) (id : ℕ) (u : StoredFile → StoredFile) (ask_first : S (Unit {0}))
      (env : StoreEnv) (w : Store)
      → IsOwnFile fs id owner f
      → IsNextOf f (u f)
      → Reads files_of fs (λ _. Unit {0}) (ask_first env w)
      → LeavesStep ((ask_first >> statement (update_file_row id u)) env w)
  updated_file-LeavesStep f id u ask_first env w own step asked =
      Reads-and_then files_of fs (λ _. Unit {0}) LeavesStep (ask_first env w)
        (λ _. statement (update_file_row id u)) env asked same_files
        (λ _ w here _.
          statement-view files_of (λ _ _. refl) (IsStep (Only owner) fs) (update_file_row id u) env
            w (same_files internal w here)
            (update_file_row-LeavesStep f id u (tick env w) own step here))

  pub toggle_file_public-LeavesStep :
      (id : ℕ) (env : StoreEnv) (w : Store)
      → w.files ≡ fs
      → LeavesStep (toggle_file_public id owner env w)
  unfolding toggle_file_public
  toggle_file_public-LeavesStep id env w here =
      let tell : StoredFile → S (Unit {0}) =
        λ file. attempt (λ p n. p.set_file_visibility n file.storage_key (not file.is_public)) in
      Reads-and_then files_of fs (IsOwnFile fs id owner) LeavesStep (own_file id owner env w)
        (λ file. tell file >> statement (update_file_row id (set_is_public (not file.is_public))))
        env (own_file-Reads fs id owner env w here) same_files
        (λ file w here own.
          updated_file-LeavesStep file id (set_is_public (not file.is_public)) (tell file) env w own
            (record {
              id = refl;
              owner_id = refl;
              storage_key = refl;
              folder_id = refl;
              status = stays file.status;
            })
            (attempt-Reads fs (λ p n. p.set_file_visibility n file.storage_key (not file.is_public))
              env w here))

  set_is_public?-next : (b : Option Bool) (f : StoredFile) → IsNextOf f (set_is_public? b f)
  set_is_public?-next none f = same f
  set_is_public?-next (some b) f = record {
    id = refl;
    owner_id = refl;
    storage_key = refl;
    folder_id = refl;
    status = stays f.status;
  }

  pub update_file-LeavesStep :
      (id : ℕ) (b : Option Bool) (env : StoreEnv) (w : Store)
      → w.files ≡ fs
      → LeavesStep (update_file id owner b env w)
  unfolding update_file
  update_file-LeavesStep id b env w here =
      Reads-and_then files_of fs (IsOwnFile fs id owner) LeavesStep (own_file id owner env w)
        (λ file. tell_visibility b file >> statement (update_file_row id (set_is_public? b))) env
        (own_file-Reads fs id owner env w here) same_files
        (λ file w here own.
          updated_file-LeavesStep file id (set_is_public? b) (tell_visibility b file) env w own
            (set_is_public?-next b file) (tell_visibility-Reads fs b file env w here))

  -- The rows with the ids that were checked.
  mark_deleted-LeavesStep :
      (listed : List ℕ) (w : Store)
      → any (is_foreign owner) (keep (is_among listed) fs) ≡ false
      → w.files ≡ fs
      → LeavesStep (mark_deleted listed w)
  unfolding mark_deleted
  mark_deleted-LeavesStep listed w none_foreign here =
      rw (mark_deleted, here)
        (update_where-IsStep (Only owner) fs ids (is_among listed) (set_file_status deleted)
          (λ f m among.
            let no =
              any-none (is_foreign owner) (keep (is_among listed) fs) f none_foreign
                (Memᴰ-keep (is_among listed) fs f m among) in
            (
              record {
                id = refl;
                owner_id = refl;
                storage_key = refl;
                folder_id = refl;
                status = deletes f.status;
              },
              ground (arith, no),
            )))

  pub delete_files-LeavesStep :
      (listed : List ℕ) (env : StoreEnv) (w : Store)
      → w.files ≡ fs
      → LeavesStep (delete_files listed owner env w)
  unfolding delete_files
  delete_files-LeavesStep listed env w here =
      let rows = keep (is_among listed) fs in
      let is_rows = λ (gs : List StoredFile). gs ≡ rows in
      let finish : List StoredFile → S ℕ =
        λ gs. delete_objects gs >> (statement (mark_deleted listed) >> return (length gs)) in
      let check : List StoredFile → S ℕ =
        λ gs. demand (not (any (is_unlisted gs) listed)) missing_row >> finish gs in
      let owned : List StoredFile → S ℕ =
        λ gs. demand (not (any (is_foreign owner) gs)) access_denied >> check gs in
      let some_listed = not (is_none listed) in
      Reads-and_then files_of fs (λ (_ : Unit {0}). some_listed ≡ true) LeavesStep
        (demand some_listed bad_request env w)
        (λ _. query (λ v. keep (is_among listed) v.files) >>= owned) env
        (demand-Reads files_of fs some_listed bad_request env w here) same_files
        (λ _ w here _.
          Reads-and_then files_of fs is_rows LeavesStep
            (query (λ v. keep (is_among listed) v.files) env w) owned env
            (query-Reads files_of (λ _ _. refl) fs is_rows (λ v. keep (is_among listed) v.files) env
              w here (ap (keep (is_among listed)) here))
            same_files
            (λ gs w here read.
              let mine = not (any (is_foreign owner) gs) in
              let found = not (any (is_unlisted gs) listed) in
              Reads-and_then files_of fs (λ (_ : Unit {0}). mine ≡ true) LeavesStep
                (demand mine access_denied env w) (λ _. check gs) env
                (demand-Reads files_of fs mine access_denied env w here) same_files
                (λ _ w here own.
                  let none_foreign : any (is_foreign owner) gs ≡ false = ground (arith, own) in
                  Reads-and_then files_of fs (λ (_ : Unit {0}). found ≡ true) LeavesStep
                    (demand found missing_row env w) (λ _. finish gs) env
                    (demand-Reads files_of fs found missing_row env w here) same_files
                    (λ _ w here _.
                      Reads-and_then files_of fs (λ _. Unit {0}) LeavesStep
                        (delete_objects gs env w)
                        (λ _. statement (mark_deleted listed) >> return (length gs)) env
                        (delete_objects-Reads fs gs env w here) same_files
                        (λ _ w here _.
                          and_then-view files_of (IsStep (Only owner) fs)
                            (statement (mark_deleted listed) env w) (return (length gs)) env
                            (λ _. refl)
                            (statement-view files_of (λ _ _. refl) (IsStep (Only owner) fs)
                              (mark_deleted listed) env w (same_files internal w here)
                              (mark_deleted-LeavesStep listed (tick env w) (rw read at none_foreign)
                                here)))))))
