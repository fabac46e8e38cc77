-- ===== src/Storage/Files/Lifecycle/Pending.antt =====
-- The operations of upload.service.ts.
use graphql_prisma_postgres.Prelude.{
  ℕ, ◌≡◌, inl, inr, refl, sym, ap, ◌∙◌, Bool, true, false, List, arith, Option-cases, find?,
}
use mathlib.Core.Path.{subst}
use graphql_prisma_postgres.Storage.State.{
  FileStatus, pending, uploaded, failed, deleted, StoredFile, Provider, Store, StoreEnv,
  bad_request, internal, Answer, answer, failure, S, return, fail, ◌>>=◌, ◌>>◌, and_then, demand,
  statement, tick,
}
use graphql_prisma_postgres.Storage.Reading.{
  Reads-and_then, statement-view, demand-Reads, and_then-view,
}
use graphql_prisma_postgres.Storage.Files.{
  is_file, ask, attempt, quietly, own_file, update_file_row, set_file_status, FileWithUrl, with_url,
}
use graphql_prisma_postgres.Storage.Uploads.Settling.{
  is_pending_status, set_uploaded, settle_upload, confirm_upload, is_other_file, remove_file,
  cancel_upload,
}
use graphql_prisma_postgres.Storage.Files.Lifecycle.{confirms, misses, IsNextOf, HasIds, IsStep}
use graphql_prisma_postgres.Storage.Files.Lifecycle.Tables.{keep-IsStep}
use graphql_prisma_postgres.Storage.Files.Lifecycle.Reading.{
  files_of, ask-Reads, attempt-Reads, with_url-files, IsOwnFile, own_file-Reads,
}
use graphql_prisma_postgres.Storage.Files.Lifecycle.Changes.{
  Only, LeavesStep, same_files, update_file_row-LeavesStep,
}

pub is_pending_status-eq : (s : FileStatus) → is_pending_status s ≡ true → s ≡ pending
is_pending_status-eq pending e = refl
is_pending_status-eq uploaded e = absurd (ground (arith, e))
is_pending_status-eq failed e = absurd (ground (arith, e))
is_pending_status-eq deleted e = absurd (ground (arith, e))

module _ (fs : List StoredFile) (ids : HasIds fs) (owner : ℕ) where
  uploaded_next : (f : StoredFile) → is_pending_status f.status ≡ true → IsNextOf f (set_uploaded f)
  uploaded_next f e = record {
    id = refl;
    owner_id = refl;
    storage_key = refl;
    folder_id = refl;
    status = rw (is_pending_status-eq f.status e) confirms;
  }

  failed_next :
      (f : StoredFile) → is_pending_status f.status ≡ true → IsNextOf f (set_file_status failed f)
  failed_next f e = record {
    id = refl;
    owner_id = refl;
    storage_key = refl;
    folder_id = refl;
    status = rw (is_pending_status-eq f.status e) misses;
  }

  -- One row's update as a statement.
  updated-LeavesStep :
      (f : StoredFile) (id : ℕ) (u : StoredFile → StoredFile) (env : StoreEnv) (w : Store)
      → IsOwnFile fs id owner f
      → IsNextOf f (u f)
      → w.files ≡ fs
      → LeavesStep fs ids owner (statement (update_file_row id u) env w)
  updated-LeavesStep f id u env w own step here =
      statement-view files_of (λ _ _. refl) (IsStep (Only owner) fs) (update_file_row id u) env w
        (same_files fs ids owner internal w here)
        (update_file_row-LeavesStep fs ids owner f id u (tick env w) own step here)

  settle_upload-LeavesStep :
      (f : StoredFile) (exists : Bool) (env : StoreEnv) (w : Store)
      → IsOwnFile fs f.id owner f
      → is_pending_status f.status ≡ true
      → w.files ≡ fs
      → LeavesStep fs ids owner (settle_upload f exists env w)
  unfolding settle_upload
  settle_upload-LeavesStep f false env w own is_new here =
      and_then-view files_of (IsStep (Only owner) fs)
        (statement (update_file_row f.id (set_file_status failed)) env w)
        (fail {A = FileWithUrl} bad_request) env (λ _. refl)
        (updated-LeavesStep f f.id (set_file_status failed) env w own (failed_next f is_new) here)
  settle_upload-LeavesStep f true env w own is_new here =
      let upload = statement (update_file_row f.id set_uploaded) in
      let show = λ (p : Provider) (n : ℕ). p.set_file_visibility n f.storage_key f.is_public in
      Reads-and_then files_of fs (λ _. Unit {0}) (LeavesStep fs ids owner) (attempt show env w)
        (λ _. upload >>= with_url) env (attempt-Reads fs show env w here) (same_files fs ids owner)
        (λ _ w here _.
          shown-LeavesStep (upload env w) env
            (updated-LeavesStep f f.id set_uploaded env w own (uploaded_next f is_new) here))
    where
      shown-LeavesStep :
          (r : Answer StoredFile × Store) (env : StoreEnv)
          → LeavesStep fs ids owner r
          → LeavesStep fs ids owner (and_then r with_url env)
      shown-LeavesStep (answer g, v) env h =
          subst (IsStep (Only owner) fs) (sym (with_url-files g env v)) h
      shown-LeavesStep (failure e, v) env h = h

  pub confirm_upload-LeavesStep :
      (id : ℕ) (env : StoreEnv) (w : Store)
      → w.files ≡ fs
      → LeavesStep fs ids owner (confirm_upload id owner env w)
  unfolding confirm_upload
  confirm_upload-LeavesStep id env w here =
      let look : StoredFile → S FileWithUrl =
        λ file. ask (λ p n. p.file_exists n file.storage_key) >>= settle_upload file in
      Reads-and_then files_of fs (IsOwnFile fs id owner) (LeavesStep fs ids owner)
        (own_file id owner env w)
        (λ file. demand (is_pending_status file.status) bad_request >> look file) env
        (own_file-Reads fs id owner env w here) (same_files fs ids owner)
        (λ file w here (m, _, own).
          Reads-and_then files_of fs (λ (_ : Unit {0}). is_pending_status file.status ≡ true)
            (LeavesStep fs ids owner) (demand (is_pending_status file.status) bad_request env w)
            (λ _. look file) env
            (demand-Reads files_of fs (is_pending_status file.status) bad_request env w here)
            (same_files fs ids owner)
            (λ _ w here is_new.
              let exists = λ (p : Provider) (n : ℕ). p.file_exists n file.storage_key in
              Reads-and_then files_of fs (λ (_ : Bool). Unit {0}) (LeavesStep fs ids owner)
                (ask exists env w) (settle_upload file) env (ask-Reads fs exists env w here)
                (same_files fs ids owner)
                (λ b w here _. settle_upload-LeavesStep file b env w (m, refl, own) is_new here)))

  remove_file-LeavesStep :
      (f : StoredFile) (id : ℕ) (w : Store)
      → IsOwnFile fs id owner f
      → is_pending_status f.status ≡ true
      → w.files ≡ fs
      → LeavesStep fs ids owner (remove_file id w)
  unfolding remove_file
  remove_file-LeavesStep f id w (m, same_id, own) is_new here =
      elim (Option-cases (find? (is_file id) w.files)) [
        | inl missing ↦ rw (remove_file, missing) (same_files fs ids owner internal w here)
        | inr (row, found) ↦
            rw (remove_file, found, here)
              (keep-IsStep (Only owner) fs ids (is_other_file id) (λ g k gone.
                let one : g ≡ f = ids g f k m (ground (arith, gone, same_id)) in
                (
                  ap (λ h. h.status) one ∙ is_pending_status-eq f.status is_new,
                  ap (λ h. h.owner_id) one ∙ own,
                )))
      ]

  pub cancel_upload-LeavesStep :
      (id : ℕ) (env : StoreEnv) (w : Store)
      → w.files ≡ fs
      → LeavesStep fs ids owner (cancel_upload id owner env w)
  unfolding cancel_upload quietly
  cancel_upload-LeavesStep id env w here =
      let remove : S Bool = statement (remove_file id) >> return true in
      let drop : StoredFile → S Bool =
        λ file. quietly (λ p n. p.delete_file n file.storage_key) >> remove in
      Reads-and_then files_of fs (IsOwnFile fs id owner) (LeavesStep fs ids owner)
        (own_file id owner env w)
        (λ file. demand (is_pending_status file.status) bad_request >> drop file) env
        (own_file-Reads fs id owner env w here) (same_files fs ids owner)
        (λ file w here own.
          Reads-and_then files_of fs (λ (_ : Unit {0}). is_pending_status file.status ≡ true)
            (LeavesStep fs ids owner) (demand (is_pending_status file.status) bad_request env w)
            (λ _. drop file) env
            (demand-Reads files_of fs (is_pending_status file.status) bad_request env w here)
            (same_files fs ids owner)
            (λ _ w here is_new.
              and_then-view files_of (IsStep (Only owner) fs)
                (statement (remove_file id) env (tick env w)) (return true) env (λ _. refl)
                (statement-view files_of (λ _ _. refl) (IsStep (Only owner) fs) (remove_file id) env
                  (tick env w) (same_files fs ids owner internal w here)
                  (remove_file-LeavesStep file id (tick env (tick env w)) own is_new here))))
