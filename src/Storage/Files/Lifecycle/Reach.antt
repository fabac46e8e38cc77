-- ===== src/Storage/Files/Lifecycle/Reach.antt =====
-- Every call that changes files, as a step of their life.
use graphql_prisma_postgres.Prelude.{ℕ, refl, Bool, Option, List}
use graphql_prisma_postgres.Storage.State.{Store, StoreEnv}
use graphql_prisma_postgres.Storage.Files.{delete_files, toggle_file_public, update_file}
use graphql_prisma_postgres.Storage.Uploads.{CreateSignedUrlInput, create_signed_upload_url}
use graphql_prisma_postgres.Storage.Uploads.Settling.{
  confirm_upload, cancel_upload, cleanup_expired_pending_files,
}
use graphql_prisma_postgres.Storage.Files.Lifecycle.{HasIds, IsStep}
use graphql_prisma_postgres.Storage.Files.Lifecycle.Changes.{
  Only, delete_files-LeavesStep, toggle_file_public-LeavesStep, update_file-LeavesStep,
}
use graphql_prisma_postgres.Storage.Files.Lifecycle.Pending.{
  confirm_upload-LeavesStep, cancel_upload-LeavesStep,
}
use graphql_prisma_postgres.Storage.Files.Lifecycle.Created.{create_signed_upload_url-LeavesStep}
use graphql_prisma_postgres.Storage.Files.Lifecycle.Cleaned.{cleanup-IsStep}

-- A call on files, by an owner or by the timer.
pub data FileCall : Type 0 where
  signs : CreateSignedUrlInput → FileCall
  confirms_upload cancels_upload toggles_public : ℕ → ℕ → FileCall
  updates : ℕ → ℕ → Option Bool → FileCall
  deletes_files : List ℕ → ℕ → FileCall
  cleans : FileCall

abbrev pub run_file_call : FileCall → StoreEnv → Store → Store
run_file_call (signs input) env w = (create_signed_upload_url input env w).1
run_file_call (confirms_upload id owner) env w = (confirm_upload id owner env w).1
run_file_call (cancels_upload id owner) env w = (cancel_upload id owner env w).1
run_file_call (toggles_public id owner) env w = (toggle_file_public id owner env w).1
run_file_call (updates id owner is_public) env w = (update_file id owner is_public env w).1
run_file_call (deletes_files listed owner) env w = (delete_files listed owner env w).1
run_file_call cleans env w = (cleanup_expired_pending_files env w).1

-- The owners whose rows a call may change: the caller, or anyone for the timer.
abbrev pub MayChange : FileCall → ℕ → Type 0
MayChange (signs input) = Only input.owner_id
MayChange (confirms_upload id owner) = Only owner
MayChange (cancels_upload id owner) = Only owner
MayChange (toggles_public id owner) = Only owner
MayChange (updates id owner is_public) = Only owner
MayChange (deletes_files listed owner) = Only owner
MayChange cleans = λ _. Unit {0}

-- A call on files refines the life of a file, however each call of the database and of the provider
-- ends, where the ids of the files are unique: they stay unique; each row there is afterwards is a row
-- of before, of the same id, owner, object and folder, whose status stayed, or went from pending to
-- uploaded or failed, or to deleted, or it is a new row, which is pending; only a pending row goes; and
-- the rows of the owners who are not the caller are as they were, the timer's call apart.
pub run_file_call-IsStep :
    (c : FileCall) (env : StoreEnv) (w : Store)
    → HasIds w.files
    → IsStep (MayChange c) w.files (run_file_call c env w).files
run_file_call-IsStep (signs input) env w ids =
    create_signed_upload_url-LeavesStep w.files ids input env w refl
run_file_call-IsStep (confirms_upload id owner) env w ids =
    confirm_upload-LeavesStep w.files ids owner id env w refl
run_file_call-IsStep (cancels_upload id owner) env w ids =
    cancel_upload-LeavesStep w.files ids owner id env w refl
run_file_call-IsStep (toggles_public id owner) env w ids =
    toggle_file_public-LeavesStep w.files ids owner id env w refl
run_file_call-IsStep (updates id owner is_public) env w ids =
    update_file-LeavesStep w.files ids owner id is_public env w refl
run_file_call-IsStep (deletes_files listed owner) env w ids =
    delete_files-LeavesStep w.files ids owner listed env w refl
run_file_call-IsStep cleans env w ids = cleanup-IsStep w.files ids env w refl

-- Calls one after the other.
pub data Calls (v : Store) : Store → Type 0 where
  none_yet : Calls v v
  then_call :
      (w : Store) (c : FileCall) (env : StoreEnv) → Calls v w → Calls v (run_file_call c env w)
