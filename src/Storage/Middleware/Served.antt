-- ===== src/Storage/Middleware/Served.antt =====
-- The route of a file's content.
use graphql_prisma_postgres.Prelude.{
  ℕ, ◌≡◌, ◌≢◌, ◌⊎◌, inl, inr, refl, sym, true, Option, none, some, List, arith, Bool-cases, find?,
}
use graphql_prisma_postgres.Storage.State.{StoredFile, Store, StoreEnv, Answer, answer, failure}
use graphql_prisma_postgres.Storage.ShareLinks.{is_uploaded}
use graphql_prisma_postgres.Storage.Content.{
  allow, unauthorized, forbidden, FileContentAccessDecision, evaluate_file_content_access,
}
use graphql_prisma_postgres.Storage.Reading.{Reads-and_then, query-Reads}
use graphql_prisma_postgres.Storage.Files.{is_file, find_file, FileStream}
use graphql_prisma_postgres.Storage.Files.Lifecycle.Reading.{files_of}
use graphql_prisma_postgres.Storage.Middleware.{
  Request, Identity, Verify, auth_middleware, full_token, file_view_query_auth, content_request,
  Reply, status, streams, by_decision, reply_for, content_for, get_content, caught, find_content,
}
use graphql_prisma_postgres.Storage.Middleware.Entitled.{
  MayFetch, Source, Source-of_middleware, Source-of_token, allowed-Source,
}

-- What an answer with a stream shows of the files.
pub record IsServed (verify : Verify) (request : Request) (id : ℕ) (fs : List StoredFile)
    : Type 0 where
  pub file : StoredFile
  pub found : find? (is_file id) fs ≡ some file
  pub status : is_uploaded file.status ≡ true
  pub entitled : (file.is_public ≡ true) ⊎ MayFetch verify request file id

abbrev IfStream : Type 0 → Answer Reply × Store → Type 0
IfStream T r = (s : FileStream) → r.0 ≡ answer (streams s) → T

no_stream : (n : ℕ) (s : FileStream) → answer (status n) ≢ answer (streams s)
no_stream n s e = ground (arith, e)

uncaught :
    (r : Answer Reply × Store) (s : FileStream)
    → (caught r).0 ≡ answer (streams s)
    → r.0 ≡ answer (streams s)
uncaught (answer r, w) s e = e
uncaught (failure x, w) s e = absurd (no_stream 404 s e)

decision_allows :
    (d : FileContentAccessDecision) (id : ℕ) (env : StoreEnv) (w : Store) (s : FileStream)
    → (by_decision d id env w).0 ≡ answer (streams s)
    → d ≡ allow
decision_allows allow id env w s e = refl
decision_allows unauthorized id env w s e = absurd (no_stream 401 s e)
decision_allows forbidden id env w s e = absurd (no_stream 403 s e)

module _ (verify : Verify) (request : Request) (id : ℕ) where
  reply-IsServed :
      (fs : List StoredFile) (who : Identity) (o : Option StoredFile) (env : StoreEnv) (w : Store)
      → Source verify request who
      → o ≡ find? (is_file id) fs
      → IfStream (IsServed verify request id fs) (reply_for id who o env w)
  reply-IsServed fs who none env w s found x e = absurd (no_stream 404 x e)
  reply-IsServed fs who (some file) env w s found x e =
      elim (Bool-cases (is_uploaded file.status)) [
        | inr gone ↦ absurd (no_stream 404 x (rw gone at e))
        | inl there ↦
            let d = evaluate_file_content_access (content_request id file who) in
            let let_in : d ≡ allow = decision_allows d id env w x (rw there at e) in
            record {
              file = file;
              found = sym found;
              status = there;
              entitled = allowed-Source verify request file id who s let_in;
            }
      ]

  found-IsServed :
      (who : Identity) (env : StoreEnv) (w : Store)
      → file_view_query_auth verify
          (auth_middleware verify request.authorization)
          request.query_token
        ≡ some who
      → IfStream (IsServed verify request id w.files) (find_content id who env w)
  unfolding file_view_query_auth find_file
  found-IsServed who env w e =
      let source =
        Source-of_token verify request (auth_middleware verify request.authorization) who
          (full_token request.query_token) refl (Source-of_middleware verify request) e in
      let is_found = λ (o : Option StoredFile). o ≡ find? (is_file id) w.files in
      Reads-and_then files_of w.files is_found (IfStream (IsServed verify request id w.files))
        (find_file id env w) (reply_for id who) env
        (query-Reads files_of (λ _ _. refl) w.files is_found (λ v. find? (is_file id) v.files) env w
          refl refl)
        (λ x v _ s h. absurd (ground (arith, h)))
        (λ o v _ found. reply-IsServed w.files who o env v source found)

  content-IsServed :
      (who : Option Identity) (env : StoreEnv) (w : Store)
      → file_view_query_auth verify
          (auth_middleware verify request.authorization)
          request.query_token
        ≡ who
      → IfStream (IsServed verify request id w.files) (content_for id who env w)
  content-IsServed none env w e = λ s h. absurd (no_stream 401 s h)
  content-IsServed (some who) env w e =
      λ s h. found-IsServed who env w e s (uncaught (find_content id who env w) s h)

-- The route of a file's content answers a stream only for a file that is there and uploaded, and that
-- is public, or that the request may fetch: with a bearer token of the service, for the owner of the
-- file or an administrator, or with a token in the URL that is for the view of this file and was made
-- for its owner.
pub get_content-IsServed :
    (verify : Verify) (request : Request) (id : ℕ) (env : StoreEnv) (w : Store) (s : FileStream)
    → (get_content verify request id env w).0 ≡ answer (streams s)
    → IsServed verify request id w.files
unfolding get_content
get_content-IsServed verify request id env w s e =
    content-IsServed verify request id
      (file_view_query_auth verify (auth_middleware verify request.authorization)
        request.query_token)
      env w refl s e
