-- ===== src/Storage/Middleware.antt =====
-- services/storage/src/middleware/auth.middleware.ts, and the route of a file's content in
-- services/storage/src/routes/file.routes.ts. `jwt.verify`, with the service's secret, algorithm, issuer
-- and audience, is an argument: it gives the claims of a token, or throws.
pub mod Entitled
pub mod Served
use graphql_prisma_postgres.Prelude.{
  ℕ, Bool, true, false, not, ◌&&◌, ◌||◌, Option, none, some, List, [], ◌∷◌, ◌==◌, if◌then◌else◌,
  elem, text, codes, truthy, after_prefix,
}
use graphql_prisma_postgres.Users.Input.{trim}
use graphql_prisma_postgres.Storage.State.{
  StoredFile, Store, StoreEnv, missing_row, Answer, answer, failure, S, fail, return, ◌>>=◌, ◌>>◌,
  demand, or_fail,
}
use graphql_prisma_postgres.Storage.ShareLinks.{is_uploaded}
use graphql_prisma_postgres.Storage.Content.{
  FileContentAccessDecision, allow, unauthorized, forbidden, FileView, ContentRequest,
  evaluate_file_content_access,
}
use graphql_prisma_postgres.Storage.Files.{find_file, FileStream, get_file_stream}

-- The claims of a token; those that are missing are `none`.
pub record Claims : Type 0 where
  pub id : Option ℕ
  pub email : Option ℕ
  pub role : Option ℕ
  pub file_id : Option ℕ
  pub owner_id : Option ℕ
  pub token_type : Option ℕ

pub record AuthUser : Type 0 where
  pub id : ℕ
  pub email : ℕ
  pub role : ℕ

pub record Request : Type 0 where
  pub authorization : Option (List ℕ)
  pub query_token : Option (List ℕ)

-- `req.context` and `req.fileView`; the context is authenticated if it has a user.
pub record Identity : Type 0 where
  pub user : Option AuthUser
  pub file_view : Option FileView

abbrev pub Verify : Type 0
Verify = List ℕ → Option Claims

abbrev pub full_text : List ℕ → Option (List ℕ)
full_text [] = none
full_text (c ∷ s) = some (c ∷ s)

abbrev pub after_bearer : Option (List ℕ) → Option (List ℕ)
after_bearer none = none
after_bearer (some token) = full_text (trim token)

-- `extractServiceBearerToken`
unfoldable pub extract_service_bearer_token : Option (List ℕ) → Option (List ℕ)
unfolding after_prefix
extract_service_bearer_token none = none
extract_service_bearer_token (some header) = after_bearer (after_prefix (codes "Bearer ") header)

abbrev pub has_type : ℕ → Claims → Bool
has_type kind c = elim c.token_type [ none ↦ false | some t ↦ t == kind ]

abbrev pub or_text : Option ℕ → ℕ → ℕ
or_text none default = default
or_text (some t) default = if truthy t then t else default

abbrev pub service_user : Claims → Option ℕ → Option AuthUser
service_user c none = none
service_user c (some id) =
    if has_type (text "storage-service") c && truthy id
    then some (record { id = id; email = or_text c.email 0; role = or_text c.role (text "USER") })
    else none

-- `verifyStorageServiceToken`
unfoldable pub verify_service_token : Verify → List ℕ → Option AuthUser
verify_service_token verify token = elim (verify token) [
  | none ↦ none
  | some c ↦ service_user c c.id
]

abbrev pub view_of : Claims → Option ℕ → Option ℕ → Option FileView
view_of c none owner = none
view_of c (some file) none = none
view_of c (some file) (some owner) =
    if has_type (text "file-view") c && truthy file && truthy owner
    then some (record { file_id = file; owner_id = owner })
    else none

-- `verifyFileViewToken`
unfoldable pub verify_file_view_token : Verify → List ℕ → Option FileView
verify_file_view_token verify token = elim (verify token) [
  | none ↦ none
  | some c ↦ view_of c c.file_id c.owner_id
]

abbrev pub anonymous : Identity
anonymous = record { user = none; file_view = none }

-- `authMiddleware`
unfoldable pub auth_middleware : Verify → Option (List ℕ) → Identity
auth_middleware verify authorization = elim (extract_service_bearer_token authorization) [
  | none ↦ anonymous
  | some token ↦ record { user = verify_service_token verify token; file_view = none }
]

abbrev pub viewer : FileView → Identity
viewer v = record {
  user = some (record { id = v.owner_id; email = 0; role = text "USER" });
  file_view = some v;
}

-- What a token in the URL makes of an identity; a service token is refused.
abbrev pub viewed : Identity → Option AuthUser → Option FileView → Option Identity
viewed who (some _) view = none
viewed who none none = some who
viewed who none (some v) = some (viewer v)

abbrev pub token_viewed : Verify → Identity → Option (List ℕ) → Option Identity
token_viewed verify who none = some who
token_viewed verify who (some token) =
    viewed who (verify_service_token verify token) (verify_file_view_token verify token)

abbrev pub full_token : Option (List ℕ) → Option (List ℕ)
full_token none = none
full_token (some token) = full_text token

-- `fileViewQueryAuth`; it answers with status 401 where there is nothing.
unfoldable pub file_view_query_auth : Verify → Identity → Option (List ℕ) → Option Identity
file_view_query_auth verify who query_token = token_viewed verify who (full_token query_token)

-- `requireAuth` and `requireRole`, with the status they answer.
unfoldable pub require_request_auth : Identity → Option ℕ
require_request_auth who = elim who.user [ none ↦ some 401 | some _ ↦ none ]

unfoldable pub require_role : List ℕ → Identity → Option ℕ
require_role roles who = elim who.user [
  | none ↦ some 401
  | some user ↦ if elem user.role roles then none else some 403
]

abbrev pub user_id_of : Option AuthUser → Option ℕ
user_id_of none = none
user_id_of (some user) = some user.id

abbrev pub role_of : Option AuthUser → Option ℕ
role_of none = none
role_of (some user) = some user.role

abbrev pub is_some_user : Option AuthUser → Bool
is_some_user none = false
is_some_user (some _) = true

abbrev pub content_request : ℕ → StoredFile → Identity → ContentRequest
content_request id file who = record {
  file_id = id;
  is_public = file.is_public;
  owner_id = file.owner_id;
  is_authenticated = is_some_user who.user;
  user_id = user_id_of who.user;
  role = role_of who.user;
  file_view = who.file_view;
}

-- What a route answers.
pub data Reply : Type 0 where
  status : ℕ → Reply
  streams : FileStream → Reply

abbrev pub by_decision : FileContentAccessDecision → ℕ → S Reply
by_decision unauthorized id = return (status 401)
by_decision forbidden id = return (status 403)
by_decision allow id = get_file_stream id >>= (λ s. return (streams s))

abbrev pub reply_for : ℕ → Identity → Option StoredFile → S Reply
reply_for id who none = return (status 404)
reply_for id who (some file) =
    if is_uploaded file.status
    then by_decision (evaluate_file_content_access (content_request id file who)) id
    else return (status 404)

-- The `catch` of the route.
abbrev pub caught : Answer Reply × Store → Answer Reply × Store
caught (answer r, w) = (answer r, w)
caught (failure e, w) = (answer (status 404), w)

abbrev pub find_content : ℕ → Identity → S Reply
find_content id who = find_file id >>= reply_for id who

abbrev pub content_for : ℕ → Option Identity → S Reply
content_for id none = return (status 401)
content_for id (some who) = λ env w. caught (find_content id who env w)

-- `GET /api/files/:id/content`, without the header of a client that has the content.
unfoldable pub get_content : Verify → Request → ℕ → S Reply
get_content verify request id =
    content_for id (
      file_view_query_auth verify (auth_middleware verify request.authorization)
        request.query_token)
