-- ===== src/Storage/Middleware/Entitled.antt =====
-- Who gets the content of a file.
use graphql_prisma_postgres.Prelude.{
  ℕ, ◌≡◌, ◌⊎◌, inl, inr, refl, ap, true, Option, none, some, List, arith, Bool-cases, Option-cases,
  text,
}
use mathlib.Core.Path.{subst}
use graphql_prisma_postgres.Storage.State.{StoredFile}
use graphql_prisma_postgres.Storage.Content.{
  allow, FileView, evaluate_file_content_access, MayRead, evaluate_file_content_access-MayRead,
  is_administrator,
}
use graphql_prisma_postgres.Storage.Middleware.{
  AuthUser, Request, Identity, Verify, extract_service_bearer_token, verify_service_token,
  verify_file_view_token, auth_middleware, anonymous, viewer, viewed, token_viewed, full_token,
  content_request,
}

-- The ways to a file that is not public: the bearer token of the service for the owner or an
-- administrator, or a token in the URL for the view of this file, made for its owner.
pub data MayFetch (verify : Verify) (request : Request) (file : StoredFile) (id : ℕ) : Type 0 where
  by_service :
      (token : List ℕ) (user : AuthUser)
      → extract_service_bearer_token request.authorization ≡ some token
      → verify_service_token verify token ≡ some user
      → (file.owner_id ≡ user.id) ⊎ (user.role ≡ text "ADMIN")
      → MayFetch verify request file id
  by_view :
      (token : List ℕ) (view : FileView)
      → full_token request.query_token ≡ some token
      → verify_file_view_token verify token ≡ some view
      → view.file_id ≡ id
      → file.owner_id ≡ view.owner_id
      → MayFetch verify request file id

-- What an identity was made of.
pub data Source (verify : Verify) (request : Request) : Identity → Type 0 where
  nobody : Source verify request anonymous
  service :
      (token : List ℕ)
      → extract_service_bearer_token request.authorization ≡ some token
      → Source verify request
          (record { user = verify_service_token verify token; file_view = none })
  view :
      (token : List ℕ) (v : FileView)
      → full_token request.query_token ≡ some token
      → verify_file_view_token verify token ≡ some v
      → Source verify request (viewer v)

module _ (verify : Verify) (request : Request) where
  pub Source-of_middleware : Source verify request (auth_middleware verify request.authorization)
  unfolding auth_middleware
  Source-of_middleware = elim (Option-cases (extract_service_bearer_token request.authorization)) [
    | inl e ↦ rw (auth_middleware, e) nobody
    | inr (token, e) ↦ rw (auth_middleware, e) (service token e)
  ]

  Source-of_viewed :
      (token : List ℕ) (who who' : Identity) (user : Option AuthUser) (v : Option FileView)
      → full_token request.query_token ≡ some token
      → verify_file_view_token verify token ≡ v
      → Source verify request who
      → viewed who user v ≡ some who'
      → Source verify request who'
  Source-of_viewed token who who' (some u) v e f s h = absurd (ground (arith, h))
  Source-of_viewed token who who' none none e f s h =
      let same : who ≡ who' = ground (arith, h) in subst (Source verify request) same s
  Source-of_viewed token who who' none (some v) e f s h =
      let same : viewer v ≡ who' = ground (arith, h) in
      subst (Source verify request) same (view token v e f)

  pub Source-of_token :
      (who who' : Identity) (token : Option (List ℕ))
      → full_token request.query_token ≡ token
      → Source verify request who
      → token_viewed verify who token ≡ some who'
      → Source verify request who'
  Source-of_token who who' none e s h =
      let same : who ≡ who' = ground (arith, h) in subst (Source verify request) same s
  Source-of_token who who' (some token) e s h =
      Source-of_viewed token who who' (verify_service_token verify token)
        (verify_file_view_token verify token) e refl s h

  module _ (file : StoredFile) (id : ℕ) where
    administrator : (role : Option ℕ) → is_administrator role ≡ true → role ≡ some (text "ADMIN")
    administrator none h = absurd (ground (arith, h))
    administrator (some r) h = ap some (ground (arith, h))

    by-Source :
        (who : Identity) (uid : ℕ)
        → Source verify request who
        → MayRead (content_request id file who) uid
        → MayFetch verify request file id
    by-Source _ uid nobody m = absurd (ground (arith, m.named))
    by-Source _ uid (service token e) m = elim (Option-cases (verify_service_token verify token)) [
      | inl none_is ↦ absurd (ground (arith, rw none_is at m.named))
      | inr (u, is_u) ↦
          let named : some u.id ≡ some uid = rw is_u at m.named in
          by_service token u e is_u (elim m.entitled [
            | inl own ↦ inl (ground (arith, own, named))
            | inr admin ↦
                let role = administrator (some u.role) (rw is_u at admin) in
                inr (ground (arith, role))
          ])
    ]
    by-Source _ uid (view token v e f) m =
        by_view token v e f (ground (arith, m.own_view)) (elim m.entitled [
          | inl own ↦ ground (arith, own, m.named)
          | inr admin ↦ absurd (ground (arith, admin))
        ])

    -- Who is let in may fetch the file.
    pub allowed-Source :
        (who : Identity)
        → Source verify request who
        → evaluate_file_content_access (content_request id file who) ≡ allow
        → (file.is_public ≡ true) ⊎ MayFetch verify request file id
    allowed-Source who s e = elim (Bool-cases file.is_public) [
      | inl shown ↦ inl shown
      | inr hidden ↦
          let (uid, m) =
            (evaluate_file_content_access-MayRead (content_request id file who) hidden).0 e in
          inr (by-Source who uid s m)
    ]
