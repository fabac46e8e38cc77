-- ===== src/Auth/Session/Factor.antt =====
-- The second factor in the contexts of middleware/auth.middleware.ts.
use graphql_prisma_postgres.Prelude.{
  ℕ, ◌≡◌, ◌⊎◌, inl, inr, Bool, true, false, Option, none, some, List, arith, Option-cases,
}
use graphql_prisma_postgres.Effects.{World, Env, Payload, access_secret, ok, Result-cases, M}
use graphql_prisma_postgres.Data.{Workspace}
use graphql_prisma_postgres.Access.Guards.{Context, protect}
use graphql_prisma_postgres.Access.Guards.Gate.{Passes, Stops, protect-not_Passes}
use graphql_prisma_postgres.Users.Members.{UserWithRoles}
use graphql_prisma_postgres.Auth.Tokens.{verify_access_token, bearer_token, accepted_access}
use graphql_prisma_postgres.Auth.Session.{
  Loaded, routing_hint, load_user, bind_context, bound_context, token_user, token_workspace,
  context_for, create_context,
}

-- No caller at all, or one whose second factor is open.
abbrev pub IsHeldBack : Context → Type 0
IsHeldBack c = (c.user ≡ none) ⊎ (c.is_2fa_pending ≡ true)

bind_context-IsHeldBack :
    (id : ℕ) (m : UserWithRoles) (k : Workspace) (env : Env) (w : World) (c : Context)
    → (bind_context id true m k env w).0 ≡ ok c
    → IsHeldBack c
unfolding bind_context
bind_context-IsHeldBack id m k env w c e = ground arith

bound_context-IsHeldBack :
    (id : ℕ) (l : Option Loaded) (env : Env) (w : World) (c : Context)
    → (bound_context id true l env w).0 ≡ ok c
    → IsHeldBack c
bound_context-IsHeldBack id none env w c e = ground arith
bound_context-IsHeldBack id (some l) env w c e = elim (Option-cases l.workspace) [
  | inl missing ↦ ground (arith, missing)
  | inr (k, there) ↦ ground (arith, there, bind_context-IsHeldBack id l.row k env w c)
]

context_for-IsHeldBack :
    (p : Payload) (id : ℕ) (env : Env) (w : World) (c : Context)
    → p.is_2fa_pending ≡ true
    → (context_for (some p) id env w).0 ≡ ok c
    → IsHeldBack c
unfolding context_for
context_for-IsHeldBack p id env w c pending e = elim (Result-cases (routing_hint id env w).0) [
  | inr (thrown, q) ↦ absurd (ground (arith, q))
  | inl (hint, q) ↦
      let w1 = (routing_hint id env w).1 in
      elim (Result-cases (load_user id (token_workspace (some p)) hint env w1).0) [
        | inr (thrown, r) ↦ absurd (ground (arith, q, r))
        | inl (l, r) ↦
            let w2 = (load_user id (token_workspace (some p)) hint env w1).1 in
            let e' : (bound_context id true l env w2).0 ≡ ok c = ground (arith, q, r, pending) in
            bound_context-IsHeldBack id l env w2 c e'
      ]
]

-- The context of a token whose second factor is open.
create_context-IsHeldBack :
    (token : List ℕ) (p : Payload) (env : Env) (w : World) (c : Context)
    → accepted_access (env.auth.verify access_secret w.clock (bearer_token token)) ≡ some p
    → p.is_2fa_pending ≡ true
    → (create_context token env w).0 ≡ ok c
    → IsHeldBack c
unfolding create_context verify_access_token
create_context-IsHeldBack token p env w c verified pending e =
    elim (Option-cases (token_user (some p))) [
      | inl missing ↦ ground (arith, verified, missing)
      | inr (id, there) ↦
          ground (arith, verified, there, context_for-IsHeldBack p id env w c pending)
    ]

held_back-not_Passes :
    (perms : List ℕ) (require_all : Bool) (c : Context)
    → IsHeldBack c
    → ¬ Passes perms require_all false c
held_back-not_Passes perms require_all c (inl anonymous) p = p.active_caller.signed_in anonymous
held_back-not_Passes perms require_all c (inr open_factor) p = ground (arith, p.every_factor)

-- A token whose second factor is open opens no guarded resolver: whatever context is made of it, a
-- resolver that is protected without `allow2faPending` throws an authentication or authorization
-- error on it and leaves the state as it was.
pub protect-create_context_pending :
    {A : Type 0} (token : List ℕ) (p : Payload) (env : Env) (w w' : World) (c : Context)
    (perms : List ℕ) (require_all : Bool) (resolver : Context → M A)
    → accepted_access (env.auth.verify access_secret w.clock (bearer_token token)) ≡ some p
    → p.is_2fa_pending ≡ true
    → (create_context token env w).0 ≡ ok c
    → Stops w' (protect perms require_all false resolver c env w')
protect-create_context_pending token p env w w' c perms require_all resolver verified pending e =
    protect-not_Passes perms require_all false resolver c env w' (
      held_back-not_Passes perms require_all c
        (create_context-IsHeldBack token p env w c verified pending e))
