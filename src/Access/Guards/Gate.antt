-- ===== src/Access/Guards/Gate.antt =====
-- Proofs on guards/index.ts: which callers the guards let through.
use graphql_prisma_postgres.Prelude.{
  ℕ, ◌≡◌, ◌≢◌, ◌⊎◌, inl, inr, refl, Bool, true, false, ◌&&◌, ◌||◌, not, none, some, List, [], ◌∷◌,
  arith, Bool-cases, elem, all, any, All, is_some, truthy, ◌<◌,
}
use graphql_prisma_postgres.Data.{owner, UserStatus, WorkspaceStatus}
use graphql_prisma_postgres.Effects.{World, Env, authentication, authorization, Result, ok, err, M}
use graphql_prisma_postgres.Access.Guards.{
  Context, AuthOptions, assert_authenticated, has_access, has_active_user, has_active_workspace,
  is_owner_context, protect,
}

-- A signed-in caller with a database, who has passed every factor, and who is active in an active
-- workspace.
pub record IsActiveCaller (c : Context) : Type 0 where
  pub signed_in : c.user ≢ none
  pub authenticated : c.is_authenticated ≡ true
  pub routed : c.client ≢ none
  pub in_workspace : 0 < c.workspace_id
  pub user_active : c.user_status ≡ some UserStatus.active
  pub workspace_active : c.workspace_status ≡ some WorkspaceStatus.active

-- Every listed permission is held; or one of them is.
abbrev pub HoldsAll : List ℕ → List ℕ → Type 0
HoldsAll perms held = All (λ p. elem p held ≡ true) perms

abbrev pub HoldsOne : List ℕ → List ℕ → Type 0
HoldsOne [] held = ⊥
HoldsOne (p ∷ ps) held = (elem p held ≡ true) ⊎ HoldsOne ps held

abbrev pub MayPass : List ℕ → Bool → Context → Type 0
MayPass perms true c = HoldsAll perms c.permissions
MayPass perms false c = (perms ≡ []) ⊎ HoldsOne perms c.permissions

all_sound : (perms held : List ℕ) → all (λ q. elem q held) perms ≡ true → HoldsAll perms held
all_sound [] held e = tt
all_sound (p ∷ ps) held e = ground (arith, all_sound ps held)

all_complete : (perms held : List ℕ) → HoldsAll perms held → all (λ q. elem q held) perms ≡ true
all_complete [] held e = refl
all_complete (p ∷ ps) held e = ground (arith, all_complete ps held)

any_sound : (perms held : List ℕ) → any (λ q. elem q held) perms ≡ true → HoldsOne perms held
any_sound [] held e = cc
any_sound (p ∷ ps) held e = ground (arith, any_sound ps held)

any_complete : (perms held : List ℕ) → HoldsOne perms held → any (λ q. elem q held) perms ≡ true
any_complete [] held e = absurd e
any_complete (p ∷ ps) held e = ground (arith, any_complete ps held)

has_access_sound :
    (perms : List ℕ) (require_all : Bool) (c : Context)
    → has_access perms require_all c.permissions ≡ true
    → MayPass perms require_all c
unfolding has_access
has_access_sound [] true c e = tt
has_access_sound [] false c e = inl refl
has_access_sound (p ∷ ps) true c e = all_sound (p ∷ ps) c.permissions e
has_access_sound (p ∷ ps) false c e = inr (any_sound (p ∷ ps) c.permissions e)

has_access_complete :
    (perms : List ℕ) (require_all : Bool) (c : Context)
    → MayPass perms require_all c
    → has_access perms require_all c.permissions ≡ true
unfolding has_access
has_access_complete [] require_all c e = refl
has_access_complete (p ∷ ps) true c e = all_complete (p ∷ ps) c.permissions e
has_access_complete (p ∷ ps) false c (inl e) = absurd (cc)
has_access_complete (p ∷ ps) false c (inr e) = any_complete (p ∷ ps) c.permissions e

-- Who passes `Protect`.
pub record Passes (perms : List ℕ) (require_all allow_2fa : Bool) (c : Context) : Type 0 where
  pub active_caller : IsActiveCaller c
  pub every_factor : (c.is_2fa_pending ≡ false) ⊎ (allow_2fa ≡ true)
  pub may_pass : (c.user_type ≡ some owner) ⊎ MayPass perms require_all c

abbrev strict : Bool → AuthOptions
strict allow_2fa = record {
  allow_2fa_pending = allow_2fa;
  allow_suspended_user = false;
  allow_inactive_workspace = false;
}

-- The tests of `assertAuthenticated`, as one.
abbrev is_active_caller : Context → Bool → Bool
is_active_caller c allow_2fa =
    is_some c.user
    && c.is_authenticated
    && is_some c.client
    && truthy c.workspace_id
    && (not c.is_2fa_pending || allow_2fa)
    && has_active_user c.user_status
    && has_active_workspace c.workspace_status

is_active_caller_sound :
    (c : Context) (allow_2fa : Bool)
    → is_active_caller c allow_2fa ≡ true
    → IsActiveCaller c × ((c.is_2fa_pending ≡ false) ⊎ (allow_2fa ≡ true))
is_active_caller_sound c allow_2fa e = (
  record {
    signed_in = ground arith;
    authenticated = ground arith;
    routed = ground arith;
    in_workspace = ground arith;
    user_active = ground arith;
    workspace_active = ground arith;
  },
  ground arith,
)

is_active_caller_complete :
    (c : Context) (allow_2fa : Bool)
    → IsActiveCaller c
    → (c.is_2fa_pending ≡ false) ⊎ (allow_2fa ≡ true)
    → is_active_caller c allow_2fa ≡ true
is_active_caller_complete c allow_2fa a f = ground arith

assert_authenticated-pass :
    (c : Context) (allow_2fa : Bool) (env : Env) (w : World)
    → is_active_caller c allow_2fa ≡ true
    → assert_authenticated c (strict allow_2fa) env w ≡ (ok tt, w)
unfolding assert_authenticated
assert_authenticated-pass c allow_2fa env w e = ground arith

-- How a guard stops a call.
abbrev pub Stops : {A : Type 0} → World → Result A × World → Type 0
Stops w r = (r ≡ (err authentication, w)) ⊎ (r ≡ (err authorization, w))

assert_authenticated-stop :
    (c : Context) (allow_2fa : Bool) (env : Env) (w : World)
    → is_active_caller c allow_2fa ≡ false
    → Stops w (assert_authenticated c (strict allow_2fa) env w)
unfolding assert_authenticated
assert_authenticated-stop c allow_2fa env w e = ground arith

module _ {A : Type 0} (perms : List ℕ) (require_all allow_2fa : Bool) (resolver : Context → M A)
    (c : Context) (env : Env) (w : World) where
  -- For a caller who passes, who is active and holds the permissions or is an owner, the guarded call
  -- is the call of the resolver.
  pub protect-Passes :
      Passes perms require_all allow_2fa c
      → protect perms require_all allow_2fa resolver c env w ≡ resolver c env w
  unfolding protect
  protect-Passes p = ground (
    arith,
    assert_authenticated-pass c allow_2fa env w
        (is_active_caller_complete c allow_2fa p.active_caller p.every_factor),
    has_access_complete perms require_all c,
  )

  -- For a caller who does not pass, the guarded call throws an authentication or authorization error, and the state
  -- is left as it was.
  pub protect-not_Passes :
      ¬ Passes perms require_all allow_2fa c
      → Stops w (protect perms require_all allow_2fa resolver c env w)
  unfolding protect
  protect-not_Passes n = elim (Bool-cases (is_active_caller c allow_2fa)) [
    | inr stopped ↦ ground (arith, assert_authenticated-stop c allow_2fa env w stopped)
    | inl passed ↦
        elim (Bool-cases
          (is_owner_context c.user_type || has_access perms require_all c.permissions)) [
            | inl allowed ↦ absurd (
                n (record {
                  active_caller = (is_active_caller_sound c allow_2fa passed).0;
                  every_factor = (is_active_caller_sound c allow_2fa passed).1;
                  may_pass = ground (arith, has_access_sound perms require_all c);
                }))
            | inr denied ↦ ground (arith, assert_authenticated-pass c allow_2fa env w passed)
          ]
  ]
