-- ===== src/Workspaces/Ownership.antt =====
-- The owner of a workspace under `transferOwnership` of modules/workspace.
use graphql_prisma_postgres.Prelude.{
  ℕ, Bool, ◌≡◌, ◌≢◌, ◌⊎◌, inl, inr, refl, sym, ◌∙◌, true, false, ◌&&◌, Option, none, some, List, [],
  ◌∷◌, arith, Option-cases, Bool-cases, ◌==◌, find?, update_where, All, find?-some, any,
}
use mathlib.Core.Path.{subst}
use graphql_prisma_postgres.Data.{User, UserType, Workspace, is_owner_type, owner, member}
use graphql_prisma_postgres.Effects.{World, Env, tick, write, invalidate_users}
use graphql_prisma_postgres.Access.Grants.{is_member_row}
use graphql_prisma_postgres.Users.Members.{is_id_row, is_workspace_row}
use graphql_prisma_postgres.Workspaces.{
  set_type, set_owner, is_other_owner, owns_another, hand_over, hand_over_to, transfer,
  transfer_ownership,
}

-- A user of the workspace has the type `OWNER` exactly if it is this one.
abbrev pub AgreesOn : ℕ → ℕ → ℕ → User → Type 0
AgreesOn client workspace o u =
    ((u.shard == client && u.workspace_id == workspace) ≡ false)
    ⊎ (is_owner_type u.user_type ≡ (u.id == o))

-- The row names a user of the workspace, who is the only one of it with the type `OWNER`.
abbrev pub IsOwnedAs : ℕ → ℕ → Option Workspace → List User → Type 0
IsOwnedAs client workspace none us = ⊥
IsOwnedAs client workspace (some row) us =
    (o : ℕ) × ((row.owner_id ≡ some o)
      × (any (is_member_row client workspace o) us ≡ true)
      × All (AgreesOn client workspace o) us)

abbrev pub HasOneOwner : ℕ → ℕ → World → Type 0
HasOneOwner client workspace w =
    IsOwnedAs client workspace (find? (is_workspace_row client workspace) w.workspaces) w.users

any-typed :
    (client workspace id i : ℕ) (t : UserType) (us : List User)
    → any (is_member_row client workspace id) (update_where (is_id_row client i) (set_type t) us)
      ≡ any (is_member_row client workspace id) us
any-typed client workspace id i t [] = refl
any-typed client workspace id i t (u ∷ us) = ground (arith, any-typed client workspace id i t us)

any_found : (p : User → Bool) (us : List User) (u : User) → find? p us ≡ some u → any p us ≡ true
any_found p [] u e = absurd (ground (arith, e))
any_found p (v ∷ us) u e = ground (arith, e, any_found p us u)

module _ (client workspace current next : ℕ) where
  agrees_after :
      (us : List User)
      → next ≢ current
      → All (AgreesOn client workspace current) us
      → All (AgreesOn client workspace next) (
          update_where
            (is_id_row client next)
            (set_type owner)
            (update_where (is_id_row client current) (set_type member) us))
  agrees_after [] ne h = tt
  agrees_after (u ∷ us) ne (p, h) = (ground arith, agrees_after us ne h)

  found_after :
      (ks : List Workspace) (row : Workspace)
      → find? (is_workspace_row client workspace) ks ≡ some row
      → find?
          (is_workspace_row client workspace)
          (update_where (is_workspace_row client workspace) (set_owner next) ks)
        ≡ some (set_owner next row)
  found_after [] row e = absurd (cc)
  found_after (k ∷ ks) row e = ground (arith, found_after ks row)

  handed_over-HasOneOwner :
      (row : Workspace) (w w' : World)
      → find? (is_workspace_row client workspace) w.workspaces ≡ some row
      → next ≢ current
      → any (is_member_row client workspace next) w.users ≡ true
      → All (AgreesOn client workspace current) w.users
      → w'.users
        ≡ update_where
            (is_id_row client next)
            (set_type owner)
            (update_where (is_id_row client current) (set_type member) w.users)
      → w'.workspaces
        ≡ update_where (is_workspace_row client workspace) (set_owner next) w.workspaces
      → HasOneOwner client workspace w'
  handed_over-HasOneOwner row w w' found ne there h us ks =
      let demoted = update_where (is_id_row client current) (set_type member) w.users in
      let kept =
        any-typed client workspace next next owner demoted
        ∙ any-typed client workspace next current member w.users in
      rw (us, ks, found_after w.workspaces row found)
        (next, (refl, kept ∙ there, agrees_after w.users ne h))

  hand_over-HasOneOwner :
      (row : Workspace) (w : World)
      → find? (is_workspace_row client workspace) w.workspaces ≡ some row
      → row.id ≡ workspace
      → row.owner_id ≡ some current
      → next ≢ current
      → any (is_member_row client workspace next) w.users ≡ true
      → HasOneOwner client workspace w
      → HasOneOwner client workspace (hand_over client row current next w).1
  unfolding hand_over
  hand_over-HasOneOwner row w found same owned ne there h =
      let demoted = update_where (is_id_row client current) (set_type member) w.users in
      let run = hand_over client row current next w in
      let stays : run.1 ≡ w → HasOneOwner client workspace run.1 =
        λ e. subst (HasOneOwner client workspace) (sym e) h in
      let (o, (named, _, agree)) = rw found at h in
      let current_is : o ≡ current = ground (arith, named, owned) in
      elim (Option-cases (find? (is_id_row client current) w.users)) [
        | inl missing ↦ stays (ground (arith, missing))
        | inr (u, here) ↦ elim (Bool-cases (any (is_other_owner client row.id next) demoted)) [
          | inl taken ↦ stays (ground (arith, here, taken))
          | inr free ↦ elim (Bool-cases (any (owns_another client row.id next) w.workspaces)) [
            | inl owning ↦ stays (ground (arith, here, free, owning))
            | inr none_else ↦
                handed_over-HasOneOwner row w run.1 found ne there (rw current_is at agree)
                  (ground (arith, here, free, none_else))
                  (ground (arith, here, free, none_else, same))
          ]
        ]
      ]

  transfer-HasOneOwner :
      (w : World)
      → next ≢ current
      → HasOneOwner client workspace w
      → HasOneOwner client workspace (transfer client workspace current next w).1
  unfolding transfer hand_over_to
  transfer-HasOneOwner w ne h =
      elim (Option-cases (find? (is_workspace_row client workspace) w.workspaces)) [
        | inl missing ↦ absurd (ground (arith, missing))
        | inr (row, found) ↦
            let named : is_workspace_row client workspace row ≡ true =
              find?-some (is_workspace_row client workspace) w.workspaces row found in
            let same : row.id ≡ workspace = ground (arith, named) in
            elim (Option-cases (find? (is_member_row client workspace next) w.users)) [
              | inl unknown ↦ ground (arith, found, unknown, rw (sym same) at unknown)
              | inr (u, member_found) ↦ ground (
                arith,
                found,
                rw (sym same) at member_found,
                hand_over-HasOneOwner row w found same,
                any_found (is_member_row client workspace next) w.users u member_found,
              )
            ]
      ]

-- A transfer of a workspace that has one owner leaves it with one, whether it returns or throws, and
-- however its call ends: its row names a user of the workspace, who alone of its users has the type
-- `OWNER`.
pub transfer_ownership-HasOneOwner :
    (client workspace current next : ℕ) (env : Env) (w : World)
    → HasOneOwner client workspace w
    → HasOneOwner client workspace (transfer_ownership client workspace current next env w).1
unfolding transfer_ownership write invalidate_users
transfer_ownership-HasOneOwner client workspace current next env w h =
    ground (arith, transfer-HasOneOwner client workspace current next (tick env w))
