-- ===== src/Workspaces/Takeover.antt =====
-- When `transferOwnership` of modules/workspace returns.
use graphql_prisma_postgres.Prelude.{
  ℕ, ◌≡◌, ◌≢◌, ◌↔◌, inl, inr, refl, true, false, Option, none, some, List, [], ◌∷◌, arith,
  Option-cases, Bool-cases, ◌==◌, any, find?, find?-some, find?-All, update_where, All,
}
use graphql_prisma_postgres.Data.{
  User, Workspace, is_owner_type, member, is_active_user, UserStatus,
}
use graphql_prisma_postgres.Effects.{
  World, Env, Result-cases, done, ok, tick, write, invalidate_users,
}
use graphql_prisma_postgres.Access.Grants.{is_member_row}
use graphql_prisma_postgres.Users.Members.{is_id_row, is_workspace_row}
use graphql_prisma_postgres.Workspaces.{
  same_owner, set_type, set_owner, is_other_owner, owns_another, hand_over, hand_over_to, transfer,
  transfer_ownership,
}
use graphql_prisma_postgres.Workspaces.Ownership.{AgreesOn, HasOneOwner}

-- The owner hands the workspace over to somebody else, who is an active member of it and owns no other
-- workspace of the shard.
pub record MayTakeOver (client workspace current next : ℕ) (ks : List Workspace) (us : List User)
    : Type 0 where
  pub other : next ≢ current
  pub row : Workspace
  pub stored : find? (is_workspace_row client workspace) ks ≡ some row
  pub owned : row.owner_id ≡ some current
  pub candidate : User
  pub is_member : find? (is_member_row client workspace next) us ≡ some candidate
  pub is_active : candidate.status ≡ UserStatus.active
  pub free : any (owns_another client workspace next) ks ≡ false

active_of : (s : UserStatus) → is_active_user s ≡ true → s ≡ UserStatus.active
active_of UserStatus.active h = refl
active_of UserStatus.suspended h = absurd (ground (arith, h))
active_of UserStatus.invited h = absurd (ground (arith, h))

owned_by : {current : ℕ} (o : Option ℕ) → same_owner o current ≡ true → o ≡ some current
owned_by none h = absurd (ground (arith, h))
owned_by (some o) h = ground (arith, h)

module _ (client workspace current next : ℕ) where
  owner_found :
      (us : List User)
      → any (is_member_row client workspace current) us ≡ true
      → (v : User) × (find? (is_id_row client current) us ≡ some v)
  owner_found [] h = absurd (ground (arith, h))
  owner_found (u ∷ us) h = elim (Bool-cases (is_id_row client current u)) [
    | inl here ↦ (u, ground (arith, here))
    | inr there ↦
        let (v, e) = owner_found us (ground (arith, h, there)) in (v, ground (arith, e, there))
  ]

  no_other_owner :
      (us : List User)
      → All (AgreesOn client workspace current) us
      → any
          (is_other_owner client workspace next)
          (update_where (is_id_row client current) (set_type member) us)
        ≡ false
  no_other_owner [] h = refl
  no_other_owner (u ∷ us) (p, h) = ground (arith, p, no_other_owner us h)

  plain_member :
      (us : List User) (u : User)
      → next ≢ current
      → All (AgreesOn client workspace current) us
      → find? (is_member_row client workspace next) us ≡ some u
      → is_owner_type u.user_type ≡ false
  plain_member us u ne h e =
      let agrees =
        find?-All (AgreesOn client workspace current) (is_member_row client workspace next) us u h
          e in
      let named = find?-some (is_member_row client workspace next) us u e in
      elim agrees [
        | inl elsewhere ↦ absurd (ground (arith, elsewhere, named))
        | inr same ↦ ground (arith, same, named, ne)
      ]

  transfer-returns :
      (w : World)
      → HasOneOwner client workspace w
      → (m : MayTakeOver client workspace current next w.workspaces w.users)
      → (transfer client workspace current next w).0 ≡ ok (set_owner next m.row)
  unfolding transfer hand_over_to hand_over
  transfer-returns w h m =
      let row = m.row in
      let stored : find? (is_workspace_row client workspace) w.workspaces ≡ some row = m.stored in
      let owned : row.owner_id ≡ some current = m.owned in
      let (o, (named, there, agree)) = rw stored at h in
      let current_is : o ≡ current = ground (arith, named, owned) in
      let agree' : All (AgreesOn client workspace current) w.users = rw current_is at agree in
      let (v, here) = owner_found w.users (rw current_is at there) in
      let plain = plain_member w.users m.candidate m.other agree' m.is_member in
      let same : row.id ≡ workspace =
        ground (arith, find?-some (is_workspace_row client workspace) w.workspaces row stored) in
      ground (
        arith,
        stored,
        owned,
        same,
        here,
        plain,
        no_other_owner w.users agree',
        m.is_member,
        m.is_active,
        m.free,
      )

  MayTakeOver-of :
      (w : World) (k : Workspace)
      → next ≢ current
      → (transfer client workspace current next w).0 ≡ ok k
      → MayTakeOver client workspace current next w.workspaces w.users
  unfolding transfer hand_over_to hand_over
  MayTakeOver-of w k ne e =
      elim (Option-cases (find? (is_workspace_row client workspace) w.workspaces)) [
        | inl missing ↦ absurd (ground (arith, e, missing))
        | inr (row, stored) ↦
            let same : row.id ≡ workspace =
              ground
                (arith, find?-some (is_workspace_row client workspace) w.workspaces row stored) in
            let owned : row.owner_id ≡ some current =
              owned_by row.owner_id (ground (arith, e, stored)) in
            elim (Option-cases (find? (is_member_row client workspace next) w.users)) [
              | inl unknown ↦ absurd (ground (arith, e, stored, owned, same, unknown))
              | inr (u, found) ↦
                  elim (Bool-cases (any (owns_another client workspace next) w.workspaces)) [
                    | inl owning ↦ absurd (ground (arith, e, stored, owned, same, found, owning))
                    | inr free ↦ record {
                      other = ne;
                      row = row;
                      stored = stored;
                      owned = owned;
                      candidate = u;
                      is_member = found;
                      is_active =
                          active_of u.status (ground (arith, e, stored, owned, same, found));
                      free = free;
                    }
                  ]
            ]
      ]

-- Where its transaction is done, a transfer of a workspace that has one owner returns exactly if the
-- caller is the owner and the next one is somebody else, who is an active member of the workspace and
-- owns no other workspace of the shard.
pub transfer_ownership-returns :
    (client workspace current next : ℕ) (env : Env) (w : World)
    → env.fate w.calls ≡ done
    → HasOneOwner client workspace w
    → ((k : Workspace) × ((transfer_ownership client workspace current next env w).0 ≡ ok k))
      ↔ MayTakeOver client workspace current next w.workspaces w.users
unfolding transfer_ownership write invalidate_users
transfer_ownership-returns client workspace current next env w answered h = (
  λ (k, e). elim (Bool-cases (next == current)) [
    | inl self ↦ absurd (ground (arith, e, self))
    | inr ne ↦ elim (Result-cases (transfer client workspace current next (tick env w)).0) [
      | inl (j, q) ↦
          MayTakeOver-of client workspace current next (tick env w) j
            (λ same. absurd (ground (arith, ne, same))) q
      | inr (x, q) ↦ absurd (ground (arith, e, ne, answered, q))
    ]
  ],
  λ m. (
    set_owner next m.row,
    (let returns = transfer-returns client workspace current next (tick env w) h m in
        ground (arith, answered, m.other, returns)),
  ),
)
