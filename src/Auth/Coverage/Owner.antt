-- ===== src/Auth/Coverage/Owner.antt =====
-- The coverage of users by reservations where a workspace is opened with its owner.
use graphql_prisma_postgres.Prelude.{◌≡◌, inl, inr, false, arith, Option-cases, lookup}
use graphql_prisma_postgres.Data.{User, Workspace, Role}
use graphql_prisma_postgres.Effects.{World, Env, Error, is_lost, err, Result-cases, tick, write}
use graphql_prisma_postgres.Identity.Coverage.{IsConsistent, IsFresh}
use graphql_prisma_postgres.Identity.Coverage.Reserving.{Reserves}
use graphql_prisma_postgres.Identity.Coverage.Releasing.{
  activate_after_shard_commit-IsConsistent, release_after_failed-IsConsistent,
}
use graphql_prisma_postgres.Users.Coverage.{NoLostAnswer, IsRoutable, claim_of, reserved-IsUnused}
use graphql_prisma_postgres.Auth.Signup.{open_workspace, open_or_release, register_owner}

module _ (k : Workspace) (u : User) (r : Role) where
  -- The transaction adds the owner's row or leaves the users alone.
  open_workspace-IsConsistent :
      (w : World)
      → IsConsistent w
      → IsRoutable u
      → Reserves (claim_of u) (lookup u.email w.reservations)
      → IsConsistent (open_workspace k u r w).1
  unfolding open_workspace
  open_workspace-IsConsistent w h routable reserved =
      elim (Option-cases (lookup u.email w.reservations)) [
        | inl missing ↦ absurd (ground arith)
        | inr (row, found) ↦ ground (arith, found)
      ]

  open_workspace-failed :
      (w : World) (e : Error) → (open_workspace k u r w).0 ≡ err e → (open_workspace k u r w).1 ≡ w
  unfolding open_workspace
  open_workspace-failed w e failed = ground arith

  write_owner-IsConsistent :
      (env : Env) (w : World)
      → IsConsistent w
      → IsRoutable u
      → Reserves (claim_of u) (lookup u.email w.reservations)
      → IsConsistent (write (open_workspace k u r) env w).1
  unfolding write
  write_owner-IsConsistent env w h routable reserved =
      ground (arith, open_workspace-IsConsistent (tick env w) h routable reserved)

  write_owner-failed :
      (env : Env) (w : World) (e : Error)
      → is_lost (env.fate w.calls) ≡ false
      → (write (open_workspace k u r) env w).0 ≡ err e
      → (write (open_workspace k u r) env w).1 ≡ tick env w
  unfolding write
  write_owner-failed env w e answered failed = ground (arith, open_workspace-failed (tick env w) e)

  pub open_or_release-IsConsistent :
      (reported : Error → Error) (env : Env) (w : World)
      → is_lost (env.fate w.calls) ≡ false
      → IsConsistent w
      → IsFresh u.id w
      → IsRoutable u
      → Reserves (claim_of u) (lookup u.email w.reservations)
      → IsConsistent (open_or_release k u r reported env w).1
  unfolding open_or_release
  open_or_release-IsConsistent reported env w answered h fresh routable reserved =
      let w' = (write (open_workspace k u r) env w).1 in
      let h' : IsConsistent w' = write_owner-IsConsistent env w h routable reserved in
      elim (Result-cases (write (open_workspace k u r) env w).0) [
        | inl (created, e) ↦ ground (arith, e, h')
        | inr (thrown, e) ↦
            let same : w' ≡ tick env w = write_owner-failed env w thrown answered e in
            let unused = reserved-IsUnused u w h fresh reserved in
            ground
              (arith, e, release_after_failed-IsConsistent u.email u.id env w' h' (rw same unused))
      ]

  pub register_owner-IsConsistent :
      (reported : Error → Error) (env : Env) (w : World)
      → NoLostAnswer env
      → IsConsistent w
      → IsFresh u.id w
      → IsRoutable u
      → Reserves (claim_of u) (lookup u.email w.reservations)
      → IsConsistent (register_owner k u r reported env w).1
  unfolding register_owner
  register_owner-IsConsistent reported env w answered h fresh routable reserved =
      let w1 = (open_or_release k u r reported env w).1 in
      let h1 : IsConsistent w1 =
        open_or_release-IsConsistent reported env w (answered w.calls) h fresh routable reserved in
      ground (arith, h1, activate_after_shard_commit-IsConsistent u.email u.id env w1 h1)
