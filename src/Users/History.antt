-- ===== src/Users/History.antt =====
-- Requests as steps of the databases, and sequences of them.
use graphql_prisma_postgres.Prelude.{
  ℕ, ◌<◌, ◌≡◌, inl, inr, Bool, Option, some, List, arith, Option-cases, lookup, Dict, find?,
  find?-All,
}
use graphql_prisma_postgres.Data.{User, UserStatus, Reservation}
use graphql_prisma_postgres.Effects.{World, Env}
use graphql_prisma_postgres.Identity.Reservation.{reconcile_expired_pending_reservation}
use graphql_prisma_postgres.Identity.Release.{
  reconcile_release_pending, reconcile_all_release_pending,
}
use graphql_prisma_postgres.Identity.Coverage.{IsCovered, IsConsistent, IsFresh}
use graphql_prisma_postgres.Identity.Coverage.Reserving.{reconcile_expired-IsConsistent}
use graphql_prisma_postgres.Identity.Coverage.Releasing.{
  reconcile_release_pending-IsConsistent, reconcile_all-IsConsistent,
}
use graphql_prisma_postgres.Access.Grants.{AccessActor}
use graphql_prisma_postgres.Users.Input.{CreateUserData}
use graphql_prisma_postgres.Users.Members.{create_user}
use graphql_prisma_postgres.Users.Changes.{
  Field, update_user, update_user_status, set_user_roles, assign_roles, remove_roles,
  set_user_permissions, delete_user,
}
use graphql_prisma_postgres.Users.Coverage.{NoLostAnswer}
use graphql_prisma_postgres.Users.Creation.{create_user-IsConsistent}
use graphql_prisma_postgres.Users.Profile.{update_profile, update_profile-IsConsistent}
use graphql_prisma_postgres.Auth.Requests.{AuthStep, AuthStep-IsConsistent}
use graphql_prisma_postgres.Workspaces.{transfer_ownership}
use graphql_prisma_postgres.Workspaces.Update.{update_workspace, update_workspace-IsConsistent}
use graphql_prisma_postgres.Workspaces.Coverage.{transfer_ownership-IsConsistent}
use graphql_prisma_postgres.Roles.{delete_role}
use graphql_prisma_postgres.Roles.Coverage.{delete_role-IsConsistent}
use graphql_prisma_postgres.Users.Requests.{
  update_user-IsConsistent, delete_user-IsConsistent, update_user_status-IsConsistent,
  set_user_roles-IsConsistent, assign_roles-IsConsistent, remove_roles-IsConsistent,
  set_user_permissions-IsConsistent,
}

-- A request to the service, or a run of the operations command, as a step of the databases. Every
-- step has an environment of its own, so each of its calls may be refused. A user is created under
-- an id that no user has, and with every answer of a write received; all other steps may also lose
-- answers. The requests of modules/auth are steps of their own.
pub data Step (w : World) : World → Type 0 where
  create :
      (env : Env) (client workspace : ℕ) (actor : AccessActor) (input : CreateUserData)
      → NoLostAnswer env
      → ((n : ℕ) → IsFresh (env.uuid n) w)
      → ((n : ℕ) → 0 < env.uuid n)
      → 0 < client
      → 0 < workspace
      → Step w (create_user client workspace actor input env w).1
  profile :
      (env : Env) (client workspace id : ℕ) (username avatar : Field)
      → Step w (update_user client workspace id username avatar env w).1
  status :
      (env : Env) (client workspace id : ℕ) (actor : AccessActor) (s : UserStatus)
      → Step w (update_user_status client workspace actor id s env w).1
  roles_set :
      (env : Env) (client workspace id : ℕ) (actor : AccessActor) (roles : List ℕ)
      → Step w (set_user_roles client workspace actor id roles env w).1
  roles_assigned :
      (env : Env) (client workspace id : ℕ) (actor : AccessActor) (roles : List ℕ)
      → Step w (assign_roles client workspace actor id roles env w).1
  roles_removed :
      (env : Env) (client workspace id : ℕ) (actor : AccessActor) (roles : List ℕ)
      → Step w (remove_roles client workspace actor id roles env w).1
  permissions_set :
      (env : Env) (client workspace id : ℕ) (actor : AccessActor) (input : List ℕ)
      → Step w (set_user_permissions client workspace actor id input env w).1
  delete : (env : Env) (client workspace id : ℕ) → Step w (delete_user client workspace id env w).1
  own_profile :
      (env : Env) (client user workspace : ℕ) (username avatar : Field) (permissions : List ℕ)
      → Step w (update_profile client user workspace username avatar permissions env w).1
  ownership :
      (env : Env) (client workspace current next : ℕ)
      → Step w (transfer_ownership client workspace current next env w).1
  workspace_updated :
      (env : Env) (client workspace : ℕ) (name slug : Option (List ℕ))
      → Step w (update_workspace client workspace name slug env w).1
  role_deleted :
      (env : Env) (client workspace id : ℕ) → Step w (delete_role client workspace id env w).1
  expired : (env : Env) (email : ℕ) → Step w (reconcile_expired_pending_reservation email env w).1
  release : (env : Env) (email user : ℕ) → Step w (reconcile_release_pending email user env w).1
  account : {v : World} → AuthStep w v → Step w v
  release_all : (env : Env) → Step w (reconcile_all_release_pending env w).1

Step-IsConsistent : {w w' : World} → Step w w' → IsConsistent w → IsConsistent w'
Step-IsConsistent {w} (create env client workspace actor input answered fresh positive c k) h =
    create_user-IsConsistent client workspace actor input env w answered h fresh positive c k
Step-IsConsistent {w} (profile env client workspace id username avatar) h =
    update_user-IsConsistent client workspace id env w h username avatar
Step-IsConsistent {w} (status env client workspace id actor s) h =
    update_user_status-IsConsistent client workspace id env w h actor s
Step-IsConsistent {w} (roles_set env client workspace id actor roles) h =
    set_user_roles-IsConsistent client workspace id env w h actor roles
Step-IsConsistent {w} (roles_assigned env client workspace id actor roles) h =
    assign_roles-IsConsistent client workspace id env w h actor roles
Step-IsConsistent {w} (roles_removed env client workspace id actor roles) h =
    remove_roles-IsConsistent client workspace id env w h actor roles
Step-IsConsistent {w} (permissions_set env client workspace id actor input) h =
    set_user_permissions-IsConsistent client workspace id env w h actor input
Step-IsConsistent {w} (delete env client workspace id) h =
    delete_user-IsConsistent client workspace id env w h
Step-IsConsistent {w} (own_profile env client user workspace username avatar permissions) h =
    update_profile-IsConsistent client user workspace username avatar permissions env w h
Step-IsConsistent {w} (ownership env client workspace current next) h =
    transfer_ownership-IsConsistent client workspace current next env w h
Step-IsConsistent {w} (workspace_updated env client workspace name slug) h =
    update_workspace-IsConsistent client workspace name slug env w h
Step-IsConsistent {w} (role_deleted env client workspace id) h =
    delete_role-IsConsistent client workspace id env w h
Step-IsConsistent {w} (expired env email) h = reconcile_expired-IsConsistent email env w h
Step-IsConsistent {w} (release env email user) h =
    reconcile_release_pending-IsConsistent email user env w h
Step-IsConsistent {w} (account s) h = AuthStep-IsConsistent s h
Step-IsConsistent {w} (release_all env) h = reconcile_all-IsConsistent env w h

pub data Reach (w : World) : World → Type 0 where
  here : Reach w w
  next : {u v : World} → Reach w u → Step u v → Reach w v

-- From a state in which every user is covered by the reservation of its email, any sequence of steps
-- leads to such a state: the requests of user management, of the profile, of the update of
-- workspaces, of the transfer of ownership and of the deletion of roles, the requests of modules/auth,
-- the making of contexts, and the two reconciliations, each with calls that may be refused at any
-- point or lose their answers; creating a user, signing up and signing in with Google are steps only
-- where no answer of a write is lost, where the identifiers that are generated are nonzero and not in
-- use, and where the workspace and the shard are not zero.
pub Reach-IsConsistent : {w w' : World} → Reach w w' → IsConsistent w → IsConsistent w'
Reach-IsConsistent here h = h
Reach-IsConsistent (next r s) h = Step-IsConsistent s (Reach-IsConsistent r h)

covered_once :
    (rows : Dict Reservation) (u v : User)
    → IsCovered rows u
    → IsCovered rows v
    → u.email ≡ v.email
    → (u.id ≡ v.id) × (u.workspace_id ≡ v.workspace_id) × (u.shard ≡ v.shard)
covered_once rows u v c d same = elim (Option-cases (lookup u.email rows)) [
  | inl missing ↦ absurd (ground (arith, missing))
  | inr (r, found) ↦ let found' : lookup v.email rows ≡ some r = cc in ground (arith, found, found')
]

-- Across all shards an email belongs to one user. After any sequence of steps from a state in which
-- every user is covered by the reservation of its email, where users are only created or signed up
-- without lost answers of writes and under identifiers that are nonzero and not in use, in nonzero
-- workspaces and shards, two rows with the same email that
-- queries find carry the same id, the same workspace and the same shard.
pub unique_email :
    {w w' : World} (p q : User → Bool) (u v : User)
    → Reach w w'
    → IsConsistent w
    → find? p w'.users ≡ some u
    → find? q w'.users ≡ some v
    → u.email ≡ v.email
    → (u.id ≡ v.id) × (u.workspace_id ≡ v.workspace_id) × (u.shard ≡ v.shard)
unique_email {w'} p q u v r h found found' same =
    let h' : IsConsistent w' = Reach-IsConsistent r h in
    covered_once w'.reservations u v (find?-All (IsCovered w'.reservations) p w'.users u h' found)
      (find?-All (IsCovered w'.reservations) q w'.users v h' found') same
