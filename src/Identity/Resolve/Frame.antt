-- ===== src/Identity/Resolve/Frame.antt =====
-- What identity/resolve-user-by-email.ts leaves alone: everything but the directory.
use graphql_prisma_postgres.Prelude.{
  ℕ, zero, suc, ◌≡◌, inl, inr, refl, Option, none, some, arith, Bool-cases,
}
use graphql_prisma_postgres.Effects.{World, Env, tick, Result-cases, M}
use graphql_prisma_postgres.Identity.Reservation.{
  IdentityRoute, reconcile_expired_pending_reservation, find_reservation, reconcile_row,
  reconcile_routed_pending, release_expired, find_routed_user, update_many, delete_many,
}
use graphql_prisma_postgres.Identity.Release.{get_email_reservation, activate_email_reservation}
use graphql_prisma_postgres.Identity.Coverage.{IsConsistent}
use graphql_prisma_postgres.Identity.Coverage.Reserving.{reconcile_expired-IsConsistent}
use graphql_prisma_postgres.Identity.Coverage.Releasing.{activate_email_reservation-IsConsistent}
use graphql_prisma_postgres.Identity.Resolve.{
  Found, find_user_across_shards, scan, has_expired, load_user_from_recorded_shard, resolve_active,
  resolve_live_pending, after_reconcile, resolve_pending, resolve_route, resolve_within,
  resolve_user_by_email,
}

-- The tables of the shards, the sessions and the cache are the same.
pub record SameShards (w w' : World) : Type 0 where
  pub users : w'.users ≡ w.users
  pub workspaces : w'.workspaces ≡ w.workspaces
  pub roles : w'.roles ≡ w.roles
  pub sessions : w'.sessions ≡ w.sessions
  pub cache : w'.cache ≡ w.cache

pub reconcile_expired-SameShards :
    (email : ℕ) (env : Env) (w : World)
    → SameShards w (reconcile_expired_pending_reservation email env w).1
unfolding reconcile_expired_pending_reservation find_reservation reconcile_row
    reconcile_routed_pending release_expired find_routed_user update_many delete_many
reconcile_expired-SameShards email env w = ground arith

get_email_reservation-SameShards :
    (email : ℕ) (env : Env) (w : World) → SameShards w (get_email_reservation email env w).1
unfolding get_email_reservation find_reservation
get_email_reservation-SameShards email env w = ground arith

scan-SameShards : (email : ℕ) (env : Env) (w : World) → SameShards w (scan email env w).1
unfolding find_user_across_shards
scan-SameShards email env w = ground arith

resolve_active-SameShards :
    (route : IdentityRoute) (env : Env) (w : World) → SameShards w (resolve_active route env w).1
unfolding resolve_active load_user_from_recorded_shard
resolve_active-SameShards route env w = ground arith

resolve_live_pending-SameShards :
    (route : IdentityRoute) (env : Env) (w : World)
    → SameShards w (resolve_live_pending route env w).1
unfolding resolve_live_pending load_user_from_recorded_shard activate_email_reservation update_many
    find_reservation
resolve_live_pending-SameShards route env w = ground arith

-- A predicate that each call of the resolution keeps.
pub record IsKept (P : World → Type 0) (email : ℕ) (env : Env) : Type 0 where
  pub by_get : (w : World) → P w → P (get_email_reservation email env w).1
  pub by_scan : (w : World) → P w → P (scan email env w).1
  pub by_active : (route : IdentityRoute) (w : World) → P w → P (resolve_active route env w).1
  pub by_live : (route : IdentityRoute) (w : World) → P w → P (resolve_live_pending route env w).1
  pub by_reconcile : (w : World) → P w → P (reconcile_expired_pending_reservation email env w).1

module _ (P : World → Type 0) (email : ℕ) (env : Env) (kept : IsKept P email env) where
  module _ (again : M Found) (onward : (w : World) → P w → P (again env w).1) where
    after_reconcile-kept :
        (after : Option IdentityRoute) (w : World)
        → P w
        → P (after_reconcile again email after env w).1
    after_reconcile-kept none w h = kept.by_scan w h
    after_reconcile-kept (some after) w h = ground (arith, onward w)

    resolve_pending-kept :
        (route : IdentityRoute) (w : World) → P w → P (resolve_pending again email route env w).1
    unfolding resolve_pending
    resolve_pending-kept route w h =
        let w1 = (reconcile_expired_pending_reservation email env w).1 in
        let h1 : P w1 = kept.by_reconcile w h in
        let w2 = (get_email_reservation email env w1).1 in
        let h2 : P w2 = kept.by_get w1 h1 in
        elim (Bool-cases (has_expired w.clock route)) [
          | inr live ↦ ground (arith, live, kept.by_live route w h)
          | inl expired ↦
              elim (Result-cases (reconcile_expired_pending_reservation email env w).0) [
                | inr (thrown, e) ↦ ground (arith, expired, e, h1)
                | inl (_, e) ↦ elim (Result-cases (get_email_reservation email env w1).0) [
                  | inr (thrown, q) ↦ ground (arith, expired, e, q, h2)
                  | inl (after, q) ↦ ground (arith, expired, e, q, after_reconcile-kept after w2 h2)
                ]
              ]
        ]

    resolve_route-kept :
        (route : IdentityRoute) (w : World) → P w → P (resolve_route again email route env w).1
    unfolding resolve_route
    resolve_route-kept route w h =
        ground (arith, resolve_pending-kept route w h, kept.by_active route w h)

  resolve_within-kept : (fuel : ℕ) (w : World) → P w → P (resolve_within fuel email env w).1
  unfolding resolve_within
  resolve_within-kept zero w h = h
  resolve_within-kept (suc fuel) w h =
      let w1 = (get_email_reservation email env w).1 in
      let h1 : P w1 = kept.by_get w h in
      elim (Result-cases (get_email_reservation email env w).0) [
        | inr (thrown, e) ↦ ground (arith, e, h1)
        | inl (none, e) ↦ ground (arith, e, kept.by_scan w1 h1)
        | inl (some route, e) ↦ ground (
          arith,
          e,
          resolve_route-kept (resolve_within fuel email) (resolve_within-kept fuel) route w1 h1,
        )
      ]

  pub resolve_user_by_email-kept : (w : World) → P w → P (resolve_user_by_email email env w).1
  unfolding resolve_user_by_email
  resolve_user_by_email-kept w h = resolve_within-kept 2 w h

SameShards-trans : (u v w : World) → SameShards u v → SameShards v w → SameShards u w
SameShards-trans u v w h k = ground arith

-- Whatever the resolution does, it writes the directory alone.
pub resolve_user_by_email-SameShards :
    (email : ℕ) (env : Env) (w : World) → SameShards w (resolve_user_by_email email env w).1
resolve_user_by_email-SameShards email env w =
    resolve_user_by_email-kept (SameShards w) email env
      (record {
        by_get = λ v h.
            SameShards-trans w v (get_email_reservation email env v).1 h
              (get_email_reservation-SameShards email env v);
        by_scan = λ v h. SameShards-trans w v (scan email env v).1 h (scan-SameShards email env v);
        by_active = λ route v h.
            SameShards-trans w v (resolve_active route env v).1 h
              (resolve_active-SameShards route env v);
        by_live = λ route v h.
            SameShards-trans w v (resolve_live_pending route env v).1 h
              (resolve_live_pending-SameShards route env v);
        by_reconcile = λ v h.
            SameShards-trans w v (reconcile_expired_pending_reservation email env v).1 h
              (reconcile_expired-SameShards email env v);
      })
      w (record { users = refl; workspaces = refl; roles = refl; sessions = refl; cache = refl })

get_email_reservation-IsConsistent :
    (email : ℕ) (env : Env) (w : World)
    → IsConsistent w
    → IsConsistent (get_email_reservation email env w).1
unfolding get_email_reservation find_reservation
get_email_reservation-IsConsistent email env w h = ground arith

scan-IsConsistent :
    (email : ℕ) (env : Env) (w : World) → IsConsistent w → IsConsistent (scan email env w).1
unfolding find_user_across_shards
scan-IsConsistent email env w h = ground arith

resolve_active-IsConsistent :
    (route : IdentityRoute) (env : Env) (w : World)
    → IsConsistent w
    → IsConsistent (resolve_active route env w).1
unfolding resolve_active load_user_from_recorded_shard
resolve_active-IsConsistent route env w h = ground arith

resolve_live_pending-IsConsistent :
    (route : IdentityRoute) (env : Env) (w : World)
    → IsConsistent w
    → IsConsistent (resolve_live_pending route env w).1
unfolding resolve_live_pending load_user_from_recorded_shard
resolve_live_pending-IsConsistent route env w h = ground (
  arith,
  activate_email_reservation-IsConsistent route.email route.user_id env w h,
  activate_email_reservation-IsConsistent route.email route.user_id env (tick env w) h,
)

pub resolve_user_by_email-IsConsistent :
    (email : ℕ) (env : Env) (w : World)
    → IsConsistent w
    → IsConsistent (resolve_user_by_email email env w).1
resolve_user_by_email-IsConsistent email env w h =
    resolve_user_by_email-kept IsConsistent email env
      (record {
        by_get = get_email_reservation-IsConsistent email env;
        by_scan = scan-IsConsistent email env;
        by_active = λ route v k. resolve_active-IsConsistent route env v k;
        by_live = λ route v k. resolve_live_pending-IsConsistent route env v k;
        by_reconcile = λ v k. reconcile_expired-IsConsistent email env v k;
      })
      w h
