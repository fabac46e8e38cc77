-- ===== src/Identity/Batch.antt =====
-- Proofs on `reconcileAllReleasePending` of identity/email-reservation.service.ts.
use graphql_prisma_postgres.Prelude.{
  ℕ, suc, ◌+◌, ◌≡◌, inl, inr, refl, Bool, true, false, ◌&&◌, ◌||◌, Option, none, some, List, [],
  ◌∷◌, arith, Option-cases, Bool-cases, ◌==◌, length, Dict, lookup, lookup-insert, lookup-erase,
  ◌∙◌, ap,
}
use graphql_prisma_postgres.Data.{Reservation, release_pending, is_release_pending}
use graphql_prisma_postgres.Effects.{World, Env, done, Result, ok, tick}
use graphql_prisma_postgres.Identity.Reservation.{
  find_reservation, update_many, delete_many, route_of, find_routed_user, activate,
}
use graphql_prisma_postgres.Identity.Release.{
  reconcile_routed_release, reconcile_release_pending, Summary, tally, reconcile_rows,
  release_pending_rows, no_outcomes, reconcile_all_release_pending,
}
use graphql_prisma_postgres.Identity.Resolve.Exact.{AllAnswer}

abbrev pub counted : Summary → ℕ
counted s = s.released + s.kept + s.restored + s.errors

reconcile_rows-counted :
    (rows : List (ℕ × ℕ)) (s : Summary) (env : Env) (w : World)
    → (t : Summary) × ((reconcile_rows rows s env w).0 ≡ ok t)
      × (counted t ≡ counted s + length rows)
unfolding reconcile_rows
reconcile_rows-counted [] s env w = (s, refl, omega arith)
reconcile_rows-counted ((email, user) ∷ rows) s env w =
    let (r, w') = reconcile_release_pending email user env w in
    let (t, e, c) = reconcile_rows-counted rows (tally r s) env w' in (t, e, rw c (tally-counted r))
  where
    tally-counted :
        (r : Result _) → counted (tally r s) + length rows ≡ counted s + suc (length rows)
    tally-counted r = ground arith

-- The row of an email is to be released.
abbrev pub is_pending_release : Option Reservation → Bool
is_pending_release none = false
is_pending_release (some r) = is_release_pending r.status

module _ (email user : ℕ) (env : Env) (w : World) where
  -- A reconciliation marks no row: what is to be released afterwards was so before.
  reconcile-marks_none :
      (j : ℕ)
      → is_pending_release (lookup j w.reservations) ≡ false
      → is_pending_release (lookup j (reconcile_release_pending email user env w).1.reservations)
        ≡ false
  unfolding reconcile_release_pending reconcile_routed_release find_reservation find_routed_user
      update_many delete_many
  reconcile-marks_none j h = elim (Option-cases (lookup email w.reservations)) [
    | inl missing ↦ ground (arith, missing)
    | inr (r, found) ↦ ground (
      arith,
      found,
      lookup-insert email j (activate r) w.reservations,
      lookup-erase email j w.reservations,
    )
  ]

  -- A row that is still to be released was not touched.
  reconcile-still :
      (j : ℕ)
      → is_pending_release (lookup j (reconcile_release_pending email user env w).1.reservations)
        ≡ true
      → lookup j (reconcile_release_pending email user env w).1.reservations
        ≡ lookup j w.reservations
  unfolding reconcile_release_pending reconcile_routed_release find_reservation find_routed_user
      update_many delete_many
  reconcile-still j e = elim (Option-cases (lookup email w.reservations)) [
    | inl missing ↦ ground (arith, missing)
    | inr (r, found) ↦ ground (
      arith,
      found,
      lookup-insert email j (activate r) w.reservations,
      lookup-erase email j w.reservations,
    )
  ]

  -- Where no call fails a row with a complete route is settled.
  reconcile-settles :
      (r : Reservation) (k : ℕ × ℕ)
      → AllAnswer env
      → lookup email w.reservations ≡ some r
      → r.user_id ≡ user
      → route_of r ≡ some k
      → is_pending_release
          (lookup email (reconcile_release_pending email user env w).1.reservations)
        ≡ false
  unfolding reconcile_release_pending reconcile_routed_release find_reservation find_routed_user
      update_many delete_many
  reconcile-settles r (workspace, shard) up found own routed = ground (
    arith,
    found,
    routed,
    up.answered w.calls,
    up.answered (w.calls + 1),
    up.answered (w.calls + 1 + 1),
    up.reached (w.calls + 1) shard,
    lookup-insert email email (activate r) w.reservations,
    lookup-erase email email w.reservations,
  )

reconcile_rows-marks_none :
    (rows : List (ℕ × ℕ)) (s : Summary) (env : Env) (w : World) (j : ℕ)
    → is_pending_release (lookup j w.reservations) ≡ false
    → is_pending_release (lookup j (reconcile_rows rows s env w).1.reservations) ≡ false
unfolding reconcile_rows
reconcile_rows-marks_none [] s env w j h = h
reconcile_rows-marks_none ((email, user) ∷ rows) s env w j h =
    let (r, w') = reconcile_release_pending email user env w in
    reconcile_rows-marks_none rows (tally r s) env w' j (reconcile-marks_none email user env w j h)

abbrev listed : ℕ → ℕ → List (ℕ × ℕ) → Bool
listed email user [] = false
listed email user ((e, u) ∷ rows) = (e == email && u == user) || listed email user rows

listed-release_pending_rows :
    (email : ℕ) (r : Reservation) (d : Dict Reservation)
    → lookup email d ≡ some r
    → is_release_pending r.status ≡ true
    → listed email r.user_id (release_pending_rows d) ≡ true
unfolding lookup
listed-release_pending_rows email r [] e h = absurd (cc)
listed-release_pending_rows email r ((k, v) ∷ d) e h =
    ground (arith, listed-release_pending_rows email r d)

reconcile_rows-settles :
    (rows : List (ℕ × ℕ)) (s : Summary) (env : Env) (w : World) (email : ℕ) (r : Reservation)
    (k : ℕ × ℕ)
    → AllAnswer env
    → lookup email w.reservations ≡ some r
    → route_of r ≡ some k
    → listed email r.user_id rows ≡ true
    → is_pending_release (lookup email (reconcile_rows rows s env w).1.reservations) ≡ false
unfolding reconcile_rows
reconcile_rows-settles [] s env w email r k up found routed e = absurd (cc)
reconcile_rows-settles ((e, u) ∷ rows) s env w email r k up found routed member =
    let (x, w') = reconcile_release_pending e u env w in
    elim (Bool-cases (is_pending_release (lookup email w'.reservations))) [
      | inr settled ↦ reconcile_rows-marks_none rows (tally x s) env w' email settled
      | inl open_still ↦ elim (Bool-cases (e == email && u == r.user_id)) [
        | inl own ↦
            let e1 : e ≡ email = ground arith in
            let u1 : r.user_id ≡ u = ground arith in
            let settled : is_pending_release (lookup e w'.reservations) ≡ false =
              reconcile-settles e u env w r k up (rw e1 found) u1 routed in
            let same : is_pending_release (lookup e w'.reservations)
                ≡ is_pending_release (lookup email w'.reservations) =
              ap (λ j. is_pending_release (lookup j w'.reservations)) e1 in
            absurd (cc (same, settled, open_still))
        | inr other ↦
            reconcile_rows-settles rows (tally x s) env w' email r k up
              (reconcile-still e u env w email open_still ∙ found) routed (ground arith)
      ]
    ]

-- Where no call fails, the batch settles every row that is to be released and has a complete route:
-- afterwards the email's row is no longer to be released.
pub reconcile_all-settles :
    (env : Env) (w : World) (email : ℕ) (r : Reservation) (k : ℕ × ℕ)
    → AllAnswer env
    → lookup email w.reservations ≡ some r
    → r.status ≡ release_pending
    → route_of r ≡ some k
    → is_pending_release (lookup email (reconcile_all_release_pending env w).1.reservations) ≡ false
unfolding reconcile_all_release_pending
reconcile_all-settles env w email r k up found status routed =
    let member : listed email r.user_id (release_pending_rows w.reservations) ≡ true =
      listed-release_pending_rows email r w.reservations found (ground arith) in
    ground (
      arith,
      up.answered w.calls,
      reconcile_rows-settles (release_pending_rows w.reservations) no_outcomes env (tick env w)
          email r k up found routed member,
    )

-- Once the rows are read the batch returns, whatever its other calls do, and it reports each row that
-- it has read under exactly one heading.
pub reconcile_all-counted :
    (env : Env) (w : World)
    → env.fate w.calls ≡ done
    → (t : Summary) × ((reconcile_all_release_pending env w).0 ≡ ok t)
      × (counted t ≡ length (release_pending_rows w.reservations))
unfolding reconcile_all_release_pending
reconcile_all-counted env w answered =
    let (t, e, c) =
      reconcile_rows-counted (release_pending_rows w.reservations) no_outcomes env (tick env w) in
    (t, ground (arith, answered, e), ground (arith, c))
