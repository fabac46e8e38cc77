-- ===== src/Auth/Challenge/Otp.antt =====
-- The code of the mail, in `verify2FA` of modules/auth/services/auth.service.ts.
use graphql_prisma_postgres.Prelude.{
  ℕ, ◌≤◌, inl, inr, Option, none, some, List, [], arith, Option-cases, Bool-cases, ltb, All,
  All-update_where, update_where,
}
use graphql_prisma_postgres.Data.{User, OtpSettings}
use graphql_prisma_postgres.Effects.{World, Env, invalidate_user}
use graphql_prisma_postgres.Users.Members.{update_user_row, is_id_row}
use graphql_prisma_postgres.Auth.Login.{set_otp}
use graphql_prisma_postgres.Auth.Challenge.{
  max_otp_attempts, count_attempt, check_stored_otp, check_email_otp,
}

-- A stored code has been tried at most as often as is allowed.
abbrev pub WithinAttempts : Option OtpSettings → Type 0
WithinAttempts none = Unit
WithinAttempts (some o) = o.attempts ≤ max_otp_attempts

abbrev IsWithin : User → Type 0
IsWithin u = WithinAttempts u.otp

abbrev pub AttemptsBounded : World → Type 0
AttemptsBounded w = All IsWithin w.users

WithinAttempts-set : (u : User) (o : Option OtpSettings) → WithinAttempts o → IsWithin (set_otp o u)
WithinAttempts-set u none k = k
WithinAttempts-set u (some o) k = k

All-set_otp :
    (us : List User) (client id : ℕ) (o : Option OtpSettings)
    → WithinAttempts o
    → All IsWithin us
    → All IsWithin (update_where (is_id_row client id) (set_otp o) us)
All-set_otp us client id o k h =
    All-update_where IsWithin (is_id_row client id) (set_otp o) us (λ u _. WithinAttempts-set u o k)
      h

-- Setting a code within its bound keeps the bound for all users.
update_user_row-AttemptsBounded :
    (client id : ℕ) (o : Option OtpSettings) (env : Env) (w : World)
    → WithinAttempts o
    → AttemptsBounded w
    → AttemptsBounded (update_user_row client id [] (set_otp o) env w).1
unfolding update_user_row
update_user_row-AttemptsBounded client id o env w k h =
    ground (arith, All-set_otp w.users client id o k h)

-- However its calls end, a try of a code keeps every user's count of tries within its bound of five.
pub check_email_otp-AttemptsBounded :
    (client : ℕ) (u : User) (otp : ℕ) (env : Env) (w : World)
    → AttemptsBounded w
    → AttemptsBounded (check_email_otp client u otp env w).1
unfolding check_email_otp check_stored_otp invalidate_user
check_email_otp-AttemptsBounded client u otp env w h = elim (Option-cases u.otp) [
  | inl missing ↦ ground (arith, missing)
  | inr (o, stored) ↦ elim (Bool-cases (ltb o.attempts max_otp_attempts)) [
    | inr spent ↦ ground (arith, stored, spent)
    | inl within ↦ ground (
      arith,
      stored,
      within,
      update_user_row-AttemptsBounded client u.id none env w tt h,
      update_user_row-AttemptsBounded client u.id (some (count_attempt o)) env w (ground arith) h,
    )
  ]
]
