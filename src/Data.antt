-- ===== src/Data.antt =====
-- The rows of the databases: prisma/schema/enums.prisma, identity.prisma, user.prisma,
-- workspace.prisma and role.prisma, and the JSON columns of modules/auth/types/db.types.ts.
-- A text that the code only compares or tests for emptiness is a number, 0 being the empty text; a
-- date is its number of milliseconds. The shards' tables of users are one list: `shard` names the
-- database that a row lives in.
use graphql_prisma_postgres.Prelude.{ℕ, Bool, true, false, Option, List}

pub data UserType : Type 0 where
  owner member : UserType

pub data UserStatus : Type 0 where
  active suspended invited : UserStatus

pub data WorkspaceStatus : Type 0 where
  active suspended archived : WorkspaceStatus

pub data MfaMethod : Type 0 where
  email authenticator : MfaMethod

pub data ReservationStatus : Type 0 where
  pending active release_pending : ReservationStatus

-- One row of `GlobalEmailReservation`, behind its key, the email.
pub record Reservation : Type 0 where
  pub user_id : ℕ
  pub workspace_id : Option ℕ
  pub shard_id : Option ℕ
  pub status : ReservationStatus
  pub expires_at : Option ℕ

pub record MfaSettings : Type 0 where
  pub is_enabled : Bool
  pub method : Option MfaMethod
  pub secret : Option ℕ
  pub backup_codes : List ℕ

pub record OtpSettings : Type 0 where
  pub code_hash : ℕ
  pub expires_at : ℕ
  pub attempts : ℕ

pub record PasswordReset : Type 0 where
  pub token_hash : ℕ
  pub expires_at : ℕ

pub record User : Type 0 where
  pub id : ℕ
  pub shard : ℕ
  pub email : ℕ
  pub username : ℕ
  pub password : ℕ
  pub user_type : UserType
  pub status : UserStatus
  pub avatar : Option ℕ
  pub email_verified : Bool
  pub workspace_id : ℕ
  pub google_id : Option ℕ
  pub mfa_settings : Option MfaSettings
  pub otp : Option OtpSettings
  pub password_reset : Option PasswordReset
  pub roles : List ℕ
  pub custom_permissions : List ℕ

pub record Workspace : Type 0 where
  pub id : ℕ
  pub shard : ℕ
  pub name : ℕ
  pub slug : ℕ
  pub status : WorkspaceStatus
  pub shard_id : Option ℕ
  pub owner_id : Option ℕ

pub record Role : Type 0 where
  pub id : ℕ
  pub shard : ℕ
  pub name : ℕ
  pub description : Option ℕ
  pub permissions : List ℕ
  pub is_system : Bool
  pub workspace_id : ℕ

-- `===` on the enumerations.
abbrev pub is_owner_type : UserType → Bool
is_owner_type owner = true
is_owner_type member = false

abbrev pub is_active_user : UserStatus → Bool
is_active_user UserStatus.active = true
is_active_user _ = false

abbrev pub is_suspended_user : UserStatus → Bool
is_suspended_user UserStatus.suspended = true
is_suspended_user _ = false

abbrev pub is_active_workspace : WorkspaceStatus → Bool
is_active_workspace WorkspaceStatus.active = true
is_active_workspace _ = false

abbrev pub is_pending : ReservationStatus → Bool
is_pending pending = true
is_pending _ = false

abbrev pub is_active : ReservationStatus → Bool
is_active ReservationStatus.active = true
is_active _ = false

abbrev pub is_release_pending : ReservationStatus → Bool
is_release_pending release_pending = true
is_release_pending _ = false
