-- ===== src/Effects/Library.antt =====
-- What the code takes from authlite, jsonwebtoken, bcrypt and crypto: operations of the environment.
-- A date is its number of milliseconds; a token and a hash are texts.
use graphql_prisma_postgres.Prelude.{ℕ, Bool, Option, List}
use graphql_prisma_postgres.Data.{UserType}

-- config/tokens.ts: `tokenType`.
pub data TokenType : Type 0 where
  access storage_service : TokenType

-- The body of a token, of which each kind of token has some fields. A missing flag reads as false.
pub record Payload : Type 0 where
  pub id : Option ℕ
  pub email : Option ℕ
  pub user_type : Option UserType
  pub workspace_id : Option ℕ
  pub is_2fa_pending : Bool
  pub token_type : Option TokenType
  pub jti : Option ℕ
  pub sub : Option ℕ

-- The secrets, each with the issuer and the audience that go with it.
pub data Secret : Type 0 where
  access_secret refresh_secret storage_secret : Secret

pub record GoogleUser : Type 0 where
  pub email : List ℕ
  pub name : List ℕ
  pub google_id : ℕ

pub record Enrollment : Type 0 where
  pub secret : ℕ
  pub qr_code : ℕ
  pub backup_codes : List ℕ

pub record AuthLibrary : Type 0 where
  -- `jwt.sign` at a date
  pub sign : Secret → ℕ → Payload → ℕ
  -- `jwt.verify` at a date; nothing where it throws
  pub verify : Secret → ℕ → ℕ → Option Payload
  -- SHA-256 in hexadecimal
  pub sha256 : ℕ → ℕ
  -- `bcrypt.compare`, of a password with a hash
  pub compare : ℕ → ℕ → Bool
  -- `authLite.mfa.verifyTotp` at a date, of a code with a secret
  pub verify_totp : ℕ → ℕ → ℕ → Bool
  -- `authLite.mfa.createEnrollment`, by the number of calls made so far
  pub create_enrollment : ℕ → ℕ → Enrollment
  -- `authLite.google.verify`; nothing where it throws
  pub google_verify : ℕ → Option GoogleUser
  -- `crypto.randomInt(100000, 1000000)` as a text
  pub random_otp : ℕ → ℕ
  -- `crypto.randomBytes` in hexadecimal, of some length
  pub random_hex : ℕ → ℕ → List ℕ
  -- the mail is queued or sent
  pub sends : ℕ → Bool
