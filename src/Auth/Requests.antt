-- ===== src/Auth/Requests.antt =====
-- The requests of modules/auth, and the contexts of requests, as steps of the databases.
use graphql_prisma_postgres.Prelude.{ℕ, List}
use graphql_prisma_postgres.Data.{User, MfaMethod}
use graphql_prisma_postgres.Effects.{World, Env}
use graphql_prisma_postgres.Identity.Coverage.{IsConsistent}
use graphql_prisma_postgres.Users.Coverage.{NoLostAnswer}
use graphql_prisma_postgres.Auth.Login.{login}
use graphql_prisma_postgres.Auth.Challenge.{verify_2fa}
use graphql_prisma_postgres.Auth.Recovery.{
  forgot_password, reset_password, refresh_tokens, logout, logout_all,
}
use graphql_prisma_postgres.Auth.Enrollment.{
  init_2fa_enrollment, confirm_2fa_enrollment, disable_2fa,
}
use graphql_prisma_postgres.Auth.Session.{create_context}
use graphql_prisma_postgres.Auth.Signup.{SignupData, signup}
use graphql_prisma_postgres.Auth.Google.{google_login}
use graphql_prisma_postgres.Auth.Coverage.{login-IsConsistent, verify_2fa-IsConsistent}
use graphql_prisma_postgres.Auth.Coverage.Account.{
  forgot_password-IsConsistent, reset_password-IsConsistent, refresh_tokens-IsConsistent,
  logout-IsConsistent, logout_all-IsConsistent, init_2fa_enrollment-IsConsistent,
  confirm_2fa_enrollment-IsConsistent, disable_2fa-IsConsistent,
}
use graphql_prisma_postgres.Auth.Coverage.Context.{create_context-IsConsistent}
use graphql_prisma_postgres.Auth.Coverage.Signup.{GeneratesFresh, signup-IsConsistent}
use graphql_prisma_postgres.Auth.Coverage.Google.{google_login-IsConsistent}

-- Signing up, by whatever way, is a step where every answer of a write is received and where the
-- identifiers that are generated are nonzero and no user's; all other steps may lose answers.
pub data AuthStep (w : World) : World → Type 0 where
  signed_up :
      (env : Env) (input : SignupData)
      → NoLostAnswer env
      → GeneratesFresh env w
      → AuthStep w (signup input env w).1
  by_google :
      (env : Env) (token : ℕ)
      → NoLostAnswer env
      → GeneratesFresh env w
      → AuthStep w (google_login token env w).1
  signed_in : (env : Env) (address password : List ℕ) → AuthStep w (login address password env w).1
  factor_given : (env : Env) (token : List ℕ) (otp : ℕ) → AuthStep w (verify_2fa token otp env w).1
  reset_asked : (env : Env) (address : List ℕ) → AuthStep w (forgot_password address env w).1
  reset_done :
      (env : Env) (token : ℕ) (password : List ℕ)
      → AuthStep w (reset_password token password env w).1
  renewed : (env : Env) (token : ℕ) → AuthStep w (refresh_tokens token env w).1
  signed_out : (env : Env) (user token : ℕ) → AuthStep w (logout user token env w).1
  signed_out_everywhere : (env : Env) (user : ℕ) → AuthStep w (logout_all user env w).1
  enrolled :
      (env : Env) (client : ℕ) (u : User) (method : MfaMethod)
      → AuthStep w (init_2fa_enrollment client u method env w).1
  confirmed :
      (env : Env) (client : ℕ) (u : User) (otp : ℕ)
      → AuthStep w (confirm_2fa_enrollment client u otp env w).1
  switched_off :
      (env : Env) (client id password : ℕ) → AuthStep w (disable_2fa client id password env w).1
  context_made : (env : Env) (token : List ℕ) → AuthStep w (create_context token env w).1

pub AuthStep-IsConsistent : {w w' : World} → AuthStep w w' → IsConsistent w → IsConsistent w'
AuthStep-IsConsistent {w} (signed_up env input answered g) h =
    signup-IsConsistent input env w answered h g
AuthStep-IsConsistent {w} (by_google env token answered g) h =
    google_login-IsConsistent token env w answered h g
AuthStep-IsConsistent {w} (signed_in env address password) h =
    login-IsConsistent address password env w h
AuthStep-IsConsistent {w} (factor_given env token otp) h = verify_2fa-IsConsistent token otp env w h
AuthStep-IsConsistent {w} (reset_asked env address) h = forgot_password-IsConsistent address env w h
AuthStep-IsConsistent {w} (reset_done env token password) h =
    reset_password-IsConsistent token password env w h
AuthStep-IsConsistent {w} (renewed env token) h = refresh_tokens-IsConsistent token env w h
AuthStep-IsConsistent {w} (signed_out env user token) h = logout-IsConsistent env w h user token
AuthStep-IsConsistent {w} (signed_out_everywhere env user) h = logout_all-IsConsistent env w h user
AuthStep-IsConsistent {w} (enrolled env client u method) h =
    init_2fa_enrollment-IsConsistent env w h client u method
AuthStep-IsConsistent {w} (confirmed env client u otp) h =
    confirm_2fa_enrollment-IsConsistent env w h client u otp
AuthStep-IsConsistent {w} (switched_off env client id password) h =
    disable_2fa-IsConsistent env w h client id password
AuthStep-IsConsistent {w} (context_made env token) h = create_context-IsConsistent token env w h
