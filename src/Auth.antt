-- ===== src/Auth.antt =====
-- modules/auth, config/tokens.ts and middleware/auth.middleware.ts: signing up and in, the second
-- factor, tokens, and the context of a request.
pub mod Coverage
pub mod Tokens
pub mod Login
pub mod Challenge
pub mod Recovery
pub mod Enrollment
pub mod Session
pub mod Signup
pub mod Google
pub mod Requests
