-- ===== src/Effects.antt =====
-- What a request can do: the errors of errors/index.ts, the state that a request reads and writes,
-- and the environment that decides how each call of a database ends.
mod Errors
mod Library
mod State
mod Monad
unfoldable pub use Errors.*
pub use Library.*
pub use State.*
unfoldable pub use Monad.*
