-- ===== src/Effect/Rely.antt =====
-- Rules for actions among concurrent requests. `R` is what one step may do to the database: if
-- every step of the others is an `R` step, then all that an action does is one, and it ends with
-- what its rule says.
mod Core
mod Rules
mod Forms
pub use Core.*
pub use Rules.*
pub use Forms.*
