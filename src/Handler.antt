-- ===== src/Handler.antt =====
-- internal/handler: the token that the secrets carry.
pub mod Http
pub mod Token
pub mod RoleArn
pub mod Identity
mod Tests
