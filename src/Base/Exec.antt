-- ===== src/Base/Exec.antt =====
-- Go functions that read and write a state beside their result, with their proof rules.
mod Monad
mod Keeping
mod Results
mod Raising
unfoldable pub use Monad.*
pub use Keeping.*
pub use Results.*
pub use Raising.*
