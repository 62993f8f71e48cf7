-- ===== src/Core.antt =====
-- app/core: the settings, the errors that the service raises, and how they are answered.
pub mod Errors
pub mod Origins
mod Tests
pub mod Config
