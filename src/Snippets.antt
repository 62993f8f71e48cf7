-- ===== src/Snippets.antt =====
-- app/services/snippet_service.py.
pub mod Backend
pub mod Model
pub mod Common
pub mod View
pub mod Access
pub mod Retries
pub mod Caching
pub mod Update
pub mod Versions
pub mod Updates
pub mod Leaks
pub mod ShortId
pub mod Create
pub mod Delete
pub mod Creates
pub mod Shares
pub mod Consistent
pub mod Grown
pub mod Keeps
pub mod Listing
pub mod Listed
mod Pages
pub mod Steps
pub mod Documents
pub mod Refines
pub mod Edits
pub mod Amends
pub mod Replays
mod Tests
pub mod Examples
