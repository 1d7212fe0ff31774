-- ===== src/Commands.antt =====
-- The commands of net/commands.c: what the handlers share, the handlers, their table and `vc_dispatch`,
-- and what holds of them.
pub mod Admin
pub mod Compat
pub mod Connection
pub mod Counters
pub mod Dispatch
pub mod Encoding
pub mod Guard
pub mod Keys
pub mod Pages
pub mod ReadOnly
pub mod Refused
pub mod Reply
pub mod Strings
pub mod Table
pub mod SetGet
pub mod Typed
pub mod TypedGet
pub mod Users
pub mod Values
pub mod Tests
