-- ===== src/Gloox.antt =====
-- The part of the gloox interface that the wrapper is written against (include/gloox/*.h): the
-- values that gloox hands to the callbacks and the calls that the wrapper makes. gloox itself is
-- not modelled; what it returns, calls back or parses is an argument wherever it is needed. Classes and
-- Contacts have its classes as records of their functions, and how the values come of these.
mod Address
mod Connection
mod Stanza
mod Calls
mod Errors
mod Classes
mod Contacts
pub use Address.*
pub use Connection.*
unfoldable pub use Stanza.*
pub use Calls.*
pub use Errors.*
