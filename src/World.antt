-- ===== src/World.antt =====
-- The objects that the wrapper keeps (src/XmppClient.h, src/XmppListener.h), and what a run of one
-- of its functions is: a change of these objects, the effects that others see, and how it ended.
mod State
mod Monad
pub mod Laws
pub mod Relations
pub use State.*
pub use Monad.*
