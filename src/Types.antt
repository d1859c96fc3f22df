-- ===== src/Types.antt =====
-- The data model of src/types/pb/a2a.ts: the messages of the A2A protocol, as the rest of the
-- server handles them. The children declare them, and this module passes their names on.
mod Values
mod Messages
mod Tasks
mod States
mod Events
mod Requests
mod Security
mod Card
pub use Values.*
pub use Messages.*
pub use Tasks.*
pub use States.*
pub use Events.*
pub use Requests.*
pub use Security.*
pub use Card.*
