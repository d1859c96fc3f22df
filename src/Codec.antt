-- ===== src/Codec.antt =====
-- The JSON form of the messages of version 1.0: `fromJSON` and `toJSON` of src/types/pb/a2a.ts.
pub mod Fields
pub mod Messages
pub mod Tasks
pub mod Requests
pub mod Queries
pub mod Flows
pub mod Security
pub mod Cards
pub mod Responses
pub mod RoundTrip
