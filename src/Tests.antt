-- ===== src/Tests.antt =====
-- The modelled operations run on small inputs, and the theorems about them applied there.
mod Data
mod Results
mod Stores
mod Queues
mod Requests
mod Cancels
mod Sends
mod Pushes
mod Compats
mod Streams
mod Failures
mod Clients
mod Headers
mod Codecs
mod Rpcs
