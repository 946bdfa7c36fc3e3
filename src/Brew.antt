-- ===== src/Brew.antt =====
-- internal/brew: the Brew protocol.
pub mod Message
pub mod Payload
pub mod FrameData
pub mod Parse
pub mod Build
pub mod BuildFrame
pub mod Uuid
pub mod RoundTrip
pub mod Frames
pub mod Relay
pub mod Client
pub mod Server
mod Tests
