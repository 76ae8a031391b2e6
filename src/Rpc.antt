-- ===== src/Rpc.antt =====
-- The package rpc: gRPC streams over a WebRTC data channel.
pub mod Channel
pub mod BaseStream
pub mod ClientStream
pub mod ServerStream
pub mod RoundTrip
pub mod Auth
pub mod StreamMap
pub mod ServerChannel
pub mod ClientChannel
pub mod CallQueue
pub mod CachedDialer
pub mod Dial
pub mod DialDirect
pub mod ClientAuth
pub mod DialOptions
mod Tests
