-- ===== src/Revtunnel.antt =====
-- internal/revtunnel/stream.go: many streams over one connection. Wire is the frames, Stream one
-- stream's ends, Mux the table of streams with the loop that reads frames. Registry is the connectors
-- of revtunnel.go.
pub mod Wire
pub mod Stream
pub mod Mux
pub mod Codec
pub mod Consuming
pub mod Reading
pub mod Closing
pub mod Writing
pub mod Shutdown
pub mod Registry
pub mod Tenants
pub mod Routing
pub mod Owners
mod Tests
mod RegistryTests
