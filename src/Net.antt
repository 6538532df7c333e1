-- ===== src/Net.antt =====
-- common/net: message ids, packets and their framing, request contexts and protobuf messages.
pub mod TcpServer
pub mod TcpClient
pub mod Upstream
pub mod EventLoop
pub mod MessageId
pub mod Packet
pub mod RequestContext
pub mod Proto
pub mod Codec
pub mod Mapper
