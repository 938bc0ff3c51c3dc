-- ===== src/Blitz.antt =====
-- libsrc/blitz2: the containers and message decoders under the servers.
pub mod TokenMgr
pub mod LineMsg
pub mod FixHeadMsg
pub mod Selector
pub mod ArrayList
pub mod ActionArcs
pub mod StateMachine
pub mod Uri
pub mod HttpReq
pub mod Memcached
pub mod MemcachedReq
pub mod MemcachedResp
pub mod BufferWriter
pub mod ThriftMsg
pub mod HttpResponse
pub mod HttpChunks
pub mod HttpResp
