-- ===== src/V4.antt =====
-- include/boost/socks/impl/connect_v4.ipp and impl/connect_v4.hpp: the connection through a SOCKS4
-- server.
pub mod Request
pub mod Reply
pub mod Connect
