-- ===== src/Server/Misread.antt =====
-- include/boost/socks/impl/connect.ipp with example/server/async/socks_server_async.cpp: what the server finds in a request
-- for a name that is longer than its length byte can count.
use socks.Endpoint.{Endpoint}
