-- ===== src/Proxy/Connection/Destination.antt =====
-- Where the queries of a connection go: pgcluster/src/proxy/connection.rs.
use pgcluster.Proxy.Connection.{Connection}
