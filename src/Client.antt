-- ===== src/Client.antt =====
-- client/: the balancer of server addresses, and the pool of connections to servers.
pub mod LoadBalancer
pub mod TcpClient
pub mod TcpClientPool
