-- ===== src/Server.antt =====
-- src/zmq_server.h and src/zmq_server.cc: the proxy server. State has its data, Clock its clock, Setup
-- its constructor, Registry the operations on the list of workers, Proxy the loop of `Start`, Spec
-- what the proxy promises, and Refines that it keeps it.
pub mod State
pub mod Spec
pub mod Clock
pub mod Setup
pub mod Registry
pub mod Proxy
pub mod Refines
