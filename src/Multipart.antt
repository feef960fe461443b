-- ===== src/Multipart.antt =====
-- src/zmq_addon.hpp: `multipart_t`. A value of the class is its deque `m_parts`, front first; a
-- member function that changes it returns the parts that it leaves, behind its result. Deque has the
-- operations that move whole parts, Content those that read or write their bytes, and Transfer
-- `recv` and `send`.
pub mod Deque
pub mod Content
pub mod Transfer
pub mod Wire
pub mod Outcomes
pub mod Keeps
pub mod Building
pub mod Joining
pub mod Ends
pub mod Copies
