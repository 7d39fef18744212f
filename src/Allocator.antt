-- ===== src/Allocator.antt =====
-- cpp/custom-allocator: the pool that backs every allocation of the middleware, and the guard that stops a
-- process which allocates otherwise.
pub mod Guard
pub mod Pool
