-- ===== src/RefBase/Threads/Steps.antt =====
-- One step of one thread, at every place of the calls of sutils/RefBase.cpp, next to any others.
pub mod Weak
pub mod Strong
pub mod Promote
