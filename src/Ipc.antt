-- ===== src/Ipc.antt =====
-- src/ipc: the wrappers of the System V calls, over a kernel that is a parameter. `none` is the exit of
-- `THROW_UTIL`.
pub mod Kernel
pub mod Wrappers
pub mod Mutex
