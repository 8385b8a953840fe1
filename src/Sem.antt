-- ===== src/Sem.antt =====
-- src/bf_sal/linux_usr/bf_sys_sem.c: locks of the abstraction layer.
pub mod Store
pub mod Objects
pub mod Locks
pub mod RwInit
pub mod RwLock
pub mod RwCalls
mod Tests
