-- ===== src/Proc.antt =====
-- Proyecto3/kernel/proc.c and the changed functions of Proyecto2/kernel/proc.c, over `Kernel`.
-- `me` is the process that `myproc()` returns.
pub mod Alloc
pub mod Space
pub mod Free
pub mod NewSpace
pub mod Pagetable
pub mod Allocate
pub mod Found
pub mod Sleep
pub mod Life
pub mod Wakeup
pub mod Kill
pub mod Handshake
pub mod Reparent
pub mod Rouse
pub mod Exit
pub mod Traced
pub mod Schedule
