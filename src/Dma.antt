-- ===== src/Dma.antt =====
-- src/bf_sal/linux_usr/bf_sys_dma_hugepages.c: DMA memory pools over huge pages.
pub mod Align
pub mod Pool
pub mod Queue
pub mod Gate
pub mod Address
pub mod Machine
pub mod Create
pub mod Destroy
pub mod Buffers
pub mod Single
pub mod Sharing
pub mod Geometry
mod Toy
mod Tests
