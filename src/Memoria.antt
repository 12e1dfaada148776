-- ===== src/Memoria.antt =====
-- memoria/src/memory_utils.c: the memory of pages. Tlb is the TLB, Estado the pages and the
-- globals, Contrato what is asked of swamp, Marcos the frames and the replacement by LRU, Clock the
-- replacement by the improved clock, Traduccion the way from a page to its frame, Datos the reads
-- and writes of the user, Heap the metadata of the allocations, Procesos the pages of a process
-- from its start to its end, Agregado the pages that it is given later, Asignacion the search of a
-- free allocation and the new one at the end, Intermedia memalloc, and Liberacion memfree.
pub mod Tlb
pub mod Estado
pub mod Contrato
pub mod Marcos
pub mod Clock
pub mod Traduccion
pub mod Datos
pub mod Heap
pub mod Procesos
pub mod Agregado
pub mod Asignacion
pub mod Intermedia
pub mod Liberacion
mod Disco
pub mod Pruebas
pub mod ConSwamp
mod PruebasConSwamp
