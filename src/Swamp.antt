-- ===== src/Swamp.antt =====
-- swamp/src/swap.c and swamp/include/swap.h: the module that keeps the pages of swapped processes.
pub mod Tabla
pub mod Archivos
pub mod Guardar
pub mod Pruebas
