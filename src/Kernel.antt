-- ===== src/Kernel.antt =====
-- kernel/src/main.c: the scheduler, the semaphores, the life of a carpincho, the deadlock detection
-- and the devices.
pub mod Estado
pub mod Colas
pub mod Semaforos
pub mod Carpinchos
pub mod Deadlock
pub mod Dispositivos
pub mod Planificacion
pub mod Reloj
pub mod Pruebas
