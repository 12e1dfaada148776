-- ===== src/Lib.antt =====
-- A model of three modules of CarpinchOS: the kernel (kernel/src/main.c), which schedules processes
-- called carpinchos, memoria (memoria/src/memory_utils.c), which keeps their pages in frames, and
-- swamp (swamp/src/swap.c), which keeps the pages that are out of the memory.
--
-- Swamp. Swamp/Tabla.antt has the searches in a table of pages, a list of rows of process and page
-- (get_frame_number, get_first_free_frame_number, pagina_esta_en_swap, tabla_paginas_size,
-- frames_ocupados). Swamp/Archivos.antt has the state: the files, each one a table and its bytes,
-- the dictionary from processes to files, and the choice of a file (swap_file_menos_ocupado).
-- Swamp/Guardar.antt has the operations: guardar_pagina with both kinds of assignment,
-- obtener_pagina and finalizar_proceso. A pointer to a table is the index of its file, since the
-- list of files does not change after the start, and the names of the files are distinct. mmap,
-- memcpy and munmap are reads and writes of a list of bytes; `none` is an access outside of it.
--
-- Memoria. Memoria/Estado.antt has the pages, the tables and the globals of
-- memoria/include/memory_utils.h, and the record `Swamp` of what memoria asks of swamp: to save a
-- page, to give one back and to forget a process. Memoria/Tlb.antt has the TLB (add_entrada_tlb,
-- delete_entrada_tlb, fetch_entrada_tlb, the metrics). Memoria/Marcos.antt has the searches of
-- frames, liberarFrame and seleccionLRU; Memoria/Clock.antt has seleccionClockMejorado;
-- Memoria/Traduccion.antt has getFrameDeUn; Memoria/Datos.antt has memread, memwrite and the reads
-- and writes page by page; Memoria/Heap.antt has the metadata of allocations; Memoria/Procesos.antt
-- has inicializarUnProceso, deletePagina, suspend_process and delete_process; Memoria/Agregado.antt
-- has agregarXPaginasPara; Memoria/Asignacion.antt has entraEnElEspacioLibre,
-- Memoria/Intermedia.antt memalloc (the buffer that its malloc gives is the parameter `basura`),
-- and Memoria/Liberacion.antt memfree. Memoria/ConSwamp.antt fills `Swamp` with the operations of
-- Swamp/Guardar.antt, as swamp/src/consola.c answers the messages. What the theorems of memoria ask
-- of swamp is the record of Memoria/Contrato.antt, on the pages that swamp has;
-- Memoria/ConSwamp/Cumple.antt shows that this swamp keeps it for the pages that have a row. A
-- pointer to a page is the place of it in its table. `none` is an access outside of the memory or
-- of a list, a NULL pointer that is followed, a value that was never set, or no answer of swamp;
-- the frame -1, which the code would multiply into an address before the memory, is `none` too.
-- What malloc leaves in memory that the code does not set is a parameter, `basura`. Stamps and
-- counters are unbounded numbers.
--
-- Kernel. Kernel/Estado.antt has the structures of kernel/include/main.h and the lookups.
-- Kernel/Colas.antt has the moves between the queues of states and one round of each scheduler
-- thread (entrantes_a_ready, ready_a_exec, suspender) and of the thread of a CPU (ejecuta).
-- Kernel/Planificacion.antt has ready_a_exec_SJF and ready_a_exec_HRRN, which ready_a_exec takes as
-- a parameter with the record `Elige` of Kernel/Colas/Evolucion.antt as its contract.
-- Kernel/Semaforos.antt has mate_sem_init, mate_sem_wait, mate_sem_post and mate_sem_destroy;
-- Kernel/Carpinchos.antt has mate_init and mate_close; Kernel/Deadlock.antt has one round of
-- detectate_deadlock; Kernel/Dispositivos.antt has mate_call_io, cut at its waits.
-- Kernel/Reloj.antt is about calcular_milisegundos.
--
-- A carpincho is its id in the queues, and its structure stands in lista_carpinchos. A `sem_t` is
-- a number; a `sem_wait` at 0 is the result `espera`, and the state from which it waits is that
-- before the round. A NULL pointer that is followed, or a value that was never set, is the result
-- `falla`. What the kernel sends is the list `enviados`. A `float` is a type with the operations
-- that the code uses on it, but for rafaga_anterior, a difference of two small `int`s. Counters
-- and ids are unbounded numbers; the values of semaphores are integers.
--
-- Each endless loop of a thread is one round, so the steps of different threads interleave by
-- rounds. Every other loop is recursion on a list or a number, but for two of memoria: the loops of
-- seleccionClockMejorado, which have fuel for two steps more than there are frames, enough for each
-- of them, and fuel `vueltas` for the jumps to LOOP, which the code does not bound; and the walks
-- of get_page_by_dir_logica and entraEnElEspacioLibre, with fuel for the allocations that they
-- read, which may form a cycle.
--
-- Not modelled: the client library mate-lib, sockets and serialization of shared, the dispatch of
-- messages, start-up and configuration, the rest of the console of swamp, mutexes, logs, sleeps and
-- the freeing of memory with free. string_equals_ignore_case belongs to a
-- library and is a parameter of the semaphores and the devices.
--
-- Base has numbers, Boolean tests, lists and integers; Swamp/Pruebas.antt, Kernel/Pruebas.antt and
-- Memoria/Pruebas.antt apply the theorems on small states.
pub mod Base
pub mod Kernel
pub mod Memoria
pub mod Swamp
