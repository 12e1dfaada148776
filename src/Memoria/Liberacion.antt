-- ===== src/Memoria/Liberacion.antt =====
-- memoria/src/memory_utils.c: memfree.
use tp_sistemas_operativos.Base.{
  ℕ, ◌+◌, ◌-◌, ◌*◌, ◌/◌, true, false, List, [], ◌∷◌, ◌++◌, Option, some, ◌==◌, leb, ◌>>=◌, drop,
  take,
}
use tp_sistemas_operativos.Swamp.Archivos.{memcpy_to, memcpy_from}
use tp_sistemas_operativos.Memoria.Estado.{free, Memoria, Swamp, get_pages_by}
use tp_sistemas_operativos.Memoria.Marcos.{mandar_pagina_a_gonza}
use tp_sistemas_operativos.Memoria.Traduccion.{get_frame_de_un}
use tp_sistemas_operativos.Memoria.Datos.{
  heap_metadata_size, set_pagina_as_modificado, editar_algo_en_memoria, read_from_memory,
}
use tp_sistemas_operativos.Memoria.Heap.{bytes_de}
use tp_sistemas_operativos.Memoria.Procesos.{delete_pagina}
use tp_sistemas_operativos.Memoria.Agregado.{get_last_page_de}
use tp_sistemas_operativos.Memoria.Asignacion.{entero_en, byte_en, con_last_heap}

-- The answer of memfree: 1, or MATE_FREE_FAULT.
pub data Liberacion : Type 0 where
  liberado : Liberacion
  mate_free_fault : Liberacion

module _ {S : Type 0} (red : Swamp S) (vueltas : ℕ) where
  -- A whole page goes to its frame, and from there to swamp.
  unfoldable pub guardar_entera : ℕ → ℕ → ℕ → List ℕ → Memoria S → Option (Memoria S)
  unfolding memcpy_to set_pagina_as_modificado mandar_pagina_a_gonza
  guardar_entera pid frame nro bytes m = do
    memoria ← memcpy_to m.memoria (frame * m.tamanio_de_pagina) bytes m.tamanio_de_pagina
    m1 ← set_pagina_as_modificado pid nro (record m { memoria = memoria })
    mandar_pagina_a_gonza red pid frame nro m1

  -- The allocation at an address is marked as free; the places of the one before and of the one
  -- after it are read. With its metadata in one page, the byte is written in the frame only.
  unfoldable pub liberar_actual : ℕ → ℕ → Memoria S → Option (ℕ × ℕ × Memoria S)
  unfolding get_frame_de_un memcpy_to memcpy_from entero_en guardar_entera
  liberar_actual pid dir m = do
    let t = m.tamanio_de_pagina
    let nro = dir / t + 1
    let off = dir - (nro - 1) * t
    (frame, m1) ← get_frame_de_un red vueltas pid nro m
    elim (nro == (dir + heap_metadata_size) / t + 1) [
      | true ↦ do
        memoria ← memcpy_to m1.memoria (frame * t + (off + 8)) (free ∷ []) 1
        next ← entero_en memoria (frame * t + (off + 4))
        prev ← entero_en memoria (frame * t + off)
        some (prev, next, record m1 { memoria = memoria })
      | false ↦ do
        primera ← memcpy_from m1.memoria (frame * t) t
        (final, m2) ← get_frame_de_un red vueltas pid (nro + 1) m1
        segunda ← memcpy_from m2.memoria (final * t) t
        prev ← entero_en (primera ++ segunda) off
        next ← entero_en (primera ++ segunda) (off + 4)
        paginas ← memcpy_to (primera ++ segunda) (off + 8) (free ∷ []) 1
        m3 ← guardar_entera pid frame nro (take t paginas) m2
        m4 ← guardar_entera pid final (nro + 1) (drop t paginas) m3
        some (prev, next, m4)
    ]

  -- The allocation before a freed one, where it is free too, goes up to the one after it. Else
  -- the page of the freed one is removed, where it is the last page and the one before ends in the
  -- page before it.
  unfoldable pub unir_anterior : ℕ → ℕ → ℕ → ℕ → Memoria S → Option (Memoria S)
  unfolding get_pages_by read_from_memory editar_algo_en_memoria get_last_page_de delete_pagina
      byte_en
  unir_anterior pid dir prev next m = do
    let t = m.tamanio_de_pagina
    let nro = dir / t + 1
    (leido, m1) ← read_from_memory red vueltas pid (prev + 8) 1 m
    estado ← byte_en leido 0
    elim (estado == free) [
      | true ↦ do
        m2 ← editar_algo_en_memoria red vueltas pid (prev + 4) 4 (bytes_de next) m1
        editar_algo_en_memoria red vueltas pid next 4 (bytes_de prev) m2
      | false ↦ elim ((prev + heap_metadata_size - 1) / t + 1 + 1 == nro) [
        | false ↦ some m1
        | true ↦ do
          tabla ← get_pages_by pid m1
          ultima ← get_last_page_de tabla.paginas
          p ← ultima
          elim (nro == p.pagina) [
            | true ↦ delete_pagina pid nro m1 >>= λ m2. some (con_last_heap pid prev m2)
            | false ↦ some m1
          ]
      ]
    ]

  unfoldable pub memfree : ℕ → ℕ → Memoria S → Option (Liberacion × Memoria S)
  unfolding get_pages_by liberar_actual unir_anterior
  memfree pid dir m = do
    tabla ← get_pages_by pid m
    elim (leb dir tabla.last_heap) [
      | false ↦ some (mate_free_fault, m)
      | true ↦ do
        (prev, next, m1) ← liberar_actual pid dir m
        m2 ← elim (dir == 0) [ true ↦ some m1 | false ↦ unir_anterior pid dir prev next m1 ]
        some (liberado, m2)
    ]
