-- ===== src/Memoria/Asignacion.antt =====
-- memoria/src/memory_utils.c: entraEnElEspacioLibre, which looks for a free allocation in the
-- metadata that the allocations of a process have before them, and the branch of memalloc for a
-- new allocation at the end. A difference of addresses that may be negative is compared with both
-- sides moved.
pub mod AlFinal
use tp_sistemas_operativos.Base.{
  ℕ, zero, suc, ◌+◌, ◌-◌, ◌*◌, ◌/◌, Bool, true, false, ◌&&◌, ◌||◌, List, [], ◌∷◌, ◌++◌, Option,
  none, some, ◌==◌, ltb, leb, if◌then◌else◌, ◌>>=◌,
}
use tp_sistemas_operativos.Swamp.Archivos.{memcpy_from}
use tp_sistemas_operativos.Memoria.Estado.{
  free, busy, Pagina, Tabla, Memoria, Swamp, get_pages_by, con_tabla,
}
use tp_sistemas_operativos.Memoria.Traduccion.{get_frame_de_un}
use tp_sistemas_operativos.Memoria.Datos.{heap_metadata_size, editar_algo_en_memoria}
use tp_sistemas_operativos.Memoria.Heap.{bytes_de, de_bytes}
use tp_sistemas_operativos.Memoria.Procesos.{delete_pagina}
use tp_sistemas_operativos.Memoria.Agregado.{agregar_xpaginas_para}

-- The greatest number of a busy page.
unfoldable pub mayor_nro_de_pagina : ℕ → List Pagina → ℕ
mayor_nro_de_pagina mayor [] = mayor
mayor_nro_de_pagina mayor (p ∷ ps) =
    mayor_nro_de_pagina (if ltb mayor p.pagina && p.isfree == busy then p.pagina else mayor) ps

-- The field of 32 bits, and the byte, at an offset of a buffer.
unfoldable pub entero_en : List ℕ → ℕ → Option ℕ
unfolding memcpy_from de_bytes
entero_en buffer off = memcpy_from buffer off 4 >>= λ bs. some (de_bytes bs)

unfoldable pub byte_en : List ℕ → ℕ → Option ℕ
unfolding memcpy_from de_bytes
byte_en buffer off = memcpy_from buffer off 1 >>= λ bs. some (de_bytes bs)

module _ {S : Type 0} where
  abbrev pub con_last_heap : ℕ → ℕ → Memoria S → Memoria S
  con_last_heap pid dir = con_tabla pid (λ t. record t { last_heap = dir })

  -- The pages from `nro` on, with an end: each one is removed.
  unfoldable pub degenerar : ℕ → ℕ → ℕ → Memoria S → Option (Memoria S)
  unfolding delete_pagina
  degenerar pid nro zero m = some m
  degenerar pid nro (suc k) m = delete_pagina pid nro m >>= degenerar pid (suc nro) k

  module _ (red : Swamp S) (vueltas : ℕ) where
    -- A whole page.
    unfoldable pub pagina_entera : ℕ → ℕ → Memoria S → Option (List ℕ × Memoria S)
    unfolding get_frame_de_un memcpy_from
    pagina_entera pid nro m = do
      (frame, m1) ← get_frame_de_un red vueltas pid nro m
      bytes ← memcpy_from m1.memoria (frame * m1.tamanio_de_pagina) m1.tamanio_de_pagina
      some (bytes, m1)

    -- The pages after the first one are copied to the same place of the buffer, so the last one
    -- is left.
    unfoldable pub ultima_pagina : ℕ → ℕ → ℕ → List ℕ → Memoria S → Option (List ℕ × Memoria S)
    unfolding pagina_entera
    ultima_pagina pid nro zero bytes m = some (bytes, m)
    ultima_pagina pid nro (suc k) bytes m = do
      (otros, m1) ← pagina_entera pid nro m
      ultima_pagina pid (suc nro) k otros m1

    -- The inner loop of entraEnElEspacioLibre, from the allocation at `actual` on; `none` inside is
    -- -1. The fuel bounds the allocations, which may form a cycle.
    unfoldable pub buscar_libre : ℕ → ℕ → ℕ → ℕ → ℕ → Memoria S → Option (Option ℕ × Memoria S)
    unfolding pagina_entera ultima_pagina entero_en byte_en
    buscar_libre zero pid espacio final actual m = none
    buscar_libre (suc n) pid espacio final actual m =
        let t = m.tamanio_de_pagina in
        let nro = actual / t + 1 in
        let fin = (actual + heap_metadata_size - 1) / t + 1 in
        let off = actual - (nro - 1) * t in
        elim (ltb actual final) [
          | false ↦ some (none, m)
          | true ↦ do
            (primera, m1) ← pagina_entera pid nro m
            (resto, m2) ← ultima_pagina pid (nro + 1) (fin - nro) [] m1
            next ← entero_en (primera ++ resto) (off + 4)
            isfree ← byte_en (primera ++ resto) (off + 8)
            elim (isfree == free && leb (actual + heap_metadata_size + espacio) next) [
              | true ↦ some (some actual, m2)
              | false ↦ buscar_libre n pid espacio final next m2
            ]
        ]

    -- The first allocation is looked at by itself, and then all of them.
    unfoldable pub entra_en_el_espacio_libre : ℕ → ℕ → ℕ → Memoria S → Option (Option ℕ × Memoria S)
    unfolding get_pages_by get_frame_de_un entero_en byte_en buscar_libre
    entra_en_el_espacio_libre n espacio pid m = do
      tabla ← get_pages_by pid m
      elim (ltb 0 tabla.last_heap) [
        | false ↦ some (none, m)
        | true ↦ do
          (frame, m1) ← get_frame_de_un red vueltas pid 1 m
          next ← entero_en m1.memoria (frame * m1.tamanio_de_pagina + 4)
          isfree ← byte_en m1.memoria (frame * m1.tamanio_de_pagina + 8)
          elim (ltb next (espacio + heap_metadata_size) || isfree == busy) [
            | true ↦ buscar_libre n pid espacio tabla.last_heap 0 m1
            | false ↦ some (some 0, m1)
          ]
      ]

    -- The new last allocation: the one before it points to it, and is busy; its own metadata is
    -- written, busy too.
    unfoldable pub escribir_ultimo : ℕ → ℕ → ℕ → Memoria S → Option (Memoria S)
    unfolding editar_algo_en_memoria bytes_de
    escribir_ultimo pid last ubicacion m = do
      m1 ← editar_algo_en_memoria red vueltas pid (last + 4) 5 (bytes_de ubicacion ++ (busy ∷ [])) m
      editar_algo_en_memoria red vueltas pid ubicacion heap_metadata_size
          (bytes_de last ++ (bytes_de 0 ++ (busy ∷ []))) m1

    -- A new allocation at the end, in the pages that there are when they have place, or with more
    -- of them. Where swamp had no place for one the pages are removed, and the address is the
    -- answer all the same.
    unfoldable pub alloc_segun_lugar : Bool → ℕ → Tabla → ℕ → Memoria S → Option (ℕ × Memoria S)
    unfolding mayor_nro_de_pagina escribir_ultimo agregar_xpaginas_para degenerar
    alloc_segun_lugar true pid tabla espacio m = do
      let last = tabla.last_heap
      let ubicacion = last + espacio
      m1 ← escribir_ultimo pid last ubicacion m
      some (last, con_last_heap pid ubicacion m1)
    alloc_segun_lugar false pid tabla espacio m = do
      let t = m.tamanio_de_pagina
      let last = tabla.last_heap
      let mayor = mayor_nro_de_pagina 0 tabla.paginas
      let ubicacion = last + espacio
      m1 ←
          agregar_xpaginas_para red vueltas pid (espacio + last + heap_metadata_size - mayor * t)
            (record m { hay_que_degenerar = false })
      m2 ← escribir_ultimo pid last ubicacion m1
      m3 ← elim m2.hay_que_degenerar [
        | true ↦ degenerar pid (mayor + 1) ((heap_metadata_size + ubicacion) / t + 1 - mayor) m2
        | false ↦ some m2
      ]
      some (last, con_last_heap pid ubicacion m3)

    unfoldable pub alloc_al_final : ℕ → ℕ → Memoria S → Option (ℕ × Memoria S)
    unfolding get_pages_by mayor_nro_de_pagina alloc_segun_lugar
    alloc_al_final pid pedido m = do
      tabla ← get_pages_by pid m
      let espacio = pedido + heap_metadata_size
      let mayor = mayor_nro_de_pagina 0 tabla.paginas
      alloc_segun_lugar
          (leb (tabla.last_heap + heap_metadata_size + espacio) (mayor * m.tamanio_de_pagina)) pid
          tabla espacio m
