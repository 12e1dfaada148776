-- ===== src/Memoria/Intermedia.antt =====
-- memoria/src/memory_utils.c: memalloc, with the branch that takes a free allocation between others.
use tp_sistemas_operativos.Base.{
  ℕ, zero, suc, ◌+◌, ◌-◌, ◌*◌, ◌/◌, true, false, List, [], ◌∷◌, ◌++◌, Option, none, some, ltb,
  ◌>>=◌, drop, length,
}
use tp_sistemas_operativos.Swamp.Archivos.{memcpy_to, memcpy_from}
use tp_sistemas_operativos.Memoria.Estado.{free, busy, Memoria, Swamp}
use tp_sistemas_operativos.Memoria.Marcos.{mandar_pagina_a_gonza}
use tp_sistemas_operativos.Memoria.Traduccion.{get_frame_de_un}
use tp_sistemas_operativos.Memoria.Datos.{heap_metadata_size, set_pagina_as_modificado}
use tp_sistemas_operativos.Memoria.Heap.{bytes_de}
use tp_sistemas_operativos.Memoria.Asignacion.{
  entero_en, pagina_entera, entra_en_el_espacio_libre, alloc_al_final,
}

module _ {S : Type 0} (red : Swamp S) (vueltas : ℕ) where
  -- `k` pages from `nro` on, one after the other.
  unfoldable pub copiar_paginas : ℕ → ℕ → ℕ → Memoria S → Option (List ℕ × Memoria S)
  unfolding pagina_entera
  copiar_paginas pid nro zero m = some ([], m)
  copiar_paginas pid nro (suc k) m = do
    (bytes, m1) ← pagina_entera red vueltas pid nro m
    (otros, m2) ← copiar_paginas pid (suc nro) k m1
    some (bytes ++ otros, m2)

  -- The way back: `k` pages of the buffer, from `off` on, go to the frames of the pages from `nro`
  -- on and to swamp, and each page is modified after that.
  unfoldable pub devolver_paginas : ℕ → ℕ → ℕ → List ℕ → ℕ → Memoria S → Option (Memoria S)
  unfolding get_frame_de_un memcpy_from memcpy_to mandar_pagina_a_gonza set_pagina_as_modificado
  devolver_paginas pid nro zero buffer off m = some m
  devolver_paginas pid nro (suc k) buffer off m = do
    let t = m.tamanio_de_pagina
    (frame, m1) ← get_frame_de_un red vueltas pid nro m
    bytes ← memcpy_from buffer off t
    memoria ← memcpy_to m1.memoria (frame * t) bytes t
    m2 ← mandar_pagina_a_gonza red pid frame nro (record m1 { memoria = memoria })
    m3 ← set_pagina_as_modificado pid nro m2
    devolver_paginas pid (suc nro) k buffer (off + t) m3

  -- The metadata of the rest of a free allocation, in the buffer, for an allocation at `entra`
  -- whose next field stands at `off` of the buffer and whose pages start `base` bytes before the
  -- buffer: the fields of the rest are written from `off` and not from the start of the metadata.
  unfoldable pub partir : ℕ → ℕ → ℕ → ℕ → ℕ → List ℕ → Option (List ℕ)
  unfolding memcpy_to bytes_de
  partir base off pedido entra next buffer = do
    let ubicacion = entra + heap_metadata_size + pedido
    let nuevo = off + (heap_metadata_size + pedido)
    b1 ← memcpy_to buffer off (bytes_de ubicacion) 4
    b2 ← memcpy_to b1 nuevo (bytes_de entra) 4
    b3 ← memcpy_to b2 (nuevo + 4) (bytes_de next) 4
    b4 ← memcpy_to b3 (nuevo + 8) (free ∷ []) 1
    memcpy_to b4 (next - base) (bytes_de ubicacion) 4

  -- The free allocation at `entra` is taken, and what is left of it, where it has place for more
  -- than metadata, becomes a free one. `basura` is what malloc gives as a buffer of three pages.
  unfoldable pub alloc_intermedio : List ℕ → ℕ → ℕ → ℕ → Memoria S → Option (Memoria S)
  unfolding get_frame_de_un memcpy_to mandar_pagina_a_gonza set_pagina_as_modificado copiar_paginas
      devolver_paginas partir entero_en
  alloc_intermedio basura pid pedido entra m = do
    let t = m.tamanio_de_pagina
    let libre = entra + heap_metadata_size - 1
    let final = libre / t + 1
    let inicial = entra / t + 1
    let base = (inicial - 1) * t
    let off = entra - base + 4
    (frame, m1) ← get_frame_de_un red vueltas pid final m
    memoria ← memcpy_to m1.memoria (frame * t + (libre - (final - 1) * t)) (busy ∷ []) 1
    m2 ← set_pagina_as_modificado pid final (record m1 { memoria = memoria })
    (paginas, m3) ← copiar_paginas pid inicial (final + 1 - inicial) m2
    let buffer = paginas ++ drop (length paginas) basura
    next ← entero_en buffer off
    elim (ltb (entra + heap_metadata_size + (pedido + heap_metadata_size)) next) [
      | true ↦ do
        nuevo ← partir base off pedido entra next buffer
        devolver_paginas pid inicial (next / t + 2 - inicial) nuevo 0 m3
      | false ↦ mandar_pagina_a_gonza red pid frame final m3
    ]

  -- `n` bounds the allocations that the search reads.
  unfoldable pub memalloc : ℕ → List ℕ → ℕ → ℕ → Memoria S → Option (ℕ × Memoria S)
  unfolding entra_en_el_espacio_libre alloc_al_final alloc_intermedio
  memalloc n basura pid pedido m = do
    (entra, m1) ← entra_en_el_espacio_libre red vueltas n pedido pid m
    elim entra [
      | none ↦ alloc_al_final red vueltas pid pedido m1
      | some e ↦ alloc_intermedio basura pid pedido e m1 >>= λ m2. some (e, m2)
    ]
