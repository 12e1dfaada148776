-- ===== src/Memoria/Traduccion.antt =====
-- memoria/src/memory_utils.c: from a page of a process to its frame, with the TLB and the page
-- faults.
pub mod Fallo
pub mod Residente
pub mod Presente
use tp_sistemas_operativos.Base.{
  ℕ, suc, ◌-◌, ◌*◌, Bool, true, false, Option, none, some, ◌==◌, if◌then◌else◌, get_elem?, ◌>>=◌,
}
use tp_sistemas_operativos.Swamp.Archivos.{memcpy_to}
use tp_sistemas_operativos.Memoria.Tlb.{Tlb, add_entrada_tlb, fetch_entrada_tlb}
use tp_sistemas_operativos.Memoria.Estado.{
  Pagina, Memoria, Swamp, get_pages_by, con_pagina, get_page_de,
}
use tp_sistemas_operativos.Memoria.Marcos.{get_new_empty_frame, seleccion_lru}
use tp_sistemas_operativos.Memoria.Clock.{seleccion_clock_mejorado}

-- The TLB is asked only if it has places, and so it is given an entry.
unfoldable pub consultar_tlb : ℕ → ℕ → Tlb → Option ℕ × Tlb
unfolding fetch_entrada_tlb
consultar_tlb pid nro t = if t.max_entradas_tlb == 0 then (none, t) else fetch_entrada_tlb pid nro t

unfoldable pub agregar_a_tlb : ℕ → ℕ → ℕ → Tlb → Tlb
unfolding add_entrada_tlb
agregar_a_tlb pid nro frame t =
    if t.max_entradas_tlb == 0 then t else add_entrada_tlb pid nro frame t

module _ {S : Type 0} where
  -- The place of the page and the page: from the TLB the one at the place nro - 1, with no look at
  -- its number, and else the one of the number.
  unfoldable pub buscar_pagina : Bool → ℕ → ℕ → Memoria S → Option (ℕ × Pagina)
  unfolding get_pages_by get_page_de
  buscar_pagina true pid nro m = do
    tabla ← get_pages_by pid m
    p ← get_elem? tabla.paginas (nro - 1)
    some (nro - 1, p)
  buscar_pagina false pid nro m = get_page_de pid nro m

  -- The page is used: its bit and the stamp of the LRU.
  unfoldable pub usar : ℕ → ℕ → Pagina → Memoria S → Memoria S
  usar pid i p m = record (con_pagina pid i (record p { bit_uso = 1; lru = suc m.lru_actual }) m) {
    lru_actual = suc m.lru_actual;
  }

  -- The page of the place `i` takes a frame that is free, and swamp gives its bytes. The page is
  -- read again, since the algorithm may have written it. A frame -1 is a write before the memory,
  -- `none`.
  unfoldable pub llenar_pagina : Swamp S → ℕ → ℕ → ℕ → Memoria S → Option (Pagina × Memoria S)
  unfolding get_new_empty_frame get_pages_by memcpy_to
  llenar_pagina red pid nro i m = do
    nuevo ← get_new_empty_frame pid m
    frame ← nuevo
    tabla ← get_pages_by pid m
    p ← get_elem? tabla.paginas i
    bytes ← red.obtener pid nro m.swamp
    memoria ← memcpy_to m.memoria (m.tamanio_de_pagina * frame) bytes m.tamanio_de_pagina
    let p' = record p { frame = frame; bit_modificado = 0; bit_presencia = 1 } in
        some (p', con_pagina pid i p' (record m { memoria = memoria }))

  -- `vueltas` bounds the jumps of the clock.
  module _ (red : Swamp S) (vueltas : ℕ) where
    unfoldable pub utilizar_algritmo_de_asignacion : ℕ → Memoria S → Option (Memoria S)
    unfolding seleccion_lru seleccion_clock_mejorado
    utilizar_algritmo_de_asignacion pid m =
        if m.reemplazo_lru
        then seleccion_lru red pid m
        else seleccion_clock_mejorado red vueltas pid m

    -- A page fault: a frame is made free, and the page is brought to it.
    unfoldable pub traer_pagina : ℕ → ℕ → ℕ → Memoria S → Option (Pagina × Memoria S)
    unfolding utilizar_algritmo_de_asignacion llenar_pagina
    traer_pagina pid nro i m = do
      m1 ← utilizar_algritmo_de_asignacion pid m
      llenar_pagina red pid nro i m1

    -- What follows when the page was not found present in the TLB. A page of another number is
    -- the answer -1, that the callers use as a frame: `none`.
    unfoldable pub cargar_pagina : ℕ → ℕ → ℕ → Pagina → Memoria S → Option (ℕ × Memoria S)
    unfolding traer_pagina usar agregar_a_tlb
    cargar_pagina pid nro i p m =
        if p.pagina == nro
        then (do
          (p1, m1) ← if p.bit_presencia == 0 then traer_pagina pid nro i m else some (p, m)
          some (
            p1.frame,
            record (usar pid i p1 m1) { tlb = agregar_a_tlb pid p1.pagina p1.frame m1.tlb },
          ))
        else none

    -- The frame of the TLB is given back if the page is present, and else the one of the page.
    unfoldable pub get_frame_de_un : ℕ → ℕ → Memoria S → Option (ℕ × Memoria S)
    unfolding consultar_tlb buscar_pagina usar cargar_pagina
    get_frame_de_un pid nro m =
        let m1 : Memoria S = record m { tlb = (consultar_tlb pid nro m.tlb).1 } in
        elim ((consultar_tlb pid nro m.tlb).0) [
          | some frame ↦ do
            (i, p) ← buscar_pagina true pid nro m1
            if p.bit_presencia == 1
                then some (frame, usar pid i p m1)
                else cargar_pagina pid nro i p m1
          | none ↦ do (i, p) ← buscar_pagina false pid nro m1; cargar_pagina pid nro i p m1
        ]
