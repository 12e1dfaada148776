-- ===== src/Memoria/Marcos.antt =====
-- memoria/src/memory_utils.c: which frames are taken, the frame for a new page, and the
-- replacement by LRU.
pub mod Victima
pub mod Libre
use tp_sistemas_operativos.Base.{
  ℕ, zero, suc, ◌+◌, ◌*◌, Bool, true, false, ◌&&◌, List, [], ◌∷◌, Option, none, some, ◌==◌, ltb,
  leb, if◌then◌else◌, replicate, list_find, list_any_satisfy, ◌>>=◌,
}
use tp_sistemas_operativos.Swamp.Archivos.{memcpy_to, memcpy_from}
use tp_sistemas_operativos.Memoria.Tlb.{delete_entrada_tlb}
use tp_sistemas_operativos.Memoria.Estado.{
  free, busy, Pagina, Tabla, Memoria, Swamp, de_proceso, paginas_de, frames_totales, get_pages_by,
}

-- `for`, `while` over frames: the first of `n` frames from `i` on that passes.
unfoldable pub primer_frame : (ℕ → Bool) → ℕ → ℕ → Option ℕ
primer_frame p zero i = none
primer_frame p (suc n) i = let resto = primer_frame p n (suc i) in if p i then some i else resto

abbrev pub cuenta_si : (Pagina → Bool) → List Pagina → ℕ
cuenta_si p [] = 0
cuenta_si p (x ∷ xs) = (if p x then 1 else 0) + cuenta_si p xs

-- A page that loses its frame gets a number past every frame.
abbrev pub sin_frame : ℕ → Pagina → Pagina
sin_frame total p = record p { frame = total + 1; bit_presencia = 0; bit_modificado = 0 }

unfoldable pub sacar_frame : ℕ → ℕ → List Pagina → List Pagina
sacar_frame total nro [] = []
sacar_frame total nro (p ∷ ps) =
    (if p.frame == nro then sin_frame total p else p) ∷ sacar_frame total nro ps

unfoldable pub sacar_de_todas : ℕ → ℕ → List Tabla → List Tabla
unfolding sacar_frame
sacar_de_todas total nro [] = []
sacar_de_todas total nro (t ∷ ts) =
    record t { paginas = sacar_frame total nro t.paginas } ∷ sacar_de_todas total nro ts

-- The loop of seleccionLRU: the least lRU so far, and the page that has it.
unfoldable pub victima_lru : ℕ → Option (ℕ × Pagina) → List (ℕ × Pagina) → Option (ℕ × Pagina)
victima_lru lru_menor v [] = v
victima_lru lru_menor v ((pid, p) ∷ q) =
    let si = ltb p.lru lru_menor && p.bit_presencia == 1 in
    victima_lru (if si then p.lru else lru_menor) (if si then some (pid, p) else v) q

unfoldable pub cantidad_de_frames_en_memoria_por : Tabla → ℕ
cantidad_de_frames_en_memoria_por t =
    cuenta_si (λ p. if p.bit_presencia == 0 then false else true) t.paginas

module _ {S : Type 0} where
  -- Both kinds of assignment give the `isfree` of the first page that has the frame, since the
  -- process of that page is always found.
  unfoldable pub esta_ocupado_un : ℕ → Memoria S → ℕ
  unfolding list_find
  esta_ocupado_un frame m =
      elim (list_find (λ (x : ℕ × Pagina). x.1.frame == frame) (paginas_de m.todas_las_tablas)) [
        | none ↦ free
        | some (pid, p) ↦ p.isfree
      ]

  unfoldable pub get_process_id_by : ℕ → Memoria S → Option ℕ
  unfolding list_find
  get_process_id_by frame m =
      elim (list_find (λ (x : ℕ × Pagina). x.1.frame == frame) (paginas_de m.todas_las_tablas)) [
        | none ↦ none
        | some (pid, p) ↦ some pid
      ]

  unfoldable pub frame_asignado : ℕ → Memoria S → Bool
  unfolding list_any_satisfy
  frame_asignado frame m =
      list_any_satisfy (λ (x : ℕ × Pagina). x.1.frame == frame) (paginas_de m.todas_las_tablas)

  -- The frames from 0 to the number of frames are tried, that one included; if all are assigned
  -- the answer is the next number.
  unfoldable pub getframe_no_asignado_en_memoria : Memoria S → ℕ
  unfolding primer_frame frame_asignado
  getframe_no_asignado_en_memoria m =
      elim (primer_frame (λ f. if frame_asignado f m then false else true) (suc (frames_totales m))
        0) [ none ↦ suc (frames_totales m) | some f ↦ f ]

  unfoldable pub all_frames_used_for_asignacion_fija_para : Tabla → Memoria S → Bool
  all_frames_used_for_asignacion_fija_para t m =
      leb m.cantidad_de_paginas_por_proceso (cuenta_si (λ p. p.isfree == busy) t.paginas)

  abbrev pub primer_vacio : Memoria S → Option ℕ
  primer_vacio m =
      primer_frame (λ f. if esta_ocupado_un f m == busy then false else true) (frames_totales m) 0

  -- `none` inside is -1.
  unfoldable pub get_new_empty_frame : ℕ → Memoria S → Option (Option ℕ)
  unfolding primer_frame esta_ocupado_un all_frames_used_for_asignacion_fija_para
      cantidad_de_frames_en_memoria_por list_find get_pages_by
  get_new_empty_frame pid m =
      if m.asignacion_dinamica
      then some (primer_vacio m)
      else get_pages_by pid m >>= λ t.
          if all_frames_used_for_asignacion_fija_para t m
          then some (
              if cantidad_de_frames_en_memoria_por t == m.cantidad_de_paginas_por_proceso
              then none
              else primer_vacio m)
          else some (elim (list_find (λ p. p.isfree == free && p.bit_presencia == 1) t.paginas) [
            | none ↦ none
            | some p ↦ some p.frame
          ])

  -- Every page that has the frame loses it, and the frame is filled with zeros if there was one.
  unfoldable pub liberar_frame : ℕ → Memoria S → Option (Memoria S)
  unfolding sacar_de_todas frame_asignado memcpy_to
  liberar_frame nro m =
      let m' = record m {
        todas_las_tablas = sacar_de_todas (frames_totales m) nro m.todas_las_tablas;
      } in
      if frame_asignado nro m
      then (do
        memoria ←
            memcpy_to m.memoria (m.tamanio_de_pagina * nro) (replicate m.tamanio_de_pagina 0)
              m.tamanio_de_pagina
        some (record m' { memoria = memoria }))
      else some m'

  -- The pages that seleccionLRU looks at: of all processes or of the process.
  unfoldable pub candidatas : ℕ → Memoria S → Option (List (ℕ × Pagina))
  unfolding get_pages_by
  candidatas pid m =
      if m.asignacion_dinamica
      then some (paginas_de m.todas_las_tablas)
      else get_pages_by pid m >>= λ t. some (de_proceso pid t.paginas)

  module _ (red : Swamp S) where
    -- The frame is sent to swamp as a page of a process; swamp answers 0 when it has no place.
    unfoldable pub mandar_pagina_a_gonza : ℕ → ℕ → ℕ → Memoria S → Option (Memoria S)
    unfolding memcpy_from
    mandar_pagina_a_gonza pid frame nro m = do
      contenido ← memcpy_from m.memoria (m.tamanio_de_pagina * frame) m.tamanio_de_pagina
      (s, respuesta) ← red.guardar pid nro contenido m.swamp
      some (record m {
        swamp = s;
        hay_que_degenerar = if respuesta == 0 then true else m.hay_que_degenerar;
      })

    -- What the algorithms do with their victim: the frame goes to swamp, the entry of the TLB is
    -- removed, and the frame is free.
    unfoldable pub desalojar : ℕ → ℕ → Pagina → Memoria S → Option (Memoria S)
    unfolding mandar_pagina_a_gonza delete_entrada_tlb liberar_frame
    desalojar pid_tlb duenio p m = do
      m1 ← mandar_pagina_a_gonza duenio p.frame p.pagina m
      liberar_frame p.frame (record m1 { tlb = delete_entrada_tlb pid_tlb p.pagina p.frame m1.tlb })

    -- The page with the least lRU of the present ones. The entry of the TLB that is removed has the
    -- process that asks, whoever the page belongs to. With no page the code goes on with values
    -- that were never set.
    unfoldable pub seleccion_lru : ℕ → Memoria S → Option (Memoria S)
    unfolding victima_lru candidatas desalojar
    seleccion_lru pid m = do
      pags ← candidatas pid m
      (duenio, p) ← victima_lru 99999 none pags
      desalojar pid duenio p m
