-- ===== src/Memoria/Agregado.antt =====
-- memoria/src/memory_utils.c: the pages that a process is given after its start.
use tp_sistemas_operativos.Base.{
  ℕ, zero, suc, ◌+◌, ◌/◌, ◌&&◌, List, [], ◌∷◌, ◌++◌, Option, none, some, ◌==◌, ltb, if◌then◌else◌,
  get_elem?, length, ◌>>=◌, ◌-◌,
}
use tp_sistemas_operativos.Memoria.Tlb.{uint32_max}
use tp_sistemas_operativos.Memoria.Estado.{
  busy, Pagina, Memoria, Swamp, indice_de, get_pages_by, con_tabla, con_pagina,
}
use tp_sistemas_operativos.Memoria.Marcos.{get_new_empty_frame}
use tp_sistemas_operativos.Memoria.Traduccion.{utilizar_algritmo_de_asignacion}

-- The loop of getLastPageDe: the greatest number so far, and the page that has it.
unfoldable pub mayor_pagina : ℕ → Option Pagina → List Pagina → Option Pagina
mayor_pagina mayor v [] = v
mayor_pagina mayor v (p ∷ ps) =
    let si = ltb mayor p.pagina && p.isfree == busy in
    mayor_pagina (if si then p.pagina else mayor) (if si then some p else v) ps

-- `none` inside is NULL, of a process with no page; with no page that is busy the pointer was
-- never set.
unfoldable pub get_last_page_de : List Pagina → Option (Option Pagina)
unfolding mayor_pagina
get_last_page_de [] = some none
get_last_page_de (p ∷ ps) = mayor_pagina 0 none (p ∷ ps) >>= λ x. some (some x)

-- The place of the page of a number, and else the last place.
unfoldable pub siguiente_o_ultima : ℕ → List Pagina → ℕ
unfolding indice_de
siguiente_o_ultima nro ps = elim (indice_de nro ps) [ some i ↦ i | none ↦ length ps - 1 ]

-- -1 in a field that is unsigned.
abbrev pub frame_de : Option ℕ → ℕ
frame_de none = uint32_max
frame_de (some f) = f

-- The page that is next: with one page it is that one, and with more the last busy one is asked,
-- a pointer that was never set if there is none.
unfoldable pub lugar_siguiente : List Pagina → Option ℕ
unfolding mayor_pagina siguiente_o_ultima
lugar_siguiente [] = none
lugar_siguiente (p ∷ []) = some 0
lugar_siguiente (p ∷ q ∷ ps) =
    mayor_pagina 0 none (p ∷ q ∷ ps) >>= λ u. some (siguiente_o_ultima (u.pagina + 1) (p ∷ q ∷ ps))

module _ {S : Type 0} where
  -- A page at the end of the table, busy and present, with the next stamp.
  unfoldable pub agregar_pagina : ℕ → ℕ → ℕ → ℕ → Memoria S → Memoria S
  unfolding con_tabla
  agregar_pagina pid nro frame modificado m =
      let p : Pagina = record {
        frame = frame;
        pagina = nro;
        isfree = busy;
        bit_presencia = 1;
        bit_uso = 1;
        bit_modificado = modificado;
        lru = suc m.lru_actual;
      } in
      record (con_tabla pid (λ t. record t { paginas = t.paginas ++ (p ∷ []) }) m) {
        lru_actual = suc m.lru_actual;
      }

  module _ (red : Swamp S) (vueltas : ℕ) where
    -- The frame of a new page, after the replacement if there was none.
    unfoldable pub frame_para_nueva : ℕ → Memoria S → Option (ℕ × Memoria S)
    unfolding get_new_empty_frame utilizar_algritmo_de_asignacion
    frame_para_nueva pid m = do
      nuevo ← get_new_empty_frame pid m
      elim nuevo [
        | some f ↦ some (f, m)
        | none ↦ do
          m1 ← utilizar_algritmo_de_asignacion red vueltas pid m
          otro ← get_new_empty_frame pid m1
          some (frame_de otro, m1)
      ]

    unfoldable pub agregar_una_dinamica : ℕ → Memoria S → Option (Memoria S)
    unfolding get_pages_by get_last_page_de frame_para_nueva agregar_pagina
    agregar_una_dinamica pid m = do
      tabla ← get_pages_by pid m
      ultima ← get_last_page_de tabla.paginas
      (frame, m1) ← frame_para_nueva pid m
      let nro : ℕ = elim ultima [ none ↦ 1 | some p ↦ p.pagina + 1 ] in
          some (agregar_pagina pid nro frame 0 m1)

    -- With a fixed assignment, the page after the last busy one is taken if there is a frame; else
    -- a new page is added, with a number after it.
    unfoldable pub agregar_una_fija : ℕ → Memoria S → Option (Memoria S)
    unfolding get_pages_by lugar_siguiente get_new_empty_frame utilizar_algritmo_de_asignacion
        agregar_pagina
    agregar_una_fija pid m = do
      tabla ← get_pages_by pid m
      i ← lugar_siguiente tabla.paginas
      siguiente ← get_elem? tabla.paginas i
      nuevo ← get_new_empty_frame pid m
      elim nuevo [
        | none ↦ do
          m1 ← utilizar_algritmo_de_asignacion red vueltas pid m
          otro ← get_new_empty_frame pid m1
          some (agregar_pagina pid (siguiente.pagina + 1) (frame_de otro) 1 m1)
        | some f ↦
            some
              (record (con_pagina pid i
                (record siguiente {
                  isfree = busy;
                  lru = suc m.lru_actual;
                  bit_uso = 1;
                  bit_modificado = 0;
                  bit_presencia = 1;
                })
                m) { lru_actual = suc m.lru_actual })
      ]

    unfoldable pub agregar_varias : ℕ → ℕ → Memoria S → Option (Memoria S)
    unfolding agregar_una_dinamica agregar_una_fija
    agregar_varias zero pid m = some m
    agregar_varias (suc k) pid m = do
      m1 ← if m.asignacion_dinamica then agregar_una_dinamica pid m else agregar_una_fija pid m
      agregar_varias k pid m1

    unfoldable pub agregar_xpaginas_para : ℕ → ℕ → Memoria S → Option (Memoria S)
    unfolding agregar_varias
    agregar_xpaginas_para pid espacio_restante m =
        agregar_varias (espacio_restante / m.tamanio_de_pagina + 1) pid m
