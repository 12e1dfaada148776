-- ===== src/Memoria/Datos.antt =====
-- memoria/src/memory_utils.c: the reads and writes of a process, over the pages that they touch.
pub mod UnaPagina
pub mod VariasPaginas
pub mod Tramos
pub mod IdaYVuelta
use tp_sistemas_operativos.Base.{
  ℕ, zero, suc, ◌+◌, ◌-◌, ◌*◌, ◌/◌, List, [], ◌++◌, Option, some, ◌==◌, ltb, leb, if◌then◌else◌,
  drop, ◌>>=◌,
}
use tp_sistemas_operativos.Swamp.Archivos.{memcpy_to, memcpy_from}
use tp_sistemas_operativos.Memoria.Estado.{Memoria, Swamp, get_pages_by, con_pagina, get_page_de}
use tp_sistemas_operativos.Memoria.Marcos.{mandar_pagina_a_gonza}
use tp_sistemas_operativos.Memoria.Traduccion.{get_frame_de_un}

-- `HEAP_METADATA_SIZE`
abbrev pub heap_metadata_size : ℕ
heap_metadata_size = 9

-- `int` is negative where the codes are: the answers of memwrite.
pub data Respuesta : Type 0 where
  escrito : Respuesta
  mate_write_fault : Respuesta

-- The answer of memread: the bytes, or MATE_READ_FAULT.
pub data Lectura : Type 0 where
  leido : List ℕ → Lectura
  mate_read_fault : Lectura

-- Where a stretch of bytes lies: its first and its last page, from 1 on, the place in the first
-- one, and how much of it is in the last one. Reads and writes compute the same.
pub record Tramo : Type 0 where
  pub pagi_inicio : ℕ
  pub pagi_fin : ℕ
  pub pos_inicio : ℕ
  pub tamanio_pag_final : ℕ

abbrev pub tramo_de : ℕ → ℕ → ℕ → Tramo
tramo_de t inicio tamanio =
    let pagi_inicio = inicio / t + 1 in
    let pagi_fin = (inicio + tamanio - 1) / t + 1 in
    record {
      pagi_inicio = pagi_inicio;
      pagi_fin = pagi_fin;
      pos_inicio = inicio - (pagi_inicio - 1) * t;
      tamanio_pag_final = inicio + tamanio - (pagi_fin - 1) * t;
    }

module _ {S : Type 0} where
  unfoldable pub set_pagina_as_modificado : ℕ → ℕ → Memoria S → Option (Memoria S)
  unfolding get_page_de
  set_pagina_as_modificado pid nro m = do
    (i, p) ← get_page_de pid nro m
    some (con_pagina pid i (record p { bit_modificado = 1 }) m)

  module _ (red : Swamp S) (vueltas : ℕ) where
    -- The part of a write in one page, from `pos` in it: the bytes go to its frame, and the page
    -- to swamp.
    unfoldable pub editar_pagina : ℕ → ℕ → ℕ → List ℕ → ℕ → Memoria S → Option (Memoria S)
    unfolding get_frame_de_un memcpy_to set_pagina_as_modificado mandar_pagina_a_gonza
    editar_pagina pid nro pos bytes n m = do
      (frame, m1) ← get_frame_de_un red vueltas pid nro m
      memoria ← memcpy_to m1.memoria (frame * m1.tamanio_de_pagina + pos) bytes n
      m2 ← set_pagina_as_modificado pid nro (record m1 { memoria = memoria })
      mandar_pagina_a_gonza red pid frame nro m2

    -- The loop after the first page: `k` whole pages from `nro` on, and then the last one.
    unfoldable pub editar_desde : ℕ → ℕ → ℕ → List ℕ → ℕ → Memoria S → Option (Memoria S)
    unfolding editar_pagina
    editar_desde pid nro zero bytes ultima m = editar_pagina pid nro 0 bytes ultima m
    editar_desde pid nro (suc k) bytes ultima m = do
      m1 ← editar_pagina pid nro 0 bytes m.tamanio_de_pagina m
      editar_desde pid (suc nro) k (drop m.tamanio_de_pagina bytes) ultima m1

    -- The pages of a stretch, one after the other.
    unfoldable pub editar_tramo : ℕ → Tramo → ℕ → List ℕ → Memoria S → Option (Memoria S)
    unfolding editar_pagina editar_desde
    editar_tramo pid tramo tamanio bytes m =
        let t = m.tamanio_de_pagina in
        if tramo.pagi_inicio == tramo.pagi_fin
        then editar_pagina pid tramo.pagi_inicio tramo.pos_inicio bytes tamanio m
        else if ltb tramo.pagi_fin tramo.pagi_inicio
        then some m
        else (do
          m1 ← editar_pagina pid tramo.pagi_inicio tramo.pos_inicio bytes (t - tramo.pos_inicio) m
          editar_desde pid (suc tramo.pagi_inicio) (tramo.pagi_fin - tramo.pagi_inicio - 1)
              (drop (t - tramo.pos_inicio) bytes) tramo.tamanio_pag_final m1)

    unfoldable pub editar_algo_en_memoria : ℕ → ℕ → ℕ → List ℕ → Memoria S → Option (Memoria S)
    unfolding editar_tramo
    editar_algo_en_memoria pid inicio tamanio bytes m =
        editar_tramo pid (tramo_de m.tamanio_de_pagina inicio tamanio) tamanio bytes m

    unfoldable pub leer_pagina : ℕ → ℕ → ℕ → ℕ → Memoria S → Option (List ℕ × Memoria S)
    unfolding get_frame_de_un memcpy_from
    leer_pagina pid nro pos n m = do
      (frame, m1) ← get_frame_de_un red vueltas pid nro m
      bytes ← memcpy_from m1.memoria (frame * m1.tamanio_de_pagina + pos) n
      some (bytes, m1)

    unfoldable pub leer_desde : ℕ → ℕ → ℕ → ℕ → Memoria S → Option (List ℕ × Memoria S)
    unfolding leer_pagina
    leer_desde pid nro zero ultima m = leer_pagina pid nro 0 ultima m
    leer_desde pid nro (suc k) ultima m = do
      (bytes, m1) ← leer_pagina pid nro 0 m.tamanio_de_pagina m
      (resto, m2) ← leer_desde pid (suc nro) k ultima m1
      some (bytes ++ resto, m2)

    unfoldable pub leer_tramo : ℕ → Tramo → ℕ → Memoria S → Option (List ℕ × Memoria S)
    unfolding leer_pagina leer_desde
    leer_tramo pid tramo size m =
        let t = m.tamanio_de_pagina in
        if tramo.pagi_inicio == tramo.pagi_fin
        then leer_pagina pid tramo.pagi_inicio tramo.pos_inicio size m
        else if ltb tramo.pagi_fin tramo.pagi_inicio
        then some ([], m)
        else (do
          (bytes, m1) ← leer_pagina pid tramo.pagi_inicio tramo.pos_inicio (t - tramo.pos_inicio) m
          (resto, m2) ←
              leer_desde pid (suc tramo.pagi_inicio) (tramo.pagi_fin - tramo.pagi_inicio - 1)
                tramo.tamanio_pag_final m1
          some (bytes ++ resto, m2))

    unfoldable pub read_from_memory : ℕ → ℕ → ℕ → Memoria S → Option (List ℕ × Memoria S)
    unfolding leer_tramo
    read_from_memory pid init_dir size m =
        leer_tramo pid (tramo_de m.tamanio_de_pagina init_dir size) size m

    -- The content stands after the metadata; the limit is compared with where it starts.
    unfoldable pub memwrite : ℕ → ℕ → List ℕ → ℕ → Memoria S → Option (Respuesta × Memoria S)
    unfolding get_pages_by editar_algo_en_memoria
    memwrite pid dir bytes tamanio m = do
      tabla ← get_pages_by pid m
      if ltb (dir + heap_metadata_size) tabla.last_heap
          then (do
            m1 ← editar_algo_en_memoria pid (dir + heap_metadata_size) tamanio bytes m
            some (escrito, m1))
          else some (mate_write_fault, m)

    -- Here the limit is compared with where the metadata starts.
    unfoldable pub memread : ℕ → ℕ → ℕ → Memoria S → Option (Lectura × Memoria S)
    unfolding get_pages_by read_from_memory
    memread pid dir size m = do
      tabla ← get_pages_by pid m
      if leb tabla.last_heap dir then some (mate_read_fault, m) else (do
        (bytes, m1) ← read_from_memory pid (dir + heap_metadata_size) size m
        some (leido bytes, m1))
