-- ===== src/Memoria/Estado.antt =====
-- memoria/include/memory_utils.h: pages, tables of pages and the globals, with the lookups of
-- memoria/src/memory_utils.c. The bytes of the memory are numbers.
use tp_sistemas_operativos.Base.{
  ℕ, suc, ◌/◌, Bool, List, [], ◌∷◌, ◌++◌, map, Option, none, some, ◌==◌, if◌then◌else◌, set,
  get_elem?, list_find, modificar_si, ◌>>=◌,
}
use tp_sistemas_operativos.Memoria.Tlb.{Tlb}

abbrev pub free : ℕ
free = 1

abbrev pub busy : ℕ
busy = 0

-- `Pagina`
pub record Pagina : Type 0 where
  pub frame : ℕ
  pub pagina : ℕ
  pub isfree : ℕ
  pub bit_presencia : ℕ
  pub bit_uso : ℕ
  pub bit_modificado : ℕ
  pub lru : ℕ

-- `TablaDePaginasxProceso`
pub record Tabla : Type 0 where
  pub id : ℕ
  pub paginas : List Pagina
  pub last_heap : ℕ

-- The globals. `reemplazo_lru` is what string_equals_ignore_case says of ALGORITMO_REEMPLAZO_MMU
-- and "LRU"; `swamp` is the state of the module at the other end of swamp_fd.
pub record Memoria (S : Type 0) : Type 0 where
  pub todas_las_tablas : List Tabla
  pub memoria : List ℕ
  pub tamanio_de_pagina : ℕ
  pub tamanio_de_memoria : ℕ
  pub asignacion_dinamica : Bool
  pub reemplazo_lru : Bool
  pub cantidad_de_paginas_por_proceso : ℕ
  pub lru_actual : ℕ
  pub puntero_frame_clock : ℕ
  pub hay_que_degenerar : Bool
  pub tlb : Tlb
  pub swamp : S

-- What memoria asks of swamp: to save a page, with the number that it answers, to give one back,
-- and to forget a process. `none` is no answer.
pub record Swamp (S : Type 0) : Type 0 where
  pub guardar : ℕ → ℕ → List ℕ → S → Option (S × ℕ)
  pub obtener : ℕ → ℕ → S → Option (List ℕ)
  pub finalizar : ℕ → S → Option S

-- The pages of all processes, each with the process, in the order of the nested loops.
abbrev pub de_proceso : ℕ → List Pagina → List (ℕ × Pagina)
de_proceso pid = map (λ p. (pid, p))

abbrev pub paginas_de : List Tabla → List (ℕ × Pagina)
paginas_de [] = []
paginas_de (t ∷ ts) = de_proceso t.id t.paginas ++ paginas_de ts

-- The place of the page of a number.
unfoldable pub indice_de : ℕ → List Pagina → Option ℕ
indice_de nro [] = none
indice_de nro (p ∷ ps) =
    let resto = indice_de nro ps >>= λ i. some (suc i) in if p.pagina == nro then some 0 else resto

module _ {S : Type 0} where
  abbrev pub frames_totales : Memoria S → ℕ
  frames_totales m = m.tamanio_de_memoria / m.tamanio_de_pagina

  -- The table of a process that does not exist is looked for past the end of the list.
  unfoldable pub get_pages_by : ℕ → Memoria S → Option Tabla
  unfolding list_find
  get_pages_by pid m = list_find (λ t. t.id == pid) m.todas_las_tablas

  -- A write through the pointer to a table.
  unfoldable pub con_tabla : ℕ → (Tabla → Tabla) → Memoria S → Memoria S
  unfolding modificar_si
  con_tabla pid f m = record m {
    todas_las_tablas = modificar_si (λ t. t.id == pid) f m.todas_las_tablas;
  }

  -- A write through the pointer to the page at a place of the table.
  abbrev pub con_pagina : ℕ → ℕ → Pagina → Memoria S → Memoria S
  con_pagina pid i p m = con_tabla pid (λ t. record t { paginas = set t.paginas i p }) m

  -- The page of a number, as the place of it and what stands there.
  unfoldable pub get_page_de : ℕ → ℕ → Memoria S → Option (ℕ × Pagina)
  unfolding get_pages_by indice_de
  get_page_de pid nro m = do
    tabla ← get_pages_by pid m
    i ← indice_de nro tabla.paginas
    p ← get_elem? tabla.paginas i
    some (i, p)
