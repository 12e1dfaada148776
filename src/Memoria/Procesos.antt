-- ===== src/Memoria/Procesos.antt =====
-- memoria/src/memory_utils.c: the pages of a process from its start to its end.
pub mod Inicio
pub mod Suspension
use tp_sistemas_operativos.Base.{
  ℕ, zero, suc, ◌*◌, Bool, true, false, List, [], ◌∷◌, ◌++◌, Option, some, ◌==◌, if◌then◌else◌,
  ◌>>=◌,
}
use tp_sistemas_operativos.Swamp.Archivos.{memcpy_to, memcpy_from}
use tp_sistemas_operativos.Memoria.Tlb.{delete_entrada_tlb}
use tp_sistemas_operativos.Memoria.Estado.{
  free, busy, Pagina, Tabla, Memoria, Swamp, get_pages_by, con_tabla, con_pagina, get_page_de,
}
use tp_sistemas_operativos.Memoria.Marcos.{getframe_no_asignado_en_memoria}
use tp_sistemas_operativos.Memoria.Traduccion.{consultar_tlb}
use tp_sistemas_operativos.Memoria.Heap.{HeapMetaData, set_heap_metadata}

-- `list_remove_by_condition`, and the removal through an iterator: the first that passes.
unfoldable pub quitar_si {ℓ} : {A : Type ℓ} → (A → Bool) → List A → List A
quitar_si p [] = []
quitar_si p (x ∷ xs) = let resto = x ∷ quitar_si p xs in if p x then xs else resto

-- The new table is the last one of the list.
unfoldable pub agregar_en_ultima : Pagina → List Tabla → List Tabla
agregar_en_ultima p [] = []
agregar_en_ultima p (t ∷ []) = record t { paginas = t.paginas ++ (p ∷ []) } ∷ []
agregar_en_ultima p (t ∷ u ∷ ts) = t ∷ agregar_en_ultima p (u ∷ ts)

abbrev pub nuevo_heap : HeapMetaData
nuevo_heap = record { prev_alloc = 0; next_alloc = 0; isfree = 1 }

module _ {S : Type 0} where
  -- A page of the start: it takes the first frame that no page has, and the next stamp.
  unfoldable pub agregar_inicial : ℕ → ℕ → ℕ → ℕ → Memoria S → Memoria S
  unfolding getframe_no_asignado_en_memoria agregar_en_ultima
  agregar_inicial nro isfree modificado uso m = record m {
    todas_las_tablas =
        agregar_en_ultima
          (record {
            frame = getframe_no_asignado_en_memoria m;
            pagina = nro;
            isfree = isfree;
            bit_presencia = 1;
            bit_uso = uso;
            bit_modificado = modificado;
            lru = suc m.lru_actual;
          })
          m.todas_las_tablas;
    lru_actual = suc m.lru_actual;
  }

  -- The first page, with the metadata of the whole space at the start of its frame.
  unfoldable pub agregar_primera : ℕ → ℕ → Memoria S → Option (Memoria S)
  unfolding getframe_no_asignado_en_memoria set_heap_metadata agregar_inicial
  agregar_primera modificado uso m = do
    memoria ←
        set_heap_metadata nuevo_heap (getframe_no_asignado_en_memoria m * m.tamanio_de_pagina)
          m.memoria
    some (agregar_inicial 1 busy modificado uso (record m { memoria = memoria }))

  -- The pages of a fixed assignment: `k` to be loaded, when `cargadas` have been.
  unfoldable pub cargar_paginas : ℕ → ℕ → ℕ → Memoria S → Option (Memoria S)
  unfolding agregar_primera agregar_inicial
  cargar_paginas basura zero cargadas m = some m
  cargar_paginas basura (suc k) zero m =
      agregar_primera 0 basura m >>= λ m1. cargar_paginas basura k 1 m1
  cargar_paginas basura (suc k) (suc c) m =
      cargar_paginas basura k (suc (suc c)) (agregar_inicial (suc (suc c)) free 0 basura m)

  -- `basura` is what malloc leaves in the bit of use, that a fixed assignment does not set.
  unfoldable pub inicializar_un_proceso : ℕ → ℕ → Memoria S → Option (Memoria S)
  unfolding agregar_primera cargar_paginas
  inicializar_un_proceso basura pid m =
      let m1 = record m {
        todas_las_tablas =
            m.todas_las_tablas ++ (record { id = pid; paginas = []; last_heap = 0 } ∷ []);
      } in
      if m.asignacion_dinamica
      then agregar_primera 1 1 m1
      else cargar_paginas basura m.cantidad_de_paginas_por_proceso 0 m1

  -- The page and its entry of the TLB, which is asked first.
  unfoldable pub delete_pagina : ℕ → ℕ → Memoria S → Option (Memoria S)
  unfolding consultar_tlb get_page_de delete_entrada_tlb quitar_si
  delete_pagina pid nro m =
      let m1 : Memoria S = record m { tlb = (consultar_tlb pid nro m.tlb).1 } in
      get_page_de pid nro m1 >>= λ (x : ℕ × Pagina).
      some
        (record (con_tabla pid
          (λ t. record t { paginas = quitar_si (λ p. p.pagina == nro) t.paginas }) m1) {
            tlb = delete_entrada_tlb pid nro x.1.frame m1.tlb;
          })

  module _ (red : Swamp S) where
    -- A page is sent to swamp, present or not, and if there was place for it, it is not present
    -- and its frame is filled with `basura`, what malloc left. It keeps the number of the frame.
    unfoldable pub suspender_pagina :
        List ℕ → ℕ → ℕ → Pagina → Memoria S → Option (Bool × Memoria S)
    unfolding memcpy_from memcpy_to delete_entrada_tlb
    suspender_pagina basura pid i p m = do
      contenido ← memcpy_from m.memoria (p.frame * m.tamanio_de_pagina) m.tamanio_de_pagina
      (s, respuesta) ← red.guardar pid p.pagina contenido m.swamp
      memoria ← memcpy_to m.memoria (p.frame * m.tamanio_de_pagina) basura m.tamanio_de_pagina
      let m1 = record m { swamp = s; tlb = delete_entrada_tlb pid p.pagina p.frame m.tlb } in
          if respuesta == 0
          then some (false, m1)
          else some (
            true,
            con_pagina pid i (record p { bit_presencia = 0 }) (record m1 { memoria = memoria }),
          )

    -- The pages from the place `i` on; the first one without place ends the loop.
    unfoldable pub suspender_desde :
        List ℕ → ℕ → ℕ → List Pagina → Memoria S → Option (Bool × Memoria S)
    unfolding suspender_pagina
    suspender_desde basura pid i [] m = some (true, m)
    suspender_desde basura pid i (p ∷ ps) m = do
      (bien, m1) ← suspender_pagina basura pid i p m
      elim bien [ true ↦ suspender_desde basura pid (suc i) ps m1 | false ↦ some (false, m1) ]

    -- `true` is the answer 1, `false` is -1.
    unfoldable pub suspend_process : List ℕ → ℕ → Memoria S → Option (Bool × Memoria S)
    unfolding get_pages_by suspender_desde
    suspend_process basura pid m = do
      tabla ← get_pages_by pid m
      suspender_desde basura pid 0 tabla.paginas m

    -- Swamp forgets the process, and its table goes. The TLB is left as it is.
    unfoldable pub delete_process : ℕ → Memoria S → Option (Memoria S)
    unfolding get_pages_by quitar_si
    delete_process pid m = do
      tabla ← get_pages_by pid m
      s ← red.finalizar pid m.swamp
      some (record m {
        swamp = s;
        todas_las_tablas = quitar_si (λ t. t.id == pid) m.todas_las_tablas;
      })
