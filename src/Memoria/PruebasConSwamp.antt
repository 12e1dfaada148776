-- ===== src/Memoria/PruebasConSwamp.antt =====
-- A memory of one frame that sends it to a swamp with one file.
use mathlib.Core.Option.{some-injective}
use tp_sistemas_operativos.Base.{
  zero, suc, ◌≡◌, ◌⊎◌, ◌≤◌, refl, subst, [], ◌∷◌, some, true, false, arith,
}
use tp_sistemas_operativos.Swamp.Tabla.{pagina_esta_en_swap, tabla_paginas_size}
use tp_sistemas_operativos.Swamp.Archivos.{Nodo, Swap, asignacion_dinamica, dictionary_get}
use tp_sistemas_operativos.Swamp.Guardar.{fila, obtener_pagina}
use tp_sistemas_operativos.Swamp.Guardar.Escribir.{NodoOk, TodosOk}
use tp_sistemas_operativos.Memoria.Estado.{Memoria}
use tp_sistemas_operativos.Memoria.Marcos.{mandar_pagina_a_gonza}
use tp_sistemas_operativos.Memoria.ConSwamp.{consola, mandar_pagina_a_gonza_lem}

abbrev nodo : Nodo
nodo = record { tabla_paginas = fila 1 1 ∷ []; archivo = 5 ∷ 6 ∷ 0 ∷ 0 ∷ [] }

abbrev swap : Swap
swap = record {
  swap_file_size = 4;
  swap_page_size = 2;
  marcos_por_carpincho = 2;
  tipo_asignacion = asignacion_dinamica;
  swap_list = nodo ∷ [];
  swap_dict = (1, 0) ∷ [];
}

swap-TodosOk : TodosOk swap
swap-TodosOk zero m h =
    subst (NodoOk swap) (some-injective _ _ h) (record { filas = omega arith; bytes = refl })
swap-TodosOk (suc i) m h = absurd (cc h)

abbrev memoria : Memoria Swap
memoria = record {
  todas_las_tablas = [];
  memoria = 8 ∷ 9 ∷ [];
  tamanio_de_pagina = 2;
  tamanio_de_memoria = 2;
  asignacion_dinamica = true;
  reemplazo_lru = true;
  cantidad_de_paginas_por_proceso = 1;
  lru_actual = 0;
  puntero_frame_clock = 0;
  hay_que_degenerar = false;
  tlb = record {
    tlb_list = [];
    metrics_list = [];
    max_entradas_tlb = 0;
    max_tlb_hit = 0;
    max_tlb_miss = 0;
    entrada_fifo = 0;
    tlb_lru_global = 0;
    reemplazo_fifo = true;
  };
  swamp = swap;
}

mandar_pagina_a_gonza_example :
    (m' : Memoria Swap) × (mandar_pagina_a_gonza consola 1 0 2 memoria ≡ some m')
    × (m'.memoria ≡ 8 ∷ 9 ∷ [])
    × (((m'.hay_que_degenerar ≡ false) × (obtener_pagina m'.swamp 1 2 ≡ some (8 ∷ 9 ∷ [])))
        ⊎ ((m'.hay_que_degenerar ≡ true)
            × (m'.swamp ≡ swap)
            × (pagina_esta_en_swap nodo.tabla_paginas 1 2 ≡ false)
            × (2 ≤ tabla_paginas_size nodo.tabla_paginas)))
unfolding dictionary_get tabla_paginas_size pagina_esta_en_swap
mandar_pagina_a_gonza_example =
    mandar_pagina_a_gonza_lem 1 0 2 0 nodo memoria refl refl swap-TodosOk refl refl refl refl
      (omega arith)
