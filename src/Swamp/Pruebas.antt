-- ===== src/Swamp/Pruebas.antt =====
-- Small states of swamp/src/swap.c, on which the theorems of Swamp apply.
use mathlib.Core.Option.{some-injective}
use tp_sistemas_operativos.Base.{
  ℕ, zero, suc, ◌≡◌, ◌≢◌, ◌<◌, ◌≤◌, ◌⊎◌, refl, subst, List, [], ◌∷◌, some, none, true, false, arith,
  get_elem?,
}
use tp_sistemas_operativos.Swamp.Tabla.{
  libre, pagina_esta_en_swap, tabla_paginas_size, get_first_free_frame_number,
}
use tp_sistemas_operativos.Swamp.Archivos.{
  Nodo, Swap, swap_file_menos_ocupado, asignacion_fija, asignacion_dinamica, dictionary_get,
}
use tp_sistemas_operativos.Swamp.Guardar.{
  fila, guardar_pagina_asignacion_fija, guardar_pagina_asignacion_dinamica, finalizar_proceso,
  obtener_pagina,
}
use tp_sistemas_operativos.Swamp.Guardar.Escribir.{NodoOk, TodosOk, escrito}
use tp_sistemas_operativos.Swamp.Guardar.Fija.{
  Guardada, guardar_pagina_asignacion_fija_lem, guardar_fija_sin_lugar,
}
use tp_sistemas_operativos.Swamp.Guardar.Dinamica.{
  guardar_pagina_asignacion_dinamica_lem, dinamica_tras_finalizar,
}
use tp_sistemas_operativos.Swamp.Guardar.Finalizar.{Finalizada, finalizar_proceso_lem}
use tp_sistemas_operativos.Swamp.Guardar.Primera.{Fijo, guardar_pagina_asignacion_fija_primera}
use tp_sistemas_operativos.Swamp.Archivos.MenosOcupado.{Tope, libres, swap_file_menos_ocupado_lem}
use tp_sistemas_operativos.Swamp.Archivos.Lectura.{leer}
use tp_sistemas_operativos.Swamp.Tabla.Busqueda.{Ausente}
use tp_sistemas_operativos.Swamp.Tabla.Bloques.{procesos, bloques}

-- A file of four frames of two bytes with a process that has one page and one reserved frame, and
-- an empty file.
abbrev un_proceso : Nodo
un_proceso = record {
  tabla_paginas = fila 1 0 ∷ fila 1 libre ∷ [];
  archivo = 5 ∷ 6 ∷ 0 ∷ 0 ∷ 0 ∷ 0 ∷ 0 ∷ 0 ∷ [];
}

abbrev vacio : Nodo
vacio = record { tabla_paginas = []; archivo = 0 ∷ 0 ∷ 0 ∷ 0 ∷ 0 ∷ 0 ∷ 0 ∷ 0 ∷ [] }

abbrev con_nodo : ℕ → Nodo → Swap
con_nodo tipo n = record {
  swap_file_size = 8;
  swap_page_size = 2;
  marcos_por_carpincho = 2;
  tipo_asignacion = tipo;
  swap_list = n ∷ vacio ∷ [];
  swap_dict = (1, 0) ∷ [];
}

con_nodo-TodosOk : (tipo : ℕ) (n : Nodo) → NodoOk (con_nodo tipo n) n → TodosOk (con_nodo tipo n)
con_nodo-TodosOk tipo n o zero m h = subst (NodoOk (con_nodo tipo n)) (some-injective _ _ h) o
con_nodo-TodosOk tipo n o (suc zero) m h =
    subst (NodoOk (con_nodo tipo n)) (some-injective _ _ h)
      (record { filas = omega arith; bytes = refl })
con_nodo-TodosOk tipo n o (suc (suc i)) m h = absurd (cc h)

guardar_pagina_asignacion_fija_example :
    (((pagina_esta_en_swap un_proceso.tabla_paginas 1 7 ≡ true)
        ⊎ (pagina_esta_en_swap un_proceso.tabla_paginas 1 libre ≡ true))
      × Guardada
          (con_nodo asignacion_fija un_proceso)
          1
          7
          (8 ∷ 9 ∷ [])
          (guardar_pagina_asignacion_fija (con_nodo asignacion_fija un_proceso) 1 7 (8 ∷ 9 ∷ [])))
    ⊎ ((pagina_esta_en_swap un_proceso.tabla_paginas 1 7 ≡ false)
        × (pagina_esta_en_swap un_proceso.tabla_paginas 1 libre ≡ false)
        × (guardar_pagina_asignacion_fija (con_nodo asignacion_fija un_proceso) 1 7 (8 ∷ 9 ∷ [])
            ≡ some (con_nodo asignacion_fija un_proceso, 0)))
unfolding dictionary_get tabla_paginas_size
guardar_pagina_asignacion_fija_example =
    guardar_pagina_asignacion_fija_lem (con_nodo asignacion_fija un_proceso) 1 7 0 un_proceso
      (8 ∷ 9 ∷ []) refl refl
      (con_nodo-TodosOk asignacion_fija un_proceso (record { filas = omega arith; bytes = refl }))
      refl refl

-- Four frames of two bytes of which the third was of a process that ended.
abbrev con_hueco : Nodo
con_hueco = record {
  tabla_paginas = fila 1 0 ∷ fila 1 1 ∷ fila libre libre ∷ [];
  archivo = 5 ∷ 6 ∷ 7 ∷ 8 ∷ 0 ∷ 0 ∷ 3 ∷ 3 ∷ [];
}

con_hueco-TodosOk : (tipo : ℕ) → TodosOk (con_nodo tipo con_hueco)
con_hueco-TodosOk tipo =
    con_nodo-TodosOk tipo con_hueco (record { filas = omega arith; bytes = refl })

guardar_fija_sin_lugar_example :
    guardar_pagina_asignacion_fija (con_nodo asignacion_fija con_hueco) 1 7 (8 ∷ 9 ∷ [])
    ≡ some (
      escrito
          (con_nodo asignacion_fija con_hueco)
          0
          con_hueco
          3
          (8 ∷ 9 ∷ [])
          con_hueco.tabla_paginas,
      1,
    )
unfolding dictionary_get tabla_paginas_size pagina_esta_en_swap
guardar_fija_sin_lugar_example =
    guardar_fija_sin_lugar (con_nodo asignacion_fija con_hueco) 1 7 0 con_hueco (8 ∷ 9 ∷ []) refl
      refl (con_hueco-TodosOk asignacion_fija) refl refl refl (omega arith) (omega arith)

dinamica_tras_finalizar_example :
    (s' : Swap) × (guardar_pagina_asignacion_dinamica
        (con_nodo asignacion_dinamica con_hueco)
        1
        7
        (8 ∷ 9 ∷ [])
      ≡ some (s', 1))
    × (obtener_pagina s' 1 7 ≡ some (leer 2 con_hueco.archivo 3))
unfolding dictionary_get tabla_paginas_size pagina_esta_en_swap get_first_free_frame_number
dinamica_tras_finalizar_example =
    dinamica_tras_finalizar (con_nodo asignacion_dinamica con_hueco) 1 7 0 con_hueco (8 ∷ 9 ∷ [])
      refl refl (con_hueco-TodosOk asignacion_dinamica) refl refl (omega arith) (omega arith)
      (omega arith)

abbrev una_pagina : Nodo
una_pagina = record { tabla_paginas = fila 1 0 ∷ []; archivo = 5 ∷ 6 ∷ 0 ∷ 0 ∷ 0 ∷ 0 ∷ 0 ∷ 0 ∷ [] }

guardar_pagina_asignacion_dinamica_example :
    (((pagina_esta_en_swap una_pagina.tabla_paginas 1 7 ≡ true)
        ⊎ (tabla_paginas_size una_pagina.tabla_paginas < 4))
      × Guardada (con_nodo asignacion_dinamica una_pagina) 1 7 (8 ∷ 9 ∷ []) (
          guardar_pagina_asignacion_dinamica
            (con_nodo asignacion_dinamica una_pagina)
            1
            7
            (8 ∷ 9 ∷ [])))
    ⊎ ((pagina_esta_en_swap una_pagina.tabla_paginas 1 7 ≡ false)
        × (4 ≤ tabla_paginas_size una_pagina.tabla_paginas)
        × (guardar_pagina_asignacion_dinamica
              (con_nodo asignacion_dinamica una_pagina)
              1
              7
              (8 ∷ 9 ∷ [])
            ≡ some (con_nodo asignacion_dinamica una_pagina, 0)))
unfolding dictionary_get tabla_paginas_size pagina_esta_en_swap
guardar_pagina_asignacion_dinamica_example =
    guardar_pagina_asignacion_dinamica_lem (con_nodo asignacion_dinamica una_pagina) 1 7 0
      una_pagina (8 ∷ 9 ∷ []) refl refl
      (con_nodo-TodosOk asignacion_dinamica una_pagina
        (record { filas = omega arith; bytes = refl }))
      refl refl refl

finalizar_proceso_example :
    Finalizada
      (con_nodo asignacion_fija un_proceso)
      1
      0
      un_proceso
      (finalizar_proceso (con_nodo asignacion_fija un_proceso) 1)
unfolding dictionary_get
finalizar_proceso_example =
    finalizar_proceso_lem (con_nodo asignacion_fija un_proceso) 1 0 un_proceso (omega arith) refl
      refl
      (con_nodo-TodosOk asignacion_fija un_proceso (record { filas = omega arith; bytes = refl }))

swap_file_menos_ocupado_example :
    ((swap_file_menos_ocupado (con_nodo asignacion_fija un_proceso) ≡ none)
      × Tope 4 (un_proceso ∷ vacio ∷ []) 0)
    ⊎ ((i : ℕ) × (n : Nodo) × (swap_file_menos_ocupado (con_nodo asignacion_fija un_proceso)
          ≡ some i)
        × (get_elem? (un_proceso ∷ vacio ∷ []) i ≡ some n)
        × (0 < libres 4 n)
        × Tope 4 (un_proceso ∷ vacio ∷ []) (libres 4 n))
swap_file_menos_ocupado_example = swap_file_menos_ocupado_lem (con_nodo asignacion_fija un_proceso)

-- One process has its two frames in the first file.
un_proceso-Fijo : Fijo 0 (con_nodo asignacion_fija un_proceso)
unfolding dictionary_get
un_proceso-Fijo = record {
  marcos = refl;
  todos =
      con_nodo-TodosOk asignacion_fija un_proceso (record { filas = omega arith; bytes = refl });
  en_bloques = en_bloques;
  ausentes = ausentes;
  reales = refl;
}
  where
    en_bloques :
        (i : ℕ) (n : Nodo)
        → get_elem? (un_proceso ∷ vacio ∷ []) i ≡ some n
        → (ds : List ℕ) × (procesos n.tabla_paginas ≡ bloques 2 ds)
    en_bloques zero n h =
        subst (λ (n : Nodo). (ds : List ℕ) × (procesos n.tabla_paginas ≡ bloques 2 ds))
          (some-injective _ _ h) (1 ∷ [], refl)
    en_bloques (suc zero) n h =
        subst (λ (n : Nodo). (ds : List ℕ) × (procesos n.tabla_paginas ≡ bloques 2 ds))
          (some-injective _ _ h) ([], refl)
    en_bloques (suc (suc i)) n h = absurd (cc h)

    ausentes :
        (p i : ℕ) (n : Nodo)
        → p ≢ libre
        → dictionary_get p ((1, 0) ∷ []) ≡ none
        → get_elem? (un_proceso ∷ vacio ∷ []) i ≡ some n
        → Ausente p n.tabla_paginas
    ausentes p zero n r d h =
        subst (λ (n : Nodo). Ausente p n.tabla_paginas) (some-injective _ _ h) (ground arith)
    ausentes p (suc zero) n r d h =
        subst (λ (n : Nodo). Ausente p n.tabla_paginas) (some-injective _ _ h) (ground arith)
    ausentes p (suc (suc i)) n r d h = absurd (cc h)

guardar_pagina_asignacion_fija_primera_example :
    ((i : ℕ) × (n : Nodo) × (swap_file_menos_ocupado (con_nodo asignacion_fija un_proceso) ≡ some i)
      × (get_elem? (un_proceso ∷ vacio ∷ []) i ≡ some n)
      × (2 ≤ libres 4 n)
      × Guardada
          (con_nodo asignacion_fija un_proceso)
          2
          7
          (8 ∷ 9 ∷ [])
          (guardar_pagina_asignacion_fija (con_nodo asignacion_fija un_proceso) 2 7 (8 ∷ 9 ∷ [])))
    ⊎ ((guardar_pagina_asignacion_fija (con_nodo asignacion_fija un_proceso) 2 7 (8 ∷ 9 ∷ [])
          ≡ some (con_nodo asignacion_fija un_proceso, 0))
        × ((i : ℕ) (n : Nodo) → get_elem? (un_proceso ∷ vacio ∷ []) i ≡ some n → libres 4 n < 2))
unfolding dictionary_get
guardar_pagina_asignacion_fija_primera_example =
    guardar_pagina_asignacion_fija_primera 0 (con_nodo asignacion_fija un_proceso) 2 7 (8 ∷ 9 ∷ [])
      un_proceso-Fijo (omega arith) refl refl
