-- ===== src/Memoria/Pruebas.antt =====
-- Small states of memoria/src/memory_utils.c, on which the theorems of Memoria apply.
use mathlib.Core.Option.{some-injective}
use tp_sistemas_operativos.Swamp.Archivos.{Swap}
use tp_sistemas_operativos.Swamp.Archivos.Lectura.{leer}
use tp_sistemas_operativos.Memoria.ConSwamp.{consola}
use tp_sistemas_operativos.Memoria.ConSwamp.Cumple.{Tiene, consola-Contrato}
use tp_sistemas_operativos.Memoria.Disco.{disco, disco-1, disco-2, disco-3, disco_12-1, disco_12-2}
use tp_sistemas_operativos.Base.{
  ℕ, zero, suc, ◌+◌, ◌*◌, ◌≡◌, ◌<◌, ◌≤◌, refl, List, [], ◌∷◌, map, some, none, true, false, arith,
  list_find, replicate, get_elem?, length, list_any_satisfy,
}
use tp_sistemas_operativos.Memoria.Tlb.{Tlb, add_entrada_tlb, fetch_entrada_tlb, new_entrada_tlb}
use tp_sistemas_operativos.Memoria.Tlb.Agregar.{Agregada, add_entrada_tlb_lem}
use tp_sistemas_operativos.Memoria.Tlb.Metricas.Sumas.{suma_hits, suma_miss, veces}
use tp_sistemas_operativos.Memoria.Tlb.Metricas.{
  Medida, Llamada, hacer_todas, busquedas, hacer_todas-Medida,
}
use tp_sistemas_operativos.Memoria.Estado.{busy, Pagina, Tabla, Memoria, get_pages_by, paginas_de}
use tp_sistemas_operativos.Memoria.Marcos.{
  liberar_frame, frame_asignado, getframe_no_asignado_en_memoria, seleccion_lru, sacar_de_todas,
  candidatas,
}
use tp_sistemas_operativos.Memoria.Marcos.Victima.{EsVictima, MismaForma, seleccion_lru_lem}
use tp_sistemas_operativos.Memoria.Clock.{vuelta}
use tp_sistemas_operativos.Memoria.Clock.Vueltas.{Termina, vuelta_lem}
use tp_sistemas_operativos.Memoria.Traduccion.{get_frame_de_un, traer_pagina}
use tp_sistemas_operativos.Memoria.Traduccion.Residente.{EsPagina}
use tp_sistemas_operativos.Memoria.Traduccion.Presente.{Vive, SinCambio, get_frame_de_un_lem}
use tp_sistemas_operativos.Memoria.Traduccion.Fallo.{Dinamica, Traida, traer_pagina_lem}
use tp_sistemas_operativos.Memoria.Datos.{editar_algo_en_memoria, read_from_memory}
use tp_sistemas_operativos.Memoria.Datos.UnaPagina.{Fija, CabenEn}
use tp_sistemas_operativos.Memoria.Datos.VariasPaginas.{Distintos}
use tp_sistemas_operativos.Memoria.Datos.IdaYVuelta.{read_from_memory-editar_algo_en_memoria}
use tp_sistemas_operativos.Memoria.Heap.{set_heap_metadata, get_heap_metadata}
use tp_sistemas_operativos.Memoria.Heap.Metadatos.{get-set_heap_metadata}
use tp_sistemas_operativos.Memoria.Asignacion.{con_last_heap, alloc_al_final, mayor_nro_de_pagina}
use tp_sistemas_operativos.Memoria.Asignacion.AlFinal.{
  ultimo_heap, siguiente_y_estado, alloc_al_final_lem,
}
use tp_sistemas_operativos.Memoria.Procesos.{nuevo_heap, inicializar_un_proceso, suspend_process}
use tp_sistemas_operativos.Memoria.Procesos.Inicio.{
  getframe_no_asignado_en_memoria-llena, inicializar_un_proceso_lem,
}
use tp_sistemas_operativos.Memoria.Procesos.Suspension.{
  ausente, suspend_process_lem, suspend_process-liberar_frame,
}

-- The bytes of a page that is suspended.
abbrev nueves : List ℕ
nueves = 9 ∷ 9 ∷ 9 ∷ 9 ∷ []

abbrev tlb : Tlb
tlb = record {
  tlb_list = [];
  metrics_list = [];
  max_entradas_tlb = 1;
  max_tlb_hit = 0;
  max_tlb_miss = 0;
  entrada_fifo = 0;
  tlb_lru_global = 0;
  reemplazo_fifo = true;
}

abbrev pagina : ℕ → ℕ → ℕ → ℕ → Pagina
pagina nro frame presencia lru = record {
  frame = frame;
  pagina = nro;
  isfree = busy;
  bit_presencia = presencia;
  bit_uso = 1;
  bit_modificado = 0;
  lru = lru;
}

abbrev tabla : Tabla
tabla = record { id = 1; paginas = pagina 1 0 1 4 ∷ pagina 2 1 1 3 ∷ []; last_heap = 20 }

-- Process 1 has its two pages in the two frames.
abbrev con : List Tabla → Memoria Swap
con tablas = record {
  todas_las_tablas = tablas;
  memoria = 1 ∷ 2 ∷ 3 ∷ 4 ∷ 5 ∷ 6 ∷ 7 ∷ 8 ∷ [];
  tamanio_de_pagina = 4;
  tamanio_de_memoria = 8;
  asignacion_dinamica = true;
  reemplazo_lru = true;
  cantidad_de_paginas_por_proceso = 2;
  lru_actual = 4;
  puntero_frame_clock = 0;
  hay_que_degenerar = false;
  tlb = tlb;
  swamp = disco 4;
}

abbrev frames : List ℕ
frames = 0 ∷ 1 ∷ []

paginas_bien :
    (i f : ℕ)
    → get_elem? frames i ≡ some f
    → (p : Pagina) × (get_elem? tabla.paginas i ≡ some p) × EsPagina i f p
paginas_bien zero f h = (
  pagina 1 0 1 4,
  refl,
  record { su_frame = some-injective _ _ h; su_numero = refl; presente = refl },
)
paginas_bien (suc zero) f h = (
  pagina 2 1 1 3,
  refl,
  record { su_frame = some-injective _ _ h; su_numero = refl; presente = refl },
)
paginas_bien (suc (suc i)) f h = cc

frames-Distintos : Distintos frames
frames-Distintos zero zero f h k = refl
frames-Distintos zero (suc zero) f h k =
    absurd (omega (arith, some-injective _ _ h, some-injective _ _ k))
frames-Distintos (suc zero) zero f h k =
    absurd (omega (arith, some-injective _ _ h, some-injective _ _ k))
frames-Distintos (suc zero) (suc zero) f h k = refl
frames-Distintos (suc (suc i)) j f h k = cc
frames-Distintos zero (suc (suc j)) f h k = cc
frames-Distintos (suc zero) (suc (suc j)) f h k = cc

frames-CabenEn : CabenEn frames 4 (con []).memoria
frames-CabenEn zero f h = omega (arith, some-injective _ _ h)
frames-CabenEn (suc zero) f h = omega (arith, some-injective _ _ h)
frames-CabenEn (suc (suc i)) f h = cc

con-Vive : Vive 1 frames (con (tabla ∷ []))
unfolding list_find
con-Vive = record {
  tabla = tabla;
  esta = refl;
  paginas = paginas_bien;
  ni_una_mas = refl;
  buenas = tt;
}

con-en_swap : (i f : ℕ) → get_elem? frames i ≡ some f → Tiene 4 1 (suc i) (disco 4)
con-en_swap zero f h = disco-1
con-en_swap (suc zero) f h = disco-2
con-en_swap (suc (suc i)) f h = cc

con-Fija : Fija (Tiene 4) 1 frames 4 (con []).memoria (con (tabla ∷ []))
con-Fija = record { vive = con-Vive; tamanio = refl; bytes = refl; en_swap = con-en_swap }

-- Three bytes from 2 on lie in both pages.
read_from_memory-editar_algo_en_memoria_example :
    (m' m'' : Memoria Swap) × (editar_algo_en_memoria consola 0 1 2 3
        (11 ∷ 12 ∷ 13 ∷ [])
        (con (tabla ∷ []))
      ≡ some m')
    × (read_from_memory consola 0 1 2 3 m' ≡ some (11 ∷ 12 ∷ 13 ∷ [], m''))
read_from_memory-editar_algo_en_memoria_example =
    read_from_memory-editar_algo_en_memoria consola 0 1 frames 4 (con []).memoria 2
      (11 ∷ 12 ∷ 13 ∷ []) (con (tabla ∷ [])) (consola-Contrato 4) frames-Distintos con-Fija
      frames-CabenEn (omega arith) (omega arith) (omega arith)

get_frame_de_un_example :
    (m' : Memoria Swap) × (get_frame_de_un consola 0 1 2 (con (tabla ∷ [])) ≡ some (1, m'))
    × Vive 1 frames m'
    × SinCambio (con (tabla ∷ [])) m'
get_frame_de_un_example =
    get_frame_de_un_lem consola 0 1 frames 1 1 (con (tabla ∷ [])) con-Vive refl

-- The third page is not present.
abbrev tabla_falta : Tabla
tabla_falta = record tabla { paginas = pagina 1 0 1 4 ∷ pagina 2 1 1 3 ∷ pagina 3 3 0 1 ∷ [] }

falta-Dinamica : Dinamica (Tiene 4) (con (tabla_falta ∷ []))
falta-Dinamica = record {
  es_dinamica = refl;
  es_lru = refl;
  largo = refl;
  ocupadas = ((refl, (refl, (refl, tt))), tt);
  en_memoria = (
    λ h. (omega arith, disco-1),
    (λ h. (omega arith, disco-2), (λ h. absurd (omega (arith, h)), tt)),
  );
}

falta-esta : get_pages_by 1 (con (tabla_falta ∷ [])) ≡ some tabla_falta
unfolding get_pages_by list_find
falta-esta = refl

traer_pagina_example :
    (p' : Pagina) × (m' : Memoria Swap) × (traer_pagina consola 0 1 3 2 (con (tabla_falta ∷ []))
      ≡ some (p', m'))
    × Traida consola 1 3 2 (con (tabla_falta ∷ [])) m' p'
traer_pagina_example =
    traer_pagina_lem consola 0 1 3 2 (con (tabla_falta ∷ [])) tabla_falta (pagina 3 3 0 1) 1 1
      (pagina 2 1 1 3) (consola-Contrato 4) disco-3 falta-Dinamica falta-esta refl refl refl
      (omega arith)

falta-candidatas : candidatas 1 (con (tabla_falta ∷ [])) ≡ some (paginas_de (tabla_falta ∷ []))
unfolding candidatas
falta-candidatas = refl

seleccion_lru_example :
    (m' : Memoria Swap) × (d : ℕ) × (p : Pagina) × (seleccion_lru consola 1 (con (tabla_falta ∷ []))
      ≡ some m')
    × EsVictima d p 99999 (paginas_de (tabla_falta ∷ []))
    × (m'.todas_las_tablas ≡ sacar_de_todas 2 p.frame (tabla_falta ∷ []))
    × (consola.obtener d p.pagina m'.swamp ≡ some (leer 4 (con []).memoria p.frame))
    × ((q k : ℕ) → Tiene 4 q k (disco 4) → Tiene 4 q k m'.swamp)
    × MismaForma (con (tabla_falta ∷ [])) m'
seleccion_lru_example =
    seleccion_lru_lem consola 1 (con (tabla_falta ∷ [])) (paginas_de (tabla_falta ∷ [])) 1 1
      (pagina 2 1 1 3) (consola-Contrato 4) falta-candidatas
      (
        λ h. (omega arith, disco-1),
        (λ h. (omega arith, disco-2), (λ h. absurd (omega (arith, h)), tt)),
      )
      refl refl (omega arith)

vuelta_example :
    Termina consola false 0 1
      (con (tabla ∷ []))
      (vuelta consola 4 false 0 1 false (con (tabla ∷ [])))
vuelta_example = vuelta_lem consola false 0 1 false (con (tabla ∷ [])) (omega arith) (omega arith)

get-set_heap_metadata_example :
    (m' : List ℕ) × (set_heap_metadata
        (record { prev_alloc = 300; next_alloc = 70000; isfree = 1 })
        2
        (replicate 12 0)
      ≡ some m')
    × (length m' ≡ 12)
    × (get_heap_metadata 2 m' ≡ some (record { prev_alloc = 300; next_alloc = 70000; isfree = 1 }))
get-set_heap_metadata_example =
    get-set_heap_metadata (record { prev_alloc = 300; next_alloc = 70000; isfree = 1 }) 2
      (replicate 12 0) (omega arith) (omega arith) (omega arith) (omega arith)

-- One frame of twelve bytes.
abbrev grande : Memoria Swap
grande = record (con []) {
  memoria = replicate 12 0;
  tamanio_de_pagina = 12;
  tamanio_de_memoria = 12;
}

grande-frame : getframe_no_asignado_en_memoria grande ≡ 0
unfolding getframe_no_asignado_en_memoria frame_asignado
grande-frame = refl

inicializar_un_proceso_example :
    (m' : Memoria Swap) × (p : Pagina) × (inicializar_un_proceso 0 5 grande ≡ some m')
    × (m'.todas_las_tablas ≡ record { id = 5; paginas = p ∷ []; last_heap = 0 } ∷ [])
    × (p.frame ≡ getframe_no_asignado_en_memoria grande)
    × (p.pagina ≡ 1)
    × (p.bit_presencia ≡ 1)
    × (get_heap_metadata (p.frame * 12) m'.memoria ≡ some nuevo_heap)
inicializar_un_proceso_example =
    inicializar_un_proceso_lem 0 5 grande refl (omega (arith, grande-frame))

con-llena : (g : ℕ) → g < 2 → frame_asignado g (con (tabla ∷ [])) ≡ true
unfolding frame_asignado list_any_satisfy
con-llena zero h = refl
con-llena (suc zero) h = refl
con-llena (suc (suc g)) h = absurd (omega arith)

getframe_no_asignado_en_memoria-llena_example :
    2 ≤ getframe_no_asignado_en_memoria (con (tabla ∷ []))
getframe_no_asignado_en_memoria-llena_example =
    getframe_no_asignado_en_memoria-llena (con (tabla ∷ [])) con-llena

con-esta : get_pages_by 1 (con (tabla ∷ [])) ≡ some tabla
unfolding get_pages_by list_find
con-esta = refl

suspend_process_example :
    (m' : Memoria Swap) × (suspend_process consola nueves 1 (con (tabla ∷ [])) ≡ some (true, m'))
    × (get_pages_by 1 m' ≡ some (record tabla { paginas = map ausente tabla.paginas }))
    × ((q k : ℕ) → Tiene 4 q k (disco 4) → Tiene 4 q k m'.swamp)
suspend_process_example =
    suspend_process_lem consola nueves 1 tabla (con (tabla ∷ [])) (consola-Contrato 4) refl
      ((omega arith, disco-1), ((omega arith, disco-2), tt)) con-esta

suspend_process-liberar_frame_example :
    (m' : Memoria Swap) × (liberar_frame 0 (con (tabla ∷ [])) ≡ some m')
    × (suspend_process consola nueves 1 m' ≡ none)
suspend_process-liberar_frame_example =
    suspend_process-liberar_frame consola nueves 1 tabla (pagina 1 0 1 4) (pagina 2 1 1 3 ∷ [])
      (con (tabla ∷ [])) (omega arith) refl con-esta refl (omega arith)

-- The TLB has its one place taken.
abbrev tlb_llena : Tlb
tlb_llena = record tlb {
  tlb_list = record { pid = 1; pagina = 1; frame = 0; fifo = 0; lru = 0 } ∷ [];
  metrics_list = record { pid = 1; hits = 0; miss = 0 } ∷ [];
  entrada_fifo = 1;
  tlb_lru_global = 1;
}

tlb_llena-falla : (fetch_entrada_tlb 1 2 tlb_llena).0 ≡ none
unfolding fetch_entrada_tlb
tlb_llena-falla = refl

add_entrada_tlb_example :
    Agregada tlb_llena (new_entrada_tlb 1 2 1 tlb_llena) (add_entrada_tlb 1 2 1 tlb_llena).tlb_list
    × (length (add_entrada_tlb 1 2 1 tlb_llena).tlb_list ≤ 1)
    × ((fetch_entrada_tlb 1 2 (add_entrada_tlb 1 2 1 tlb_llena)).0 ≡ some 1)
add_entrada_tlb_example =
    add_entrada_tlb_lem 1 2 1 tlb_llena (omega arith) (omega arith) tlb_llena-falla

tlb-Medida : Medida tlb
unfolding suma_hits suma_miss veces
tlb-Medida = record {
  hits = refl;
  miss = omega arith;
  con_metrica = tt;
  una = λ q. omega arith;
  cabe = omega arith;
}

abbrev llamadas : List Llamada
llamadas = Llamada.buscar 1 1 ∷ Llamada.agregar 1 1 0 ∷ Llamada.buscar 1 1 ∷ []

hacer_todas-Medida_example :
    Medida (hacer_todas llamadas tlb)
    × ((hacer_todas llamadas tlb).max_tlb_hit + (hacer_todas llamadas tlb).max_tlb_miss
        ≡ tlb.max_tlb_hit + tlb.max_tlb_miss + busquedas llamadas)
hacer_todas-Medida_example =
    hacer_todas-Medida llamadas tlb (omega arith) tlb-Medida
      (λ e. omega (arith, e), (λ e. omega (arith, e), (λ e. omega (arith, e), tt)))

-- Two pages of 12 bytes, with one allocation.
abbrev tabla_corta : Tabla
tabla_corta = record tabla { last_heap = 0 }

abbrev amplia : Memoria Swap
amplia = record (con (tabla_corta ∷ [])) {
  tamanio_de_pagina = 12;
  tamanio_de_memoria = 24;
  swamp = disco 12;
  memoria =
      0 ∷ 0 ∷ 0 ∷ 0 ∷ 0 ∷ 0 ∷ 0 ∷ 0 ∷ 1 ∷ 0 ∷ 0 ∷ 0 ∷ 0 ∷ 0 ∷ 0 ∷ 0 ∷ 0 ∷ 0 ∷ 0 ∷ 0 ∷ 0 ∷ 0 ∷ 0 ∷ 0
      ∷ [];
}

amplia-en_swap : (i f : ℕ) → get_elem? frames i ≡ some f → Tiene 12 1 (suc i) (disco 12)
amplia-en_swap zero f h = disco_12-1
amplia-en_swap (suc zero) f h = disco_12-2
amplia-en_swap (suc (suc i)) f h = cc

amplia-Fija : Fija (Tiene 12) 1 frames 12 amplia.memoria amplia
unfolding list_find
amplia-Fija = record {
  vive = record {
    tabla = tabla_corta;
    esta = refl;
    paginas = paginas_bien;
    ni_una_mas = refl;
    buenas = tt;
  };
  tamanio = refl;
  bytes = refl;
  en_swap = amplia-en_swap;
}

amplia-CabenEn : CabenEn frames 12 amplia.memoria
amplia-CabenEn zero f h = omega (arith, some-injective _ _ h)
amplia-CabenEn (suc zero) f h = omega (arith, some-injective _ _ h)
amplia-CabenEn (suc (suc i)) f h = cc

amplia-esta : get_pages_by 1 amplia ≡ some tabla_corta
unfolding get_pages_by list_find
amplia-esta = refl

amplia-mayor : mayor_nro_de_pagina 0 tabla_corta.paginas ≡ 2
unfolding mayor_nro_de_pagina
amplia-mayor = refl

-- The metadata of the new allocation is from 12 to 20.
alloc_al_final_example :
    (m' m'' m3 : Memoria Swap) × (alloc_al_final consola 0 1 3 amplia
      ≡ some (0, con_last_heap 1 12 m'))
    × (read_from_memory consola 0 1 12 9 m' ≡ some (ultimo_heap 0, m''))
    × (read_from_memory consola 0 1 4 5 m' ≡ some (siguiente_y_estado 12, m3))
alloc_al_final_example =
    alloc_al_final_lem consola 0 1 frames 12 amplia.memoria 3 tabla_corta amplia
      (consola-Contrato 12) frames-Distintos amplia-Fija amplia-CabenEn (omega arith) amplia-esta
      amplia-mayor (omega arith)
