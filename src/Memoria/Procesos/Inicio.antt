-- ===== src/Memoria/Procesos/Inicio.antt =====
-- memoria/src/memory_utils.c: the frame of a new process, and its first page with a dynamic
-- assignment.
use tp_sistemas_operativos.Base.{
  ℕ, suc, ◌+◌, ◌*◌, ◌<◌, ◌≤◌, ◌≡◌, ◌⊎◌, inl, inr, refl, sym, ap, subst, ◌∙◌, Bool, true, false,
  List, [], ◌∷◌, ◌++◌, none, some, ◌==◌, if◌then◌else◌, arith, length, list_any_satisfy, ◌>>=◌,
  Bool-cases, dec_lt,
}
use tp_sistemas_operativos.Memoria.Estado.{
  busy, Pagina, Tabla, Memoria, de_proceso, paginas_de, frames_totales,
}
use tp_sistemas_operativos.Memoria.Marcos.{
  primer_frame, frame_asignado, getframe_no_asignado_en_memoria,
}
use tp_sistemas_operativos.Memoria.Marcos.Libre.{primer_frame_lem}
use tp_sistemas_operativos.Memoria.Heap.{get_heap_metadata}
use tp_sistemas_operativos.Memoria.Heap.Metadatos.{get-set_heap_metadata}
use tp_sistemas_operativos.Memoria.Procesos.{
  nuevo_heap, agregar_en_ultima, agregar_inicial, agregar_primera, cargar_paginas,
  inicializar_un_proceso,
}

module _ {S : Type 0} where
  -- The frames below the one that is given all have pages, and it has none unless it is past the
  -- limit of the search.
  pub getframe_no_asignado_en_memoria_lem :
      (m : Memoria S)
      → ((g : ℕ) → g < getframe_no_asignado_en_memoria m → frame_asignado g m ≡ true)
        × (((getframe_no_asignado_en_memoria m ≤ frames_totales m)
              × (frame_asignado (getframe_no_asignado_en_memoria m) m ≡ false))
            ⊎ (getframe_no_asignado_en_memoria m ≡ suc (frames_totales m)))
  unfolding getframe_no_asignado_en_memoria
  getframe_no_asignado_en_memoria_lem m =
      let p : ℕ → Bool = λ f. if frame_asignado f m then false else true in
      elim (primer_frame_lem p (suc (frames_totales m)) 0) [
        | inl (f, e, a, b, c, min) ↦
            rw (e, getframe_no_asignado_en_memoria)
              (λ g l. asignado g m (min g (omega arith) l), inl (omega arith, libre f m c))
        | inr (e, min) ↦
            rw (e, getframe_no_asignado_en_memoria)
              (λ g l. asignado g m (min g (omega arith) (omega arith)), inr refl)
      ]
    where
      asignado :
          (g : ℕ) (m : Memoria S)
          → (if frame_asignado g m then false else true) ≡ false
          → frame_asignado g m ≡ true
      asignado g m h = elim (Bool-cases (frame_asignado g m)) [
        | inl y ↦ y
        | inr y ↦ (let z = rw y at h in cc)
      ]

      libre :
          (g : ℕ) (m : Memoria S)
          → (if frame_asignado g m then false else true) ≡ true
          → frame_asignado g m ≡ false
      libre g m h = elim (Bool-cases (frame_asignado g m)) [
        | inl y ↦ (let z = rw y at h in cc)
        | inr y ↦ y
      ]

  -- When every frame of the memory has a page, the number that getframeNoAsignadoEnMemoria gives is
  -- past the frames of the memory.
  pub getframe_no_asignado_en_memoria-llena :
      (m : Memoria S)
      → ((g : ℕ) → g < frames_totales m → frame_asignado g m ≡ true)
      → frames_totales m ≤ getframe_no_asignado_en_memoria m
  getframe_no_asignado_en_memoria-llena m h =
      elim (dec_lt (getframe_no_asignado_en_memoria m) (frames_totales m)) [
        | yes l ↦ elim (getframe_no_asignado_en_memoria_lem m).1 [
          | inl (_, n) ↦ (let y = h (getframe_no_asignado_en_memoria m) l in cc)
          | inr e ↦ absurd (omega (arith, l, e))
        ]
        | no n ↦ omega arith
      ]

-- A table with no page adds none.
paginas_de-vacia :
    (ts : List Tabla) (t : Tabla) → t.paginas ≡ [] → paginas_de (ts ++ (t ∷ [])) ≡ paginas_de ts
paginas_de-vacia [] t e = ap (λ ps. de_proceso t.id ps ++ []) e
paginas_de-vacia (u ∷ ts) t e = ap (λ ps. de_proceso u.id u.paginas ++ ps) (paginas_de-vacia ts t e)

agregar_en_ultima-append :
    (p : Pagina) (ts : List Tabla) (t : Tabla)
    → agregar_en_ultima p (ts ++ (t ∷ []))
      ≡ ts ++ (record t { paginas = t.paginas ++ (p ∷ []) } ∷ [])
unfolding agregar_en_ultima
agregar_en_ultima-append p [] t = refl
agregar_en_ultima-append p (u ∷ []) t = refl
agregar_en_ultima-append p (u ∷ v ∷ ts) t = ap (λ r. u ∷ r) (agregar_en_ultima-append p (v ∷ ts) t)

-- The frame that the search gives, from the pages alone.
abbrev frame_nuevo : List (ℕ × Pagina) → ℕ → ℕ
unfolding primer_frame
frame_nuevo ps total =
    elim (primer_frame
      (λ f. if list_any_satisfy (λ (x : ℕ × Pagina). x.1.frame == f) ps then false else true)
      (suc total) 0) [ none ↦ suc total | some f ↦ f ]

module _ {S : Type 0} where
  abbrev con_tabla_nueva : ℕ → Memoria S → Memoria S
  con_tabla_nueva pid m = record m {
    todas_las_tablas =
        m.todas_las_tablas ++ (record { id = pid; paginas = []; last_heap = 0 } ∷ []);
  }

  frame-con_tabla_nueva :
      (pid : ℕ) (m : Memoria S)
      → getframe_no_asignado_en_memoria (con_tabla_nueva pid m) ≡ getframe_no_asignado_en_memoria m
  unfolding getframe_no_asignado_en_memoria frame_asignado frame_nuevo
  frame-con_tabla_nueva pid m =
      ap (λ ps. frame_nuevo ps (frames_totales m))
        (paginas_de-vacia m.todas_las_tablas (record { id = pid; paginas = []; last_heap = 0 })
          refl)

  -- Dynamic assignment, with nine bytes in the memory from the frame on that
  -- getframeNoAsignadoEnMemoria gives. Starting a process always ends: the tables are followed by
  -- one of the process, with the page 1, present, in that frame, and at the start of the frame
  -- stands the metadata of one free allocation with nothing before or after it.
  pub inicializar_un_proceso_lem :
      (basura pid : ℕ) (m : Memoria S)
      → m.asignacion_dinamica ≡ true
      → getframe_no_asignado_en_memoria m * m.tamanio_de_pagina + 9 ≤ length m.memoria
      → (m' : Memoria S) × (p : Pagina) × (inicializar_un_proceso basura pid m ≡ some m')
        × (m'.todas_las_tablas
            ≡ m.todas_las_tablas ++ (record { id = pid; paginas = p ∷ []; last_heap = 0 } ∷ []))
        × (p.frame ≡ getframe_no_asignado_en_memoria m)
        × (p.pagina ≡ 1)
        × (p.bit_presencia ≡ 1)
        × (get_heap_metadata (p.frame * m.tamanio_de_pagina) m'.memoria ≡ some nuevo_heap)
  unfolding inicializar_un_proceso agregar_primera agregar_inicial getframe_no_asignado_en_memoria
      frame_asignado
  inicializar_un_proceso_lem basura pid m y h =
      let m1 = con_tabla_nueva pid m in
      let e = frame-con_tabla_nueva pid m in
      let (mem, s, _, g) =
        get-set_heap_metadata nuevo_heap (getframe_no_asignado_en_memoria m1 * m.tamanio_de_pagina)
          m.memoria (omega arith) (omega arith) (omega arith)
          (subst (λ k. k * m.tamanio_de_pagina + 9 ≤ length m.memoria) (sym e) h) in
      let m2 : Memoria S = record m1 { memoria = mem } in
      let p : Pagina = record {
        frame = getframe_no_asignado_en_memoria m2;
        pagina = 1;
        isfree = busy;
        bit_presencia = 1;
        bit_uso = 1;
        bit_modificado = 1;
        lru = suc m.lru_actual;
      } in
      (
        agregar_inicial 1 busy 1 1 m2,
        p,
        ap
              (λ b.
                if b
                then agregar_primera 1 1 m1
                else cargar_paginas basura m.cantidad_de_paginas_por_proceso 0 m1)
              y
            ∙ ap
                (λ o. o >>= λ memoria.
                  some (agregar_inicial 1 busy 1 1 (record m1 { memoria = memoria })))
                s,
        agregar_en_ultima-append p m.todas_las_tablas
            (record { id = pid; paginas = []; last_heap = 0 }),
        e,
        refl,
        refl,
        g,
      )
