-- ===== src/Swamp/Guardar/Primera.antt =====
-- guardar_pagina_asignacion_fija of swamp/src/swap.c, for the first page of a process.
use mathlib.Core.Option.{some-injective}
use tp_sistemas_operativos.Base.{
  ℕ, suc, ◌≤◌, ◌<◌, ◌≡◌, ◌≢◌, sym, subst, ◌⊎◌, ◌∙◌, List, none, some, arith, length, inl, inr,
  get_elem?, lt→ltb, le→ltb, ne→==, dec_lt, ==_refl,
}
use tp_sistemas_operativos.Swamp.Tabla.{Fila, libre, get_frame_number, get_first_free_frame_number}
use tp_sistemas_operativos.Swamp.Tabla.Busqueda.{Ausente}
use tp_sistemas_operativos.Swamp.Tabla.Bloques.{procesos, bloques}
use tp_sistemas_operativos.Swamp.Archivos.{
  Nodo, Swap, dictionary_get, dictionary_put, frames_count, swap_file_menos_ocupado,
}
use tp_sistemas_operativos.Swamp.Archivos.Lectura.{dictionary_get-put}
use tp_sistemas_operativos.Swamp.Archivos.MenosOcupado.{libres, swap_file_menos_ocupado_lem}
use tp_sistemas_operativos.Swamp.Guardar.{
  asignar_fija, guardar_pagina_asignacion_fija, reservar_bloque,
}
use tp_sistemas_operativos.Swamp.Guardar.Escribir.{
  TodosOk, EnSwap, escrito, escribir_lem, obtener_pagina_lem, obtener-escrito, obtener-escrito_otra,
}
use tp_sistemas_operativos.Swamp.Guardar.Fija.{Guardada}
use tp_sistemas_operativos.Swamp.Guardar.Reservar.{Bloque, reservar_bloque_lem}

-- The state under fixed assignment, with `k + 2` frames for each process: tables of whole blocks
-- that fit their files, and no rows of a process that the dictionary does not know.
pub record Fijo (k : ℕ) (s : Swap) : Type 0 where
  pub marcos : s.marcos_por_carpincho ≡ suc (suc k)
  pub todos : TodosOk s
  pub en_bloques :
      (i : ℕ) (n : Nodo)
      → get_elem? s.swap_list i ≡ some n
      → (ds : List ℕ) × (procesos n.tabla_paginas ≡ bloques (suc (suc k)) ds)
  pub ausentes :
      (p i : ℕ) (n : Nodo)
      → p ≢ libre
      → dictionary_get p s.swap_dict ≡ none
      → get_elem? s.swap_list i ≡ some n
      → Ausente p n.tabla_paginas
  pub reales : dictionary_get libre s.swap_dict ≡ none

abbrev con_clave : Swap → ℕ → ℕ → Swap
con_clave s p i = record s { swap_dict = dictionary_put p i s.swap_dict }

module _ (k : ℕ) (s : Swap) (p g : ℕ) (c : List ℕ) (fijo : Fijo k s) (real : p ≢ libre)
    (d : dictionary_get p s.swap_dict ≡ none) (e : length c ≡ s.swap_page_size) where
  module _ (i : ℕ) (n : Nodo) (elegido : swap_file_menos_ocupado s ≡ some i)
      (h : get_elem? s.swap_list i ≡ some n) where
    asignar_eq : guardar_pagina_asignacion_fija s p g c ≡ asignar_fija s p g c i
    unfolding guardar_pagina_asignacion_fija
    asignar_eq = rw (d, guardar_pagina_asignacion_fija, elegido)

    ausente : Ausente p n.tabla_paginas
    ausente = fijo.ausentes p i n real d h

    frame : ℕ
    frame = get_first_free_frame_number n.tabla_paginas p

    tabla : List Fila
    unfolding frame
    tabla = reservar_bloque s.marcos_por_carpincho frame p g n.tabla_paginas

    bloque : Bloque k p g n.tabla_paginas frame tabla
    unfolding tabla frame
    bloque =
        let (ds, b) = fijo.en_bloques i n h in
        subst
          (λ m. Bloque k p g n.tabla_paginas frame (reservar_bloque m frame p g n.tabla_paginas))
          (sym fijo.marcos) (reservar_bloque_lem k p g n.tabla_paginas ds ausente b)

    todos' : TodosOk (con_clave s p i)
    todos' j m x = let o = fijo.todos j m x in record { filas = o.filas; bytes = o.bytes }

    clave : dictionary_get p (con_clave s p i).swap_dict ≡ some i
    clave = dictionary_get-put p p i s.swap_dict ∙ rw (==_refl p)

    en_swap' : (q j : ℕ) (m : Nodo) (pg : ℕ) → EnSwap s q pg j m → EnSwap (con_clave s p i) q pg j m
    en_swap' q j m pg en = record {
      clave = dictionary_get-put p q i s.swap_dict ∙ rw (ne→== p q (otro q j en.clave)) en.clave;
      nodo = en.nodo;
      hallada = en.hallada;
    }
      where
        otro : (q j : ℕ) → dictionary_get q s.swap_dict ≡ some j → p ≢ q
        otro q j x pq = cc (subst (λ z. dictionary_get z s.swap_dict ≡ none) pq d)

    lugar : suc (suc k) ≤ libres (frames_count s) n → length tabla ≤ frames_count s
    lugar l = elim bloque.largo [
      | inl x ↦ omega arith
      | inr x ↦ omega (arith, (fijo.todos i n h).filas)
    ]

    asignada :
        suc (suc k) ≤ libres (frames_count s) n
        → Guardada s p g c (guardar_pagina_asignacion_fija s p g c)
    unfolding asignar_fija
    asignada l = record {
      despues = escrito (con_clave s p i) i n frame c tabla;
      devuelve =
          asignar_eq
          ∙ rw
              (
                h,
                le→ltb (libres (frames_count s) n) s.marcos_por_carpincho
                    (omega (arith, fijo.marcos)),
              )
              (unfold tabla frame in
                escribir_lem (con_clave s p i) i n frame c tabla e
                  (omega (arith, bloque.dentro, lugar l)) (fijo.todos i n h).bytes);
      leida =
          obtener-escrito (con_clave s p i) p g i n frame c tabla clave h todos' (lugar l) e
            bloque.dentro bloque.hallada;
      ajenas = λ q pg j m en _ _.
          let en' = en_swap' q j m pg en in
          obtener-escrito_otra (con_clave s p i) q pg i j n m frame c tabla h en' todos' (lugar l)
            bloque.crece e (ajena q pg j m en)
          ∙ obtener_pagina_lem (con_clave s p i) q pg j m en' (todos' j m en.nodo)
          ∙ sym (obtener_pagina_lem s q pg j m en (fijo.todos j m en.nodo));
    }
      where
        ajena :
            (q pg j : ℕ) (m : Nodo)
            → EnSwap s q pg j m
            → i ≡ j
            → (get_frame_number tabla q pg ≡ get_frame_number n.tabla_paginas q pg)
              × (frame ≢ get_frame_number n.tabla_paginas q pg)
        ajena q pg j m en ij =
            let mn : m ≡ n = some-injective _ _ (sym en.nodo ∙ rw (← ij) h) in
            bloque.ajenas q pg
              (λ pq. cc (subst (λ z. dictionary_get z s.swap_dict ≡ none) pq d, en.clave))
              (λ lq. cc (subst (λ z. dictionary_get z s.swap_dict ≡ none) lq fijo.reales, en.clave))
              (subst (λ (x : Nodo). get_frame_number x.tabla_paginas q pg < length x.tabla_paginas)
                mn en.hallada)

  -- Fixed assignment with two or more frames for each process, for a process other than 9999 that
  -- is not in the dictionary, in a state where 9999 is no key either, of tables of whole blocks
  -- that fit their files with no rows of unknown processes, and a content of one page. Either the
  -- least used file has the frames of a process free, and the call returns 1, the page reads back
  -- as given and every other page in swap reads as before; or every file has fewer frames free, and
  -- the call returns 0 and the state is unchanged.
  pub guardar_pagina_asignacion_fija_primera :
      ((i : ℕ) × (n : Nodo) × (swap_file_menos_ocupado s ≡ some i)
        × (get_elem? s.swap_list i ≡ some n)
        × (s.marcos_por_carpincho ≤ libres (frames_count s) n)
        × Guardada s p g c (guardar_pagina_asignacion_fija s p g c))
      ⊎ ((guardar_pagina_asignacion_fija s p g c ≡ some (s, 0))
          × ((i : ℕ) (n : Nodo)
              → get_elem? s.swap_list i ≡ some n
              → libres (frames_count s) n < s.marcos_por_carpincho))
  unfolding asignar_fija guardar_pagina_asignacion_fija
  guardar_pagina_asignacion_fija_primera = elim (swap_file_menos_ocupado_lem s) [
    | inl (r, t) ↦
        inr
          (rw (d, guardar_pagina_asignacion_fija, r), λ i n x. omega (arith, t i n x, fijo.marcos))
    | inr (i, n, r, h, z, t) ↦ elim (dec_lt (libres (frames_count s) n) (suc (suc k))) [
      | yes poco ↦ inr (
        asignar_eq i n r h
            ∙ rw (
              h,
              lt→ltb (libres (frames_count s) n) s.marcos_por_carpincho
                  (omega (arith, poco, fijo.marcos)),
            ),
        λ j m x. omega (arith, t j m x, fijo.marcos),
      )
      | no alcanza ↦ inl (i, n, r, h, omega (arith, fijo.marcos), asignada i n r h (omega arith))
    ]
  ]
