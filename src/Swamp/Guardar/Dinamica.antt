-- ===== src/Swamp/Guardar/Dinamica.antt =====
-- guardar_pagina_asignacion_dinamica of swamp/src/swap.c, for a process that has pages in swap.
use mathlib.Core.Option.{some-injective}
use tp_sistemas_operativos.Base.{
  ℕ, ◌+◌, ◌≤◌, ◌<◌, ◌≡◌, refl, sym, ap, subst, ◌⊎◌, ◌∙◌, List, [], ◌∷◌, ◌++◌, some, arith, length,
  true, false, inl, inr, get_elem?, lt→ltb, le→ltb, dec_lt, length-append,
}
use tp_sistemas_operativos.Swamp.Tabla.{
  Fila, libre, get_frame_number, get_first_free_frame_number, pagina_esta_en_swap,
  tabla_paginas_size,
}
use tp_sistemas_operativos.Swamp.Tabla.Busqueda.{
  esta-get_frame_number, get_frame_number-append, get_frame_number-append_nuevo,
  get_frame_number_inj, primer_libre_lleno,
}
use tp_sistemas_operativos.Swamp.Archivos.{Nodo, Swap, dictionary_get, frames_count}
use tp_sistemas_operativos.Swamp.Archivos.Lectura.{leer, leer-write_at_otro}
use tp_sistemas_operativos.Swamp.Guardar.{
  obtener_pagina, guardar_dinamica_en, guardar_pagina_asignacion_dinamica, fila,
}
use tp_sistemas_operativos.Swamp.Guardar.Escribir.{
  TodosOk, EnSwap, escrito, nodo_escrito, escribir_lem, obtener-escrito, obtener-escrito_otra,
  obtener_pagina_lem, escrito-nodo, escrito-TodosOk,
}
use tp_sistemas_operativos.Swamp.Guardar.Fija.{Guardada}

module _ (s : Swap) (p g i : ℕ) (n : Nodo) (c : List ℕ) (d : dictionary_get p s.swap_dict ≡ some i)
    (h : get_elem? s.swap_list i ≡ some n) (ok : TodosOk s) (e : length c ≡ s.swap_page_size) where
  en_eq : guardar_pagina_asignacion_dinamica s p g c ≡ guardar_dinamica_en s p g c i
  unfolding guardar_pagina_asignacion_dinamica
  en_eq = rw (d, guardar_pagina_asignacion_dinamica)

  tabla : List Fila
  tabla = n.tabla_paginas ++ (fila p g ∷ [])

  primero : ℕ
  primero = get_first_free_frame_number n.tabla_paginas p

  largo : length tabla ≡ length n.tabla_paginas + 1
  unfolding tabla
  largo = length-append n.tabla_paginas (fila p g ∷ [])

  -- What the call does with a new page while the file has frames free.
  nueva_eq :
      pagina_esta_en_swap n.tabla_paginas p g ≡ false
      → tabla_paginas_size n.tabla_paginas < frames_count s
      → primero < frames_count s
      → guardar_pagina_asignacion_dinamica s p g c ≡ some (escrito s i n primero c tabla, 1)
  unfolding guardar_dinamica_en primero tabla
  nueva_eq no_esta lugar cabe =
      en_eq
      ∙ rw (h, no_esta, lt→ltb (tabla_paginas_size n.tabla_paginas) (frames_count s) lugar)
          (escribir_lem s i n primero c tabla e cabe (ok i n h).bytes)

  -- The state after a save of a page that is in the table.
  pub dinamica_sobreescribe :
      pagina_esta_en_swap n.tabla_paginas p g ≡ true
      → get_frame_number n.tabla_paginas p g < length n.tabla_paginas
      → guardar_pagina_asignacion_dinamica s p g c
        ≡ some (escrito s i n (get_frame_number n.tabla_paginas p g) c n.tabla_paginas, 1)
  unfolding guardar_dinamica_en
  dinamica_sobreescribe esta dentro =
      en_eq
      ∙ rw (h, esta)
          (escribir_lem s i n (get_frame_number n.tabla_paginas p g) c n.tabla_paginas e
            (omega (arith, dentro, (ok i n h).filas)) (ok i n h).bytes)

  sobreescrita :
      pagina_esta_en_swap n.tabla_paginas p g ≡ true
      → get_frame_number n.tabla_paginas p g < length n.tabla_paginas
      → Guardada s p g c (guardar_pagina_asignacion_dinamica s p g c)
  sobreescrita esta dentro = record {
    despues = escrito s i n frame c n.tabla_paginas;
    devuelve = dinamica_sobreescribe esta dentro;
    leida = obtener-escrito s p g i n frame c n.tabla_paginas d h ok (ok i n h).filas e dentro refl;
    ajenas = λ q k j m en otra _.
        obtener-escrito_otra s q k i j n m frame c n.tabla_paginas h en ok (ok i n h).filas
          (omega arith) e
          (λ _. (refl, λ x. otra (get_frame_number_inj n.tabla_paginas p g q k dentro x)));
  }
    where
      frame : ℕ
      frame = get_frame_number n.tabla_paginas p g

  al_final :
      pagina_esta_en_swap n.tabla_paginas p g ≡ false
      → get_frame_number n.tabla_paginas p g ≡ length n.tabla_paginas
      → tabla_paginas_size n.tabla_paginas < frames_count s
      → primero ≡ length n.tabla_paginas
      → tabla_paginas_size n.tabla_paginas ≡ length n.tabla_paginas
      → Guardada s p g c (guardar_pagina_asignacion_dinamica s p g c)
  unfolding tabla
  al_final no_esta falta lugar final llena = record {
    despues = escrito s i n primero c tabla;
    devuelve = nueva_eq no_esta lugar (omega (arith, final, llena));
    leida =
        obtener-escrito s p g i n primero c tabla d h ok (omega (arith, largo, llena)) e
          (omega (arith, largo, final))
          (get_frame_number-append_nuevo n.tabla_paginas [] p g falta ∙ sym final);
    ajenas = λ q k j m en otra _.
        obtener-escrito_otra s q k i j n m primero c tabla h en ok (omega (arith, largo, llena))
          (omega (arith, largo)) e
          (λ ij.
            let mn = en_mismo q k j m en ij in
            (
              get_frame_number-append n.tabla_paginas (fila p g ∷ []) q k mn,
              omega (arith, mn, final),
            ));
  }
    where
      en_mismo :
          (q k j : ℕ) (m : Nodo)
          → EnSwap s q k j m
          → i ≡ j
          → get_frame_number n.tabla_paginas q k < length n.tabla_paginas
      en_mismo q k j m en ij =
          let mn : m ≡ n = some-injective _ _ (sym en.nodo ∙ rw (← ij) h) in
          subst (λ (x : Nodo). get_frame_number x.tabla_paginas q k < length x.tabla_paginas) mn
            en.hallada

  -- Dynamic assignment, for a process that the dictionary takes to a file with no freed row and no
  -- row reserved for the process, with all tables fitting their files and a content of one page. If
  -- the page is in the table, or the file has a frame left, the call returns 1, the page reads back
  -- as given and every other page in swap reads as before; otherwise it returns 0 and the state is
  -- unchanged.
  pub guardar_pagina_asignacion_dinamica_lem :
      tabla_paginas_size n.tabla_paginas ≡ length n.tabla_paginas
      → pagina_esta_en_swap n.tabla_paginas p libre ≡ false
      → (((pagina_esta_en_swap n.tabla_paginas p g ≡ true)
            ⊎ (tabla_paginas_size n.tabla_paginas < frames_count s))
          × Guardada s p g c (guardar_pagina_asignacion_dinamica s p g c))
        ⊎ ((pagina_esta_en_swap n.tabla_paginas p g ≡ false)
            × (frames_count s ≤ tabla_paginas_size n.tabla_paginas)
            × (guardar_pagina_asignacion_dinamica s p g c ≡ some (s, 0)))
  unfolding guardar_dinamica_en primero
  guardar_pagina_asignacion_dinamica_lem llena sin_reserva =
      elim (esta-get_frame_number n.tabla_paginas p g) [
        | inl (esta, dentro) ↦ inl (inl esta, sobreescrita esta dentro)
        | inr (no_esta, falta) ↦
            elim (dec_lt (tabla_paginas_size n.tabla_paginas) (frames_count s)) [
              | yes lugar ↦ inl (
                inr lugar,
                al_final no_esta falta lugar
                    (primer_libre_lleno n.tabla_paginas p llena sin_reserva) llena,
              )
              | no lleno ↦ inr (
                no_esta,
                omega arith,
                en_eq
                    ∙ rw (
                      h,
                      no_esta,
                      le→ltb (tabla_paginas_size n.tabla_paginas) (frames_count s) (omega arith),
                    ),
              )
            ]
      ]

  -- Dynamic assignment, for a process that the dictionary takes to a file where the first free
  -- frame comes before the end of the table and with a frame left after it, with all tables fitting
  -- their files and a content of one page. Saving a page that is not in the table returns 1, and
  -- the page then reads back as the frame after the last row was before the call.
  pub dinamica_tras_finalizar :
      pagina_esta_en_swap n.tabla_paginas p g ≡ false
      → get_first_free_frame_number n.tabla_paginas p < length n.tabla_paginas
      → tabla_paginas_size n.tabla_paginas < frames_count s
      → length n.tabla_paginas < frames_count s
      → (s' : Swap) × (guardar_pagina_asignacion_dinamica s p g c ≡ some (s', 1))
        × (obtener_pagina s' p g ≡ some (leer s.swap_page_size n.archivo (length n.tabla_paginas)))
  unfolding primero tabla
  dinamica_tras_finalizar no_esta hueco lugar cabe =
      elim (esta-get_frame_number n.tabla_paginas p g) [
        | inl (esta, _) ↦ cc (esta, no_esta)
        | inr (_, falta) ↦
            let x : get_frame_number tabla p g ≡ length n.tabla_paginas =
              get_frame_number-append_nuevo n.tabla_paginas [] p g falta in
            let nodo = escrito-nodo s i n n primero c tabla h in
            (
              escrito s i n primero c tabla,
              nueva_eq no_esta lugar (omega (arith, hueco, cabe)),
              obtener_pagina_lem (escrito s i n primero c tabla) p g i
                    (nodo_escrito s n primero c tabla)
                    (record { clave = d; nodo = nodo; hallada = omega (arith, x, largo) })
                    (escrito-TodosOk s i n primero c tabla h (omega (arith, largo)) ok i
                      (nodo_escrito s n primero c tabla) nodo)
                  ∙ rw x (
                      ap some (
                        leer-write_at_otro n.archivo s.swap_page_size primero
                          (length n.tabla_paginas) c e (omega (arith, hueco)))),
            )
      ]
