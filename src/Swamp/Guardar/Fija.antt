-- ===== src/Swamp/Guardar/Fija.antt =====
-- guardar_pagina_asignacion_fija of swamp/src/swap.c, for a process that has pages in swap.
use tp_sistemas_operativos.Base.{
  ℕ, ◌≤◌, ◌<◌, ◌≡◌, ◌≢◌, refl, sym, ◌⊎◌, ◌∙◌, List, some, arith, length, true, false, ne→==, inl,
  inr, get_elem?, set, length-set, set_past,
}
use tp_sistemas_operativos.Swamp.Tabla.{
  Fila, libre, get_frame_number, pagina_esta_en_swap, tabla_paginas_size,
}
use tp_sistemas_operativos.Swamp.Tabla.Busqueda.{
  esta-get_frame_number, get_frame_number_inj, get_frame_number-set_reservado,
  get_frame_number-set_otro,
}
use tp_sistemas_operativos.Swamp.Archivos.{Nodo, Swap, dictionary_get, frames_count}
use tp_sistemas_operativos.Swamp.Guardar.{
  Resultado, obtener_pagina, guardar_fija_en, guardar_pagina_asignacion_fija, fila,
}
use tp_sistemas_operativos.Swamp.Guardar.Escribir.{
  TodosOk, EnSwap, escrito, escribir_lem, obtener-escrito, obtener-escrito_otra,
}

-- The call saved the page: it returned 1, the page reads back as it was given, and every other
-- page in swap reads as before.
pub record Guardada (s : Swap) (p g : ℕ) (c : List ℕ) (r : Resultado) : Type 0 where
  pub despues : Swap
  pub devuelve : r ≡ some (despues, 1)
  pub leida : obtener_pagina despues p g ≡ some c
  pub ajenas :
      (q k j : ℕ) (m : Nodo)
      → EnSwap s q k j m
      → ¬ ((p ≡ q) × (g ≡ k))
      → k ≢ libre
      → obtener_pagina despues q k ≡ obtener_pagina s q k

module _ (s : Swap) (p g i : ℕ) (n : Nodo) (c : List ℕ) (d : dictionary_get p s.swap_dict ≡ some i)
    (h : get_elem? s.swap_list i ≡ some n) (ok : TodosOk s) (e : length c ≡ s.swap_page_size) where
  guardar_eq : guardar_pagina_asignacion_fija s p g c ≡ guardar_fija_en s p g c i
  unfolding guardar_pagina_asignacion_fija
  guardar_eq = rw (d, guardar_pagina_asignacion_fija)

  -- The state after a save of a page that is in the table.
  pub fija_sobreescribe :
      pagina_esta_en_swap n.tabla_paginas p g ≡ true
      → get_frame_number n.tabla_paginas p g < length n.tabla_paginas
      → guardar_pagina_asignacion_fija s p g c
        ≡ some (escrito s i n (get_frame_number n.tabla_paginas p g) c n.tabla_paginas, 1)
  unfolding guardar_fija_en
  fija_sobreescribe esta dentro =
      guardar_eq
      ∙ rw (h, esta)
          (escribir_lem s i n (get_frame_number n.tabla_paginas p g) c n.tabla_paginas e
            (omega (arith, dentro, (ok i n h).filas)) (ok i n h).bytes)

  -- The page is there already: its frame is written again.
  sobreescrita :
      pagina_esta_en_swap n.tabla_paginas p g ≡ true
      → get_frame_number n.tabla_paginas p g < length n.tabla_paginas
      → Guardada s p g c (guardar_pagina_asignacion_fija s p g c)
  sobreescrita esta dentro = record {
    despues = escrito s i n frame c n.tabla_paginas;
    devuelve = fija_sobreescribe esta dentro;
    leida = obtener-escrito s p g i n frame c n.tabla_paginas d h ok (ok i n h).filas e dentro refl;
    ajenas = λ q k j m en otra _.
        obtener-escrito_otra s q k i j n m frame c n.tabla_paginas h en ok (ok i n h).filas
          (omega arith) e
          (λ _. (refl, λ x. otra (get_frame_number_inj n.tabla_paginas p g q k dentro x)));
  }
    where
      frame : ℕ
      frame = get_frame_number n.tabla_paginas p g

  -- A new page takes a frame that is reserved for its process.
  en_reservado :
      pagina_esta_en_swap n.tabla_paginas p g ≡ false
      → get_frame_number n.tabla_paginas p g ≡ length n.tabla_paginas
      → get_frame_number n.tabla_paginas p libre < length n.tabla_paginas
      → get_frame_number n.tabla_paginas p libre ≢ tabla_paginas_size n.tabla_paginas
      → Guardada s p g c (guardar_pagina_asignacion_fija s p g c)
  unfolding guardar_fija_en
  en_reservado no_esta falta dentro ne = record {
    despues = escrito s i n frame c tabla;
    devuelve =
        guardar_eq
        ∙ rw (h, no_esta, ne→== _ _ ne)
            (escribir_lem s i n frame c tabla e (omega (arith, dentro, (ok i n h).filas))
              (ok i n h).bytes);
    leida =
        obtener-escrito s p g i n frame c tabla d h ok entra e (omega (arith, dentro, largo))
          (get_frame_number-set_reservado n.tabla_paginas p g libre dentro falta);
    ajenas = λ q k j m en otra no_libre.
        obtener-escrito_otra s q k i j n m frame c tabla h en ok entra (omega (arith, largo)) e
          (λ _. (
            get_frame_number-set_otro n.tabla_paginas p g libre q k otra (λ x. no_libre (sym x.1)),
            λ x. no_libre (sym (get_frame_number_inj n.tabla_paginas p libre q k dentro x).1),
          ));
  }
    where
      frame : ℕ
      frame = get_frame_number n.tabla_paginas p libre

      tabla : List Fila
      tabla = set n.tabla_paginas frame (fila p g)

      largo : length tabla ≡ length n.tabla_paginas
      largo = length-set n.tabla_paginas frame (fila p g)

      entra : length tabla ≤ frames_count s
      entra = omega (arith, largo, (ok i n h).filas)

  -- Fixed assignment, for a process that the dictionary takes to a file with no freed row, with all
  -- tables fitting their files and a content of one page. If the page is in the table, or a
  -- reserved row of the process is left, the call returns 1, the page reads back as given and every
  -- other page in swap reads as before; otherwise it returns 0 and the state is unchanged.
  pub guardar_pagina_asignacion_fija_lem :
      tabla_paginas_size n.tabla_paginas ≡ length n.tabla_paginas
      → (((pagina_esta_en_swap n.tabla_paginas p g ≡ true)
            ⊎ (pagina_esta_en_swap n.tabla_paginas p libre ≡ true))
          × Guardada s p g c (guardar_pagina_asignacion_fija s p g c))
        ⊎ ((pagina_esta_en_swap n.tabla_paginas p g ≡ false)
            × (pagina_esta_en_swap n.tabla_paginas p libre ≡ false)
            × (guardar_pagina_asignacion_fija s p g c ≡ some (s, 0)))
  unfolding guardar_fija_en
  guardar_pagina_asignacion_fija_lem llena = elim (esta-get_frame_number n.tabla_paginas p g) [
    | inl (esta, dentro) ↦ inl (inl esta, sobreescrita esta dentro)
    | inr (no_esta, falta) ↦ elim (esta-get_frame_number n.tabla_paginas p libre) [
      | inl (esta, dentro) ↦
          inl (inr esta, en_reservado no_esta falta dentro (omega (arith, dentro, llena)))
      | inr (ninguno, fin) ↦
          inr (no_esta, ninguno, guardar_eq ∙ rw (h, no_esta) (ground (arith, fin, llena)))
    ]
  ]

  -- Fixed assignment, for a process that the dictionary takes to a file with a freed row and with
  -- fewer rows than frames, with all tables fitting their files and a content of one page. If the
  -- page is not in the table and no reserved row of the process is left, the call returns 1 all the
  -- same: it writes the frame after the last row and leaves the table as it was.
  pub guardar_fija_sin_lugar :
      pagina_esta_en_swap n.tabla_paginas p g ≡ false
      → pagina_esta_en_swap n.tabla_paginas p libre ≡ false
      → tabla_paginas_size n.tabla_paginas < length n.tabla_paginas
      → length n.tabla_paginas < frames_count s
      → (guardar_pagina_asignacion_fija s p g c
          ≡ some (escrito s i n (length n.tabla_paginas) c n.tabla_paginas, 1))
  unfolding guardar_fija_en
  guardar_fija_sin_lugar no_esta ninguno huecos lugar =
      elim (esta-get_frame_number n.tabla_paginas p libre) [
        | inl (esta, _) ↦ absurd (cc esta)
        | inr (_, fin) ↦
            guardar_eq
            ∙ rw
                (
                  h,
                  no_esta,
                  fin,
                  ne→== (length n.tabla_paginas) (tabla_paginas_size n.tabla_paginas)
                      (omega (arith, huecos)),
                )
                (rw (set_past n.tabla_paginas (length n.tabla_paginas) (fila p g) (omega arith)) (
                  escribir_lem s i n (length n.tabla_paginas) c n.tabla_paginas e lugar
                    (ok i n h).bytes))
      ]
