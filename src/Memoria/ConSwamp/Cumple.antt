-- ===== src/Memoria/ConSwamp/Cumple.antt =====
-- The swamp of Swamp/Guardar.antt, behind the console, as what memoria relies on: the pages that it
-- has are saved again and given back.
use mathlib.Core.Option.{some-injective}
use tp_sistemas_operativos.Base.{
  ℕ, ◌<◌, ◌≡◌, ◌⊎◌, inl, inr, refl, sym, ap, subst, ◌∙◌, List, some, arith, length,
  get_elem?-set_ne, ℕ_discrete, length-take_le, length-drop, drop, ◌*◌, ◌≤◌, ◌+◌,
}
use tp_sistemas_operativos.Swamp.Tabla.{get_frame_number}
use tp_sistemas_operativos.Swamp.Tabla.Busqueda.{esta-get_frame_number}
use tp_sistemas_operativos.Swamp.Archivos.{Nodo, Swap, asignacion_dinamica, asignacion_fija}
use tp_sistemas_operativos.Swamp.Archivos.Lectura.{leer, cabe}
use tp_sistemas_operativos.Swamp.Guardar.Escribir.{
  TodosOk, EnSwap, escrito, escrito-nodo, escrito-TodosOk, obtener-escrito, obtener_pagina_lem,
}
use tp_sistemas_operativos.Swamp.Guardar.Dinamica.{dinamica_sobreescribe}
use tp_sistemas_operativos.Swamp.Guardar.Fija.{fija_sobreescribe}
use tp_sistemas_operativos.Memoria.Contrato.{Contrato}
use tp_sistemas_operativos.Memoria.ConSwamp.{
  recibir_pagina, consola, recibir-dinamica, recibir-fija,
}

-- The page has a row in the file of its process, and swamp is in order, with pages of `tam` bytes
-- and one of the two kinds of assignment.
pub record Tiene (tam pid nro : ℕ) (s : Swap) : Type 0 where
  pub lugar : ℕ
  pub nodo : Nodo
  pub en : EnSwap s pid nro lugar nodo
  pub ok : TodosOk s
  pub tamanio : s.swap_page_size ≡ tam
  pub tipo : (s.tipo_asignacion ≡ asignacion_dinamica) ⊎ (s.tipo_asignacion ≡ asignacion_fija)

-- Swamp after a save of the page.
despues : (tam pid nro : ℕ) (c : List ℕ) (s : Swap) → Tiene tam pid nro s → Swap
despues tam pid nro c s t =
    escrito s t.lugar t.nodo (get_frame_number t.nodo.tabla_paginas pid nro) c t.nodo.tabla_paginas

recibir-Tiene :
    (tam pid nro : ℕ) (c : List ℕ) (s : Swap) (t : Tiene tam pid nro s)
    → length c ≡ tam
    → recibir_pagina pid nro c s ≡ some (despues tam pid nro c s t, 1)
unfolding despues
recibir-Tiene tam pid nro c s t l =
    let e : length c ≡ s.swap_page_size = l ∙ sym t.tamanio in
    let x = t.en in
    elim (esta-get_frame_number t.nodo.tabla_paginas pid nro) [
      | inr (_, falta) ↦ absurd (omega (arith, falta, x.hallada))
      | inl (esta, dentro) ↦ elim t.tipo [
        | inl d ↦
            recibir-dinamica s pid nro c d e
            ∙ dinamica_sobreescribe s pid nro t.lugar t.nodo c x.clave x.nodo t.ok e esta dentro
        | inr f ↦
            recibir-fija s pid nro c f e
            ∙ fija_sobreescribe s pid nro t.lugar t.nodo c x.clave x.nodo t.ok e esta dentro
      ]
    ]

-- No page is lost.
despues-Tiene :
    (tam pid nro : ℕ) (c : List ℕ) (s : Swap) (t : Tiene tam pid nro s) (q k : ℕ)
    → Tiene tam q k s
    → Tiene tam q k (despues tam pid nro c s t)
unfolding despues
despues-Tiene tam pid nro c s t q k u =
    let n = t.nodo in
    let frame = get_frame_number n.tabla_paginas pid nro in
    let s' = escrito s t.lugar n frame c n.tabla_paginas in
    let ok' : TodosOk s' =
      escrito-TodosOk s t.lugar n frame c n.tabla_paginas t.en.nodo (t.ok t.lugar n t.en.nodo).filas
        t.ok in
    elim (ℕ_discrete t.lugar u.lugar) [
      | yes e ↦
          let mn : u.nodo ≡ n = some-injective _ _ (sym u.en.nodo ∙ rw (← e) t.en.nodo) in
          record {
            lugar = t.lugar;
            nodo = record { tabla_paginas = n.tabla_paginas; archivo = _ };
            en = record {
              clave = u.en.clave ∙ ap some (sym e);
              nodo = escrito-nodo s t.lugar n n frame c n.tabla_paginas t.en.nodo;
              hallada =
                  subst
                    (λ (x : Nodo). get_frame_number x.tabla_paginas q k < length x.tabla_paginas) mn
                    u.en.hallada;
            };
            ok = ok';
            tamanio = u.tamanio;
            tipo = u.tipo;
          }
      | no ne ↦ record {
        lugar = u.lugar;
        nodo = u.nodo;
        en = record {
          clave = u.en.clave;
          nodo = get_elem?-set_ne s.swap_list t.lugar u.lugar _ ne ∙ u.en.nodo;
          hallada = u.en.hallada;
        };
        ok = ok';
        tamanio = u.tamanio;
        tipo = u.tipo;
      }
    ]

-- The console keeps what memoria relies on, for the pages that have a row.
pub consola-Contrato : (tam : ℕ) → Contrato consola tam (Tiene tam)
unfolding despues consola
consola-Contrato tam = record {
  guarda = λ pid nro c s t l.
      let n = t.nodo in
      (
        despues tam pid nro c s t,
        recibir-Tiene tam pid nro c s t l,
        obtener-escrito s pid nro t.lugar n (get_frame_number n.tabla_paginas pid nro) c
            n.tabla_paginas t.en.clave t.en.nodo t.ok (t.ok t.lugar n t.en.nodo).filas
            (l ∙ sym t.tamanio) t.en.hallada refl,
        despues-Tiene tam pid nro c s t,
      );
  devuelve = λ pid nro s t.
      let n = t.nodo in
      let frame = get_frame_number n.tabla_paginas pid nro in
      let bien = t.ok t.lugar n t.en.nodo in
      let entra : s.swap_page_size * frame + s.swap_page_size ≤ length n.archivo =
        subst (λ x. s.swap_page_size * frame + s.swap_page_size ≤ x) (sym bien.bytes)
          (cabe s.swap_file_size s.swap_page_size frame
            (omega (arith, t.en.hallada, bien.filas))) in
      (
        leer s.swap_page_size n.archivo frame,
        obtener_pagina_lem s pid nro t.lugar n t.en bien,
        length-take_le s.swap_page_size (drop (s.swap_page_size * frame) n.archivo)
              (omega (arith, entra, length-drop (s.swap_page_size * frame) n.archivo))
            ∙ t.tamanio,
      );
}
