-- ===== src/Swamp/Guardar/Finalizar.antt =====
-- finalizar_proceso of swamp/src/swap.c: what it does to the rows and the frames of the process,
-- and to the others.
use mathlib.Core.Option.{some-injective}
use mathlib.Core.List.{append_assoc, append-nil}
use native.Mathlib.Nat.{mul-div-le, zero-add}
use tp_sistemas_operativos.Base.{
  ℕ, zero, suc, ◌+◌, ◌*◌, ◌≤◌, ◌<◌, ◌≡◌, ◌≢◌, refl, sym, ap, subst, ◌∙◌, List, [], ◌∷◌, ◌++◌, map,
  Option, none, some, ◌==◌, if◌then◌else◌, arith, length, true, false, inl, inr, get_elem?, ne→==,
  ==→eq, ==→ne, ==_refl, Bool-cases, length-append, replicate, length-replicate, write_at,
  length-write_at, get_elem?-set_self, get_elem?-set_ne, get_elem?-lt, set, ℕ_discrete,
}
use tp_sistemas_operativos.Swamp.Tabla.{Fila, libre, get_frame_number}
use tp_sistemas_operativos.Swamp.Tabla.Limpiar.{
  limpiar, get_frame_number-medio, get_frame_number-limpiar, Ausente-append, Ausente-limpiar,
  length-limpiar,
}
use tp_sistemas_operativos.Swamp.Tabla.Busqueda.{Ausente, get_elem?-get_frame_number}
use tp_sistemas_operativos.Swamp.Archivos.{
  Nodo, Swap, dictionary_get, dictionary_remove, frames_count,
}
use tp_sistemas_operativos.Swamp.Archivos.Lectura.{
  leer, memcpy_to-some, leer-write_at, leer-write_at_otro, dictionary_get-remove, mul_le,
}
use tp_sistemas_operativos.Swamp.Guardar.{obtener_pagina, liberar_filas, finalizar_proceso, fila}
use tp_sistemas_operativos.Swamp.Guardar.Escribir.{NodoOk, TodosOk, EnSwap, obtener_pagina_lem}

-- What the loop leaves: the rows of the process marked as free and their frames full of zeros,
-- every other row and frame as it was.
record Liberadas (tam p : ℕ) (pasadas resto : List Fila) (archivo : List ℕ)
    (r : Option (List Fila × List ℕ)) : Type 0 where
  final : List ℕ
  devuelve : r ≡ some (pasadas ++ map (limpiar p) resto, final)
  bytes : length final ≡ length archivo
  antes : (f : ℕ) → f < length pasadas → leer tam final f ≡ leer tam archivo f
  filas :
      (j : ℕ) (x : Fila)
      → get_elem? resto j ≡ some x
      → leer tam final (length pasadas + j)
        ≡ (if x.proceso == p then replicate tam 0 else leer tam archivo (length pasadas + j))

-- The loop took a row of the process, and cleaned its frame.
paso_borra :
    (tam p : ℕ) (pasadas resto : List Fila) (archivo : List ℕ) (y : Fila)
    (r : Option (List Fila × List ℕ))
    → (y.proceso == p) ≡ true
    → tam * length pasadas + tam ≤ length archivo
    → Liberadas tam p
        (pasadas ++ (fila libre libre ∷ []))
        resto
        (write_at archivo (tam * length pasadas) (replicate tam 0))
        r
    → Liberadas tam p pasadas (y ∷ resto) archivo r
paso_borra tam p pasadas resto archivo y r si entra rec = record {
  final = rec.final;
  devuelve =
      rec.devuelve
      ∙ ap (λ l. some (l, rec.final))
          (append_assoc pasadas (fila libre libre ∷ []) (map (limpiar p) resto) ∙ rw si refl);
  bytes = rec.bytes ∙ length-write_at archivo (tam * length pasadas) (replicate tam 0);
  antes = λ f l. rec.antes f (omega (arith, largo)) ∙ otro f (omega arith);
  filas = filas';
}
  where
    largo : length (pasadas ++ (fila libre libre ∷ [])) ≡ length pasadas + 1
    largo = length-append pasadas (fila libre libre ∷ [])

    otro :
        (f : ℕ)
        → length pasadas ≢ f
        → leer tam (write_at archivo (tam * length pasadas) (replicate tam 0)) f
          ≡ leer tam archivo f
    otro f ne =
        leer-write_at_otro archivo tam (length pasadas) f (replicate tam 0) (length-replicate tam 0)
          ne

    filas' :
        (j : ℕ) (x : Fila)
        → get_elem? (y ∷ resto) j ≡ some x
        → leer tam rec.final (length pasadas + j)
          ≡ (if x.proceso == p then replicate tam 0 else leer tam archivo (length pasadas + j))
    filas' zero x e =
        let a : length pasadas + 0 ≡ length pasadas = omega arith in
        let yx : y ≡ x = some-injective _ _ e in
        rw (a, ← yx, si)
          (rec.antes (length pasadas) (omega (arith, largo))
            ∙ leer-write_at archivo tam (length pasadas) (replicate tam 0) (length-replicate tam 0)
                entra)
    filas' (suc j) x e =
        let a : length (pasadas ++ (fila libre libre ∷ [])) + j ≡ length pasadas + suc j =
          omega (arith, largo) in
        let o = otro (length pasadas + suc j) (omega arith) in
        subst
          (λ l.
            leer tam rec.final (length pasadas + suc j)
            ≡ (if x.proceso == p then replicate tam 0 else l))
          o
          (subst
            (λ i. leer tam rec.final i ≡ (
              if x.proceso == p
              then replicate tam 0
              else leer tam (write_at archivo (tam * length pasadas) (replicate tam 0)) i))
            a (rec.filas j x e))

-- The loop passed a row of another process.
paso_deja :
    (tam p : ℕ) (pasadas resto : List Fila) (archivo : List ℕ) (y : Fila)
    (r : Option (List Fila × List ℕ))
    → (y.proceso == p) ≡ false
    → Liberadas tam p (pasadas ++ (y ∷ [])) resto archivo r
    → Liberadas tam p pasadas (y ∷ resto) archivo r
paso_deja tam p pasadas resto archivo y r no_es rec = record {
  final = rec.final;
  devuelve =
      rec.devuelve
      ∙ ap (λ l. some (l, rec.final))
          (append_assoc pasadas (y ∷ []) (map (limpiar p) resto) ∙ rw no_es refl);
  bytes = rec.bytes;
  antes = λ f l. rec.antes f (omega (arith, largo));
  filas = filas';
}
  where
    largo : length (pasadas ++ (y ∷ [])) ≡ length pasadas + 1
    largo = length-append pasadas (y ∷ [])

    filas' :
        (j : ℕ) (x : Fila)
        → get_elem? (y ∷ resto) j ≡ some x
        → leer tam rec.final (length pasadas + j)
          ≡ (if x.proceso == p then replicate tam 0 else leer tam archivo (length pasadas + j))
    filas' zero x e =
        let a : length pasadas + 0 ≡ length pasadas = omega arith in
        let yx : y ≡ x = some-injective _ _ e in
        rw (a, ← yx, no_es) (rec.antes (length pasadas) (omega (arith, largo)))
    filas' (suc j) x e =
        let a : length (pasadas ++ (y ∷ [])) + j ≡ length pasadas + suc j = omega (arith, largo) in
        subst
          (λ i.
            leer tam rec.final i ≡ (if x.proceso == p then replicate tam 0 else leer tam archivo i))
          a (rec.filas j x e)

liberar_filas_lem :
    (tam p : ℕ) (pasadas resto : List Fila) (archivo : List ℕ)
    → p ≢ libre
    → Ausente p pasadas
    → tam * (length pasadas + length resto) ≤ length archivo
    → Liberadas tam p pasadas resto archivo (liberar_filas tam p pasadas resto archivo)
unfolding liberar_filas
liberar_filas_lem tam p pasadas [] archivo real a h = record {
  final = archivo;
  devuelve = ap (λ l. some (l, archivo)) (sym (append-nil pasadas));
  bytes = refl;
  antes = λ f l. refl;
  filas = λ j x e. absurd (cc e);
}
liberar_filas_lem tam p pasadas (y ∷ resto) archivo real a h = elim (Bool-cases (y.proceso == p)) [
  | inl si ↦
      let es : y.proceso ≡ p = ==→eq y.proceso p si in
      let frame : get_frame_number (pasadas ++ (y ∷ resto)) y.proceso y.pagina ≡ length pasadas =
        get_frame_number-medio pasadas resto y p a es in
      let entra : tam * length pasadas + tam ≤ length archivo = omega (
        arith,
        h,
        mul_le tam (length pasadas + 1) (length pasadas + suc (length resto)) (omega arith),
      ) in
      rw
        (
          si,
          frame,
          memcpy_to-some archivo tam (length pasadas) (replicate tam 0) (length-replicate tam 0)
              entra,
        )
        (paso_borra tam p pasadas resto archivo y
          (liberar_filas tam p (pasadas ++ (fila libre libre ∷ [])) resto
            (write_at archivo (tam * length pasadas) (replicate tam 0)))
          si entra
          (liberar_filas_lem tam p (pasadas ++ (fila libre libre ∷ [])) resto
            (write_at archivo (tam * length pasadas) (replicate tam 0)) real
            (Ausente-append p pasadas (fila libre libre) a (λ x. real (sym x)))
            (queda (fila libre libre) (write_at archivo (tam * length pasadas) (replicate tam 0))
              (length-write_at archivo (tam * length pasadas) (replicate tam 0)))))
  | inr no_es ↦ rw no_es (
      paso_deja tam p pasadas resto archivo y
        (liberar_filas tam p (pasadas ++ (y ∷ [])) resto archivo) no_es
        (liberar_filas_lem tam p (pasadas ++ (y ∷ [])) resto archivo real
          (Ausente-append p pasadas y a (==→ne y.proceso p no_es)) (queda y archivo refl)))
]
  where
    queda :
        (z : Fila) (l : List ℕ)
        → length l ≡ length archivo
        → tam * (length (pasadas ++ (z ∷ [])) + length resto) ≤ length l
    queda z l e =
        let x : length (pasadas ++ (z ∷ [])) + length resto ≡ length pasadas + suc (length resto) =
          omega (arith, length-append pasadas (z ∷ [])) in
        rw (x, e) h

-- What the call leaves: the process is gone from the dictionary and from its table, its frames
-- hold zeros, and every page of another process reads as before.
pub record Finalizada (s : Swap) (p i : ℕ) (n : Nodo) (r : Option Swap) : Type 0 where
  pub despues : Swap
  pub devuelve : r ≡ some despues
  pub sin_clave : dictionary_get p despues.swap_dict ≡ none
  pub archivo : List ℕ
  pub nodo :
      get_elem? despues.swap_list i
      ≡ some (record { tabla_paginas = map (limpiar p) n.tabla_paginas; archivo = archivo })
  pub sin_filas : Ausente p (map (limpiar p) n.tabla_paginas)
  pub ceros :
      (j : ℕ) (x : Fila)
      → get_elem? n.tabla_paginas j ≡ some x
      → x.proceso ≡ p
      → leer s.swap_page_size archivo j ≡ replicate s.swap_page_size 0
  pub ajenas :
      (q k j : ℕ) (m : Nodo)
      → EnSwap s q k j m
      → p ≢ q
      → libre ≢ q
      → obtener_pagina despues q k ≡ obtener_pagina s q k

module _ (s : Swap) (p i : ℕ) (n : Nodo) (real : p ≢ libre)
    (d : dictionary_get p s.swap_dict ≡ some i) (h : get_elem? s.swap_list i ≡ some n)
    (ok : TodosOk s) where
  liberadas :
      Liberadas s.swap_page_size p [] n.tabla_paginas n.archivo
        (liberar_filas s.swap_page_size p [] n.tabla_paginas n.archivo)
  liberadas = liberar_filas_lem s.swap_page_size p [] n.tabla_paginas n.archivo real tt (
      omega (
        arith,
        mul_le s.swap_page_size (0 + length n.tabla_paginas) (frames_count s)
            (omega (arith, (ok i n h).filas)),
        mul-div-le s.swap_file_size s.swap_page_size,
        (ok i n h).bytes,
      ))

  fila_final :
      (j : ℕ) (x : Fila)
      → get_elem? n.tabla_paginas j ≡ some x
      → leer s.swap_page_size liberadas.final j ≡ (
          if x.proceso == p
          then replicate s.swap_page_size 0
          else leer s.swap_page_size n.archivo j)
  fila_final j x e =
      subst
        (λ k. leer s.swap_page_size liberadas.final k ≡ (
          if x.proceso == p
          then replicate s.swap_page_size 0
          else leer s.swap_page_size n.archivo k))
        (zero-add j) (liberadas.filas j x e)

  nodo' : Nodo
  nodo' = record { tabla_paginas = map (limpiar p) n.tabla_paginas; archivo = liberadas.final }

  swap' : Swap
  unfolding nodo'
  swap' = record s {
    swap_list = set s.swap_list i nodo';
    swap_dict = dictionary_remove p s.swap_dict;
  }

  en_nodo' : get_elem? swap'.swap_list i ≡ some nodo'
  unfolding swap'
  en_nodo' = get_elem?-set_self s.swap_list i nodo' (get_elem?-lt s.swap_list i n h)

  ok' : NodoOk swap' nodo'
  unfolding swap'
  ok' = record {
    filas = omega (arith, length-limpiar n.tabla_paginas p, (ok i n h).filas);
    bytes = liberadas.bytes ∙ (ok i n h).bytes;
  }

  clave' : (q : ℕ) → p ≢ q → dictionary_get q swap'.swap_dict ≡ dictionary_get q s.swap_dict
  unfolding swap'
  clave' q ne = dictionary_get-remove p q s.swap_dict ∙ rw (ne→== p q ne)

  -- A page of another process in the same file.
  misma :
      (q k : ℕ)
      → dictionary_get q s.swap_dict ≡ some i
      → get_frame_number n.tabla_paginas q k < length n.tabla_paginas
      → p ≢ q
      → libre ≢ q
      → obtener_pagina swap' q k ≡ obtener_pagina s q k
  unfolding swap' nodo'
  misma q k clave en pq lq =
      let fila_igual = get_frame_number-limpiar n.tabla_paginas p q k pq lq in
      obtener_pagina_lem swap' q k i nodo'
        (record {
          clave = clave' q pq ∙ clave;
          nodo = en_nodo';
          hallada = omega (arith, en, fila_igual, length-limpiar n.tabla_paginas p);
        })
        ok'
      ∙ rw fila_igual (
          ap some (
            fila_final (get_frame_number n.tabla_paginas q k) (fila q k)
              (get_elem?-get_frame_number n.tabla_paginas q k en)
            ∙ rw (ne→== q p (λ x. pq (sym x)))))
      ∙ sym (
          obtener_pagina_lem s q k i n (record { clave = clave; nodo = h; hallada = en })
            (ok i n h))

  ajena :
      (q k j : ℕ) (m : Nodo)
      → EnSwap s q k j m
      → p ≢ q
      → libre ≢ q
      → obtener_pagina swap' q k ≡ obtener_pagina s q k
  unfolding swap'
  ajena q k j m en pq lq = elim (ℕ_discrete i j) [
    | yes ij ↦
        let mn : m ≡ n = some-injective _ _ (sym en.nodo ∙ rw (← ij) h) in
        misma q k (rw ij en.clave)
          (subst (λ (x : Nodo). get_frame_number x.tabla_paginas q k < length x.tabla_paginas) mn
            en.hallada)
          pq lq
    | no ij ↦
        let en_m : get_elem? swap'.swap_list j ≡ some m =
          get_elem?-set_ne s.swap_list i j nodo' ij ∙ en.nodo in
        let o = ok j m en.nodo in
        obtener_pagina_lem swap' q k j m
          (record { clave = clave' q pq ∙ en.clave; nodo = en_m; hallada = en.hallada })
          (record { filas = o.filas; bytes = o.bytes })
        ∙ sym (obtener_pagina_lem s q k j m en o)
  ]

  -- For a process other than 9999 that the dictionary takes to a file, with all tables fitting
  -- their files: finalizar_proceso always ends, the process is no key any more, its rows are marked
  -- as free in place, the frames that they had are full of zeros, and every page of another process
  -- reads as before.
  pub finalizar_proceso_lem : Finalizada s p i n (finalizar_proceso s p)
  unfolding finalizar_proceso swap' nodo'
  finalizar_proceso_lem = record {
    despues = swap';
    devuelve = rw (d, finalizar_proceso, h, liberadas.devuelve);
    sin_clave = dictionary_get-remove p p s.swap_dict ∙ rw (==_refl p);
    archivo = liberadas.final;
    nodo = en_nodo';
    sin_filas = Ausente-limpiar n.tabla_paginas p real;
    ceros = λ j x e es. fila_final j x e ∙ rw (es, ==_refl p);
    ajenas = ajena;
  }
