-- ===== src/Swamp/Guardar/Escribir.antt =====
-- Saving to a frame of a swap file and reading it back (escribir and obtener_pagina of
-- Swamp/Guardar.antt, after swamp/src/swap.c).
use tp_sistemas_operativos.Base.{
  ℕ, ◌*◌, ◌≤◌, ◌<◌, ◌≡◌, ◌≢◌, sym, ap, subst, ◌∙◌, List, some, arith, length, write_at,
  length-write_at, get_elem?, set, get_elem?-set_self, get_elem?-set_ne, get_elem?-lt, ℕ_discrete,
}
use mathlib.Core.Option.{some-injective}
use tp_sistemas_operativos.Swamp.Tabla.{Fila, get_frame_number}
use tp_sistemas_operativos.Swamp.Archivos.{Nodo, Swap, dictionary_get, frames_count}
use tp_sistemas_operativos.Swamp.Archivos.Lectura.{
  leer, cabe, memcpy_to-some, memcpy_from-some, leer-write_at, leer-write_at_otro,
}
use tp_sistemas_operativos.Swamp.Guardar.{escribir, obtener_pagina}

-- The table fits its file, and the file has its size.
pub record NodoOk (s : Swap) (n : Nodo) : Type 0 where
  pub filas : length n.tabla_paginas ≤ frames_count s
  pub bytes : length n.archivo ≡ s.swap_file_size

abbrev pub TodosOk : Swap → Type 0
TodosOk s = (i : ℕ) (n : Nodo) → get_elem? s.swap_list i ≡ some n → NodoOk s n

-- Where the dictionary and the table of its file place a page: the node, and the row that the
-- search stops at.
pub record EnSwap (s : Swap) (p g : ℕ) (i : ℕ) (n : Nodo) : Type 0 where
  pub clave : dictionary_get p s.swap_dict ≡ some i
  pub nodo : get_elem? s.swap_list i ≡ some n
  pub hallada : get_frame_number n.tabla_paginas p g < length n.tabla_paginas

abbrev pub nodo_escrito : Swap → Nodo → ℕ → List ℕ → List Fila → Nodo
nodo_escrito s n frame c t = record {
  tabla_paginas = t;
  archivo = write_at n.archivo (s.swap_page_size * frame) c;
}

abbrev pub escrito : Swap → ℕ → Nodo → ℕ → List ℕ → List Fila → Swap
escrito s i n frame c t = record s { swap_list = set s.swap_list i (nodo_escrito s n frame c t) }

module _ (s : Swap) (i : ℕ) (n : Nodo) (frame : ℕ) (c : List ℕ) (t : List Fila) where
  pub escribir_lem :
      length c ≡ s.swap_page_size
      → frame < frames_count s
      → length n.archivo ≡ s.swap_file_size
      → escribir s i n frame c t ≡ some (escrito s i n frame c t, 1)
  unfolding escribir
  escribir_lem e h b = rw (
      memcpy_to-some n.archivo s.swap_page_size frame c e
        (rw b (cabe s.swap_file_size s.swap_page_size frame h)))

-- A page that is in swap is read from its frame.
pub obtener_pagina_lem :
    (s : Swap) (p g i : ℕ) (n : Nodo)
    → EnSwap s p g i n
    → NodoOk s n
    → obtener_pagina s p g
      ≡ some (leer s.swap_page_size n.archivo (get_frame_number n.tabla_paginas p g))
unfolding obtener_pagina
obtener_pagina_lem s p g i n e ok =
    rw (e.clave, e.nodo)
      (memcpy_from-some n.archivo s.swap_page_size (get_frame_number n.tabla_paginas p g) (
        rw ok.bytes (
          cabe s.swap_file_size s.swap_page_size (get_frame_number n.tabla_paginas p g)
            (omega (arith, e.hallada, ok.filas)))))

pub escrito-nodo :
    (s : Swap) (i : ℕ) (n m : Nodo) (frame : ℕ) (c : List ℕ) (t : List Fila)
    → get_elem? s.swap_list i ≡ some m
    → get_elem? (escrito s i n frame c t).swap_list i ≡ some (nodo_escrito s n frame c t)
escrito-nodo s i n m frame c t h =
    get_elem?-set_self s.swap_list i (nodo_escrito s n frame c t) (get_elem?-lt s.swap_list i m h)

-- A write that keeps the table within its file keeps all nodes in order.
pub escrito-TodosOk :
    (s : Swap) (i : ℕ) (n : Nodo) (frame : ℕ) (c : List ℕ) (t : List Fila)
    → get_elem? s.swap_list i ≡ some n
    → length t ≤ frames_count s
    → TodosOk s
    → TodosOk (escrito s i n frame c t)
escrito-TodosOk s i n frame c t h l ok j m e = elim (ℕ_discrete i j) [
  | yes p ↦
      let q : some (nodo_escrito s n frame c t) ≡ some m =
        sym (
          subst
            (λ x.
              get_elem? (escrito s i n frame c t).swap_list x ≡ some (nodo_escrito s n frame c t))
            p (escrito-nodo s i n n frame c t h))
        ∙ e in
      subst (λ o. NodoOk (escrito s i n frame c t) o) (some-injective _ _ q)
        (record {
          filas = l;
          bytes = length-write_at n.archivo (s.swap_page_size * frame) c ∙ (ok i n h).bytes;
        })
  | no p ↦
      let o : NodoOk s m =
        ok j m (sym (get_elem?-set_ne s.swap_list i j (nodo_escrito s n frame c t) p) ∙ e) in
      record { filas = o.filas; bytes = o.bytes }
]

-- Reading back the page whose frame was written.
pub obtener-escrito :
    (s : Swap) (p g i : ℕ) (n : Nodo) (frame : ℕ) (c : List ℕ) (t : List Fila)
    → dictionary_get p s.swap_dict ≡ some i
    → get_elem? s.swap_list i ≡ some n
    → TodosOk s
    → length t ≤ frames_count s
    → length c ≡ s.swap_page_size
    → frame < length t
    → get_frame_number t p g ≡ frame
    → obtener_pagina (escrito s i n frame c t) p g ≡ some c
obtener-escrito s p g i n frame c t d h ok l e f x =
    obtener_pagina_lem (escrito s i n frame c t) p g i (nodo_escrito s n frame c t)
      (record { clave = d; nodo = escrito-nodo s i n n frame c t h; hallada = omega (arith, x) })
      (escrito-TodosOk s i n frame c t h l ok i (nodo_escrito s n frame c t)
        (escrito-nodo s i n n frame c t h))
    ∙ rw x (
        ap some (
          leer-write_at n.archivo s.swap_page_size frame c e (
            rw (ok i n h).bytes
              (cabe s.swap_file_size s.swap_page_size frame (omega (arith, f, l))))))

-- Any other page in swap that keeps its row is read as before.
pub obtener-escrito_otra :
    (s : Swap) (q k i j : ℕ) (n m : Nodo) (frame : ℕ) (c : List ℕ) (t : List Fila)
    → get_elem? s.swap_list i ≡ some n
    → EnSwap s q k j m
    → TodosOk s
    → length t ≤ frames_count s
    → length n.tabla_paginas ≤ length t
    → length c ≡ s.swap_page_size
    → (i ≡ j
        → (get_frame_number t q k ≡ get_frame_number n.tabla_paginas q k)
          × (frame ≢ get_frame_number n.tabla_paginas q k))
    → obtener_pagina (escrito s i n frame c t) q k ≡ obtener_pagina s q k
obtener-escrito_otra s q k i j n m frame c t h e ok l crece ec mismo = elim (ℕ_discrete i j) [
  | yes p ↦
      let mn : m ≡ n = some-injective _ _ (sym e.nodo ∙ rw (← p) h) in
      let (fila_igual, distinto) = mismo p in
      let en : get_frame_number n.tabla_paginas q k < length n.tabla_paginas =
        rw (← mn) e.hallada in
      obtener_pagina_lem (escrito s i n frame c t) q k i (nodo_escrito s n frame c t)
        (record {
          clave = rw p e.clave;
          nodo = escrito-nodo s i n n frame c t h;
          hallada = omega (arith, en, fila_igual);
        })
        (escrito-TodosOk s i n frame c t h l ok i (nodo_escrito s n frame c t)
          (escrito-nodo s i n n frame c t h))
      ∙ rw fila_igual (
          ap some (
            leer-write_at_otro n.archivo s.swap_page_size frame
              (get_frame_number n.tabla_paginas q k) c ec distinto))
      ∙ sym (
          obtener_pagina_lem s q k i n (record { clave = rw p e.clave; nodo = h; hallada = en })
            (ok i n h))
  | no p ↦
      let en : get_elem? (escrito s i n frame c t).swap_list j ≡ some m =
        get_elem?-set_ne s.swap_list i j (nodo_escrito s n frame c t) p ∙ e.nodo in
      obtener_pagina_lem (escrito s i n frame c t) q k j m
        (record { clave = e.clave; nodo = en; hallada = e.hallada })
        (escrito-TodosOk s i n frame c t h l ok j m en)
      ∙ sym (obtener_pagina_lem s q k j m e (ok j m e.nodo))
]
