-- ===== src/Memoria/Tlb/Agregar.antt =====
-- add_entrada_tlb and fetch_entrada_tlb of memoria/src/memory_utils.c.
use mathlib.Core.Option
use tp_sistemas_operativos.Base.{
  ℕ, ◌≤◌, ◌<◌, ◌≡◌, refl, ◌∙◌, ap, inl, inr, List, [], ◌∷◌, ◌++◌, some, none, ltb, arith,
  Bool-cases, get_elem?, length, set, length-set, length-append, Option-cases, ltb→lt, ltb→le, true,
  Bool, get_elem?-lt, list_find, list_any_satisfy, modificar_si-set, list_any_satisfy-list_find,
  list_any_satisfy-implica, list_find-set, list_find-append,
}
use tp_sistemas_operativos.Memoria.Tlb.{
  Entrada, Tlb, has_empty_instance, es_la_entrada, es_de_pagina, new_entrada_tlb, insertar,
  replace_entrada, sello, list_get_minimum, add_entrada_tlb, fetch_entrada_tlb,
}
use tp_sistemas_operativos.Memoria.Tlb.Reemplazo.{Minima, list_get_minimum_lem}

-- Where the new entry is: over an empty one, at the end of a list that is not full, or over one
-- with the least stamp.
pub data Agregada (t : Tlb) (nueva : Entrada) (es : List Entrada) : Type 0 where
  en_vacia :
      (i : ℕ) (v : Entrada)
      → get_elem? t.tlb_list i ≡ some v
      → has_empty_instance v ≡ true
      → es ≡ set t.tlb_list i nueva
      → Agregada t nueva es
  al_final :
      length t.tlb_list < t.max_entradas_tlb → es ≡ t.tlb_list ++ (nueva ∷ []) → Agregada t nueva es
  en_lugar_de :
      (i : ℕ) (v : Entrada)
      → t.max_entradas_tlb ≤ length t.tlb_list
      → get_elem? t.tlb_list i ≡ some v
      → Minima (sello t.reemplazo_fifo) v t.tlb_list
      → es ≡ set t.tlb_list i nueva
      → Agregada t nueva es

pub insertar_lem :
    (t : Tlb) (nueva : Entrada) → 0 < t.max_entradas_tlb → Agregada t nueva (insertar t nueva)
unfolding insertar replace_entrada
insertar_lem t nueva h = elim (Bool-cases (list_any_satisfy has_empty_instance t.tlb_list)) [
  | inl x ↦
      let (i, v, g, c, e) = modificar_si-set has_empty_instance (λ e. nueva) t.tlb_list x in
      en_vacia i v g c (rw x e)
  | inr x ↦ elim (Bool-cases (ltb (length t.tlb_list) t.max_entradas_tlb)) [
    | inl y ↦ al_final (ltb→lt _ _ y) (rw (x, y) refl)
    | inr y ↦
        let l : t.max_entradas_tlb ≤ length t.tlb_list = ltb→le _ _ y in
        let (v, g, m) = list_get_minimum_lem (sello t.reemplazo_fifo) t.tlb_list (omega arith) in
        en_lugar_de (list_get_minimum (sello t.reemplazo_fifo) t.tlb_list) v l g m (rw (x, y) refl)
  ]
]

-- A page that was in no entry is found in the list with the new one.
Agregada-list_find :
    (t : Tlb) (nueva : Entrada) (es : List Entrada) (p : Entrada → Bool)
    → list_find p t.tlb_list ≡ none
    → p nueva ≡ true
    → Agregada t nueva es
    → list_find p es ≡ some nueva
Agregada-list_find t nueva es p h y (en_vacia i v g c e) =
    ap (list_find p) e ∙ list_find-set p t.tlb_list i nueva h (get_elem?-lt t.tlb_list i v g) y
Agregada-list_find t nueva es p h y (al_final l e) =
    ap (list_find p) e ∙ list_find-append p t.tlb_list nueva h y
Agregada-list_find t nueva es p h y (en_lugar_de i v l g m e) =
    ap (list_find p) e ∙ list_find-set p t.tlb_list i nueva h (get_elem?-lt t.tlb_list i v g) y

pub Agregada-length :
    (t : Tlb) (nueva : Entrada) (es : List Entrada)
    → length t.tlb_list ≤ t.max_entradas_tlb
    → Agregada t nueva es
    → length es ≤ t.max_entradas_tlb
Agregada-length t nueva es h (en_vacia i v g c e) = rw (e, length-set t.tlb_list i nueva) h
Agregada-length t nueva es h (al_final l e) =
    rw (e, length-append t.tlb_list (nueva ∷ [])) (omega arith)
Agregada-length t nueva es h (en_lugar_de i v l g m e) = rw (e, length-set t.tlb_list i nueva) h

es_la_entrada-es_de_pagina :
    (pid pagina frame : ℕ) (e : Entrada)
    → es_la_entrada pid pagina frame e ≡ true
    → es_de_pagina pid pagina e ≡ true
es_la_entrada-es_de_pagina pid pagina frame e h = ground arith

-- What fetch_entrada_tlb answers is the frame of the first entry of the page.
pub fetch-list_find :
    (pid pagina : ℕ) (t : Tlb)
    → (fetch_entrada_tlb pid pagina t).0
      ≡ Option.map (λ e. e.frame) (list_find (es_de_pagina pid pagina) t.tlb_list)
unfolding fetch_entrada_tlb
fetch-list_find pid pagina t =
    elim (Option-cases (list_find (es_de_pagina pid pagina) t.tlb_list)) [
      | inl x ↦ rw (x, fetch_entrada_tlb) refl
      | inr (e, x) ↦ rw (x, fetch_entrada_tlb) refl
    ]

module _ (pid pagina frame : ℕ) (t : Tlb) where
  ausente :
      (fetch_entrada_tlb pid pagina t).0 ≡ none
      → list_find (es_de_pagina pid pagina) t.tlb_list ≡ none
  ausente f = elim (Option-cases (list_find (es_de_pagina pid pagina) t.tlb_list)) [
    | inl x ↦ x
    | inr (e, x) ↦ absurd (cc (fetch-list_find pid pagina t, f, x))
  ]

  lista :
      list_find (es_de_pagina pid pagina) t.tlb_list ≡ none
      → (add_entrada_tlb pid pagina frame t).tlb_list
        ≡ insertar t (new_entrada_tlb pid pagina frame t)
  unfolding add_entrada_tlb
  lista n =
      rw
        (list_any_satisfy-implica (es_de_pagina pid pagina) (es_la_entrada pid pagina frame)
          t.tlb_list (es_la_entrada-es_de_pagina pid pagina frame)
          (list_any_satisfy-list_find (es_de_pagina pid pagina) t.tlb_list n))
        refl

  -- In a TLB with at least one place and no more entries than places, which misses a page: adding
  -- the page writes the new entry over an empty one, or at the end if there is a place left, or
  -- over an entry with the least stamp of the algorithm; the entries are no more than the places,
  -- and the page then hits with its frame.
  pub add_entrada_tlb_lem :
      0 < t.max_entradas_tlb
      → length t.tlb_list ≤ t.max_entradas_tlb
      → (fetch_entrada_tlb pid pagina t).0 ≡ none
      → Agregada t
          (new_entrada_tlb pid pagina frame t)
          (add_entrada_tlb pid pagina frame t).tlb_list
        × (length (add_entrada_tlb pid pagina frame t).tlb_list ≤ t.max_entradas_tlb)
        × ((fetch_entrada_tlb pid pagina (add_entrada_tlb pid pagina frame t)).0 ≡ some frame)
  unfolding new_entrada_tlb
  add_entrada_tlb_lem h l f =
      let n = ausente f in
      let a = insertar_lem t (new_entrada_tlb pid pagina frame t) h in
      (
        rw (lista n) a,
        rw (lista n) (Agregada-length t (new_entrada_tlb pid pagina frame t) _ l a),
        fetch-list_find pid pagina (add_entrada_tlb pid pagina frame t)
            ∙ ap (λ es. Option.map (λ e. e.frame) (list_find (es_de_pagina pid pagina) es))
                (lista n)
            ∙ ap (Option.map (λ e. e.frame)) (
                Agregada-list_find t (new_entrada_tlb pid pagina frame t) _
                  (es_de_pagina pid pagina) n (ground arith) a),
      )
