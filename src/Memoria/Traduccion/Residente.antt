-- ===== src/Memoria/Traduccion/Residente.antt =====
-- memoria/src/memory_utils.c: a process whose pages are all present. What getFrameDeUn gives for
-- them, with what the TLB remembers.
use mathlib.Core.Option.{some-injective}
use tp_sistemas_operativos.Base.{
  ℕ, zero, suc, ◌<◌, ◌≡◌, ◌≢◌, refl, sym, ap, subst, ◌∙◌, inl, inr, true, false, List, [], ◌∷◌,
  some, ◌==◌, arith, length, set, get_elem?, ℕ_discrete, list_find, list_find-cumple,
  list_find-modificar_si, modificar_si, list_any_satisfy, Bool-cases, Option-cases, Todos,
  Todos-append, Todos-set, Todos-modificar_si, Todos-list_find, get_elem?-lt, get_elem?-some,
  length-set, ltb, get_elem?-set_self, get_elem?-set_ne,
}
use tp_sistemas_operativos.Memoria.Tlb.{
  Entrada, Tlb, es_de_pagina, es_la_entrada, has_empty_instance, con_lru, new_entrada_tlb, insertar,
  replace_entrada, add_entrada_tlb, fetch_entrada_tlb,
}
use tp_sistemas_operativos.Memoria.Estado.{Pagina, Tabla, indice_de}
use tp_sistemas_operativos.Memoria.Traduccion.{consultar_tlb, agregar_a_tlb}

-- The page at a place has the number of the place, from 1 on, its frame, and is present.
pub record EsPagina (i f : ℕ) (p : Pagina) : Type 0 where
  pub su_frame : p.frame ≡ f
  pub su_numero : p.pagina ≡ suc i
  pub presente : p.bit_presencia ≡ 1

-- An entry of the process has the frame of its page.
abbrev pub Buena : ℕ → List ℕ → Entrada → Type 0
Buena pid fs e = (i f : ℕ) → e.pid ≡ pid → e.pagina ≡ suc i → get_elem? fs i ≡ some f → e.frame ≡ f

-- The pages of the process stand in the frames `fs`, all present, and the entries of the TLB do
-- not say otherwise.
pub record Residente (pid : ℕ) (fs : List ℕ) (ts : List Tabla) (es : List Entrada) : Type 0 where
  pub tabla : Tabla
  pub esta : list_find (λ (t : Tabla). t.id == pid) ts ≡ some tabla
  pub paginas :
      (i f : ℕ)
      → get_elem? fs i ≡ some f
      → (p : Pagina) × (get_elem? tabla.paginas i ≡ some p) × EsPagina i f p
  pub ni_una_mas : length tabla.paginas ≡ length fs
  pub buenas : Todos (Buena pid fs) es

indice_de-primero :
    (n : ℕ) (ps : List Pagina) (i : ℕ) (p : Pagina)
    → get_elem? ps i ≡ some p
    → p.pagina ≡ n
    → ((j : ℕ) (q : Pagina) → j < i → get_elem? ps j ≡ some q → q.pagina ≢ n)
    → indice_de n ps ≡ some i
unfolding indice_de
indice_de-primero n [] i p h e k = cc
indice_de-primero n (q ∷ ps) zero p h e k =
    let y : (q.pagina == n) ≡ true = ground (arith, some-injective _ _ h, e) in rw y refl
indice_de-primero n (q ∷ ps) (suc i) p h e k =
    let y : (q.pagina == n) ≡ false = ground (arith, k 0 q) in
    rw (y, indice_de-primero n ps i p h e (λ j r l g. k (suc j) r (omega arith) g)) refl

module _ (pid : ℕ) (fs : List ℕ) where
  -- The page is found by its number.
  pub indice_de-Residente :
      (ts : List Tabla) (es : List Entrada) (i f : ℕ) (r : Residente pid fs ts es)
      → get_elem? fs i ≡ some f
      → indice_de (suc i) r.tabla.paginas ≡ some i
  indice_de-Residente ts es i f r h =
      let (p, g, e) = r.paginas i f h in
      indice_de-primero (suc i) r.tabla.paginas i p g e.su_numero (λ j q l k z.
        let (fj, hj) = get_elem?-some fs j (omega (arith, get_elem?-lt fs i f h)) in
        let (p', g', e') = r.paginas j fj hj in
        omega
          (arith, e'.su_numero, ap (λ (v : Pagina). v.pagina) (some-injective _ _ (sym g' ∙ k)), z))

  -- A write of a page that keeps its frame.
  pub con_tabla-Residente :
      (ts : List Tabla) (es : List Entrada) (i f : ℕ) (p : Pagina)
      → Residente pid fs ts es
      → get_elem? fs i ≡ some f
      → EsPagina i f p
      → Residente pid fs
          (modificar_si
            (λ (t : Tabla). t.id == pid)
            (λ (t : Tabla). record t { paginas = set t.paginas i p })
            ts)
          es
  con_tabla-Residente ts es i f p r h e = record {
    tabla = record r.tabla { paginas = set r.tabla.paginas i p };
    esta =
        list_find-modificar_si (λ (t : Tabla). t.id == pid)
          (λ (t : Tabla). record t { paginas = set t.paginas i p }) ts r.tabla r.esta
          (list_find-cumple (λ (t : Tabla). t.id == pid) ts r.tabla r.esta);
    paginas = λ j fj k. elim (ℕ_discrete i j) [
      | yes z ↦ (
        p,
        subst (λ n. get_elem? (set r.tabla.paginas i p) n ≡ some p) z
            (get_elem?-set_self r.tabla.paginas i p
              (omega (arith, get_elem?-lt fs i f h, r.ni_una_mas))),
        record {
          su_frame = e.su_frame ∙ some-injective _ _ (sym h ∙ ap (get_elem? fs) z ∙ k);
          su_numero = e.su_numero ∙ ap suc z;
          presente = e.presente;
        },
      )
      | no z ↦
          let (q, x, y) = r.paginas j fj k in (q, get_elem?-set_ne r.tabla.paginas i j p z ∙ x, y)
    ];
    ni_una_mas = length-set r.tabla.paginas i p ∙ r.ni_una_mas;
    buenas = r.buenas;
  }

  fetch-Buena :
      (nro : ℕ) (t : Tlb)
      → Todos (Buena pid fs) t.tlb_list
      → Todos (Buena pid fs) (fetch_entrada_tlb pid nro t).1.tlb_list
  unfolding fetch_entrada_tlb
  fetch-Buena nro t h = elim (Option-cases (list_find (es_de_pagina pid nro) t.tlb_list)) [
    | inl e ↦ rw (e, fetch_entrada_tlb) h
    | inr (x, e) ↦
        rw (e, fetch_entrada_tlb)
          (Todos-modificar_si (Buena pid fs) (es_de_pagina pid nro) (con_lru t.tlb_lru_global)
            t.tlb_list (λ x b. b) h)
  ]

  pub consultar_tlb-Buena :
      (nro : ℕ) (t : Tlb)
      → Todos (Buena pid fs) t.tlb_list
      → Todos (Buena pid fs) (consultar_tlb pid nro t).1.tlb_list
  unfolding consultar_tlb
  consultar_tlb-Buena nro t h = elim (Bool-cases (t.max_entradas_tlb == 0)) [
    | inl y ↦ rw (y, consultar_tlb) h
    | inr y ↦ rw (y, consultar_tlb) (fetch-Buena nro t h)
  ]

  -- A hit gives the frame of the page.
  fetch-frame :
      (i f g : ℕ) (t : Tlb)
      → Todos (Buena pid fs) t.tlb_list
      → get_elem? fs i ≡ some f
      → (fetch_entrada_tlb pid (suc i) t).0 ≡ some g
      → g ≡ f
  unfolding fetch_entrada_tlb
  fetch-frame i f g t h k e =
      elim (Option-cases (list_find (es_de_pagina pid (suc i)) t.tlb_list)) [
        | inl n ↦ (let e' = rw (n, fetch_entrada_tlb) at e in cc)
        | inr (x, n) ↦
            let c = list_find-cumple (es_de_pagina pid (suc i)) t.tlb_list x n in
            let e' = some-injective _ _ (rw (n, fetch_entrada_tlb) at e) in
            sym e'
            ∙ Todos-list_find (Buena pid fs) (es_de_pagina pid (suc i)) t.tlb_list x h n i f
                (ground (arith, c)) (ground (arith, c)) k
      ]

  pub consultar_tlb-frame :
      (i f g : ℕ) (t : Tlb)
      → Todos (Buena pid fs) t.tlb_list
      → get_elem? fs i ≡ some f
      → (consultar_tlb pid (suc i) t).0 ≡ some g
      → g ≡ f
  unfolding consultar_tlb
  consultar_tlb-frame i f g t h k e = elim (Bool-cases (t.max_entradas_tlb == 0)) [
    | inl y ↦ (let e' = rw (y, consultar_tlb) at e in cc)
    | inr y ↦ fetch-frame i f g t h k (rw (y, consultar_tlb) at e)
  ]

  insertar-Buena :
      (t : Tlb) (e : Entrada)
      → Todos (Buena pid fs) t.tlb_list
      → Buena pid fs e
      → Todos (Buena pid fs) (insertar t e)
  unfolding insertar replace_entrada
  insertar-Buena t e h b = elim (Bool-cases (list_any_satisfy has_empty_instance t.tlb_list)) [
    | inl y ↦
        rw (y, insertar)
          (Todos-modificar_si (Buena pid fs) has_empty_instance (λ x. e) t.tlb_list (λ x c. b) h)
    | inr y ↦ elim (Bool-cases (ltb (length t.tlb_list) t.max_entradas_tlb)) [
      | inl z ↦ rw (y, z, insertar) (Todos-append (Buena pid fs) t.tlb_list _ h (b, tt))
      | inr z ↦ rw (y, z, insertar) (Todos-set (Buena pid fs) t.tlb_list _ e h b)
    ]
  ]

  pub agregar_a_tlb-Buena :
      (i f : ℕ) (t : Tlb)
      → Todos (Buena pid fs) t.tlb_list
      → get_elem? fs i ≡ some f
      → Todos (Buena pid fs) (agregar_a_tlb pid (suc i) f t).tlb_list
  unfolding agregar_a_tlb add_entrada_tlb new_entrada_tlb
  agregar_a_tlb-Buena i f t h k =
      let nueva = new_entrada_tlb pid (suc i) f t in
      let b : Buena pid fs nueva = λ j g x y z.
        some-injective _ _ (sym k ∙ subst (λ n. get_elem? fs n ≡ some g) (omega arith) z) in
      elim (Bool-cases (t.max_entradas_tlb == 0)) [
        | inl y ↦ rw (y, agregar_a_tlb) h
        | inr y ↦ elim (Bool-cases (list_any_satisfy (es_la_entrada pid (suc i) f) t.tlb_list)) [
          | inl z ↦ rw (y, z, agregar_a_tlb) h
          | inr z ↦ rw (y, z, agregar_a_tlb) (insertar-Buena t nueva h b)
        ]
      ]
