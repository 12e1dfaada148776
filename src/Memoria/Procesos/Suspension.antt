-- ===== src/Memoria/Procesos/Suspension.antt =====
-- memoria/src/memory_utils.c: a process that is suspended has no page in the memory.
use native.Mathlib.Nat.{mod-lt, div-add-mod'}
use tp_sistemas_operativos.Memoria.Marcos.{sin_frame, sacar_frame, liberar_frame}
use tp_sistemas_operativos.Memoria.Marcos.Victima.{EnRango, liberar_frame-some}
use tp_sistemas_operativos.Memoria.Marcos.Libre.{list_find-sacar_de_todas}
use tp_sistemas_operativos.Base.{
  ℕ, suc, ◌+◌, ◌*◌, ◌<◌, ◌≤◌, ◌≡◌, refl, sym, ap, subst, ◌∙◌, true, List, [], ◌∷◌, ◌++◌, map, none,
  some, ◌==◌, arith, length, set, list_find, list_find-cumple, list_find-modificar_si, modificar_si,
  Todos, take, drop, write_at, length-write_at, length-take_le, length-drop, ◌/◌, ==_refl,
  Todos-implica,
}
use tp_sistemas_operativos.Swamp.Archivos.{memcpy_from}
use tp_sistemas_operativos.Swamp.Archivos.Lectura.{cabe, memcpy_from-take, memcpy_to-write_at}
use tp_sistemas_operativos.Memoria.Tlb.{delete_entrada_tlb}
use tp_sistemas_operativos.Memoria.Estado.{
  Pagina, Tabla, Memoria, Swamp, frames_totales, get_pages_by, con_tabla, con_pagina,
}
use tp_sistemas_operativos.Memoria.Contrato.{Contrato}
use tp_sistemas_operativos.Memoria.Procesos.{suspender_pagina, suspender_desde, suspend_process}

abbrev pub ausente : Pagina → Pagina
ausente p = record p { bit_presencia = 0 }

memcpy_from-afuera :
    (archivo : List ℕ) (off n : ℕ) → length archivo < off + n → memcpy_from archivo off n ≡ none
unfolding memcpy_from
memcpy_from-afuera archivo off n h = ground arith

-- The frame of a page that lost its own is past the memory.
pasado : (n t t' total : ℕ) → 0 < t → n ≡ total → t' ≡ t → n < (total / t + 1) * t' + t'
pasado n t t' total h e k =
    subst (λ x. n < (total / t + 1) * x + x) (sym k)
      (grind (arith, div-add-mod' total t, mod-lt total h, e))

append-paso {ℓ} :
    {A : Type ℓ} (xs : List A) (q : A) (ps : List A) → (xs ++ (q ∷ [])) ++ ps ≡ xs ++ (q ∷ ps)
append-paso [] q ps = refl
append-paso (x ∷ xs) q ps = ap (λ r. x ∷ r) (append-paso xs q ps)

set-append {ℓ} :
    {A : Type ℓ} (xs : List A) (p q : A) (ps : List A)
    → set (xs ++ (p ∷ ps)) (length xs) q ≡ xs ++ (q ∷ ps)
set-append [] p q ps = refl
set-append (x ∷ xs) p q ps = ap (λ r. x ∷ r) (set-append xs p q ps)

length-append_uno {ℓ} :
    {A : Type ℓ} (xs : List A) (q : A) → length (xs ++ (q ∷ [])) ≡ suc (length xs)
length-append_uno [] q = refl
length-append_uno (x ∷ xs) q = ap suc (length-append_uno xs q)

module _ {S : Type 0} where
  module _ (red : Swamp S) (basura : List ℕ) (pid : ℕ) where
    -- One page, at the place of it.
    suspender_pagina_lem :
        {T : ℕ → ℕ → S → Type 0} (tam largo i : ℕ) (p : Pagina) (m : Memoria S)
        → Contrato red tam T
        → T pid p.pagina m.swamp
        → length basura ≡ tam
        → m.tamanio_de_pagina ≡ tam
        → length m.memoria ≡ largo
        → p.frame * tam + tam ≤ largo
        → (m' : Memoria S) × (suspender_pagina red basura pid i p m ≡ some (true, m'))
          × (m'.tamanio_de_pagina ≡ tam)
          × (length m'.memoria ≡ largo)
          × (m'.todas_las_tablas
              ≡ modificar_si
                  (λ (t : Tabla). t.id == pid)
                  (λ (t : Tabla). record t { paginas = set t.paginas i (ausente p) })
                  m.todas_las_tablas)
          × (red.obtener pid p.pagina m'.swamp ≡ some (take tam (drop (p.frame * tam) m.memoria)))
          × ((q k : ℕ) → T q k m.swamp → T q k m'.swamp)
    unfolding suspender_pagina con_tabla modificar_si
    suspender_pagina_lem tam largo i p m ac tiene lb et el h =
        let entra : p.frame * m.tamanio_de_pagina + m.tamanio_de_pagina ≤ length m.memoria =
          omega (arith, et, el, h, ap (λ k. p.frame * k) et) in
        let off = p.frame * m.tamanio_de_pagina in
        let c = take m.tamanio_de_pagina (drop off m.memoria) in
        let lc : length c ≡ tam =
          length-take_le m.tamanio_de_pagina (drop off m.memoria)
            (omega (arith, entra, length-drop off m.memoria))
          ∙ et in
        let (s, e, lee, sigue) = ac.guarda pid p.pagina c m.swamp tiene lc in
        let m1 : Memoria S = record m {
          swamp = s;
          tlb = delete_entrada_tlb pid p.pagina p.frame m.tlb;
          memoria = write_at m.memoria off basura;
        } in
        (
          con_pagina pid i (ausente p) m1,
          rw (memcpy_from-take m.memoria off m.tamanio_de_pagina entra) (
              rw e (
                rw (memcpy_to-write_at m.memoria off m.tamanio_de_pagina basura (lb ∙ sym et) entra)
                  refl)),
          et,
          length-write_at m.memoria off basura ∙ el,
          refl,
          lee ∙ ap (λ k. some (take k (drop (p.frame * k) m.memoria))) et,
          sigue,
        )

    suspender_desde_lem :
        {T : ℕ → ℕ → S → Type 0} (tam largo i : ℕ) (hechas ps : List Pagina) (t : Tabla)
        (m : Memoria S)
        → Contrato red tam T
        → length basura ≡ tam
        → m.tamanio_de_pagina ≡ tam
        → length m.memoria ≡ largo
        → Todos (λ (p : Pagina). (p.frame * tam + tam ≤ largo) × T pid p.pagina m.swamp) ps
        → length hechas ≡ i
        → get_pages_by pid m ≡ some (record t { paginas = hechas ++ ps })
        → (m' : Memoria S) × (suspender_desde red basura pid i ps m ≡ some (true, m'))
          × (get_pages_by pid m' ≡ some (record t { paginas = hechas ++ map ausente ps }))
          × ((q k : ℕ) → T q k m.swamp → T q k m'.swamp)
    unfolding suspender_desde get_pages_by
    suspender_desde_lem tam largo i hechas [] t m ac lb et el h li g = (m, refl, g, λ q k x. x)
    suspender_desde_lem tam largo i hechas (p ∷ ps) t m ac lb et el h li g =
        let (m1, e, et1, el1, ts, _, sigue) =
          suspender_pagina_lem tam largo i p m ac h.0.1 lb et el h.0.0 in
        let f : Tabla → Tabla = λ u. record u { paginas = set u.paginas i (ausente p) } in
        let tabla : Tabla = record t { paginas = hechas ++ (p ∷ ps) } in
        let halla =
          list_find-modificar_si (λ (u : Tabla). u.id == pid) f m.todas_las_tablas tabla g
            (list_find-cumple (λ (u : Tabla). u.id == pid) m.todas_las_tablas tabla g) in
        let puesto : set (hechas ++ (p ∷ ps)) i (ausente p) ≡ (hechas ++ (ausente p ∷ [])) ++ ps =
          ap (λ k. set (hechas ++ (p ∷ ps)) k (ausente p)) (sym li)
          ∙ set-append hechas p (ausente p) ps
          ∙ sym (append-paso hechas (ausente p) ps) in
        let (m2, e2, g2, sigue2) =
          suspender_desde_lem tam largo (suc i) (hechas ++ (ausente p ∷ [])) ps t m1 ac lb et1 el1
            (Todos-implica _ _ _ (λ p x. (x.0, sigue pid p.pagina x.1)) h.1)
            (length-append_uno hechas (ausente p) ∙ ap suc li)
            (subst
              (λ us.
                list_find (λ (u : Tabla). u.id == pid) us
                ≡ some (record t { paginas = (hechas ++ (ausente p ∷ [])) ++ ps }))
              (sym ts) (halla ∙ ap (λ qs. some (record t { paginas = qs })) puesto)) in
        (
          m2,
          rw e e2,
          g2
              ∙ ap (λ qs. some (record t { paginas = qs }))
                  (append-paso hechas (ausente p) (map ausente ps)),
          λ q k x. sigue2 q k (sigue q k x),
        )

    -- For a process with a table, whose pages all have frames of the memory, and a swamp that has
    -- every page of it and keeps the contract of Memoria/Contrato.antt: suspend_process always ends
    -- with the answer 1, every page of the table is then absent and else as it was, and swamp has
    -- every page that it had.
    pub suspend_process_lem :
        {T : ℕ → ℕ → S → Type 0} (t : Tabla) (m : Memoria S)
        → Contrato red m.tamanio_de_pagina T
        → length basura ≡ m.tamanio_de_pagina
        → Todos
            (λ (p : Pagina).
              (p.frame * m.tamanio_de_pagina + m.tamanio_de_pagina ≤ length m.memoria)
              × T pid p.pagina m.swamp)
            t.paginas
        → get_pages_by pid m ≡ some t
        → (m' : Memoria S) × (suspend_process red basura pid m ≡ some (true, m'))
          × (get_pages_by pid m' ≡ some (record t { paginas = map ausente t.paginas }))
          × ((q k : ℕ) → T q k m.swamp → T q k m'.swamp)
    unfolding suspend_process
    suspend_process_lem t m ac lb h g =
        let (m', e, g', sigue) =
          suspender_desde_lem m.tamanio_de_pagina (length m.memoria) 0 [] t.paginas t m ac lb refl
            refl h refl g in
        (m', rw g e, g', sigue)

    -- Where the first page of a process has a frame past the memory, suspend_process reads there.
    suspend_process-afuera :
        (t : Tabla) (p : Pagina) (ps : List Pagina) (m : Memoria S)
        → get_pages_by pid m ≡ some t
        → t.paginas ≡ p ∷ ps
        → length m.memoria < p.frame * m.tamanio_de_pagina + m.tamanio_de_pagina
        → suspend_process red basura pid m ≡ none
    unfolding suspend_process suspender_desde suspender_pagina
    suspend_process-afuera t p ps m g e h = rw g (
        ap (λ qs. suspender_desde red basura pid 0 qs m) e
        ∙ rw (memcpy_from-afuera m.memoria (p.frame * m.tamanio_de_pagina) m.tamanio_de_pagina h)
            refl)

    -- In a memory of its whole size, with a size of a page that is not 0, for a process whose first
    -- page has a frame of the memory: liberarFrame of that frame, as an eviction calls it, always
    -- ends, and suspend_process of the process after it reads past the memory.
    pub suspend_process-liberar_frame :
        (t : Tabla) (p : Pagina) (ps : List Pagina) (m : Memoria S)
        → 0 < m.tamanio_de_pagina
        → length m.memoria ≡ m.tamanio_de_memoria
        → get_pages_by pid m ≡ some t
        → t.paginas ≡ p ∷ ps
        → p.frame < frames_totales m
        → (m' : Memoria S) × (liberar_frame p.frame m ≡ some m')
          × (suspend_process red basura pid m' ≡ none)
    unfolding get_pages_by sacar_frame
    suspend_process-liberar_frame t p ps m pos largo g e entra =
        let rango : EnRango m p.frame =
          subst (λ n. m.tamanio_de_pagina * p.frame + m.tamanio_de_pagina ≤ n) (sym largo)
            (cabe m.tamanio_de_memoria m.tamanio_de_pagina p.frame entra) in
        let (m', l, ts, _, forma) = liberar_frame-some p.frame m rango in
        let total = frames_totales m in
        (
          m',
          l,
          suspend_process-afuera (record t { paginas = sacar_frame total p.frame t.paginas })
              (sin_frame total p) (sacar_frame total p.frame ps) m'
              (subst
                (λ us.
                  list_find (λ (u : Tabla). u.id == pid) us
                  ≡ some (record t { paginas = sacar_frame total p.frame t.paginas }))
                (sym ts) (list_find-sacar_de_todas total p.frame pid m.todas_las_tablas t g))
              (ap (sacar_frame total p.frame) e ∙ rw (==_refl p.frame) refl)
              (pasado (length m'.memoria) m.tamanio_de_pagina m'.tamanio_de_pagina
                m.tamanio_de_memoria pos (forma.largo_igual ∙ largo) forma.pagina_igual),
        )
