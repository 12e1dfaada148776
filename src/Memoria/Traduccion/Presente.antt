-- ===== src/Memoria/Traduccion/Presente.antt =====
-- memoria/src/memory_utils.c: getFrameDeUn of a page that is present.
use tp_sistemas_operativos.Base.{
  ℕ, suc, ◌-◌, ◌≡◌, refl, sym, ap, subst, inl, inr, Bool, true, false, List, some, ◌==◌, arith,
  get_elem?, Option-cases, Todos,
}
use tp_sistemas_operativos.Memoria.Estado.{
  Pagina, Memoria, Swamp, get_pages_by, con_tabla, get_page_de,
}
use tp_sistemas_operativos.Memoria.Traduccion.{
  consultar_tlb, agregar_a_tlb, buscar_pagina, usar, cargar_pagina, get_frame_de_un,
}
use tp_sistemas_operativos.Memoria.Traduccion.Residente.{
  EsPagina, Buena, Residente, indice_de-Residente, con_tabla-Residente, consultar_tlb-Buena,
  consultar_tlb-frame, agregar_a_tlb-Buena,
}

module _ {S : Type 0} where
  abbrev pub Vive : ℕ → List ℕ → Memoria S → Type 0
  Vive pid fs m = Residente pid fs m.todas_las_tablas m.tlb.tlb_list

  -- The bytes, the size of a page and swamp stay.
  pub record SinCambio (m m' : Memoria S) : Type 0 where
    pub misma_memoria : m'.memoria ≡ m.memoria
    pub mismo_tamanio : m'.tamanio_de_pagina ≡ m.tamanio_de_pagina
    pub mismo_swamp : m'.swamp ≡ m.swamp

  pub get_page_de_lem :
      (pid : ℕ) (fs : List ℕ) (i f : ℕ) (m : Memoria S)
      → Vive pid fs m
      → get_elem? fs i ≡ some f
      → (p : Pagina) × (get_page_de pid (suc i) m ≡ some (i, p)) × EsPagina i f p
  unfolding get_page_de get_pages_by
  get_page_de_lem pid fs i f m r h =
      let (p, g, e) = r.paginas i f h in
      (p, rw (r.esta, get_page_de) (rw (indice_de-Residente pid fs _ _ i f r h, g) refl), e)

  buscar_pagina_lem :
      (b : Bool) (pid : ℕ) (fs : List ℕ) (i f : ℕ) (m : Memoria S)
      → Vive pid fs m
      → get_elem? fs i ≡ some f
      → (p : Pagina) × (buscar_pagina b pid (suc i) m ≡ some (i, p)) × EsPagina i f p
  unfolding buscar_pagina get_pages_by
  buscar_pagina_lem false pid fs i f m r h = get_page_de_lem pid fs i f m r h
  buscar_pagina_lem true pid fs i f m r h =
      let (p, g, e) = r.paginas i f h in
      let k : suc i - 1 ≡ i = omega arith in (p, rw (r.esta, k, g) refl, e)

  -- The page is used.
  usar-Vive :
      (pid : ℕ) (fs : List ℕ) (i f : ℕ) (p : Pagina) (m : Memoria S)
      → Vive pid fs m
      → get_elem? fs i ≡ some f
      → EsPagina i f p
      → Vive pid fs (usar pid i p m) × SinCambio m (usar pid i p m)
  unfolding usar con_tabla
  usar-Vive pid fs i f p m r h e = (
    con_tabla-Residente pid fs m.todas_las_tablas m.tlb.tlb_list i f
        (record p { bit_uso = 1; lru = suc m.lru_actual }) r h
        (record { su_frame = e.su_frame; su_numero = e.su_numero; presente = e.presente }),
    record { misma_memoria = refl; mismo_tamanio = refl; mismo_swamp = refl },
  )

  module _ (red : Swamp S) (vueltas : ℕ) where
    cargar_pagina_lem :
        (pid : ℕ) (fs : List ℕ) (i f : ℕ) (p : Pagina) (m : Memoria S)
        → Vive pid fs m
        → get_elem? fs i ≡ some f
        → EsPagina i f p
        → (m' : Memoria S) × (cargar_pagina red vueltas pid (suc i) i p m ≡ some (f, m'))
          × Vive pid fs m'
          × SinCambio m m'
    unfolding cargar_pagina
    cargar_pagina_lem pid fs i f p m r h e =
        let y : (p.pagina == suc i) ≡ true = ground (arith, e.su_numero) in
        let z : (p.bit_presencia == 0) ≡ false = ground (arith, e.presente) in
        let (u, c) = usar-Vive pid fs i f p m r h e in
        let m' : Memoria S = record (usar pid i p m) {
          tlb = agregar_a_tlb pid p.pagina p.frame m.tlb;
        } in
        (
          m',
          rw (y, z, cargar_pagina) (ap (λ g. some (g, m')) e.su_frame),
          record {
            tabla = u.tabla;
            esta = u.esta;
            paginas = u.paginas;
            ni_una_mas = u.ni_una_mas;
            buenas =
                subst (λ n. Todos (Buena pid fs) (agregar_a_tlb pid n p.frame m.tlb).tlb_list)
                  (sym e.su_numero)
                  (subst (λ g. Todos (Buena pid fs) (agregar_a_tlb pid (suc i) g m.tlb).tlb_list)
                    (sym e.su_frame) (agregar_a_tlb-Buena pid fs i f m.tlb r.buenas h));
          },
          record {
            misma_memoria = c.misma_memoria;
            mismo_tamanio = c.mismo_tamanio;
            mismo_swamp = c.mismo_swamp;
          },
        )

    -- For a process whose pages are all present, with a TLB whose entries for it agree with its
    -- pages: the translation of a page always ends and gives the frame of the table of pages, on a
    -- hit, on a miss and with no TLB; the pages and the TLB agree as before, and the bytes, the
    -- size of a page and swamp stay.
    pub get_frame_de_un_lem :
        (pid : ℕ) (fs : List ℕ) (i f : ℕ) (m : Memoria S)
        → Vive pid fs m
        → get_elem? fs i ≡ some f
        → (m' : Memoria S) × (get_frame_de_un red vueltas pid (suc i) m ≡ some (f, m'))
          × Vive pid fs m'
          × SinCambio m m'
    unfolding get_frame_de_un
    get_frame_de_un_lem pid fs i f m r h =
        let m1 : Memoria S = record m { tlb = (consultar_tlb pid (suc i) m.tlb).1 } in
        let r1 : Vive pid fs m1 = record {
          tabla = r.tabla;
          esta = r.esta;
          paginas = r.paginas;
          ni_una_mas = r.ni_una_mas;
          buenas = consultar_tlb-Buena pid fs (suc i) m.tlb r.buenas;
        } in
        elim (Option-cases (consultar_tlb pid (suc i) m.tlb).0) [
          | inl n ↦
              let (p, b, e) = buscar_pagina_lem false pid fs i f m1 r1 h in
              let (m', l, v, c) = cargar_pagina_lem pid fs i f p m1 r1 h e in
              (
                m',
                rw (n, get_frame_de_un) (rw b l),
                v,
                record {
                  misma_memoria = c.misma_memoria;
                  mismo_tamanio = c.mismo_tamanio;
                  mismo_swamp = c.mismo_swamp;
                },
              )
          | inr (g, n) ↦
              let (p, b, e) = buscar_pagina_lem true pid fs i f m1 r1 h in
              let (v, c) = usar-Vive pid fs i f p m1 r1 h e in
              let y : (p.bit_presencia == 1) ≡ true = ground (arith, e.presente) in
              (
                usar pid i p m1,
                rw (n, get_frame_de_un)
                    (rw (b, y)
                      (ap (λ k. some (k, usar pid i p m1))
                        (consultar_tlb-frame pid fs i f g m.tlb r.buenas h n))),
                v,
                record {
                  misma_memoria = c.misma_memoria;
                  mismo_tamanio = c.mismo_tamanio;
                  mismo_swamp = c.mismo_swamp;
                },
              )
        ]
