-- ===== src/Memoria/Traduccion/Fallo.antt =====
-- memoria/src/memory_utils.c: what a page fault does, with a dynamic assignment and the
-- replacement by LRU.
use tp_sistemas_operativos.Base.{
  ℕ, ◌+◌, ◌*◌, ◌<◌, ◌≤◌, ◌≡◌, refl, sym, ap, subst, ◌∙◌, true, false, List, some, ◌==◌,
  if◌then◌else◌, arith, length, set, get_elem?, modificar_si, list_any_satisfy, list_find, Todos,
  Todos-implica, Todos-get_elem?, ◌>>=◌,
}
use tp_sistemas_operativos.Swamp.Archivos.Lectura.{leer, cabe, memcpy_to-some, leer-write_at}
use tp_sistemas_operativos.Memoria.Estado.{
  Pagina, Tabla, Memoria, Swamp, paginas_de, frames_totales, get_pages_by, con_tabla,
}
use tp_sistemas_operativos.Memoria.Contrato.{Contrato}
use tp_sistemas_operativos.Memoria.Marcos.{
  sin_frame, sacar_frame, sacar_de_todas, candidatas, seleccion_lru, frame_asignado,
}
use tp_sistemas_operativos.Memoria.Marcos.Victima.{EsVictima, MismaForma, seleccion_lru_lem}
use tp_sistemas_operativos.Memoria.Marcos.Libre.{
  tiene, Ocupadas, sacar_de_todas-tiene, sacar_de_todas-Ocupadas, list_find-sacar_de_todas,
  get_elem?-sacar_frame, esta_ocupado_un-nadie, get_new_empty_frame_lem,
}
use tp_sistemas_operativos.Memoria.Clock.{seleccion_clock_mejorado}
use tp_sistemas_operativos.Memoria.Traduccion.{
  utilizar_algritmo_de_asignacion, llenar_pagina, traer_pagina,
}

module _ {S : Type 0} where
  -- The state of a dynamic assignment with LRU: the memory has its size, the pages are busy, and
  -- the present ones have a frame of the memory and are in swap.
  pub record Dinamica (T : ℕ → ℕ → S → Type 0) (m : Memoria S) : Type 0 where
    pub es_dinamica : m.asignacion_dinamica ≡ true
    pub es_lru : m.reemplazo_lru ≡ true
    pub largo : length m.memoria ≡ m.tamanio_de_memoria
    pub ocupadas : Ocupadas m.todas_las_tablas
    pub en_memoria :
        Todos
          (λ (x : ℕ × Pagina).
            x.1.bit_presencia ≡ 1 → (x.1.frame < frames_totales m) × T x.0 x.1.pagina m.swamp)
          (paginas_de m.todas_las_tablas)

  -- A frame `f` was taken from a present page with the least stamp, the page stands at the place
  -- `i` of its table with a frame of the memory that no page has, and there are the bytes that
  -- swamp gave.
  pub record Traida (red : Swamp S) (pid nro i : ℕ) (m m' : Memoria S) (p' : Pagina) : Type 0 where
    pub duenio : ℕ
    pub victima : Pagina
    pub es_victima : EsVictima duenio victima 99999 (paginas_de m.todas_las_tablas)
    pub frame_en_memoria : p'.frame < frames_totales m
    pub de_nadie :
        list_any_satisfy
          (tiene p'.frame)
          (paginas_de (sacar_de_todas (frames_totales m) victima.frame m.todas_las_tablas))
        ≡ false
    pub presente : p'.bit_presencia ≡ 1
    pub tablas :
        m'.todas_las_tablas
        ≡ modificar_si
            (λ (t : Tabla). t.id == pid)
            (λ (t : Tabla). record t { paginas = set t.paginas i p' })
            (sacar_de_todas (frames_totales m) victima.frame m.todas_las_tablas)
    pub victima_guardada :
        red.obtener duenio victima.pagina m'.swamp
        ≡ some (leer m.tamanio_de_pagina m.memoria victima.frame)
    pub bytes : red.obtener pid nro m'.swamp ≡ some (leer m.tamanio_de_pagina m'.memoria p'.frame)

  llenar_pagina_lem :
      (red : Swamp S) (pid nro i f : ℕ) (m : Memoria S) (t : Tabla) (p : Pagina)
      → (c : List ℕ) × (red.obtener pid nro m.swamp ≡ some c) × (length c ≡ m.tamanio_de_pagina)
      → m.asignacion_dinamica ≡ true
      → length m.memoria ≡ m.tamanio_de_memoria
      → Ocupadas m.todas_las_tablas
      → get_pages_by pid m ≡ some t
      → get_elem? t.paginas i ≡ some p
      → f < frames_totales m
      → frame_asignado f m ≡ false
      → (p' : Pagina) × (m' : Memoria S) × (llenar_pagina red pid nro i m ≡ some (p', m'))
        × (p'.frame < frames_totales m)
        × (frame_asignado p'.frame m ≡ false)
        × (p'.bit_presencia ≡ 1)
        × (m'.todas_las_tablas
            ≡ modificar_si
                (λ (t : Tabla). t.id == pid)
                (λ (t : Tabla). record t { paginas = set t.paginas i p' })
                m.todas_las_tablas)
        × (red.obtener pid nro m'.swamp ≡ some (leer m.tamanio_de_pagina m'.memoria p'.frame))
        × (m'.swamp ≡ m.swamp)
  unfolding llenar_pagina modificar_si con_tabla
  llenar_pagina_lem red pid nro i f m t p dev din largo ocup tab pag menor libre =
      let (g, n, le, oc) = get_new_empty_frame_lem pid f m din menor libre in
      let (c, o, l) = dev in
      let entra =
        subst (λ n. m.tamanio_de_pagina * g + m.tamanio_de_pagina ≤ n) (sym largo)
          (cabe m.tamanio_de_memoria m.tamanio_de_pagina g (omega arith)) in
      let p' : Pagina = record p { frame = g; bit_modificado = 0; bit_presencia = 1 } in
      rw (n, tab)
        (rw (pag, o)
          (rw (memcpy_to-some m.memoria m.tamanio_de_pagina g c l entra) (
            p',
            _,
            refl,
            omega arith,
            esta_ocupado_un-nadie g m ocup oc,
            refl,
            refl,
            o ∙ ap some (sym (leer-write_at m.memoria m.tamanio_de_pagina g c l entra)),
            refl,
          )))

  -- After the eviction, the page is brought.
  llenar-Traida :
      {T : ℕ → ℕ → S → Type 0} (red : Swamp S) (pid nro i : ℕ) (m m1 : Memoria S) (t : Tabla)
      (p : Pagina) (d : ℕ) (v : Pagina)
      → Contrato red m.tamanio_de_pagina T
      → T pid nro m1.swamp
      → red.obtener d v.pagina m1.swamp ≡ some (leer m.tamanio_de_pagina m.memoria v.frame)
      → Dinamica T m
      → get_pages_by pid m ≡ some t
      → get_elem? t.paginas i ≡ some p
      → EsVictima d v 99999 (paginas_de m.todas_las_tablas)
      → m1.todas_las_tablas ≡ sacar_de_todas (frames_totales m) v.frame m.todas_las_tablas
      → MismaForma m m1
      → (p' : Pagina) × (m' : Memoria S) × (llenar_pagina red pid nro i m1 ≡ some (p', m'))
        × Traida red pid nro i m m' p'
  unfolding get_pages_by frame_asignado
  llenar-Traida red pid nro i m m1 t p d v resp en_swap guardada din tab pag vic ts forma =
      let total : frames_totales m1 ≡ frames_totales m =
        rw (forma.memoria_igual, forma.pagina_igual) refl in
      let (menor, _) = Todos-get_elem? _ _ vic.lugar (d, v) din.en_memoria vic.esta vic.presente in
      let (c, o, lc) = resp.devuelve pid nro m1.swamp en_swap in
      let nadie =
        sacar_de_todas-tiene (frames_totales m) v.frame m.todas_las_tablas (λ z. omega arith) in
      let (p', m', l, cf, n, pr, tb, by, sw) =
        llenar_pagina_lem red pid nro i v.frame m1
          (record t { paginas = sacar_frame (frames_totales m) v.frame t.paginas })
          (if p.frame == v.frame then sin_frame (frames_totales m) p else p)
          (c, o, lc ∙ sym forma.pagina_igual) (forma.dinamica_igual ∙ din.es_dinamica)
          (forma.largo_igual ∙ din.largo ∙ sym forma.memoria_igual)
          (subst Ocupadas (sym ts)
            (sacar_de_todas-Ocupadas (frames_totales m) v.frame m.todas_las_tablas din.ocupadas))
          (subst
            (λ us.
              list_find (λ (u : Tabla). u.id == pid) us
              ≡ some (record t { paginas = sacar_frame (frames_totales m) v.frame t.paginas }))
            (sym ts)
            (list_find-sacar_de_todas (frames_totales m) v.frame pid m.todas_las_tablas t tab))
          (get_elem?-sacar_frame (frames_totales m) v.frame t.paginas i p pag)
          (subst (λ k. v.frame < k) (sym total) menor)
          (subst (λ us. list_any_satisfy (tiene v.frame) (paginas_de us) ≡ false) (sym ts) nadie) in
      (
        p',
        m',
        l,
        record {
          duenio = d;
          victima = v;
          es_victima = vic;
          frame_en_memoria = subst (λ k. p'.frame < k) total cf;
          de_nadie = subst (λ us. list_any_satisfy (tiene p'.frame) (paginas_de us) ≡ false) ts n;
          presente = pr;
          tablas =
              tb
              ∙ ap
                  (modificar_si (λ (t : Tabla). t.id == pid)
                    (λ (t : Tabla). record t { paginas = set t.paginas i p' }))
                  ts;
          victima_guardada = ap (red.obtener d v.pagina) sw ∙ guardada;
          bytes = by ∙ ap (λ k. some (leer k m'.memoria p'.frame)) forma.pagina_igual;
        },
      )

  traer_pagina-lru :
      (red : Swamp S) (vueltas pid nro i : ℕ) (m m1 : Memoria S)
      → m.reemplazo_lru ≡ true
      → seleccion_lru red pid m ≡ some m1
      → traer_pagina red vueltas pid nro i m ≡ llenar_pagina red pid nro i m1
  unfolding traer_pagina utilizar_algritmo_de_asignacion
  traer_pagina-lru red vueltas pid nro i m m1 y sel =
      ap
        (λ b.
          (if b then seleccion_lru red pid m else seleccion_clock_mejorado red vueltas pid m)
          >>= llenar_pagina red pid nro i)
        y
      ∙ ap (λ o. o >>= llenar_pagina red pid nro i) sel

  -- Dynamic assignment with LRU, every page being busy, the present ones having frames of the
  -- memory, one of them with a stamp below 99999, and a swamp that has the wanted page and the
  -- present ones and keeps the contract of Memoria/Contrato.antt. A page fault always ends: a
  -- present page with the least stamp loses its frame and swamp has the bytes that were there, the
  -- page that was missing is present at its place of the table with a frame of the memory that no
  -- page has by then, and that frame holds the bytes that swamp gives for the page.
  pub traer_pagina_lem :
      {T : ℕ → ℕ → S → Type 0} (red : Swamp S) (vueltas pid nro i : ℕ) (m : Memoria S) (t : Tabla)
      (p : Pagina) (j e : ℕ) (q : Pagina)
      → Contrato red m.tamanio_de_pagina T
      → T pid nro m.swamp
      → Dinamica T m
      → get_pages_by pid m ≡ some t
      → get_elem? t.paginas i ≡ some p
      → get_elem? (paginas_de m.todas_las_tablas) j ≡ some (e, q)
      → q.bit_presencia ≡ 1
      → q.lru < 99999
      → (p' : Pagina) × (m' : Memoria S) × (traer_pagina red vueltas pid nro i m ≡ some (p', m'))
        × Traida red pid nro i m m' p'
  unfolding candidatas
  traer_pagina_lem red vueltas pid nro i m t p j e q resp en_swap din tab pag esta pres menor =
      let (m1, d, v, sel, vic, ts, lee, sigue, forma) =
        seleccion_lru_lem red pid m (paginas_de m.todas_las_tablas) j e q resp
          (rw din.es_dinamica refl)
          (Todos-implica _ _ _
            (λ x f h. (
              subst (λ n. m.tamanio_de_pagina * x.1.frame + m.tamanio_de_pagina ≤ n) (sym din.largo)
                  (cabe m.tamanio_de_memoria m.tamanio_de_pagina x.1.frame (f h).0),
              (f h).1,
            ))
            din.en_memoria)
          esta pres menor in
      let (p', m', l, tr) =
        llenar-Traida red pid nro i m m1 t p d v resp (sigue pid nro en_swap) lee din tab pag vic ts
          forma in
      (p', m', traer_pagina-lru red vueltas pid nro i m m1 din.es_lru sel ∙ l, tr)
