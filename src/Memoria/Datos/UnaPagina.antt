-- ===== src/Memoria/Datos/UnaPagina.antt =====
-- memoria/src/memory_utils.c: the part of a read or a write that lies in one page, of a process
-- whose pages are all present.
use tp_sistemas_operativos.Base.{
  ℕ, suc, ◌+◌, ◌*◌, ◌≤◌, ◌≡◌, refl, ap, ◌∙◌, List, some, arith, length, get_elem?, take, drop,
  write_at, length-write_at, length-take_le, length-drop, sym, subst,
}
use tp_sistemas_operativos.Swamp.Archivos.{memcpy_to, memcpy_from}
use tp_sistemas_operativos.Swamp.Archivos.Lectura.{memcpy_from-take}
use tp_sistemas_operativos.Memoria.Estado.{Memoria, Swamp, con_tabla, con_pagina}
use tp_sistemas_operativos.Memoria.Marcos.{mandar_pagina_a_gonza}
use tp_sistemas_operativos.Memoria.Contrato.{Contrato}
use tp_sistemas_operativos.Memoria.Traduccion.Residente.{con_tabla-Residente}
use tp_sistemas_operativos.Memoria.Traduccion.Presente.{
  Vive, SinCambio, get_page_de_lem, get_frame_de_un_lem,
}
use tp_sistemas_operativos.Memoria.Datos.{set_pagina_as_modificado, editar_pagina, leer_pagina}

memcpy_to-parte :
    (archivo : List ℕ) (off n : ℕ) (c : List ℕ)
    → n ≤ length c
    → off + n ≤ length archivo
    → memcpy_to archivo off c n ≡ some (write_at archivo off (take n c))
unfolding memcpy_to
memcpy_to-parte archivo off n c e h = ground arith

-- The frames lie in the memory.
abbrev pub CabenEn : List ℕ → ℕ → List ℕ → Type 0
CabenEn fs t mem = (i f : ℕ) → get_elem? fs i ≡ some f → f * t + t ≤ length mem

module _ {S : Type 0} where
  -- The frames of the process lie in the memory.
  abbrev Caben : List ℕ → Memoria S → Type 0
  Caben fs m =
      (i f : ℕ)
      → get_elem? fs i ≡ some f
      → f * m.tamanio_de_pagina + m.tamanio_de_pagina ≤ length m.memoria

  -- The pages of the process are present, and these are the size of a page and the bytes.
  pub record Fija (T : ℕ → ℕ → S → Type 0) (pid : ℕ) (fs : List ℕ) (t : ℕ) (mem : List ℕ)
      (m : Memoria S) : Type 0 where
    pub vive : Vive pid fs m
    pub tamanio : m.tamanio_de_pagina ≡ t
    pub bytes : m.memoria ≡ mem
    pub en_swap : (i f : ℕ) → get_elem? fs i ≡ some f → T pid (suc i) m.swamp

  Caben-Fija :
      {T : ℕ → ℕ → S → Type 0} (pid : ℕ) (fs : List ℕ) (t : ℕ) (mem : List ℕ) (m : Memoria S)
      → Fija T pid fs t mem m
      → CabenEn fs t mem
      → Caben fs m
  Caben-Fija pid fs t mem m x k i f h =
      omega (arith, k i f h, ap (λ n. f * n) x.tamanio, x.tamanio, ap length x.bytes)

  set_pagina_as_modificado_lem :
      (pid : ℕ) (fs : List ℕ) (i f : ℕ) (m : Memoria S)
      → Vive pid fs m
      → get_elem? fs i ≡ some f
      → (m' : Memoria S) × (set_pagina_as_modificado pid (suc i) m ≡ some m')
        × Vive pid fs m'
        × SinCambio m m'
  unfolding set_pagina_as_modificado con_tabla
  set_pagina_as_modificado_lem pid fs i f m r h =
      let (p, g, e) = get_page_de_lem pid fs i f m r h in
      (
        con_pagina pid i (record p { bit_modificado = 1 }) m,
        rw (g, set_pagina_as_modificado) refl,
        con_tabla-Residente pid fs m.todas_las_tablas m.tlb.tlb_list i f
            (record p { bit_modificado = 1 }) r h
            (record { su_frame = e.su_frame; su_numero = e.su_numero; presente = e.presente }),
        record { misma_memoria = refl; mismo_tamanio = refl; mismo_swamp = refl },
      )

  module _ (red : Swamp S) (vueltas : ℕ) where
    mandar_lem :
        {T : ℕ → ℕ → S → Type 0} (pid f nro : ℕ) (m : Memoria S)
        → Contrato red m.tamanio_de_pagina T
        → T pid nro m.swamp
        → m.tamanio_de_pagina * f + m.tamanio_de_pagina ≤ length m.memoria
        → (m' : Memoria S) × (mandar_pagina_a_gonza red pid f nro m ≡ some m')
          × (m'.memoria ≡ m.memoria)
          × (m'.tamanio_de_pagina ≡ m.tamanio_de_pagina)
          × ((fs : List ℕ) → Vive pid fs m → Vive pid fs m')
          × ((q k : ℕ) → T q k m.swamp → T q k m'.swamp)
    unfolding mandar_pagina_a_gonza
    mandar_lem pid f nro m resp tiene h =
        let c = take m.tamanio_de_pagina (drop (m.tamanio_de_pagina * f) m.memoria) in
        let largo : length c ≡ m.tamanio_de_pagina =
          length-take_le m.tamanio_de_pagina (drop (m.tamanio_de_pagina * f) m.memoria)
            (omega (arith, h, length-drop (m.tamanio_de_pagina * f) m.memoria)) in
        let (s, e, _, sigue) = resp.guarda pid nro c m.swamp tiene largo in
        let m' : Memoria S = record m { swamp = s; hay_que_degenerar = m.hay_que_degenerar } in
        (
          m',
          rw (memcpy_from-take m.memoria (m.tamanio_de_pagina * f) m.tamanio_de_pagina h)
              (rw e refl),
          refl,
          refl,
          λ fs v. v,
          sigue,
        )

    leer_pagina_lem :
        (pid : ℕ) (fs : List ℕ) (i f pos n : ℕ) (m : Memoria S)
        → Vive pid fs m
        → Caben fs m
        → get_elem? fs i ≡ some f
        → pos + n ≤ m.tamanio_de_pagina
        → (m' : Memoria S) × (leer_pagina red vueltas pid (suc i) pos n m
            ≡ some (take n (drop (f * m.tamanio_de_pagina + pos) m.memoria), m'))
          × Vive pid fs m'
          × SinCambio m m'
    unfolding leer_pagina
    leer_pagina_lem pid fs i f pos n m r k h le =
        let (m1, l, v, c) = get_frame_de_un_lem red vueltas pid fs i f m r h in
        let e : memcpy_from m1.memoria (f * m1.tamanio_de_pagina + pos) n
            ≡ some (take n (drop (f * m.tamanio_de_pagina + pos) m.memoria)) =
          rw (c.misma_memoria, c.mismo_tamanio)
            (memcpy_from-take m.memoria (f * m.tamanio_de_pagina + pos) n
              (omega (arith, k i f h))) in
        (m1, rw (l, leer_pagina) (rw e refl), v, c)

    editar_pagina_lem :
        {T : ℕ → ℕ → S → Type 0} (pid : ℕ) (fs : List ℕ) (i f pos n : ℕ) (bytes : List ℕ)
        (m : Memoria S)
        → Contrato red m.tamanio_de_pagina T
        → T pid (suc i) m.swamp
        → Vive pid fs m
        → Caben fs m
        → get_elem? fs i ≡ some f
        → pos + n ≤ m.tamanio_de_pagina
        → n ≤ length bytes
        → (m' : Memoria S) × (editar_pagina red vueltas pid (suc i) pos bytes n m ≡ some m')
          × Vive pid fs m'
          × (m'.tamanio_de_pagina ≡ m.tamanio_de_pagina)
          × (m'.memoria ≡ write_at m.memoria (f * m.tamanio_de_pagina + pos) (take n bytes))
          × ((q k : ℕ) → T q k m.swamp → T q k m'.swamp)
    unfolding editar_pagina
    editar_pagina_lem {T = T} pid fs i f pos n bytes m resp tiene r k h le largo =
        let (m1, l, v, c) = get_frame_de_un_lem red vueltas pid fs i f m r h in
        let mem = write_at m.memoria (f * m.tamanio_de_pagina + pos) (take n bytes) in
        let e : memcpy_to m1.memoria (f * m1.tamanio_de_pagina + pos) bytes n ≡ some mem =
          rw (c.misma_memoria, c.mismo_tamanio)
            (memcpy_to-parte m.memoria (f * m.tamanio_de_pagina + pos) n bytes largo
              (omega (arith, k i f h))) in
        let (m2, l2, v2, c2) =
          set_pagina_as_modificado_lem pid fs i f (record m1 { memoria = mem }) v h in
        let tam : m2.tamanio_de_pagina ≡ m.tamanio_de_pagina = c2.mismo_tamanio ∙ c.mismo_tamanio in
        let entra : m2.tamanio_de_pagina * f + m2.tamanio_de_pagina ≤ length m2.memoria =
          rw (tam, c2.misma_memoria)
            (omega (
              arith,
              k i f h,
              length-write_at m.memoria (f * m.tamanio_de_pagina + pos) (take n bytes),
            )) in
        let mismo : m2.swamp ≡ m.swamp = c2.mismo_swamp ∙ c.mismo_swamp in
        let (m3, l3, x, y, z, sigue) =
          mandar_lem pid f (suc i) m2 (subst (λ k. Contrato red k T) (sym tam) resp)
            (subst (T pid (suc i)) (sym mismo) tiene) entra in
        (
          m3,
          rw (l, editar_pagina) (rw e (rw l2 l3)),
          z fs v2,
          y ∙ tam,
          x ∙ c2.misma_memoria,
          λ q k d. sigue q k (subst (T q k) (sym mismo) d),
        )

    -- The same, with the size of a page and the bytes of the memory named.
    pub leer_una :
        {T : ℕ → ℕ → S → Type 0} (pid : ℕ) (fs : List ℕ) (t : ℕ) (mem : List ℕ) (i f pos n : ℕ)
        (m : Memoria S)
        → Fija T pid fs t mem m
        → CabenEn fs t mem
        → get_elem? fs i ≡ some f
        → pos + n ≤ t
        → (m' : Memoria S) × (leer_pagina red vueltas pid (suc i) pos n m
            ≡ some (take n (drop (f * t + pos) mem), m'))
          × Fija T pid fs t mem m'
    leer_una {T = T} pid fs t mem i f pos n m x k h le =
        let (m', l, v, c) =
          leer_pagina_lem pid fs i f pos n m x.vive (Caben-Fija pid fs t mem m x k) h
            (omega (arith, x.tamanio)) in
        (
          m',
          l ∙ (λ j. some (take n (drop (f * x.tamanio j + pos) (x.bytes j)), m')),
          record {
            vive = v;
            tamanio = c.mismo_tamanio ∙ x.tamanio;
            bytes = c.misma_memoria ∙ x.bytes;
            en_swap = λ i f h. subst (T pid (suc i)) (sym c.mismo_swamp) (x.en_swap i f h);
          },
        )

    pub editar_una :
        {T : ℕ → ℕ → S → Type 0} (pid : ℕ) (fs : List ℕ) (t : ℕ) (mem : List ℕ) (i f pos n : ℕ)
        (bs : List ℕ) (m : Memoria S)
        → Contrato red t T
        → Fija T pid fs t mem m
        → CabenEn fs t mem
        → get_elem? fs i ≡ some f
        → pos + n ≤ t
        → n ≤ length bs
        → (m' : Memoria S) × (editar_pagina red vueltas pid (suc i) pos bs n m ≡ some m')
          × Fija T pid fs t (write_at mem (f * t + pos) (take n bs)) m'
    editar_una {T = T} pid fs t mem i f pos n bs m resp x k h le largo =
        let (m', l, v, y, z, sigue) =
          editar_pagina_lem pid fs i f pos n bs m
            (subst (λ k. Contrato red k T) (sym x.tamanio) resp) (x.en_swap i f h) x.vive
            (Caben-Fija pid fs t mem m x k) h (omega (arith, x.tamanio)) largo in
        (
          m',
          l,
          record {
            vive = v;
            tamanio = y ∙ x.tamanio;
            bytes = z ∙ (λ j. write_at (x.bytes j) (f * x.tamanio j + pos) (take n bs));
            en_swap = λ j g e. sigue pid (suc j) (x.en_swap j g e);
          },
        )
