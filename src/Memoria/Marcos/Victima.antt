-- ===== src/Memoria/Marcos/Victima.antt =====
-- memoria/src/memory_utils.c: which page seleccionLRU takes, and what the eviction does.
use tp_sistemas_operativos.Base.{
  ℕ, suc, ◌+◌, ◌*◌, ◌<◌, ◌≤◌, ◌≡◌, ◌⊎◌, inl, inr, refl, ◌&&◌, List, [], ◌∷◌, Option, none, some,
  ◌==◌, ltb, arith, length, get_elem?, replicate, Todos, Todos-get_elem?, Bool-cases,
  length-replicate, length-write_at, drop, length-take_le, length-drop, sym, ap, subst, ◌∙◌,
}
use tp_sistemas_operativos.Swamp.Archivos.Lectura.{leer, memcpy_to-some, memcpy_from-some}
use tp_sistemas_operativos.Memoria.Tlb.{delete_entrada_tlb}
use tp_sistemas_operativos.Memoria.Estado.{Pagina, Memoria, Swamp, frames_totales}
use tp_sistemas_operativos.Memoria.Contrato.{Contrato}
use tp_sistemas_operativos.Memoria.Marcos.{
  victima_lru, sacar_de_todas, frame_asignado, liberar_frame, mandar_pagina_a_gonza, candidatas,
  desalojar, seleccion_lru,
}

-- No present page has a stamp below `l`.
abbrev pub Ninguna : ℕ → List (ℕ × Pagina) → Type 0
Ninguna l = Todos (λ (x : ℕ × Pagina). x.1.bit_presencia ≡ 1 → l ≤ x.1.lru)

-- The page stands among them, is present, and no present page has a lesser stamp.
pub record EsVictima (d : ℕ) (p : Pagina) (l : ℕ) (xs : List (ℕ × Pagina)) : Type 0 where
  pub lugar : ℕ
  pub esta : get_elem? xs lugar ≡ some (d, p)
  pub presente : p.bit_presencia ≡ 1
  pub menor : p.lru < l
  pub minima : Ninguna p.lru xs

pub victima_lru_lem :
    (l : ℕ) (v : Option (ℕ × Pagina)) (xs : List (ℕ × Pagina))
    → ((victima_lru l v xs ≡ v) × Ninguna l xs)
      ⊎ ((d : ℕ) × (p : Pagina) × (victima_lru l v xs ≡ some (d, p)) × EsVictima d p l xs)
unfolding victima_lru
victima_lru_lem l v [] = inl (refl, tt)
victima_lru_lem l v ((d, p) ∷ xs) = elim (Bool-cases (ltb p.lru l && p.bit_presencia == 1)) [
  | inl y ↦ rw y (elim (victima_lru_lem p.lru (some (d, p)) xs) [
    | inl (e, n) ↦ inr (
      d,
      p,
      e,
      record {
        lugar = 0;
        esta = refl;
        presente = ground (arith, y);
        menor = ground (arith, y);
        minima = (λ _. omega arith, n);
      },
    )
    | inr (d', q, e, w) ↦ inr (
      d',
      q,
      e,
      record {
        lugar = suc w.lugar;
        esta = w.esta;
        presente = w.presente;
        menor = ground (arith, y, w.menor);
        minima = (λ _. omega (arith, w.menor), w.minima);
      },
    )
  ])
  | inr y ↦ rw y (elim (victima_lru_lem l v xs) [
    | inl (e, n) ↦ inl (e, (λ h. ground (arith, y, h), n))
    | inr (d', q, e, w) ↦ inr (
      d',
      q,
      e,
      record {
        lugar = suc w.lugar;
        esta = w.esta;
        presente = w.presente;
        menor = w.menor;
        minima = (λ h. ground (arith, y, h, w.menor), w.minima);
      },
    )
  ])
]

-- A frame of the memory.
abbrev pub EnRango : {S : Type 0} → Memoria S → ℕ → Type 0
EnRango m f = m.tamanio_de_pagina * f + m.tamanio_de_pagina ≤ length m.memoria

-- What the replacement leaves as it was.
pub record MismaForma {S : Type 0} (m m' : Memoria S) : Type 0 where
  pub pagina_igual : m'.tamanio_de_pagina ≡ m.tamanio_de_pagina
  pub memoria_igual : m'.tamanio_de_memoria ≡ m.tamanio_de_memoria
  pub largo_igual : length m'.memoria ≡ length m.memoria
  pub dinamica_igual : m'.asignacion_dinamica ≡ m.asignacion_dinamica
  pub puntero_igual : m'.puntero_frame_clock ≡ m.puntero_frame_clock

module _ {S : Type 0} where
  pub liberar_frame-some :
      (f : ℕ) (m : Memoria S)
      → EnRango m f
      → (m' : Memoria S) × (liberar_frame f m ≡ some m')
        × (m'.todas_las_tablas ≡ sacar_de_todas (frames_totales m) f m.todas_las_tablas)
        × (m'.swamp ≡ m.swamp)
        × MismaForma m m'
  unfolding liberar_frame
  liberar_frame-some f m h =
      let c : List ℕ = replicate m.tamanio_de_pagina 0 in
      let largo : length c ≡ m.tamanio_de_pagina = length-replicate m.tamanio_de_pagina 0 in
      elim (Bool-cases (frame_asignado f m)) [
        | inl y ↦
            rw (y, memcpy_to-some m.memoria m.tamanio_de_pagina f c largo h)
              (
                _,
                refl,
                refl,
                refl,
                record {
                  pagina_igual = refl;
                  memoria_igual = refl;
                  largo_igual = length-write_at m.memoria (m.tamanio_de_pagina * f) c;
                  dinamica_igual = refl;
                  puntero_igual = refl;
                },
              )
        | inr y ↦ rw y (
          _,
          refl,
          refl,
          refl,
          record {
            pagina_igual = refl;
            memoria_igual = refl;
            largo_igual = refl;
            dinamica_igual = refl;
            puntero_igual = refl;
          },
        )
      ]

  pub desalojar-some :
      {T : ℕ → ℕ → S → Type 0} (red : Swamp S) (pid d : ℕ) (p : Pagina) (m : Memoria S)
      → Contrato red m.tamanio_de_pagina T
      → T d p.pagina m.swamp
      → EnRango m p.frame
      → (m' : Memoria S) × (desalojar red pid d p m ≡ some m')
        × (m'.todas_las_tablas ≡ sacar_de_todas (frames_totales m) p.frame m.todas_las_tablas)
        × (red.obtener d p.pagina m'.swamp ≡ some (leer m.tamanio_de_pagina m.memoria p.frame))
        × ((q k : ℕ) → T q k m.swamp → T q k m'.swamp)
        × MismaForma m m'
  unfolding desalojar mandar_pagina_a_gonza
  desalojar-some {T = T} red pid d p m resp tiene h =
      let c = leer m.tamanio_de_pagina m.memoria p.frame in
      let largo : length c ≡ m.tamanio_de_pagina =
        length-take_le m.tamanio_de_pagina (drop (m.tamanio_de_pagina * p.frame) m.memoria)
          (omega (arith, h, length-drop (m.tamanio_de_pagina * p.frame) m.memoria)) in
      let (s, e, lee, sigue) = resp.guarda d p.pagina c m.swamp tiene largo in
      let m1 : Memoria S = record m {
        swamp = s;
        hay_que_degenerar = m.hay_que_degenerar;
        tlb = delete_entrada_tlb pid p.pagina p.frame m.tlb;
      } in
      let (m', l, t, sw, f) = liberar_frame-some p.frame m1 h in
      rw (memcpy_from-some m.memoria m.tamanio_de_pagina p.frame h, e)
        (
          m',
          l,
          t,
          ap (red.obtener d p.pagina) sw ∙ lee,
          λ q k x. subst (T q k) (sym sw) (sigue q k x),
          record {
            pagina_igual = f.pagina_igual;
            memoria_igual = f.memoria_igual;
            largo_igual = f.largo_igual;
            dinamica_igual = f.dinamica_igual;
            puntero_igual = f.puntero_igual;
          },
        )

  -- With candidates whose present pages have frames of the memory, one of them with a stamp below
  -- 99999, and a swamp that has these pages and keeps the contract of Memoria/Contrato.antt:
  -- seleccionLRU always ends, its victim is a present candidate with the least stamp of the present
  -- ones, every page with the frame of the victim loses it, swamp has the bytes of that frame for
  -- the page of the victim and loses no page, and the sizes, the kind of assignment and the hand of
  -- the clock stay.
  pub seleccion_lru_lem :
      {T : ℕ → ℕ → S → Type 0} (red : Swamp S) (pid : ℕ) (m : Memoria S) (xs : List (ℕ × Pagina))
      (i e : ℕ) (q : Pagina)
      → Contrato red m.tamanio_de_pagina T
      → candidatas pid m ≡ some xs
      → Todos
          (λ (x : ℕ × Pagina).
            x.1.bit_presencia ≡ 1 → EnRango m x.1.frame × T x.0 x.1.pagina m.swamp)
          xs
      → get_elem? xs i ≡ some (e, q)
      → q.bit_presencia ≡ 1
      → q.lru < 99999
      → (m' : Memoria S) × (d : ℕ) × (p : Pagina) × (seleccion_lru red pid m ≡ some m')
        × EsVictima d p 99999 xs
        × (m'.todas_las_tablas ≡ sacar_de_todas (frames_totales m) p.frame m.todas_las_tablas)
        × (red.obtener d p.pagina m'.swamp ≡ some (leer m.tamanio_de_pagina m.memoria p.frame))
        × ((q k : ℕ) → T q k m.swamp → T q k m'.swamp)
        × MismaForma m m'
  unfolding seleccion_lru
  seleccion_lru_lem red pid m xs i e q resp cand rango esta pres menor =
      elim (victima_lru_lem 99999 none xs) [
        | inl (_, n) ↦ absurd (omega (arith, menor, Todos-get_elem? _ xs i (e, q) n esta pres))
        | inr (d, p, v, w) ↦
            let (en_rango, tiene) = Todos-get_elem? _ xs w.lugar (d, p) rango w.esta w.presente in
            let (m', l, t, lee, sigue, f) = desalojar-some red pid d p m resp tiene en_rango in
            (m', d, p, rw (cand, v) l, w, t, lee, sigue, f)
      ]
