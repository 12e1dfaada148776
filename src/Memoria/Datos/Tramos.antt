-- ===== src/Memoria/Datos/Tramos.antt =====
-- memoria/src/memory_utils.c: the stretches of pages that editarAlgoEnMemoria writes and
-- read_from_memory reads, when the pages of the process are all present.
use native.Mathlib.Nat.{mod-lt, div-add-mod'}
use mathlib.Core.Option.{some-injective}
use tp_sistemas_operativos.Base.{
  ℕ, zero, suc, ◌+◌, ◌*◌, ◌-◌, ◌/◌, ◌<◌, ◌≤◌, ◌≡◌, ap, subst, ◌∙◌, dec_lt, ℕ_discrete, List, ◌++◌,
  some, true, false, ◌==◌, ltb, arith, length, get_elem?-some, take, drop, length-drop, ◌>>=◌, ◌⊎◌,
  inl, inr, get_elem?, write_at, read-write_at_before, sym,
}
use tp_sistemas_operativos.Swamp.Archivos.Lectura.{mul_le, take_todo}
use tp_sistemas_operativos.Memoria.Estado.{Memoria, Swamp}
use tp_sistemas_operativos.Memoria.Contrato.{Contrato}
use tp_sistemas_operativos.Memoria.Datos.{
  Tramo, tramo_de, editar_pagina, editar_desde, editar_tramo, leer_pagina, leer_desde, leer_tramo,
}
use tp_sistemas_operativos.Memoria.Datos.UnaPagina.{Fija, CabenEn, leer_una, editar_una}
use tp_sistemas_operativos.Memoria.Datos.VariasPaginas.{
  largo_de, Distintos, take-split, Parte, Contenido, Fuera-write_at, CabenEn-write_at,
  Parte-write_at, leer_desde_lem, editar_desde_lem,
}

-- A stretch of `n` bytes from the page of the place `a` to the one of the place `b`.
pub record EsTramo (t n a b : ℕ) (tramo : Tramo) : Type 0 where
  pub inicio_es : tramo.pagi_inicio ≡ suc a
  pub fin_es : tramo.pagi_fin ≡ suc b
  pub ordenado : a ≤ b
  pub adentro : tramo.pos_inicio < t
  pub final_entra : tramo.tamanio_pag_final ≤ t
  pub una_sola : a ≡ b → tramo.pos_inicio + n ≤ t
  pub varias : a < b → n ≡ (t - tramo.pos_inicio) + largo_de (b - a - 1) t tramo.tamanio_pag_final

largo_de_lem : (k t u : ℕ) → largo_de k t u ≡ k * t + u
largo_de_lem zero t u = grind arith
largo_de_lem (suc k) t u = grind (arith, largo_de_lem k t u)

pub tramo_de-EsTramo :
    (t inicio n : ℕ)
    → 0 < t
    → 0 < n
    → EsTramo t n (inicio / t) ((inicio + n - 1) / t) (tramo_de t inicio n)
tramo_de-EsTramo t inicio n ht hn =
    let a = inicio / t in
    let b = (inicio + n - 1) / t in
    let a1 = div-add-mod' inicio t in
    let a2 = mod-lt inicio ht in
    let b1 = div-add-mod' (inicio + n - 1) t in
    let b2 = mod-lt (inicio + n - 1) ht in
    let ka : (a + 1 - 1) * t ≡ a * t = ap (λ x. x * t) (omega arith) in
    let kb : (b + 1 - 1) * t ≡ b * t = ap (λ x. x * t) (omega arith) in
    record {
      inicio_es = omega arith;
      fin_es = omega arith;
      ordenado = elim (dec_lt b a) [
        | yes l ↦ absurd (omega (arith, a1, a2, b1, b2, mul_le t (suc b) a l))
        | no l ↦ omega arith
      ];
      adentro = omega (arith, ka, a1, a2);
      final_entra = omega (arith, kb, b1, b2);
      una_sola = λ e. omega (arith, ka, a1, a2, b1, b2, ap (λ x. x * t) e);
      varias = λ l.
          let d : b - a - 1 + a + 1 ≡ b = omega arith in
          omega (
            arith,
            largo_de_lem (b - a - 1) t (inicio + n - (b + 1 - 1) * t),
            ka,
            kb,
            a1,
            a2,
            b1,
            b2,
            ap (λ x. x * t) d,
          );
    }

module _ {S : Type 0} (red : Swamp S) (vueltas pid : ℕ) (fs : List ℕ) (t : ℕ) where
  -- How the two begin, when there is one page and when there are more.
  editar_tramo-una :
      (n a b : ℕ) (tramo : Tramo) (bytes : List ℕ) (m : Memoria S)
      → EsTramo t n a b tramo
      → a ≡ b
      → editar_tramo red vueltas pid tramo n bytes m
        ≡ editar_pagina red vueltas pid (suc a) tramo.pos_inicio bytes n m
  unfolding editar_tramo
  editar_tramo-una n a b tramo bytes m es e =
      let y : (tramo.pagi_inicio == tramo.pagi_fin) ≡ true =
        ground (arith, es.inicio_es, es.fin_es) in
      rw (y, editar_tramo)
        (λ j. editar_pagina red vueltas pid (es.inicio_es j) tramo.pos_inicio bytes n m)

  leer_tramo-una :
      (n a b : ℕ) (tramo : Tramo) (m : Memoria S)
      → EsTramo t n a b tramo
      → a ≡ b
      → leer_tramo red vueltas pid tramo n m
        ≡ leer_pagina red vueltas pid (suc a) tramo.pos_inicio n m
  unfolding leer_tramo
  leer_tramo-una n a b tramo m es e =
      let y : (tramo.pagi_inicio == tramo.pagi_fin) ≡ true =
        ground (arith, es.inicio_es, es.fin_es) in
      rw (y, leer_tramo) (λ j. leer_pagina red vueltas pid (es.inicio_es j) tramo.pos_inicio n m)

  editar_tramo-varias :
      (n a b : ℕ) (tramo : Tramo) (bytes : List ℕ) (m : Memoria S)
      → EsTramo t n a b tramo
      → m.tamanio_de_pagina ≡ t
      → a < b
      → editar_tramo red vueltas pid tramo n bytes m ≡ (
          editar_pagina red vueltas pid (suc a) tramo.pos_inicio bytes (t - tramo.pos_inicio) m
          >>= editar_desde red vueltas pid
              (suc (suc a))
              (b - a - 1)
              (drop (t - tramo.pos_inicio) bytes)
              tramo.tamanio_pag_final)
  unfolding editar_tramo
  editar_tramo-varias n a b tramo bytes m es e l =
      let y : (tramo.pagi_inicio == tramo.pagi_fin) ≡ false =
        ground (arith, es.inicio_es, es.fin_es) in
      let z : ltb tramo.pagi_fin tramo.pagi_inicio ≡ false =
        ground (arith, es.inicio_es, es.fin_es) in
      let k : tramo.pagi_fin - tramo.pagi_inicio - 1 ≡ b - a - 1 =
        omega (arith, es.inicio_es, es.fin_es) in
      rw (y, z, editar_tramo)
        (λ j.
          editar_pagina red vueltas pid (es.inicio_es j) tramo.pos_inicio bytes
            (e j - tramo.pos_inicio) m
          >>= editar_desde red vueltas pid (suc (es.inicio_es j)) (k j)
              (drop (e j - tramo.pos_inicio) bytes) tramo.tamanio_pag_final)

  leer_tramo-varias :
      (n a b : ℕ) (tramo : Tramo) (m : Memoria S)
      → EsTramo t n a b tramo
      → m.tamanio_de_pagina ≡ t
      → a < b
      → leer_tramo red vueltas pid tramo n m ≡ (
          leer_pagina red vueltas pid (suc a) tramo.pos_inicio (t - tramo.pos_inicio) m >>= λ x.
          leer_desde red vueltas pid (suc (suc a)) (b - a - 1) tramo.tamanio_pag_final x.1 >>= λ y.
          some (x.0 ++ y.0, y.1))
  unfolding leer_tramo
  leer_tramo-varias n a b tramo m es e l =
      let y : (tramo.pagi_inicio == tramo.pagi_fin) ≡ false =
        ground (arith, es.inicio_es, es.fin_es) in
      let z : ltb tramo.pagi_fin tramo.pagi_inicio ≡ false =
        ground (arith, es.inicio_es, es.fin_es) in
      let k : tramo.pagi_fin - tramo.pagi_inicio - 1 ≡ b - a - 1 =
        omega (arith, es.inicio_es, es.fin_es) in
      rw (y, z, leer_tramo)
        (λ j.
          leer_pagina red vueltas pid (es.inicio_es j) tramo.pos_inicio (e j - tramo.pos_inicio) m
          >>= λ x.
              leer_desde red vueltas pid (suc (es.inicio_es j)) (k j) tramo.tamanio_pag_final x.1
              >>= λ y. some (x.0 ++ y.0, y.1))

  -- The bytes of a stretch stand in the memory.
  abbrev pub EnMemoria : List ℕ → ℕ → ℕ → ℕ → Tramo → List ℕ → Type 0
  EnMemoria mem n a b tramo bytes =
      let p = tramo.pos_inicio in
      (a ≡ b → Parte mem t fs a p n bytes)
      × (a < b
          → Parte mem t fs a p (t - p) bytes
            × Contenido mem t fs (suc a) (b - a - 1) tramo.tamanio_pag_final (drop (t - p) bytes))

  -- What stands before the place `p` of the page at `a` is the same.
  abbrev pub Antes : List ℕ → List ℕ → ℕ → ℕ → Type 0
  Antes mem mem' a p =
      (j g o q : ℕ)
      → get_elem? fs j ≡ some g
      → o + q ≤ t
      → (j < a) ⊎ ((j ≡ a) × (o + q ≤ p))
      → take q (drop (g * t + o) mem') ≡ take q (drop (g * t + o) mem)

  pub Contenido-Antes :
      (mem mem' : List ℕ) (a p i k u : ℕ) (bytes : List ℕ)
      → Antes mem mem' a p
      → u ≤ t
      → (i + k < a) ⊎ ((i + k ≡ a) × (u ≤ p))
      → Contenido mem t fs i k u bytes
      → Contenido mem' t fs i k u bytes
  Contenido-Antes mem mem' a p i zero u bytes antes h w c =
      λ f g. antes i f 0 u g (omega arith) (ground (arith, w)) ∙ c f g
  Contenido-Antes mem mem' a p i (suc k) u bytes antes h w c = (
    λ f g. antes i f 0 t g (omega arith) (inl (ground (arith, w))) ∙ c.0 f g,
    Contenido-Antes mem mem' a p (suc i) k u (drop t bytes) antes h (ground (arith, w)) c.1,
  )

  -- The pages are still present, the bytes that were written are there, and those before them stay.
  abbrev pub Sigue : (ℕ → ℕ → S → Type 0) → List ℕ → ℕ → ℕ → ℕ → Tramo → List ℕ → Memoria S → Type 0
  Sigue T mem n a b tramo bytes m' =
      (mem' : List ℕ) × Fija T pid fs t mem' m'
      × CabenEn fs t mem'
      × EnMemoria mem' n a b tramo bytes
      × Antes mem mem' a tramo.pos_inicio

  -- A stretch that stands in the memory is read.
  pub leer_EnMemoria :
      {T : ℕ → ℕ → S → Type 0} (mem : List ℕ) (n a b : ℕ) (tramo : Tramo) (bytes : List ℕ)
      (m : Memoria S)
      → Fija T pid fs t mem m
      → CabenEn fs t mem
      → EsTramo t n a b tramo
      → b < length fs
      → length bytes ≡ n
      → EnMemoria mem n a b tramo bytes
      → (m'' : Memoria S) × (leer_tramo red vueltas pid tramo n m ≡ some (bytes, m''))
  leer_EnMemoria mem n a b tramo bytes m x c es l largo esta =
      let p = tramo.pos_inicio in
      let u = tramo.tamanio_pag_final in
      let (f, g) = get_elem?-some fs a (omega (arith, es.ordenado)) in
      elim (ℕ_discrete a b) [
        | yes e ↦
            let (m', r, z) = leer_una red vueltas pid fs t mem a f p n m x c g (es.una_sola e) in
            (
              m',
              leer_tramo-una n a b tramo m es e
                  ∙ r
                  ∙ ap (λ k. some (k, m'))
                      (esta.0 e f g ∙ subst (λ k. take k bytes ≡ bytes) largo (take_todo bytes)),
            )
        | no ne ↦
            let lt : a < b = omega (arith, es.ordenado) in
            let total = es.varias lt in
            let (parte, cont) = esta.1 lt in
            let (m3, q', y') =
              leer_una red vueltas pid fs t mem a f p (t - p) m x c g (omega (arith, es.adentro)) in
            let (m4, r', z') =
              leer_desde_lem red vueltas pid fs t mem (suc a) (b - a - 1) u (drop (t - p) bytes) m3
                y' c (omega arith) es.final_entra cont in
            (
              m4,
              leer_tramo-varias n a b tramo m es x.tamanio lt
                  ∙ rw q' (
                      rw r' (
                        ap (λ k. some (k, m4))
                          (ap (λ k. k ++ take (largo_de (b - a - 1) t u) (drop (t - p) bytes))
                              (parte f g)
                            ∙ take-split (t - p) (largo_de (b - a - 1) t u) bytes
                            ∙ subst (λ k. take k bytes ≡ bytes) (largo ∙ total)
                                (take_todo bytes)))),
            )
      ]

  -- A write in one page leaves what stands before it.
  Antes-write_at :
      (mem : List ℕ) (a f p n : ℕ) (bytes : List ℕ)
      → Distintos fs
      → get_elem? fs a ≡ some f
      → p + n ≤ t
      → n ≤ length bytes
      → Antes mem (write_at mem (f * t + p) (take n bytes)) a p
  Antes-write_at mem a f p n bytes d g h w j k o q e z (inl lt) =
      Fuera-write_at fs t mem a f p n bytes j k o q d g h w lt e z
  Antes-write_at mem a f p n bytes d g h w j k o q e z (inr (ja, c)) =
      let kf : k ≡ f = some-injective _ _ (sym e ∙ ap (get_elem? fs) ja ∙ g) in
      read-write_at_before mem (f * t + p) (take n bytes) (k * t + o) q
        (omega (arith, c, ap (λ x. x * t) kf))

  una :
      {T : ℕ → ℕ → S → Type 0} (mem : List ℕ) (n a b : ℕ) (tramo : Tramo) (bytes : List ℕ)
      (m : Memoria S)
      → Contrato red t T
      → Distintos fs
      → Fija T pid fs t mem m
      → CabenEn fs t mem
      → EsTramo t n a b tramo
      → b < length fs
      → length bytes ≡ n
      → a ≡ b
      → (m' : Memoria S) × (editar_tramo red vueltas pid tramo n bytes m ≡ some m')
        × Sigue T mem n a b tramo bytes m'
  una mem n a b tramo bytes m resp d x c es l largo e =
      let p = tramo.pos_inicio in
      let (f, g) = get_elem?-some fs a (omega arith) in
      let (m', q, y) =
        editar_una red vueltas pid fs t mem a f p n bytes m resp x c g (es.una_sola e)
          (omega arith) in
      (
        m',
        editar_tramo-una n a b tramo bytes m es e ∙ q,
        (
          _,
          y,
          CabenEn-write_at fs t mem _ _ c,
          (
            λ _. Parte-write_at fs t mem a f p n bytes c g (es.una_sola e) (omega arith),
            λ lt. absurd (omega (arith, lt, e)),
          ),
          Antes-write_at mem a f p n bytes d g (es.una_sola e) (omega arith),
        ),
      )

  varias :
      {T : ℕ → ℕ → S → Type 0} (mem : List ℕ) (n a b : ℕ) (tramo : Tramo) (bytes : List ℕ)
      (m : Memoria S)
      → Contrato red t T
      → Distintos fs
      → Fija T pid fs t mem m
      → CabenEn fs t mem
      → EsTramo t n a b tramo
      → b < length fs
      → length bytes ≡ n
      → a < b
      → (m' : Memoria S) × (editar_tramo red vueltas pid tramo n bytes m ≡ some m')
        × Sigue T mem n a b tramo bytes m'
  varias mem n a b tramo bytes m resp d x c es l largo lt =
      let p = tramo.pos_inicio in
      let u = tramo.tamanio_pag_final in
      let total = es.varias lt in
      let hp : p + (t - p) ≤ t = omega (arith, es.adentro) in
      let hl : t - p ≤ length bytes = omega arith in
      let (f, g) = get_elem?-some fs a (omega arith) in
      let (m1, q, y) = editar_una red vueltas pid fs t mem a f p (t - p) bytes m resp x c g hp hl in
      let c1 = CabenEn-write_at fs t mem (f * t + p) (take (t - p) bytes) c in
      let (mem2, m2, r, z, c2, cont, fuera) =
        editar_desde_lem red vueltas pid fs t _ (suc a) (b - a - 1) u (drop (t - p) bytes) m1 resp d
          y c1 (omega arith) es.final_entra (omega (arith, length-drop (t - p) bytes)) in
      (
        m2,
        editar_tramo-varias n a b tramo bytes m es x.tamanio lt ∙ rw q r,
        (
          mem2,
          z,
          c2,
          (
            λ e. absurd (omega (arith, lt, e)),
            λ _. (
              λ f' h.
                  fuera a f' p (t - p) (omega arith) h hp
                  ∙ Parte-write_at fs t mem a f p (t - p) bytes c g hp hl f' h,
              cont,
            ),
          ),
          λ j k o w e h v.
              fuera j k o w (ground (arith, v)) e h
              ∙ Antes-write_at mem a f p (t - p) bytes d g hp hl j k o w e h v,
        ),
      )

  pub editar_tramo_lem :
      {T : ℕ → ℕ → S → Type 0} (mem : List ℕ) (n a b : ℕ) (tramo : Tramo) (bytes : List ℕ)
      (m : Memoria S)
      → Contrato red t T
      → Distintos fs
      → Fija T pid fs t mem m
      → CabenEn fs t mem
      → EsTramo t n a b tramo
      → b < length fs
      → length bytes ≡ n
      → (m' : Memoria S) × (editar_tramo red vueltas pid tramo n bytes m ≡ some m')
        × Sigue T mem n a b tramo bytes m'
  editar_tramo_lem mem n a b tramo bytes m resp d x c es l largo = elim (ℕ_discrete a b) [
    | yes e ↦ una mem n a b tramo bytes m resp d x c es l largo e
    | no ne ↦ varias mem n a b tramo bytes m resp d x c es l largo (omega (arith, es.ordenado))
  ]
