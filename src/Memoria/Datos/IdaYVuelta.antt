-- ===== src/Memoria/Datos/IdaYVuelta.antt =====
-- memoria/src/memory_utils.c: what editarAlgoEnMemoria writes, read_from_memory reads, when the
-- pages of the process are all present.
use native.Mathlib.Nat.{mod-lt, div-add-mod'}
use tp_sistemas_operativos.Base.{
  ℕ, suc, drop, ◌+◌, ◌*◌, ◌-◌, ◌/◌, ◌<◌, ◌≤◌, ◌≡◌, refl, ap, ◌∙◌, dec_lt, List, some, arith, length,
  ◌⊎◌, inl, inr,
}
use tp_sistemas_operativos.Swamp.Archivos.Lectura.{mul_le}
use tp_sistemas_operativos.Memoria.Estado.{Memoria, Swamp}
use tp_sistemas_operativos.Memoria.Contrato.{Contrato}
use tp_sistemas_operativos.Memoria.Datos.{
  tramo_de, editar_tramo, editar_algo_en_memoria, leer_tramo, read_from_memory,
}
use tp_sistemas_operativos.Memoria.Datos.UnaPagina.{Fija, CabenEn}
use tp_sistemas_operativos.Memoria.Datos.VariasPaginas.{Distintos}
use tp_sistemas_operativos.Memoria.Datos.Tramos.{
  tramo_de-EsTramo, EnMemoria, Antes, Contenido-Antes, leer_EnMemoria, editar_tramo_lem,
}

-- A stretch that ends where another one starts, or before, is in the pages before that of the start
-- or in the part of that page before it.
orden_tramos :
    (t i n j : ℕ)
    → 0 < t
    → 0 < n
    → i + n ≤ j
    → ((i + n - 1) / t < j / t)
      ⊎ (((i + n - 1) / t ≡ j / t)
          × (i + n - ((i + n - 1) / t + 1 - 1) * t ≤ j - (j / t + 1 - 1) * t))
orden_tramos t i n j ht hn h =
    let b = (i + n - 1) / t in
    let a = j / t in
    let a1 = div-add-mod' j t in
    let a2 = mod-lt j ht in
    let b1 = div-add-mod' (i + n - 1) t in
    let b2 = mod-lt (i + n - 1) ht in
    let ka : (a + 1 - 1) * t ≡ a * t = ap (λ x. x * t) (omega arith) in
    let kb : (b + 1 - 1) * t ≡ b * t = ap (λ x. x * t) (omega arith) in
    elim (dec_lt b a) [
      | yes l ↦ inl l
      | no l ↦ elim (dec_lt a b) [
        | yes k ↦ absurd (omega (arith, a1, a2, b1, b2, mul_le t (a + 1) b (omega arith)))
        | no k ↦
            let e : b ≡ a = omega arith in inr (e, omega (arith, ka, kb, a1, b1, ap (λ x. x * t) e))
      ]
    ]

module _ {S : Type 0} (red : Swamp S) (vueltas pid : ℕ) (fs : List ℕ) (t : ℕ) where
  -- The bytes stand from an address on.
  abbrev pub Estan : List ℕ → ℕ → List ℕ → Type 0
  Estan mem inicio bytes =
      EnMemoria red vueltas pid fs t mem (length bytes) (inicio / t)
        ((inicio + length bytes - 1) / t) (tramo_de t inicio (length bytes)) bytes

  -- What stands before an address is the same.
  abbrev pub AntesDe : List ℕ → List ℕ → ℕ → Type 0
  AntesDe mem mem' inicio =
      Antes red vueltas pid fs t mem mem' (inicio / t) (inicio - (inicio / t + 1 - 1) * t)

  pub Estan-AntesDe :
      (mem mem' : List ℕ) (inicio : ℕ) (bytes : List ℕ) (otro : ℕ)
      → 0 < t
      → 0 < length bytes
      → inicio + length bytes ≤ otro
      → AntesDe mem mem' otro
      → Estan mem inicio bytes
      → Estan mem' inicio bytes
  Estan-AntesDe mem mem' inicio bytes otro ht hn h antes esta =
      let n = length bytes in
      let a = inicio / t in
      let b = (inicio + n - 1) / t in
      let tramo = tramo_de t inicio n in
      let es = tramo_de-EsTramo t inicio n ht hn in
      let orden = orden_tramos t inicio n otro ht hn h in
      let p = otro - (otro / t + 1 - 1) * t in
      let ka : (a + 1 - 1) * t ≡ a * t = ap (λ x. x * t) (omega arith) in
      let kb : (b + 1 - 1) * t ≡ b * t = ap (λ x. x * t) (omega arith) in
      (
        λ e f g.
            let w : (a < otro / t) ⊎ ((a ≡ otro / t) × (tramo.pos_inicio + n ≤ p)) = elim orden [
              | inl l ↦ inl (omega arith)
              | inr (l, k) ↦
                  inr (
                    omega arith,
                    omega (arith, k, ka, kb, ap (λ x. x * t) e, div-add-mod' inicio t),
                  )
            ] in
            antes a f tramo.pos_inicio n g (es.una_sola e) w ∙ esta.0 e f g,
        λ lt.
            let w : (a < otro / t) = elim orden [
              | inl l ↦ omega arith
              | inr (l, k) ↦ omega arith
            ] in
            let v : (a + 1 + (b - a - 1) < otro / t)
                ⊎ ((a + 1 + (b - a - 1) ≡ otro / t) × (tramo.tamanio_pag_final ≤ p)) =
              elim orden [ inl l ↦ inl (omega arith) | inr (l, k) ↦ inr (omega arith, k) ] in
            (
              λ f g.
                  antes a f tramo.pos_inicio (t - tramo.pos_inicio) g (omega (arith, es.adentro))
                    (inl w)
                  ∙ (esta.1 lt).0 f g,
              Contenido-Antes red vueltas pid fs t mem mem' (otro / t) p (suc a) (b - a - 1)
                  tramo.tamanio_pag_final (drop (t - tramo.pos_inicio) bytes) antes es.final_entra
                  (ground (arith, v)) (esta.1 lt).1,
            ),
      )

  pub leer_algo :
      {T : ℕ → ℕ → S → Type 0} (mem : List ℕ) (inicio : ℕ) (bytes : List ℕ) (m : Memoria S)
      → Estan mem inicio bytes
      → Fija T pid fs t mem m
      → CabenEn fs t mem
      → 0 < t
      → 0 < length bytes
      → (inicio + length bytes - 1) / t < length fs
      → (m'' : Memoria S) × (read_from_memory red vueltas pid inicio (length bytes) m
          ≡ some (bytes, m''))
  unfolding read_from_memory
  leer_algo mem inicio bytes m esta x c ht hn l =
      let (m'', r) =
        leer_EnMemoria red vueltas pid fs t mem (length bytes) (inicio / t)
          ((inicio + length bytes - 1) / t) (tramo_de t inicio (length bytes)) bytes m x c
          (tramo_de-EsTramo t inicio (length bytes) ht hn) l refl esta in
      (
        m'',
        ap (λ k. leer_tramo red vueltas pid (tramo_de k inicio (length bytes)) (length bytes) m)
              x.tamanio
            ∙ r,
      )

  pub editar_algo :
      {T : ℕ → ℕ → S → Type 0} (mem : List ℕ) (inicio : ℕ) (bytes : List ℕ) (m : Memoria S)
      → Contrato red t T
      → Distintos fs
      → Fija T pid fs t mem m
      → CabenEn fs t mem
      → 0 < t
      → 0 < length bytes
      → (inicio + length bytes - 1) / t < length fs
      → (m' : Memoria S) × (editar_algo_en_memoria red vueltas pid inicio (length bytes) bytes m
          ≡ some m')
        × ((mem' : List ℕ) × Fija T pid fs t mem' m'
            × CabenEn fs t mem'
            × Estan mem' inicio bytes
            × AntesDe mem mem' inicio)
  unfolding editar_algo_en_memoria
  editar_algo mem inicio bytes m resp d x c ht hn l =
      let (m', q, sigue) =
        editar_tramo_lem red vueltas pid fs t mem (length bytes) (inicio / t)
          ((inicio + length bytes - 1) / t) (tramo_de t inicio (length bytes)) bytes m resp d x c
          (tramo_de-EsTramo t inicio (length bytes) ht hn) l refl in
      (
        m',
        ap
              (λ k.
                editar_tramo red vueltas pid (tramo_de k inicio (length bytes)) (length bytes) bytes
                  m)
              x.tamanio
            ∙ q,
        sigue,
      )

  -- For a process whose pages are all present, in distinct frames that lie in the memory, with a
  -- TLB whose entries for it agree with its pages, a size of a page that is not 0 and swamp having
  -- every page of the process and keeping the contract of Memoria/Contrato.antt (a content of one
  -- page for a page that it has is accepted, and no page is lost): writing any bytes, one at least,
  -- at an address from which they end inside of the last page always ends, and reading as many
  -- bytes there in the new state always ends and gives those bytes, also where they span several
  -- pages.
  pub read_from_memory-editar_algo_en_memoria :
      {T : ℕ → ℕ → S → Type 0} (mem : List ℕ) (inicio : ℕ) (bytes : List ℕ) (m : Memoria S)
      → Contrato red t T
      → Distintos fs
      → Fija T pid fs t mem m
      → CabenEn fs t mem
      → 0 < t
      → 0 < length bytes
      → (inicio + length bytes - 1) / t < length fs
      → (m' m'' : Memoria S) × (editar_algo_en_memoria red vueltas pid inicio (length bytes) bytes m
          ≡ some m')
        × (read_from_memory red vueltas pid inicio (length bytes) m' ≡ some (bytes, m''))
  read_from_memory-editar_algo_en_memoria mem inicio bytes m resp d x c ht hn l =
      let (m', q, (mem', y, c', esta, _)) = editar_algo mem inicio bytes m resp d x c ht hn l in
      let (m'', r) = leer_algo mem' inicio bytes m' esta y c' ht hn l in (m', m'', q, r)
