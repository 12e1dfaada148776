-- ===== src/Memoria/Clock/Vueltas.antt =====
-- memoria/src/memory_utils.c: the rounds of seleccionClockMejorado end.
use mathlib.Core.Option.{some-injective}
use tp_sistemas_operativos.Base.{
  bind-some, subst, ◌*◌, replicate, ℕ, zero, suc, ◌+◌, ◌-◌, ◌≤◌, ◌≡◌, ◌≢◌, ==→ne, refl, sym, ap,
  ◌∙◌, inl, inr, Bool, true, false, ◌||◌, some, ◌==◌, leb, ltb, if◌then◌else◌, arith, Bool-cases,
  Option-cases, Option, none, ◌⊎◌, ==→eq,
}
use tp_sistemas_operativos.Swamp.Archivos.{memcpy_from, memcpy_to}
use tp_sistemas_operativos.Memoria.Tlb.{delete_entrada_tlb}
use tp_sistemas_operativos.Memoria.Estado.{Pagina, Memoria, Swamp, frames_totales}
use tp_sistemas_operativos.Memoria.Marcos.{
  get_process_id_by, frame_asignado, liberar_frame, mandar_pagina_a_gonza, desalojar,
}
use tp_sistemas_operativos.Memoria.Clock.{
  get_marco_de, con_marco, sin_uso, es_candidata, le_toca, revisar_marco, revisar, vuelta,
}

-- Where the hand goes.
abbrev siguiente : ℕ → ℕ → ℕ
siguiente total p = if leb total p then 0 else suc p

-- How many steps the hand makes until it stands at `inicial` after one of them.
abbrev pasos : ℕ → ℕ → ℕ → ℕ
pasos total inicial p = if ltb p inicial then inicial - p else (suc total - p) + inicial

siguiente_le : (total p : ℕ) → siguiente total p ≤ total
siguiente_le total p = ground arith

pasos-siguiente :
    (total inicial p n : ℕ)
    → inicial ≤ total
    → p ≤ total
    → inicial ≢ siguiente total p
    → pasos total inicial p ≤ suc n
    → pasos total inicial (siguiente total p) ≤ n
pasos-siguiente total inicial p n a b c d = ground (arith, a, b, c, d)

pasos_le : (total inicial p : ℕ) → inicial ≤ total → p ≤ total → pasos total inicial p ≤ suc total
pasos_le total inicial p a b = ground (arith, a, b)

o_false : (a b : Bool) → (a || b) ≡ false → b ≡ false
o_false true b h = cc
o_false false b h = h

si_true {ℓ} :
    {A : Type ℓ} (b : Bool) (x y : A) → b ≡ true → (elim b as (λ b. A) [ true ↦ x | false ↦ y ]) ≡ x
si_true true x y h = refl
si_true false x y h = cc

si_false {ℓ} :
    {A : Type ℓ} (b : Bool) (x y : A)
    → b ≡ false
    → (elim b as (λ b. A) [ true ↦ x | false ↦ y ]) ≡ y
si_false true x y h = cc
si_false false x y h = refl

o_true : (a b : Bool) → (a || b) ≡ true → (a ≡ true) ⊎ (b ≡ true)
o_true true b h = inl refl
o_true false b h = inr h

module _ {S : Type 0} where
  -- The hand and the number of frames stay.
  abbrev Queda : Memoria S → Memoria S → Type 0
  Queda m m' =
      (m'.puntero_frame_clock ≡ m.puntero_frame_clock) × (frames_totales m' ≡ frames_totales m)

  Queda-some : (m a m' : Memoria S) → Queda m a → some a ≡ some m' → Queda m m'
  Queda-some m a m' q h = subst (Queda m) (some-injective _ _ h) q

  liberar_frame-Queda : (f : ℕ) (m m' : Memoria S) → liberar_frame f m ≡ some m' → Queda m m'
  unfolding liberar_frame
  liberar_frame-Queda f m m' h = elim (Bool-cases (frame_asignado f m)) [
    | inl y ↦
        let (c, _, e) =
          bind-some
            (memcpy_to m.memoria (m.tamanio_de_pagina * f) (replicate m.tamanio_de_pagina 0)
              m.tamanio_de_pagina)
            _ m' (rw (y, liberar_frame) at h) in
        Queda-some m _ m' (refl, refl) e
    | inr y ↦ Queda-some m _ m' (refl, refl) (rw (y, liberar_frame) at h)
  ]

  mandar-Queda :
      (red : Swamp S) (pid f nro : ℕ) (m m' : Memoria S)
      → mandar_pagina_a_gonza red pid f nro m ≡ some m'
      → Queda m m'
  unfolding mandar_pagina_a_gonza
  mandar-Queda red pid f nro m m' h =
      let (c, _, e) =
        bind-some (memcpy_from m.memoria (m.tamanio_de_pagina * f) m.tamanio_de_pagina) _ m' h in
      let (x, _, e') = bind-some (red.guardar pid nro c m.swamp) _ m' e in
      Queda-some m _ m' (refl, refl) e'

  desalojar-Queda :
      (red : Swamp S) (pid d : ℕ) (p : Pagina) (m m' : Memoria S)
      → desalojar red pid d p m ≡ some m'
      → Queda m m'
  unfolding desalojar
  desalojar-Queda red pid d p m m' h =
      let (m1, e, e') = bind-some (mandar_pagina_a_gonza red d p.frame p.pagina m) _ m' h in
      let (a, b) = mandar-Queda red d p.frame p.pagina m m1 e in
      let (a', b') =
        liberar_frame-Queda p.frame
          (record m1 { tlb = delete_entrada_tlb pid p.pagina p.frame m1.tlb }) m' e' in
      (a' ∙ a, b' ∙ b)

  sin_uso-Queda :
      (segunda : Bool) (m : Memoria S)
      → Queda m (if segunda then con_marco m.puntero_frame_clock sin_uso m else m)
  unfolding con_marco
  sin_uso-Queda true m = (refl, refl)
  sin_uso-Queda false m = (refl, refl)

  revisar_marco-Queda :
      (red : Swamp S) (segunda : Bool) (m : Memoria S) (x : Bool × Memoria S)
      → revisar_marco red segunda m ≡ some x
      → Queda m x.1
  unfolding revisar_marco
  revisar_marco-Queda red segunda m x h =
      let ((d, p), _, e) =
        bind-some (get_marco_de m.puntero_frame_clock m.todas_las_tablas) _ x h in
      elim (Bool-cases (es_candidata segunda p)) [
        | inl y ↦
            let (o, _, e1) = bind-some (get_process_id_by p.frame m) _ x (rw y at e) in
            let (m1, e2, e3) = bind-some (desalojar red o o p m) _ x e1 in
            subst (λ (z : Bool × Memoria S). Queda m z.1) (some-injective _ _ e3)
              (desalojar-Queda red o o p m m1 e2)
        | inr y ↦
            subst (λ (z : Bool × Memoria S). Queda m z.1) (some-injective _ _ (rw y at e))
              (sin_uso-Queda segunda m)
      ]

  revisar-siguiente :
      (red : Swamp S) (segunda : Bool) (pid : ℕ) (m : Memoria S) (x : Bool × Memoria S)
      → revisar red segunda pid m ≡ some x
      → (x.1.puntero_frame_clock ≡ siguiente (frames_totales m) m.puntero_frame_clock)
        × (frames_totales x.1 ≡ frames_totales m)
  unfolding revisar
  revisar-siguiente red segunda pid m x h =
      elim (Bool-cases (leb (frames_totales m) m.puntero_frame_clock)) [
        | inl y ↦
            let e = some-injective _ _ (rw (y, revisar) at h) in
            (
              sym (ap (λ (z : Bool × Memoria S). z.1.puntero_frame_clock) e)
                  ∙ ap (λ b. if b then 0 else suc m.puntero_frame_clock) (sym y),
              sym (ap (λ (z : Bool × Memoria S). frames_totales z.1) e),
            )
        | inr y ↦
            let (z, e, e') =
              bind-some (if le_toca pid m then revisar_marco red segunda m else some (false, m)) _ x
                (rw (y, revisar) at h) in
            let q : Queda m z.1 = elim (Bool-cases (le_toca pid m)) [
              | inl w ↦ revisar_marco-Queda red segunda m z (rw w at e)
              | inr w ↦
                  subst (λ (v : Bool × Memoria S). Queda m v.1) (some-injective _ _ (rw w at e))
                    (refl, refl)
            ] in
            let i = some-injective _ _ e' in
            (
              sym (ap (λ (v : Bool × Memoria S). v.1.puntero_frame_clock) i)
                  ∙ ap suc q.0
                  ∙ ap (λ b. if b then 0 else suc m.puntero_frame_clock) (sym y),
              sym (ap (λ (v : Bool × Memoria S). frames_totales v.1) i) ∙ q.1,
            )
      ]

  -- `fin` is reached by steps of a loop that do not fail.
  pub data Alcanza (red : Swamp S) (segunda : Bool) (pid : ℕ) (fin : Memoria S)
      : Memoria S → Type 0 where
    aca : Alcanza red segunda pid fin fin
    paso :
        (m : Memoria S) (x : Bool × Memoria S)
        → revisar red segunda pid m ≡ some x
        → Alcanza red segunda pid fin x.1
        → Alcanza red segunda pid fin m

  -- How a loop ends: a page was found or the hand is where it started, or one of its steps failed.
  abbrev pub Termina : Swamp S → Bool → ℕ → ℕ → Memoria S → Option (Bool × Memoria S) → Type 0
  Termina red segunda inicial pid m r =
      ((x : Bool × Memoria S) × (r ≡ some x) × ((x.0 ≡ true) ⊎ (inicial ≡ x.1.puntero_frame_clock)))
      ⊎ ((m' : Memoria S) × Alcanza red segunda pid m' m × (revisar red segunda pid m' ≡ none))

  vuelta-Termina :
      (red : Swamp S) (n : ℕ) (segunda : Bool) (inicial pid : ℕ) (e : Bool) (m : Memoria S)
      → inicial ≤ frames_totales m
      → m.puntero_frame_clock ≤ frames_totales m
      → pasos (frames_totales m) inicial m.puntero_frame_clock ≤ n
      → Termina red segunda inicial pid m (vuelta red n segunda inicial pid e m)
  unfolding vuelta
  vuelta-Termina red zero segunda inicial pid e m a b c = absurd (ground (arith, a, b, c))
  vuelta-Termina red (suc n) segunda inicial pid e m a b c =
      elim (Option-cases (revisar red segunda pid m)) [
        | inl h ↦ inr (m, aca, h)
        | inr ((en, m1), h) ↦
            let (s, t) = revisar-siguiente red segunda pid m (en, m1) h in
            elim (Bool-cases ((e || en) || inicial == m1.puntero_frame_clock)) [
              | inl y ↦ inl (
                (e || en, m1),
                rw h (si_true _ (some (e || en, m1)) (vuelta red n segunda inicial pid false m1) y),
                elim (o_true (e || en) _ y) [
                  | inl z ↦ inl z
                  | inr z ↦ inr (==→eq inicial m1.puntero_frame_clock z)
                ],
              )
              | inr y ↦
                  let r =
                    vuelta-Termina red n segunda inicial pid false m1
                      (subst (λ k. inicial ≤ k) (sym t) a)
                      (subst (λ k. k ≤ frames_totales m1) (sym s)
                        (subst (λ k. siguiente (frames_totales m) m.puntero_frame_clock ≤ k) (sym t)
                          (siguiente_le (frames_totales m) m.puntero_frame_clock)))
                      (subst (λ k. pasos k inicial m1.puntero_frame_clock ≤ n) (sym t)
                        (subst (λ k. pasos (frames_totales m) inicial k ≤ n) (sym s)
                          (pasos-siguiente (frames_totales m) inicial m.puntero_frame_clock n a b
                            (λ z.
                              ==→ne inicial m1.puntero_frame_clock (o_false (e || en) _ y)
                                (z ∙ sym s))
                            c))) in
                  elim r [
                    | inl (x, q, z) ↦ inl (
                      x,
                      rw h (
                          si_false _ (some (e || en, m1))
                            (vuelta red n segunda inicial pid false m1) y
                          ∙ q),
                      z,
                    )
                    | inr (m', k, q) ↦ inr (m', paso m (en, m1) h k, q)
                  ]
            ]
      ]

  -- With the hand and its start no greater than the number of frames, each of the two loops of
  -- seleccionClockMejorado ends within two steps more than there are frames: it ends with a page
  -- found or with the hand where it started, or else a memory is reached, by steps of the loop that
  -- do not fail, where the next step fails (a NULL pointer, an access outside or no answer of
  -- swamp).
  pub vuelta_lem :
      (red : Swamp S) (segunda : Bool) (inicial pid : ℕ) (e : Bool) (m : Memoria S)
      → inicial ≤ frames_totales m
      → m.puntero_frame_clock ≤ frames_totales m
      → Termina red segunda inicial pid m
          (vuelta red (suc (suc (frames_totales m))) segunda inicial pid e m)
  vuelta_lem red segunda inicial pid e m a b =
      vuelta-Termina red (suc (suc (frames_totales m))) segunda inicial pid e m a b
        (omega (arith, pasos_le (frames_totales m) inicial m.puntero_frame_clock a b))
