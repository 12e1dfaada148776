-- ===== src/Kernel/Planificacion/Mejor.antt =====
-- Which carpincho ready_a_exec_SJF and ready_a_exec_HRRN of kernel/src/main.c choose.
use tp_sistemas_operativos.Base.{
  ℕ, ◌<◌, ◌≤◌, ◌≡◌, refl, sym, ap, subst, ◌∙◌, ◌⊎◌, inl, inr, List, [], ◌∷◌, Option, none, some,
  arith, Bool, true, false, Bool-cases, ◌==◌, ==_refl, ne→==, ℕ_discrete, ℤ,
}
use mathlib.Core.Option.{some-injective}
use tp_sistemas_operativos.Kernel.Estado.{
  ready, Carpincho, Kernel, Reloj, encontrar, encontrar_estructura_segun_id,
  calculo_rafaga_anterior,
}
use tp_sistemas_operativos.Kernel.Semaforos.{escribir}
use tp_sistemas_operativos.Kernel.Colas.Ubicacion.{cuenta, Ubicados, encontrar-modificar}
use tp_sistemas_operativos.Kernel.Planificacion.{
  preferir, calculo_estimacion_siguiente, recordar, recordar_estimacion, recorrer_sjf,
  ready_a_exec_sjf, calculo_rr, recorrer_hrrn, ready_a_exec_hrrn,
}

-- The choice of the loops, over values that are known.
module _ {F : Type 0} (es_cero : F → Bool) (mejor : F → F → Bool) (valor : ℕ → F) where
  elegir_mejor : List ℕ → F × Option ℕ → F × Option ℕ
  elegir_mejor [] m = m
  elegir_mejor (i ∷ q) m = elegir_mejor q (preferir es_cero mejor (valor i) i m)

  -- `mejor` is a strict order.
  abbrev pub Irreflexivo : Type 0
  Irreflexivo = (x : F) → mejor x x ≡ false

  abbrev pub Transitivo : Type 0
  Transitivo = (x y z : F) → mejor x y ≡ true → mejor y z ≡ true → mejor x z ≡ true

  -- What is not better than `a` is not better than something that is `a` or better than it.
  tampoco :
      (x a b : F)
      → Transitivo
      → mejor x a ≡ false
      → (b ≡ a) ⊎ (mejor b a ≡ true)
      → mejor x b ≡ false
  tampoco x a b t h (inl e) = subst (λ c. mejor x c ≡ false) (sym e) h
  tampoco x a b t h (inr m) = elim (Bool-cases (mejor x b)) [
    | inl y ↦ cc (t x b a y m, h)
    | inr y ↦ y
  ]

  elegir_mejor_lem :
      (q : List ℕ) (j : ℕ)
      → Irreflexivo
      → Transitivo
      → es_cero (valor j) ≡ false
      → ((i : ℕ) → 0 < cuenta i q → es_cero (valor i) ≡ false)
      → (l : ℕ) × (elegir_mejor q (valor j, some j) ≡ (valor l, some l))
        × ((l ≡ j) ⊎ (0 < cuenta l q))
        × ((valor l ≡ valor j) ⊎ (mejor (valor l) (valor j) ≡ true))
        × ((i : ℕ) → 0 < cuenta i q → mejor (valor i) (valor l) ≡ false)
  unfolding elegir_mejor preferir
  elegir_mejor_lem [] j irr tr z zs =
      (j, refl, inl refl, inl refl, λ i p. absurd (omega (arith, p)))
  elegir_mejor_lem (i ∷ q) j irr tr z zs = elim (Bool-cases (mejor (valor i) (valor j))) [
    | inl y ↦
        let (l, e, p, r, b) =
          elegir_mejor_lem q i irr tr (zs i (ground arith)) (λ k w. zs k (ground arith)) in
        (
          l,
          rw (z, y, elegir_mejor) e,
          inr (elim p [ inl s ↦ ground (arith, s) | inr s ↦ ground (arith, s) ]),
          inr (elim r [
            | inl s ↦ subst (λ v. mejor v (valor j) ≡ true) (sym s) y
            | inr s ↦ tr (valor l) (valor i) (valor j) s y
          ]),
          λ k w. elim (ℕ_discrete i k) [
            | yes s ↦
                subst (λ k. mejor (valor k) (valor l) ≡ false) s
                  (tampoco (valor i) (valor i) (valor l) tr (irr (valor i)) r)
            | no ns ↦ b k (ground (arith, w, ns))
          ],
        )
    | inr y ↦
        let (l, e, p, r, b) = elegir_mejor_lem q j irr tr z (λ k w. zs k (ground arith)) in
        (
          l,
          rw (z, y, elegir_mejor) e,
          elim p [ inl s ↦ inl s | inr s ↦ inr (ground (arith, s)) ],
          r,
          λ k w. elim (ℕ_discrete i k) [
            | yes s ↦
                subst (λ k. mejor (valor k) (valor l) ≡ false) s
                  (tampoco (valor i) (valor j) (valor l) tr y r)
            | no ns ↦ b k (ground (arith, w, ns))
          ],
        )
  ]

  -- From no choice, over a queue that is not empty.
  elegir_mejor-todos :
      (cero : F) (q : List ℕ) (i0 : ℕ)
      → Irreflexivo
      → Transitivo
      → es_cero cero ≡ true
      → 0 < cuenta i0 q
      → ((i : ℕ) → 0 < cuenta i q → es_cero (valor i) ≡ false)
      → (l : ℕ) × ((elegir_mejor q (cero, none)).1 ≡ some l)
        × (0 < cuenta l q)
        × ((i : ℕ) → 0 < cuenta i q → mejor (valor i) (valor l) ≡ false)
  unfolding elegir_mejor preferir
  elegir_mejor-todos cero [] i0 irr tr c h zs = absurd (omega (arith, h))
  elegir_mejor-todos cero (i ∷ q) i0 irr tr c h zs =
      let (l, e, p, r, b) =
        elegir_mejor_lem q i irr tr (zs i (ground arith)) (λ k w. zs k (ground arith)) in
      (
        l,
        rw (c, elegir_mejor) (ap (λ (x : F × Option ℕ). x.1) e),
        elim p [ inl s ↦ ground (arith, s) | inr s ↦ ground (arith, s) ],
        λ k w. elim (ℕ_discrete i k) [
          | yes s ↦
              subst (λ k. mejor (valor k) (valor l) ≡ false) s
                (tampoco (valor i) (valor i) (valor l) tr (irr (valor i)) r)
          | no ns ↦ b k (ground (arith, w, ns))
        ],
      )

  -- The new choice is the carpincho that was looked at, or the old one.
  preferir-uno :
      (v : F) (i : ℕ) (m : F × Option ℕ) (y : ℕ)
      → (preferir es_cero mejor v i m).1 ≡ some y
      → (i ≡ y) ⊎ (m.1 ≡ some y)
  unfolding preferir
  preferir-uno v i (h, x) y e = elim (Bool-cases (es_cero h)) [
    | inl a ↦ inl (some-injective _ _ (rw a at e))
    | inr a ↦ elim (Bool-cases (mejor v h)) [
      | inl b ↦ inl (some-injective _ _ (rw (a, b) at e))
      | inr b ↦ inr (rw (a, b) at e)
    ]
  ]

cuenta-primero : (i : ℕ) (q : List ℕ) → 0 < cuenta i (i ∷ q)
cuenta-primero i q = ground arith

module _ {F : Type 0} where
  escrito-mismo :
      (i : ℕ) (c : Carpincho F) (f : Carpincho F → Carpincho F) (k : Kernel F)
      → ((c : Carpincho F) → (f c).id ≡ c.id)
      → encontrar i k.lista_carpinchos ≡ some c
      → encontrar i (escribir i f k).lista_carpinchos ≡ some (f c)
  escrito-mismo i c f k h e =
      encontrar-modificar i i f k.lista_carpinchos h ∙ rw (==_refl i, e) refl

  escrito-otro :
      (i j : ℕ) (f : Carpincho F → Carpincho F) (k : Kernel F)
      → ((c : Carpincho F) → (f c).id ≡ c.id)
      → (i == j) ≡ false
      → encontrar j (escribir i f k).lista_carpinchos ≡ encontrar j k.lista_carpinchos
  escrito-otro i j f k h e = encontrar-modificar j i f k.lista_carpinchos h ∙ rw e refl

module _ {F : Type 0} (cero : F) (es_cero : F → Bool) (menor : F → F → Bool) (estimar : ℤ → F → F)
    (valor : ℕ → F) where
  -- The carpinchos of a queue are alive, and `calculado` gives the values.
  abbrev pub Valores : (ℕ → Carpincho F → F) → List ℕ → Kernel F → Type 0
  Valores calculado q k =
      (i : ℕ)
      → 0 < cuenta i q
      → (c : Carpincho F) × (encontrar i k.lista_carpinchos ≡ some c) × (calculado i c ≡ valor i)

  -- The estimate of a carpincho, as the loop computes it from its structure.
  abbrev pub estimada : ℕ → Carpincho F → F
  unfolding calculo_estimacion_siguiente
  estimada i c = (calculo_estimacion_siguiente estimar c).estimacion_siguiente

  otro : (i j : ℕ) (q : List ℕ) → cuenta j (i ∷ q) ≤ 1 → 0 < cuenta j q → (i == j) ≡ false
  otro i j q h p = ground (arith, h, p)

  recordar-otro :
      (x : Option ℕ) (k : Kernel F) (j : ℕ)
      → ((y : ℕ) → x ≡ some y → (y == j) ≡ false)
      → encontrar j (recordar x k).lista_carpinchos ≡ encontrar j k.lista_carpinchos
  recordar-otro none k j h = refl
  recordar-otro (some y) k j h = escrito-otro y j recordar_estimacion k (λ c. refl) (h y refl)

  recorrer_sjf-elegir_mejor :
      (q : List ℕ) (m : F × Option ℕ) (k : Kernel F)
      → Valores estimada q k
      → ((j : ℕ) → cuenta j q ≤ 1)
      → ((y : ℕ) → m.1 ≡ some y → cuenta y q ≡ 0)
      → (recorrer_sjf cero es_cero menor estimar q m k).1 ≡ (elegir_mejor es_cero menor valor q m).1
  unfolding recorrer_sjf elegir_mejor calculo_estimacion_siguiente calculo_rafaga_anterior
      encontrar_estructura_segun_id
  recorrer_sjf-elegir_mejor [] m k h u f = refl
  recorrer_sjf-elegir_mejor (i ∷ q) m k h u f =
      let (c, hc, he) = h i (cuenta-primero i q) in
      let calculo = calculo_estimacion_siguiente estimar in
      let k1 = escribir i calculo k in
      let halla : encontrar i k1.lista_carpinchos ≡ some (calculo c) =
        escrito-mismo i c calculo k (λ c. refl) hc in
      let m1 = preferir es_cero menor (valor i) i m in
      let fresco : (y : ℕ) → m1.1 ≡ some y → cuenta y q ≡ 0 = λ y z.
        elim (preferir-uno es_cero menor valor (valor i) i m y z) [
          | inl e ↦ ground (arith, e, u y)
          | inr e ↦ ground (arith, f y e)
        ] in
      let vivos : Valores estimada q (recordar m1.1 k1) = λ j p.
        let (d, hd, hv) = h j (ground (arith, p)) in
        (
          d,
          recordar-otro m1.1 k1 j (λ y z. ne→== y j (λ e. ground (arith, fresco y z, e, p)))
              ∙ escrito-otro i j calculo k (λ c. refl) (otro i j q (u j) p)
              ∙ hd,
          hv,
        ) in
      rw (halla, recorrer_sjf)
        (ap
            (λ v.
              (recorrer_sjf cero es_cero menor estimar q (preferir es_cero menor v i m)
                (recordar (preferir es_cero menor v i m).1 k1)).1)
            he
          ∙ recorrer_sjf-elegir_mejor q m1 (recordar m1.1 k1) vivos (λ j. ground (arith, u j))
              fresco)

  unicos_en_ready : (k : Kernel F) → Ubicados k → (j : ℕ) → cuenta j k.ready ≤ 1
  unicos_en_ready k u j = ground (arith, u.lugar j ready)

  -- From a kernel where every carpincho is in the queue of its state, with a ready queue that is
  -- not empty and whose carpinchos have estimates that are not 0, and a comparison that is
  -- irreflexive and transitive: ready_a_exec_SJF always chooses a carpincho of the ready queue, and
  -- no carpincho of that queue has a lesser estimate, each being computed from its structure as it
  -- was before the call.
  pub ready_a_exec_sjf_lem :
      (k : Kernel F) (i0 : ℕ)
      → Ubicados k
      → es_cero cero ≡ true
      → Irreflexivo es_cero menor valor
      → Transitivo es_cero menor valor
      → 0 < cuenta i0 k.ready
      → Valores estimada k.ready k
      → ((i : ℕ) → 0 < cuenta i k.ready → es_cero (valor i) ≡ false)
      → (j : ℕ) × ((ready_a_exec_sjf cero es_cero menor estimar k).1 ≡ some j)
        × (0 < cuenta j k.ready)
        × ((i : ℕ) → 0 < cuenta i k.ready → menor (valor i) (valor j) ≡ false)
  unfolding ready_a_exec_sjf
  ready_a_exec_sjf_lem k i0 u c irr tr h vals zs =
      let (j, e, p, b) = elegir_mejor-todos es_cero menor valor cero k.ready i0 irr tr c h zs in
      (
        j,
        recorrer_sjf-elegir_mejor k.ready (cero, none) k vals (unicos_en_ready k u) (λ y z. cc z)
            ∙ e,
        p,
        b,
      )

  module _ (razon : ℤ → F → F → F) (relojes : ℕ → Reloj) where
    -- The response ratio of a carpincho, with the clock that is read for it.
    abbrev pub calculada : ℕ → Carpincho F → F
    unfolding calculo_rr
    calculada i c = (calculo_rr estimar razon (relojes i) c).rr

    recorrer_hrrn-elegir_mejor :
        (q : List ℕ) (m : F × Option ℕ) (k : Kernel F)
        → Valores calculada q k
        → ((j : ℕ) → cuenta j q ≤ 1)
        → (recorrer_hrrn cero es_cero menor estimar razon relojes q m k).1
          ≡ (elegir_mejor es_cero (λ x y. menor y x) valor q m).1
    unfolding recorrer_hrrn elegir_mejor calculo_rr calculo_estimacion_siguiente
        calculo_rafaga_anterior encontrar_estructura_segun_id
    recorrer_hrrn-elegir_mejor [] m k h u = refl
    recorrer_hrrn-elegir_mejor (i ∷ q) m k h u =
        let (c, hc, he) = h i (cuenta-primero i q) in
        let calculo = calculo_rr estimar razon (relojes i) in
        let k1 = escribir i calculo k in
        let halla : encontrar i k1.lista_carpinchos ≡ some (calculo c) =
          escrito-mismo i c calculo k (λ c. refl) hc in
        let vivos : Valores calculada q k1 = λ j p.
          let (d, hd, hv) = h j (ground (arith, p)) in
          (d, escrito-otro i j calculo k (λ c. refl) (otro i j q (u j) p) ∙ hd, hv) in
        rw (halla, recorrer_hrrn)
          (ap
              (λ v.
                (recorrer_hrrn cero es_cero menor estimar razon relojes q
                  (preferir es_cero (λ x y. menor y x) v i m) k1).1)
              he
            ∙ recorrer_hrrn-elegir_mejor q (preferir es_cero (λ x y. menor y x) (valor i) i m) k1
                vivos (λ j. ground (arith, u j)))

    -- From a kernel where every carpincho is in the queue of its state, with a ready queue that is
    -- not empty and whose carpinchos have response ratios that are not 0, and a comparison that is
    -- irreflexive and transitive: ready_a_exec_HRRN always chooses a carpincho of the ready queue,
    -- and no carpincho of that queue has a greater response ratio, each being computed from its
    -- structure as it was before the call and the clock read for it.
    pub ready_a_exec_hrrn_lem :
        (k : Kernel F) (i0 : ℕ)
        → Ubicados k
        → es_cero cero ≡ true
        → Irreflexivo es_cero menor valor
        → Transitivo es_cero menor valor
        → 0 < cuenta i0 k.ready
        → Valores calculada k.ready k
        → ((i : ℕ) → 0 < cuenta i k.ready → es_cero (valor i) ≡ false)
        → (j : ℕ) × ((ready_a_exec_hrrn cero es_cero menor estimar razon relojes k).1 ≡ some j)
          × (0 < cuenta j k.ready)
          × ((i : ℕ) → 0 < cuenta i k.ready → menor (valor j) (valor i) ≡ false)
    unfolding ready_a_exec_hrrn
    ready_a_exec_hrrn_lem k i0 u c irr tr h vals zs =
        let (j, e, p, b) =
          elegir_mejor-todos es_cero (λ x y. menor y x) valor cero k.ready i0 irr
            (λ x y z a b. tr z y x b a) c h zs in
        (j, recorrer_hrrn-elegir_mejor k.ready (cero, none) k vals (unicos_en_ready k u) ∙ e, p, b)
