-- ===== src/Kernel/Planificacion/Eleccion.antt =====
-- What ready_a_exec needs from ready_a_exec_SJF and ready_a_exec_HRRN of kernel/src/main.c.
use tp_sistemas_operativos.Base.{
  ℕ, ◌<◌, ◌≡◌, refl, sym, subst, ◌∙◌, inl, inr, List, [], ◌∷◌, Option, none, some, arith, Bool,
  Bool-cases, ℤ,
}
use tp_sistemas_operativos.Kernel.Estado.{
  Carpincho, Kernel, Reloj, encontrar_estructura_segun_id, calculo_rafaga_anterior,
}
use tp_sistemas_operativos.Kernel.Semaforos.{escribir}
use tp_sistemas_operativos.Kernel.Colas.Ubicacion.{cuenta, Ubicados}
use tp_sistemas_operativos.Kernel.Colas.Grado.{grado}
use tp_sistemas_operativos.Kernel.Colas.Escritura.{escritura-Ubicados}
use tp_sistemas_operativos.Kernel.Colas.Evolucion.{Elige}
use tp_sistemas_operativos.Kernel.Planificacion.{
  preferir, calculo_estimacion_siguiente, recordar, recordar_estimacion, recorrer_sjf,
  ready_a_exec_sjf, calculo_rr, recorrer_hrrn, ready_a_exec_hrrn,
}

-- The chosen one, if there is one, is in the queue `r`.
abbrev De : List ℕ → Option ℕ → Type 0
De r x = (j : ℕ) → x ≡ some j → 0 < cuenta j r

module _ {F : Type 0} where
  -- A choice that has kept the kernel in order and the ready queue as it was.
  abbrev Buena : List ℕ → ℕ → Kernel F × Option ℕ → Type 0
  Buena r g (k, x) = Ubicados k × (grado k ≡ g) × (k.ready ≡ r) × De r x

  preferir-De :
      (es_cero : F → Bool) (mejor : F → F → Bool) (v : F) (i : ℕ) (m : F × Option ℕ) (r : List ℕ)
      → 0 < cuenta i r
      → De r m.1
      → De r (preferir es_cero mejor v i m).1
  unfolding preferir
  preferir-De es_cero mejor v i (h, x) r p d = elim (Bool-cases (es_cero h)) [
    | inl y ↦ rw y (λ j z. subst (λ j. 0 < cuenta j r) (ground arith) p)
    | inr y ↦ elim (Bool-cases (mejor v h)) [
      | inl w ↦ rw (y, w) (λ j z. subst (λ j. 0 < cuenta j r) (ground arith) p)
      | inr w ↦ rw (y, w) d
    ]
  ]

  recordar-Ubicados :
      (x : Option ℕ) (k : Kernel F)
      → Ubicados k
      → Ubicados (recordar x k)
        × (grado (recordar x k) ≡ grado k)
        × ((recordar x k).ready ≡ k.ready)
  recordar-Ubicados none k u = (u, refl, refl)
  recordar-Ubicados (some i) k u =
      (escritura-Ubicados k u i recordar_estimacion (λ c. refl) (λ c. refl), refl, refl)

  module _ (cero : F) (es_cero : F → Bool) (menor : F → F → Bool) (estimar : ℤ → F → F) where
    recorrer_sjf-Buena :
        (q : List ℕ) (m : F × Option ℕ) (k : Kernel F) (r : List ℕ)
        → Ubicados k
        → k.ready ≡ r
        → ((j : ℕ) → 0 < cuenta j q → 0 < cuenta j r)
        → De r m.1
        → Buena r (grado k) (recorrer_sjf cero es_cero menor estimar q m k)
    unfolding recorrer_sjf calculo_estimacion_siguiente calculo_rafaga_anterior
    recorrer_sjf-Buena [] m k r u e s d = (u, refl, e, d)
    recorrer_sjf-Buena (i ∷ q) m k r u e s d =
        segun (λ m k' v l d. recorrer_sjf-Buena q m k' r v l (λ j z. s j (ground arith)) d)
          (encontrar_estructura_segun_id i k1)
      where
        k1 : Kernel F
        k1 = escribir i (calculo_estimacion_siguiente estimar) k

        u1 : Ubicados k1
        u1 = escritura-Ubicados k u i (calculo_estimacion_siguiente estimar) (λ c. refl) (λ c. refl)

        segun :
            ((m : F × Option ℕ) (k' : Kernel F)
              → Ubicados k'
              → k'.ready ≡ r
              → De r m.1
              → Buena r (grado k') (recorrer_sjf cero es_cero menor estimar q m k'))
            → (x : Option (Carpincho F))
            → Buena r (grado k) (elim x [
              | none ↦ (k1, none)
              | some c ↦
                  let m' = preferir es_cero menor c.estimacion_siguiente i m in
                  recorrer_sjf cero es_cero menor estimar q m' (recordar m'.1 k1)
            ])
        segun sigue_con none = (u1, refl, e, λ j z. absurd (ground arith))
        segun sigue_con (some c) =
            let m' = preferir es_cero menor c.estimacion_siguiente i m in
            let (v, g, l) = recordar-Ubicados m'.1 k1 u1 in
            let (v', g', l', d') =
              sigue_con m' (recordar m'.1 k1) v (l ∙ e)
                (preferir-De es_cero menor c.estimacion_siguiente i m r (s i (ground arith)) d) in
            (v', g' ∙ g, l', d')

    -- Whatever the operations on floats are, from a kernel where every carpincho is in the queue of
    -- its state, ready_a_exec_SJF keeps that and the degree of multiprogramming, and the carpincho
    -- that it chooses, if any, is in the ready queue.
    pub ready_a_exec_sjf-Elige : Elige (ready_a_exec_sjf cero es_cero menor estimar)
    unfolding ready_a_exec_sjf
    ready_a_exec_sjf-Elige = record {
      conserva = λ k u. let (v, g, l, d) = sjf k u in (v, g);
      de_ready =
          λ k u i z. let (v, g, l, d) = sjf k u in subst (λ r. 0 < cuenta i r) (sym l) (d i z);
    }
      where
        sjf :
            (k : Kernel F)
            → Ubicados k
            → Buena k.ready (grado k) (ready_a_exec_sjf cero es_cero menor estimar k)
        sjf k u =
            recorrer_sjf-Buena k.ready (cero, none) k k.ready u refl (λ j z. z)
              (λ j z. absurd (ground arith))

    module _ (razon : ℤ → F → F → F) where
      recorrer_hrrn-Buena :
          (relojes : ℕ → Reloj) (q : List ℕ) (m : F × Option ℕ) (k : Kernel F) (r : List ℕ)
          → Ubicados k
          → k.ready ≡ r
          → ((j : ℕ) → 0 < cuenta j q → 0 < cuenta j r)
          → De r m.1
          → Buena r (grado k) (recorrer_hrrn cero es_cero menor estimar razon relojes q m k)
      unfolding recorrer_hrrn calculo_rr calculo_estimacion_siguiente calculo_rafaga_anterior
      recorrer_hrrn-Buena relojes [] m k r u e s d = (u, refl, e, d)
      recorrer_hrrn-Buena relojes (i ∷ q) m k r u e s d =
          segun
            (λ m k' v l d. recorrer_hrrn-Buena relojes q m k' r v l (λ j z. s j (ground arith)) d)
            (encontrar_estructura_segun_id i k1)
        where
          k1 : Kernel F
          k1 = escribir i (calculo_rr estimar razon (relojes i)) k

          u1 : Ubicados k1
          u1 =
              escritura-Ubicados k u i (calculo_rr estimar razon (relojes i)) (λ c. refl)
                (λ c. refl)

          segun :
              ((m : F × Option ℕ) (k' : Kernel F)
                → Ubicados k'
                → k'.ready ≡ r
                → De r m.1
                → Buena r
                    (grado k')
                    (recorrer_hrrn cero es_cero menor estimar razon relojes q m k'))
              → (x : Option (Carpincho F))
              → Buena r (grado k) (elim x [
                | none ↦ (k1, none)
                | some c ↦
                    recorrer_hrrn cero es_cero menor estimar razon relojes q
                      (preferir es_cero (λ x y. menor y x) c.rr i m)
                      k1
              ])
          segun sigue_con none = (u1, refl, e, λ j z. absurd (ground arith))
          segun sigue_con (some c) =
              sigue_con (preferir es_cero (λ x y. menor y x) c.rr i m) k1 u1 e
                (preferir-De es_cero (λ x y. menor y x) c.rr i m r (s i (ground arith)) d)

      -- Whatever the operations on floats and the clock are, from a kernel where every carpincho is
      -- in the queue of its state, ready_a_exec_HRRN keeps that and the degree of multiprogramming,
      -- and the carpincho that it chooses, if any, is in the ready queue.
      ready_a_exec_hrrn-Elige :
          (relojes : ℕ → Reloj) → Elige (ready_a_exec_hrrn cero es_cero menor estimar razon relojes)
      unfolding ready_a_exec_hrrn
      ready_a_exec_hrrn-Elige relojes = record {
        conserva = λ k u. let (v, g, l, d) = hrrn k u in (v, g);
        de_ready =
            λ k u i z. let (v, g, l, d) = hrrn k u in subst (λ r. 0 < cuenta i r) (sym l) (d i z);
      }
        where
          hrrn :
              (k : Kernel F)
              → Ubicados k
              → Buena k.ready
                  (grado k)
                  (ready_a_exec_hrrn cero es_cero menor estimar razon relojes k)
          hrrn k u =
              recorrer_hrrn-Buena relojes k.ready (cero, none) k k.ready u refl (λ j z. z)
                (λ j z. absurd (ground arith))
