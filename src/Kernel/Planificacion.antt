-- ===== src/Kernel/Planificacion.antt =====
-- kernel/src/main.c: ready_a_exec_SJF and ready_a_exec_HRRN, which choose who executes next.
-- `F` is the type of a C `float`, with the operations on it that the code uses.
pub mod Eleccion
pub mod Mejor
use tp_sistemas_operativos.Base.{
  ℕ, ◌-◌, ◌%◌, Bool, List, [], ◌∷◌, Option, none, some, if◌then◌else◌, ltb, ℤ, pos, negsuc,
}
use tp_sistemas_operativos.Kernel.Estado.{
  Carpincho, Kernel, Reloj, calcular_milisegundos, calculo_rafaga_anterior,
  encontrar_estructura_segun_id,
}
use tp_sistemas_operativos.Kernel.Semaforos.{escribir}

-- An `int` stored in a signed `char`.
unfoldable pub a_char : ℕ → ℤ
a_char n = let r = n % 256 in if ltb r 128 then pos r else negsuc (255 - r)

-- The best value so far and the carpincho that has it. The code takes the value 0 for "none so
-- far".
unfoldable pub preferir {ℓ} :
    {F : Type ℓ} → (F → Bool) → (F → F → Bool) → F → ℕ → F × Option ℕ → F × Option ℕ
preferir es_cero mejor valor i (hasta_el_momento, elegido) =
    if es_cero hasta_el_momento
    then (valor, some i)
    else if mejor valor hasta_el_momento
    then (valor, some i)
    else (hasta_el_momento, elegido)

module _ {F : Type 0} where
  -- `estimar r e` is `r * alfa + e * (1 - alfa)`, with the ALFA of the configuration.
  unfoldable pub calculo_estimacion_siguiente : (ℤ → F → F) → Carpincho F → Carpincho F
  unfolding calculo_rafaga_anterior
  calculo_estimacion_siguiente estimar c =
      let c' = calculo_rafaga_anterior c in
      record c' { estimacion_siguiente = estimar c'.rafaga_anterior c'.estimacion_anterior }

  abbrev pub recordar_estimacion : Carpincho F → Carpincho F
  recordar_estimacion c = record c { estimacion_anterior = c.estimacion_siguiente }

  abbrev pub recordar : Option ℕ → Kernel F → Kernel F
  recordar none k = k
  recordar (some i) k = escribir i recordar_estimacion k

  -- `razon ahora llegada rafaga` is `1 + (ahora - llegada) / rafaga`.
  unfoldable pub calculo_rr : (ℤ → F → F) → (ℤ → F → F → F) → Reloj → Carpincho F → Carpincho F
  unfolding a_char calcular_milisegundos calculo_estimacion_siguiente
  calculo_rr estimar razon reloj c =
      let ahora = a_char (calcular_milisegundos reloj) in
      let c' = calculo_estimacion_siguiente estimar c in
      record c' { rr = razon ahora c'.llegada_a_ready c'.estimacion_siguiente }

-- `cero` is 0, `es_cero x` is `x == 0` and `menor x y` is `x < y`.
module _ {F : Type 0} (cero : F) (es_cero : F → Bool) (menor : F → F → Bool)
    (estimar : ℤ → F → F) where
  -- The loop of ready_a_exec_SJF. A pointer to no carpincho gives no id.
  unfoldable pub recorrer_sjf : List ℕ → F × Option ℕ → Kernel F → Kernel F × Option ℕ
  unfolding calculo_estimacion_siguiente preferir
  recorrer_sjf [] (min_hasta_el_momento, carpincho_menor) k = (k, carpincho_menor)
  recorrer_sjf (i ∷ q) m k =
      let k1 = escribir i (calculo_estimacion_siguiente estimar) k in
      elim (encontrar_estructura_segun_id i k1) [
        | none ↦ (k1, none)
        | some c ↦
            let m' = preferir es_cero menor c.estimacion_siguiente i m in
            recorrer_sjf q m' (recordar m'.1 k1)
      ]

  unfoldable pub ready_a_exec_sjf : Kernel F → Kernel F × Option ℕ
  unfolding recorrer_sjf
  ready_a_exec_sjf k = recorrer_sjf k.ready (cero, none) k

  module _ (razon : ℤ → F → F → F) where
    -- The loop of ready_a_exec_HRRN. The clock is read once for each carpincho.
    unfoldable pub recorrer_hrrn :
        (ℕ → Reloj) → List ℕ → F × Option ℕ → Kernel F → Kernel F × Option ℕ
    unfolding calculo_rr preferir
    recorrer_hrrn relojes [] (max_hasta_el_momento, carpincho_mayor) k = (k, carpincho_mayor)
    recorrer_hrrn relojes (i ∷ q) m k =
        let k1 = escribir i (calculo_rr estimar razon (relojes i)) k in
        elim (encontrar_estructura_segun_id i k1) [
          | none ↦ (k1, none)
          | some c ↦ recorrer_hrrn relojes q (preferir es_cero (λ x y. menor y x) c.rr i m) k1
        ]

    unfoldable pub ready_a_exec_hrrn : (ℕ → Reloj) → Kernel F → Kernel F × Option ℕ
    unfolding recorrer_hrrn
    ready_a_exec_hrrn relojes k = recorrer_hrrn relojes k.ready (cero, none) k
