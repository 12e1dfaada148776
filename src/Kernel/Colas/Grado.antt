-- ===== src/Kernel/Colas/Grado.antt =====
-- The degree of multiprogramming of kernel/src/main.c: the free places and the carpinchos that
-- hold one (ready, executing or blocked).
use tp_sistemas_operativos.Base.{
  ℕ, ◌+◌, ◌<◌, ◌≡◌, refl, subst, List, [], ◌∷◌, some, arith, length, length-append,
}
use tp_sistemas_operativos.Kernel.Estado.{
  Estado, new, ready, exec, blocked, Carpincho, Kernel, encontrar, Reloj,
}
use tp_sistemas_operativos.Kernel.Colas.{
  bloquear, terminar, ejecutar, block_a_ready, suspended_blocked_a_suspended_ready, suspender_a,
  separar_ultimo,
}
use tp_sistemas_operativos.Kernel.Colas.Ubicacion.{
  cuenta, length-quitar, cuenta-separar, cola, Ubicados,
}

module _ {F : Type 0} where
  -- The free places and the taken ones.
  abbrev pub grado : Kernel F → ℕ
  grado k = k.grado_multiprogramacion_libre + length k.ready + length k.exec + length k.blocked

  -- A carpincho is in the queue of its state.
  pub en_cola :
      (k : Kernel F) (j : ℕ) (c : Carpincho F)
      → Ubicados k
      → encontrar j k.lista_carpinchos ≡ some c
      → 0 < cuenta j (cola c.estado k)
  en_cola k j c u h = caso c.estado refl
    where
      caso : (e : Estado) → c.estado ≡ e → 0 < cuenta j (cola e k)
      caso new x = ground (arith, u.lugar j new, h, x)
      caso e x = ground (arith, u.lugar j e, h, x)

  module _ (k : Kernel F) (u : Ubicados k) (j : ℕ) (c : Carpincho F)
      (h : encontrar j k.lista_carpinchos ≡ some c) where
    hay : (e : Estado) → c.estado ≡ e → 0 < cuenta j (cola e k)
    hay e x = subst (λ e. 0 < cuenta j (cola e k)) x (en_cola k j c u h)

    pub grado-ejecutar : (reloj : Reloj) → c.estado ≡ ready → grado (ejecutar j c reloj k) ≡ grado k
    unfolding ejecutar
    grado-ejecutar reloj x =
        omega (arith, length-quitar j k.ready (hay ready x), length-append k.exec (j ∷ []))

    pub grado-bloquear : (reloj : Reloj) → c.estado ≡ exec → grado (bloquear j c reloj k) ≡ grado k
    unfolding bloquear
    grado-bloquear reloj x =
        omega (arith, length-quitar j k.exec (hay exec x), length-append k.blocked (j ∷ []))

    pub grado-terminar : (fd : ℕ) → c.estado ≡ exec → grado (terminar j c fd k) ≡ grado k
    unfolding terminar
    grado-terminar fd x = omega (arith, length-quitar j k.exec (hay exec x))

    pub grado-block_a_ready : c.estado ≡ blocked → grado (block_a_ready j k) ≡ grado k
    unfolding block_a_ready
    grado-block_a_ready x =
        omega (arith, length-quitar j k.blocked (hay blocked x), length-append k.ready (j ∷ []))

  pub grado-suspended_ready :
      (k : Kernel F) (j : ℕ) → grado (suspended_blocked_a_suspended_ready j k) ≡ grado k
  unfolding suspended_blocked_a_suspended_ready
  grado-suspended_ready k j = refl

  pub grado-suspender_a :
      (k : Kernel F) (j : ℕ) (c : Carpincho F) (resto : List ℕ)
      → separar_ultimo k.blocked ≡ some (resto, j)
      → grado (suspender_a j c resto k) ≡ grado k
  unfolding suspender_a
  grado-suspender_a k j c resto x = omega (arith, (cuenta-separar k.blocked resto j 0 x).1)
