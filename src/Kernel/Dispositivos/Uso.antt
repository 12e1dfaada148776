-- ===== src/Kernel/Dispositivos/Uso.antt =====
-- mate_call_io of kernel/src/main.c against the queues and the degree of multiprogramming.
use tp_sistemas_operativos.Base.{ℕ, suc, false, ◌≡◌, refl, inl, inr, ◌⊎◌, Bool, some, ◌++◌, [], ◌∷◌}
use Prim.Native.String.{String}
use tp_sistemas_operativos.Kernel.Estado.{
  blocked, suspended_blocked, Carpincho, Kernel, sigue, encontrar, encontrar_estructura_segun_id,
}
use tp_sistemas_operativos.Kernel.Colas.{block_a_ready, suspended_blocked_a_suspended_ready}
use tp_sistemas_operativos.Kernel.Colas.Ubicacion.{Ubicados, otros-Ubicados}
use tp_sistemas_operativos.Kernel.Colas.Movimientos.{
  block_a_ready-Ubicados, suspended_blocked_a_suspended_ready-Ubicados,
}
use tp_sistemas_operativos.Kernel.Colas.Grado.{grado, grado-block_a_ready, grado-suspended_ready}
use tp_sistemas_operativos.Kernel.Dispositivos.{soltar_dispositivo, con_dispositivo}

module _ (igual : String → String → Bool) {F : Type 0} where
  -- In a kernel where every carpincho is in the queue of its state, one that is blocked or
  -- suspended-blocked and ends its use of a device goes, always, from its queue to the end of ready
  -- or of suspended-ready respectively; every carpincho is then in the queue of its state, and the
  -- degree of multiprogramming is the same.
  pub soltar_dispositivo_lem :
      (i : ℕ) (nombre : String) (c : Carpincho F) (k : Kernel F)
      → Ubicados k
      → encontrar i k.lista_carpinchos ≡ some c
      → (c.estado ≡ blocked) ⊎ (c.estado ≡ suspended_blocked)
      → (k' : Kernel F) × (soltar_dispositivo igual i nombre k ≡ sigue k')
        × Ubicados k'
        × (grado k' ≡ grado k)
        × (((c.estado ≡ blocked) × (k'.ready ≡ k.ready ++ (i ∷ [])))
            ⊎ ((c.estado ≡ suspended_blocked)
                × (k'.suspended_ready ≡ k.suspended_ready ++ (i ∷ []))))
  unfolding soltar_dispositivo encontrar_estructura_segun_id block_a_ready
      suspended_blocked_a_suspended_ready
  soltar_dispositivo_lem i nombre c k u h (inl x) =
      let k1 : Kernel F =
        con_dispositivo igual nombre (λ d. record d { sem = suc d.sem; en_uso = false }) k in
      let u1 : Ubicados k1 = otros-Ubicados k k1 refl refl refl refl refl refl refl refl u in
      (
        block_a_ready i k1,
        rw (h, soltar_dispositivo, x) refl,
        block_a_ready-Ubicados k1 u1 i c h x,
        grado-block_a_ready k1 u1 i c h x,
        inl (x, refl),
      )
  soltar_dispositivo_lem i nombre c k u h (inr x) =
      let k1 : Kernel F =
        con_dispositivo igual nombre (λ d. record d { sem = suc d.sem; en_uso = false }) k in
      let u1 : Ubicados k1 = otros-Ubicados k k1 refl refl refl refl refl refl refl refl u in
      (
        suspended_blocked_a_suspended_ready i k1,
        rw (h, soltar_dispositivo, x) refl,
        suspended_blocked_a_suspended_ready-Ubicados k1 u1 i c h x,
        grado-suspended_ready k1 i,
        inr (x, refl),
      )
