-- ===== src/Kernel/Dispositivos.antt =====
-- kernel/src/main.c: mate_call_io, as the three pieces between its waits. The device is found by
-- its name with string_equals_ignore_case, a parameter; its `sem_t` stands with it. The sleep is
-- left out.
pub mod Uso
use Prim.Native.String.{String}
use tp_sistemas_operativos.Base.{
  ℕ, suc, ◌-◌, ◌+◌, Bool, true, false, List, [], ◌∷◌, ◌++◌, Option, none, some, if◌then◌else◌, ◌==◌,
}
use tp_sistemas_operativos.Kernel.Estado.{
  blocked, mismo_estado, Carpincho, Kernel, Dispositivo, Paso, sigue, espera, falla, ◌>>=◌, Reloj,
  encontrar_estructura_segun_id,
}
use tp_sistemas_operativos.Kernel.Colas.{
  exec_a_block, block_a_ready, suspended_blocked_a_suspended_ready,
}
use tp_sistemas_operativos.Kernel.Semaforos.{con_fd, escribir}

module _ (string_equals_ignore_case : String → String → Bool) where
  unfoldable pub encontrar_dispositivo : String → List Dispositivo → Option Dispositivo
  encontrar_dispositivo nombre [] = none
  encontrar_dispositivo nombre (d ∷ ds) =
      let resto = encontrar_dispositivo nombre ds in
      if string_equals_ignore_case d.nombre nombre then some d else resto

  -- A write through the pointer to the device.
  unfoldable pub modificar_dispositivo :
      String → (Dispositivo → Dispositivo) → List Dispositivo → List Dispositivo
  modificar_dispositivo nombre f [] = []
  modificar_dispositivo nombre f (d ∷ ds) =
      let resto = d ∷ modificar_dispositivo nombre f ds in
      if string_equals_ignore_case d.nombre nombre then f d ∷ ds else resto

  module _ {F : Type 0} where
    abbrev pub con_dispositivo : String → (Dispositivo → Dispositivo) → Kernel F → Kernel F
    con_dispositivo nombre f k = record k {
      lista_dispositivos_io = modificar_dispositivo nombre f k.lista_dispositivos_io;
    }

    -- Up to the wait: the carpincho blocks, and is noted in the queue of a device in use.
    unfoldable pub pedir_dispositivo : ℕ → String → ℕ → Reloj → Kernel F → Paso (Kernel F)
    unfolding encontrar_dispositivo modificar_dispositivo exec_a_block
    pedir_dispositivo i nombre fd reloj k = exec_a_block i reloj (escribir i (con_fd fd) k) >>= λ k.
        elim (encontrar_dispositivo nombre k.lista_dispositivos_io) [
          | none ↦ falla
          | some d ↦
              if d.en_uso
              then sigue
                  (con_dispositivo nombre (λ d. record d { en_espera = d.en_espera ++ (i ∷ []) }) k)
              else sigue k
        ]

    -- The wait on the device, which is then in use.
    unfoldable pub tomar_dispositivo : String → Kernel F → Paso (Kernel F)
    unfolding encontrar_dispositivo modificar_dispositivo
    tomar_dispositivo nombre k = elim (encontrar_dispositivo nombre k.lista_dispositivos_io) [
      | none ↦ falla
      | some d ↦
          if d.sem == 0
          then espera
          else sigue (con_dispositivo nombre (λ d. record d { sem = d.sem - 1; en_uso = true }) k)
    ]

    -- After the use: the device is given back, and the carpincho goes to ready, or to
    -- suspended-ready if it is not blocked any more.
    unfoldable pub soltar_dispositivo : ℕ → String → Kernel F → Paso (Kernel F)
    unfolding modificar_dispositivo
    soltar_dispositivo i nombre k =
        let k1 = con_dispositivo nombre (λ d. record d { sem = suc d.sem; en_uso = false }) k in
        elim (encontrar_estructura_segun_id i k) [
          | none ↦ falla
          | some c ↦
              if mismo_estado c.estado blocked
              then sigue (block_a_ready i k1)
              else sigue (suspended_blocked_a_suspended_ready i k1)
        ]
