-- ===== src/Kernel/Semaforos.antt =====
-- kernel/src/main.c: mate_sem_init, mate_sem_wait, mate_sem_post and mate_sem_destroy.
-- `string_equals_ignore_case` belongs to the commons library and is a parameter. The `printf` and
-- the log are left out.
pub mod Equilibrio
pub mod Espera
use Prim.Native.String.{String}
use tp_sistemas_operativos.Base.{
  ℕ, suc, Bool, List, [], ◌∷◌, ◌++◌, Option, none, some, if◌then◌else◌, pos, negsuc, ℤ, incr, decr,
  is_neg,
}
use tp_sistemas_operativos.Kernel.Estado.{
  blocked, suspended_ready, mismo_estado, Carpincho, Kernel, Semaforo, Paso, sigue, falla, ◌>>=◌,
  Reloj, modificar, encontrar_estructura_segun_id, validar_existencia_carpincho, enviar,
  a_carpincho,
}
use tp_sistemas_operativos.Kernel.Colas.{
  exec_a_block, block_a_ready, suspended_blocked_a_suspended_ready, con_estado,
}

-- Writes to a semaphore.
abbrev pub con_valor : ℤ → Semaforo → Semaforo
con_valor v s = record s { valor = v }

abbrev pub con_cola : List ℕ → Semaforo → Semaforo
con_cola q s = record s { en_espera = q }

-- Writes to a carpincho.
module _ {F : Type 0} where
  abbrev pub con_fd : ℕ → Carpincho F → Carpincho F
  con_fd fd c = record c { fd = fd }

  abbrev pub con_retenido : ℕ → Carpincho F → Carpincho F
  con_retenido s c = record c { sem_retenido = s }

  abbrev pub con_espera : Option String → ℕ → Carpincho F → Carpincho F
  con_espera nombre s c = record c { espera_por = nombre; sem_por_el_que_se_bloqueo = s }

  abbrev pub escribir : ℕ → (Carpincho F → Carpincho F) → Kernel F → Kernel F
  escribir i f k = record k { lista_carpinchos = modificar i f k.lista_carpinchos }

  -- The carpincho at the head of the queue no longer waits: it goes to ready, or to
  -- suspended-ready if it was suspended meanwhile.
  unfoldable pub desbloquear : ℕ → Kernel F → Paso (Kernel F)
  desbloquear i k =
      let k' = escribir i (con_espera none 0) k in
      elim (encontrar_estructura_segun_id i k) [
        | none ↦ falla
        | some c ↦
            if mismo_estado c.estado blocked
            then sigue (block_a_ready i k')
            else sigue
                (suspended_blocked_a_suspended_ready i (escribir i (con_estado suspended_ready) k'))
      ]

module _ (string_equals_ignore_case : String → String → Bool) where
  unfoldable pub buscar_semaforo : String → List Semaforo → Option Semaforo
  buscar_semaforo nombre [] = none
  buscar_semaforo nombre (s ∷ ss) =
      let resto = buscar_semaforo nombre ss in
      if string_equals_ignore_case s.nombre nombre then some s else resto

  -- A write through the pointer that list_find gave.
  unfoldable pub modificar_semaforo : String → (Semaforo → Semaforo) → List Semaforo → List Semaforo
  modificar_semaforo nombre f [] = []
  modificar_semaforo nombre f (s ∷ ss) =
      let resto = s ∷ modificar_semaforo nombre f ss in
      if string_equals_ignore_case s.nombre nombre then f s ∷ ss else resto

  unfoldable pub eliminar_semaforo : String → List Semaforo → List Semaforo
  eliminar_semaforo nombre [] = []
  eliminar_semaforo nombre (s ∷ ss) =
      let resto = s ∷ eliminar_semaforo nombre ss in
      if string_equals_ignore_case s.nombre nombre then ss else resto

  module _ {F : Type 0} where
    abbrev pub escribir_sem : String → (Semaforo → Semaforo) → Kernel F → Kernel F
    escribir_sem nombre f k = record k {
      semaforos_carpinchos = modificar_semaforo nombre f k.semaforos_carpinchos;
    }

    unfoldable pub mate_sem_init : String → ℤ → ℕ → Kernel F → Kernel F
    unfolding buscar_semaforo
    mate_sem_init nombre valor fd k = elim (buscar_semaforo nombre k.semaforos_carpinchos) [
      | some s ↦ enviar (a_carpincho fd (negsuc 0)) k
      | none ↦ enviar (a_carpincho fd (pos 0)) (record k {
        semaforos_carpinchos =
            k.semaforos_carpinchos
            ++ (record { id = k.id_semaforos; nombre = nombre; valor = valor; en_espera = [] }
                ∷ []);
        id_semaforos = suc k.id_semaforos;
      })
    ]

    -- The semaphore has been found, and is as it was before the call.
    unfoldable pub esperar : ℕ → String → ℕ → Reloj → Semaforo → Kernel F → Paso (Kernel F)
    unfolding modificar_semaforo exec_a_block
    esperar i nombre fd reloj s k =
        let v = decr s.valor in
        let k1 = escribir i (con_fd fd) (escribir_sem nombre (con_valor v) k) in
        elim (encontrar_estructura_segun_id i k) [
          | none ↦ falla
          | some c ↦
              if is_neg v
              then exec_a_block i reloj (
                  escribir_sem nombre (con_cola (s.en_espera ++ (i ∷ [])))
                    (escribir i (con_espera (some nombre) s.id) k1))
              else sigue (enviar (a_carpincho fd (pos 0)) (escribir i (con_retenido s.id) k1))
        ]

    unfoldable pub mate_sem_wait : ℕ → String → ℕ → Reloj → Kernel F → Paso (Kernel F)
    unfolding buscar_semaforo esperar
    mate_sem_wait i nombre fd reloj k = elim (buscar_semaforo nombre k.semaforos_carpinchos) [
      | none ↦ sigue (enviar (a_carpincho fd (negsuc 0)) k)
      | some s ↦ esperar i nombre fd reloj s k
    ]

    -- The carpincho `j` leaves the queue, and the poster retains nothing any more.
    unfoldable pub despertar : ℕ → String → ℕ → List ℕ → Kernel F → Paso (Kernel F)
    unfolding modificar_semaforo desbloquear
    despertar i nombre j q k = elim (encontrar_estructura_segun_id i k) [
      | none ↦ falla
      | some c ↦ desbloquear j (escribir i (con_retenido 0) (escribir_sem nombre (con_cola q) k))
    ]

    -- A carpincho that was closed may still be in the queue: it is dropped, and the next one is
    -- tried once. With no next one the code follows the NULL of queue_peek.
    unfoldable pub atender_cola : ℕ → String → List ℕ → Kernel F → Paso (Kernel F)
    unfolding despertar
    atender_cola i nombre [] k = sigue k
    atender_cola i nombre (j ∷ []) k =
        if validar_existencia_carpincho j k then despertar i nombre j [] k else falla
    atender_cola i nombre (j ∷ l ∷ q) k =
        if validar_existencia_carpincho j k
        then despertar i nombre j (l ∷ q) k
        else if validar_existencia_carpincho l k
        then despertar i nombre l q k
        else sigue (escribir_sem nombre (con_cola (l ∷ q)) k)

    unfoldable pub mate_sem_post : ℕ → String → ℕ → Kernel F → Paso (Kernel F)
    unfolding buscar_semaforo modificar_semaforo atender_cola
    mate_sem_post i nombre fd k = elim (buscar_semaforo nombre k.semaforos_carpinchos) [
      | none ↦ sigue (enviar (a_carpincho fd (negsuc 0)) k)
      | some s ↦
          let k1 = escribir_sem nombre (con_valor (incr s.valor)) k in
          let k2 =
            if is_neg (incr s.valor) then sigue k1 else atender_cola i nombre s.en_espera k1 in
          k2 >>= λ k. sigue (enviar (a_carpincho fd (pos 0)) k)
    ]

    -- The call that the deadlock detection makes, with -1 for the descriptor.
    unfoldable pub atender_cola_deadlock : String → List ℕ → Kernel F → Paso (Kernel F)
    unfolding modificar_semaforo desbloquear
    atender_cola_deadlock nombre [] k = sigue k
    atender_cola_deadlock nombre (j ∷ q) k =
        let k' = escribir_sem nombre (con_cola q) k in
        if validar_existencia_carpincho j k then desbloquear j k' else sigue k'

    unfoldable pub mate_sem_post_deadlock : String → Kernel F → Paso (Kernel F)
    unfolding buscar_semaforo modificar_semaforo atender_cola_deadlock
    mate_sem_post_deadlock nombre k = elim (buscar_semaforo nombre k.semaforos_carpinchos) [
      | none ↦ falla
      | some s ↦
          let k1 = escribir_sem nombre (con_valor (incr s.valor)) k in
          if is_neg (incr s.valor) then sigue k1 else atender_cola_deadlock nombre s.en_espera k1
    ]

    unfoldable pub mate_sem_destroy : String → ℕ → Kernel F → Kernel F
    unfolding buscar_semaforo eliminar_semaforo
    mate_sem_destroy nombre fd k = elim (buscar_semaforo nombre k.semaforos_carpinchos) [
      | none ↦ enviar (a_carpincho fd (negsuc 0)) k
      | some s ↦
          enviar (a_carpincho fd (pos 0))
            (record k { semaforos_carpinchos = eliminar_semaforo nombre k.semaforos_carpinchos })
    ]
