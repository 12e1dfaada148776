-- ===== src/Kernel/Carpinchos.antt =====
-- kernel/src/main.c: mate_init and mate_close, the first and the last call of a carpincho.
-- What memoria answers is an argument of mate_init, `none` when it cannot be reached; mate_close
-- reads its answer and does not use it.
pub mod Vida
use Prim.Native.String.{String}
use tp_sistemas_operativos.Base.{
  ℕ, suc, List, [], ◌∷◌, ◌++◌, Option, none, some, if◌then◌else◌, pos, negsuc, ℤ, is_neg,
}
use tp_sistemas_operativos.Kernel.Estado.{
  new, exec, blocked, mismo_estado, Carpincho, Kernel, Paso, sigue, falla, modificar, quitar,
  eliminar, encontrar_estructura_segun_id, enviar, a_carpincho, a_memoria, orden_init, orden_close,
}
use tp_sistemas_operativos.Kernel.Colas.{exec_a_exit}
use tp_sistemas_operativos.Kernel.Semaforos.{con_fd, escribir}

-- CERRADO_POR_DEADLOCK (shared/include/shared_utils.h).
abbrev pub cerrado_por_deadlock : ℤ
cerrado_por_deadlock = negsuc 8

module _ {F : Type 0} where
  -- The structure as orden_init fills it. `cero` is the float 0; `basura` is what malloc leaves in
  -- sem_por_el_que_se_bloqueo, the one field that the code does not set.
  unfoldable pub nuevo : F → F → ℕ → ℕ → ℕ → Carpincho F
  nuevo cero estimacion_inicial basura id fd = record {
    id = id;
    rafaga_anterior = pos 0;
    estimacion_anterior = cero;
    estimacion_siguiente = estimacion_inicial;
    llegada_a_ready = cero;
    rr = cero;
    estado = new;
    cpu_en_uso = 9999;
    tiempo_entrada_a_exec = 0;
    tiempo_salida_a_exec = 0;
    fd = fd;
    espera_por = some "";
    sem_por_el_que_se_bloqueo = basura;
    sem_retenido = 0;
    tiene_su_espera = 0;
  }

  -- The new carpincho enters the list and the queue of the new ones.
  unfoldable pub agregar : Carpincho F → Kernel F → Kernel F
  agregar c k = record k {
    lista_carpinchos = k.lista_carpinchos ++ (c ∷ []);
    new = k.new ++ (c.id ∷ []);
    hay_estructura_creada = suc k.hay_estructura_creada;
  }

  unfoldable pub mate_init : F → F → ℕ → ℕ → Option ℤ → Kernel F → Paso (Kernel F)
  unfolding nuevo agregar
  mate_init cero estimacion_inicial basura fd respuesta k =
      let i = k.id_carpincho_global in
      let k1 = record k { id_carpincho_global = suc i } in
      elim respuesta [
        | none ↦ falla
        | some r ↦
            if is_neg r
            then sigue (enviar (a_memoria orden_init i) k1)
            else sigue (
                agregar (nuevo cero estimacion_inicial basura i fd)
                  (enviar (a_memoria orden_init i) k1))
      ]

  -- Out of its queue, out of the list, and one more place in the degree of multiprogramming. It is
  -- told that it was closed because of a deadlock.
  unfoldable pub cerrar_bloqueado : ℕ → ℕ → Kernel F → Kernel F
  cerrar_bloqueado i fd k = record k {
    blocked = quitar i k.blocked;
    lista_carpinchos = eliminar i k.lista_carpinchos;
    grado_multiprogramacion_libre = suc k.grado_multiprogramacion_libre;
    enviados = k.enviados ++ (a_memoria orden_close i ∷ a_carpincho fd cerrado_por_deadlock ∷ []);
  }

  unfoldable pub cerrar_suspendido : ℕ → ℕ → Kernel F → Kernel F
  cerrar_suspendido i fd k = record k {
    suspended_blocked = quitar i k.suspended_blocked;
    lista_carpinchos = eliminar i k.lista_carpinchos;
    grado_multiprogramacion_libre = suc k.grado_multiprogramacion_libre;
    enviados = k.enviados ++ (a_memoria orden_close i ∷ a_carpincho fd cerrado_por_deadlock ∷ []);
  }

  unfoldable pub mate_close : ℕ → ℕ → Kernel F → Paso (Kernel F)
  unfolding exec_a_exit cerrar_bloqueado cerrar_suspendido
  mate_close i fd k =
      let k1 = escribir i (con_fd fd) k in
      elim (encontrar_estructura_segun_id i k) [
        | none ↦ falla
        | some c ↦
            if mismo_estado c.estado exec
            then exec_a_exit i fd k1
            else if mismo_estado c.estado blocked
            then sigue (cerrar_bloqueado i fd k1)
            else sigue (cerrar_suspendido i fd k1)
      ]
