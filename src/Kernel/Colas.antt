-- ===== src/Kernel/Colas.antt =====
-- kernel/src/main.c: the moves of a carpincho between the queues. A thread's endless loop is given
-- by one round of it.
pub mod Ubicacion
pub mod Escritura
pub mod Movimientos
pub mod Grado
pub mod Evolucion
use tp_sistemas_operativos.Base.{
  ℕ, suc, ◌+◌, ◌-◌, Bool, List, [], ◌∷◌, ◌++◌, Option, none, some, ◌==◌, ltb, if◌then◌else◌, ◌&&◌,
  pos, length,
}
use tp_sistemas_operativos.Kernel.Estado.{
  Estado, Carpincho, ready, exec, blocked, suspended_blocked, suspended_ready, Kernel, Paso, sigue,
  espera, falla, ◌>>=◌, quitar, incrementar, decrementar, Reloj, calcular_milisegundos, modificar,
  eliminar, encontrar_estructura_segun_id, calculo_rafaga_anterior, enviar, a_carpincho, a_memoria,
  orden_close, suspender,
}

-- `list_remove(blocked, long_blocked - 1)`: the last of the queue, and the others.
unfoldable pub separar_ultimo : List ℕ → Option (List ℕ × ℕ)
separar_ultimo [] = none
separar_ultimo (i ∷ q) = elim (separar_ultimo q) [
  | none ↦ some ([], i)
  | some (r, j) ↦ some (i ∷ r, j)
]

module _ {F : Type 0} where
  -- What the moves write to the structure of the carpincho.
  abbrev pub con_estado : Estado → Carpincho F → Carpincho F
  con_estado e c = record c { estado = e }

  abbrev pub con_cpu : ℕ → Carpincho F → Carpincho F
  con_cpu cpu c = record c { cpu_en_uso = cpu }

  abbrev pub detener : Reloj → Carpincho F → Carpincho F
  detener reloj c = record (calculo_rafaga_anterior c) {
    estado = blocked;
    tiempo_salida_a_exec = calcular_milisegundos reloj;
  }

  abbrev pub arrancar : Reloj → Carpincho F → Carpincho F
  arrancar reloj c = record c { estado = exec; tiempo_entrada_a_exec = calcular_milisegundos reloj }

  -- One round of `entrantes_a_ready`, the long-term scheduler. With both queues empty the code
  -- follows the NULL of queue_peek.
  unfoldable pub pasar_a_ready : ℕ → Kernel F → Kernel F
  pasar_a_ready i k = record k {
    ready = k.ready ++ (i ∷ []);
    lista_carpinchos = modificar i (con_estado ready) k.lista_carpinchos;
    cola_ready_con_elementos = suc k.cola_ready_con_elementos;
    programacion_lleno =
        (if k.grado_multiprogramacion_libre == 0
          then suc k.programacion_lleno
          else k.programacion_lleno);
  }

  abbrev pub tomar_entrante : Kernel F → List ℕ → List ℕ → Paso (Kernel F)
  tomar_entrante k [] [] = falla
  tomar_entrante k [] (i ∷ q) = sigue (pasar_a_ready i (record k { new = q }))
  tomar_entrante k (i ∷ q) _ = sigue (pasar_a_ready i (record k { suspended_ready = q }))

  unfoldable pub entrantes_a_ready : Kernel F → Paso (Kernel F)
  unfolding pasar_a_ready
  entrantes_a_ready k =
      if k.hay_estructura_creada == 0
      then espera
      else if k.grado_multiprogramacion_libre == 0
      then espera
      else tomar_entrante
          (record k {
            hay_estructura_creada = k.hay_estructura_creada - 1;
            grado_multiprogramacion_libre = k.grado_multiprogramacion_libre - 1;
          })
          k.suspended_ready k.new

  -- `asignar_hilo_CPU`: the first free CPU, which the multiprocessing semaphore promises.
  abbrev pub tomar_cpu : ℕ → Kernel F → List ℕ → Paso (Kernel F)
  tomar_cpu i k [] = falla
  tomar_cpu i k (cpu ∷ libres) = sigue (record k {
    cpu_libres = libres;
    lista_carpinchos = modificar i (con_cpu cpu) k.lista_carpinchos;
    usar_cpu = incrementar cpu k.usar_cpu;
  })

  unfoldable pub asignar_hilo_cpu : ℕ → Kernel F → Paso (Kernel F)
  asignar_hilo_cpu i k = tomar_cpu i k k.cpu_libres

  unfoldable pub ejecutar : ℕ → Carpincho F → Reloj → Kernel F → Kernel F
  ejecutar i c reloj k = enviar (a_carpincho c.fd (pos i)) (record k {
    exec = k.exec ++ (i ∷ []);
    ready = quitar i k.ready;
    lista_carpinchos =
        modificar i
          (λ c. record c { estado = exec; tiempo_entrada_a_exec = calcular_milisegundos reloj })
          k.lista_carpinchos;
    procesamiento_lleno =
        (if k.grado_multiprogramacion_libre == 0
          then suc k.procesamiento_lleno
          else k.procesamiento_lleno);
  })

  -- With its CPU assigned, the chosen carpincho executes and is told so.
  unfoldable pub en_cpu : ℕ → Reloj → Kernel F → Paso (Kernel F)
  unfolding ejecutar
  en_cpu i reloj k = elim (encontrar_estructura_segun_id i k) [
    | none ↦ falla
    | some c ↦ sigue (ejecutar i c reloj k)
  ]

  unfoldable pub despachar : Reloj → Kernel F × Option ℕ → Paso (Kernel F)
  unfolding asignar_hilo_cpu en_cpu
  despachar reloj (k, none) = falla
  despachar reloj (k, some i) = asignar_hilo_cpu i k >>= en_cpu i reloj

  -- One round of `ready_a_exec`, the short-term scheduler. `elegir` is ready_a_exec_SJF or
  -- ready_a_exec_HRRN, which also writes its estimates; it returns no id if nothing is ready.
  unfoldable pub ready_a_exec :
      (Kernel F → Kernel F × Option ℕ) → Reloj → Kernel F → Paso (Kernel F)
  unfolding despachar
  ready_a_exec elegir reloj k =
      if k.cola_ready_con_elementos == 0
      then espera
      else if k.grado_multiprocesamiento_libre == 0
      then espera
      else despachar reloj (
          elegir (record k {
            cola_ready_con_elementos = k.cola_ready_con_elementos - 1;
            grado_multiprocesamiento_libre = k.grado_multiprocesamiento_libre - 1;
          }))

  unfoldable pub bloquear : ℕ → Carpincho F → Reloj → Kernel F → Kernel F
  bloquear i c reloj k = record k {
    lista_carpinchos = modificar i (detener reloj) k.lista_carpinchos;
    blocked = k.blocked ++ (i ∷ []);
    exec = quitar i k.exec;
    liberar_cpu = incrementar c.cpu_en_uso k.liberar_cpu;
    hay_bloqueados = suc k.hay_bloqueados;
  }

  unfoldable pub exec_a_block : ℕ → Reloj → Kernel F → Paso (Kernel F)
  unfolding bloquear
  exec_a_block i reloj k = elim (encontrar_estructura_segun_id i k) [
    | none ↦ falla
    | some c ↦ sigue (bloquear i c reloj k)
  ]

  -- The carpincho is told 0; what memoria answers is read and not used.
  unfoldable pub terminar : ℕ → Carpincho F → ℕ → Kernel F → Kernel F
  terminar i c fd k = record k {
    exec = quitar i k.exec;
    lista_carpinchos = eliminar i k.lista_carpinchos;
    liberar_cpu = incrementar c.cpu_en_uso k.liberar_cpu;
    grado_multiprogramacion_libre = suc k.grado_multiprogramacion_libre;
    enviados = k.enviados ++ (a_memoria orden_close i ∷ a_carpincho fd (pos 0) ∷ []);
  }

  unfoldable pub exec_a_exit : ℕ → ℕ → Kernel F → Paso (Kernel F)
  unfolding terminar
  exec_a_exit i fd k = elim (encontrar_estructura_segun_id i k) [
    | none ↦ falla
    | some c ↦ sigue (terminar i c fd k)
  ]

  unfoldable pub block_a_ready : ℕ → Kernel F → Kernel F
  block_a_ready i k = record k {
    ready = k.ready ++ (i ∷ []);
    blocked = quitar i k.blocked;
    lista_carpinchos = modificar i (con_estado ready) k.lista_carpinchos;
    cola_ready_con_elementos = suc k.cola_ready_con_elementos;
  }

  unfoldable pub suspended_blocked_a_suspended_ready : ℕ → Kernel F → Kernel F
  suspended_blocked_a_suspended_ready i k = record k {
    suspended_ready = k.suspended_ready ++ (i ∷ []);
    suspended_blocked = quitar i k.suspended_blocked;
    lista_carpinchos = modificar i (con_estado suspended_ready) k.lista_carpinchos;
    hay_estructura_creada = suc k.hay_estructura_creada;
  }

  unfoldable pub condiciones_para_suspender : Kernel F → Bool
  condiciones_para_suspender k =
      ltb 0 (length k.new + length k.suspended_ready)
      && (length k.ready == 0)
      && ltb 0 (length k.blocked)

  -- The carpincho releases the CPU that it had, whether or not it holds it.
  unfoldable pub suspender_a : ℕ → Carpincho F → List ℕ → Kernel F → Kernel F
  suspender_a i c resto k = enviar (a_memoria suspender i) (record k {
    blocked = resto;
    suspended_blocked = k.suspended_blocked ++ (i ∷ []);
    lista_carpinchos = modificar i (con_estado suspended_blocked) k.lista_carpinchos;
    liberar_cpu = incrementar c.cpu_en_uso k.liberar_cpu;
    grado_multiprogramacion_libre = suc k.grado_multiprogramacion_libre;
  })

  unfoldable pub suspender_ultimo : Kernel F → Paso (Kernel F)
  unfolding separar_ultimo suspender_a
  suspender_ultimo k = elim (separar_ultimo k.blocked) [
    | none ↦ falla
    | some (resto, i) ↦ elim (encontrar_estructura_segun_id i k) [
      | none ↦ falla
      | some c ↦ sigue (suspender_a i c resto k)
    ]
  ]

  -- One round of `suspender`, the medium-term scheduler.
  unfoldable pub suspender_ronda : Kernel F → Paso (Kernel F)
  unfolding condiciones_para_suspender suspender_ultimo
  suspender_ronda k =
      let k' = record k { procesamiento_lleno = k.procesamiento_lleno - 1 } in
      if k.procesamiento_lleno == 0
      then espera
      else if condiciones_para_suspender k'
      then suspender_ultimo k'
      else sigue k'

  -- The thread of a CPU, `ejecuta`: it takes its order, and gives the CPU back when told to.
  unfoldable pub ejecuta_toma : ℕ → Kernel F → Paso (Kernel F)
  ejecuta_toma cpu k =
      if k.usar_cpu cpu == 0
      then espera
      else if k.cpu_libre cpu == 0
      then espera
      else sigue (record k {
        usar_cpu = decrementar cpu k.usar_cpu;
        cpu_libre = decrementar cpu k.cpu_libre;
      })

  unfoldable pub ejecuta_libera : ℕ → Kernel F → Paso (Kernel F)
  ejecuta_libera cpu k =
      if k.liberar_cpu cpu == 0
      then espera
      else sigue (record k {
        liberar_cpu = decrementar cpu k.liberar_cpu;
        cpu_libres = k.cpu_libres ++ (cpu ∷ []);
        cpu_libre = incrementar cpu k.cpu_libre;
        grado_multiprocesamiento_libre = suc k.grado_multiprocesamiento_libre;
      })
