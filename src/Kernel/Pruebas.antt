-- ===== src/Kernel/Pruebas.antt =====
-- Small states of kernel/src/main.c, on which the theorems of Kernel apply. A `float` is a natural
-- number here, and the comparison of names does not ignore case.
use Prim.Native.String.{String}
use tp_sistemas_operativos.Kernel.Planificacion.Mejor.{
  Valores, estimada, calculada, ready_a_exec_sjf_lem, ready_a_exec_hrrn_lem,
}
use tp_sistemas_operativos.Kernel.Planificacion.{calculo_estimacion_siguiente, calculo_rr}
use tp_sistemas_operativos.Kernel.Estado.{calculo_rafaga_anterior}
use tp_sistemas_operativos.Base.{false, suc, zero}
use tp_sistemas_operativos.Base.{
  ℕ, ◌+◌, ◌/◌, ◌≡◌, ◌≤◌, ◌<◌, refl, List, [], ◌∷◌, none, some, ◌==◌, ltb, if◌then◌else◌, Bool, true,
  inl, ◌⊎◌, arith, inr, ℤ, pos, negsuc, is_neg, length,
}
use tp_sistemas_operativos.Kernel.Estado.{
  Estado, new, ready, exec, blocked, suspended_blocked, suspended_ready, Carpincho, Kernel,
  Semaforo, Dispositivo, sigue, Reloj, encontrar, encontrar_estructura_segun_id,
  calcular_milisegundos,
}
use tp_sistemas_operativos.Kernel.Colas.{exec_a_exit, terminar}
use tp_sistemas_operativos.Kernel.Colas.Ubicacion.{Ubicados, cuenta, cola, esperado}
use tp_sistemas_operativos.Kernel.Colas.Grado.{grado}
use tp_sistemas_operativos.Kernel.Colas.Evolucion.{inicio, luego, termina, Historia-Conserva}
use tp_sistemas_operativos.Kernel.Semaforos.{buscar_semaforo, mate_sem_post, mate_sem_wait}
use tp_sistemas_operativos.Kernel.Semaforos.Equilibrio.{Posteo, mate_sem_post_lem}
use tp_sistemas_operativos.Kernel.Semaforos.Espera.{Esperado, mate_sem_wait_lem}
use tp_sistemas_operativos.Kernel.Carpinchos.{mate_close, mate_init, nuevo}
use tp_sistemas_operativos.Kernel.Carpinchos.Vida.{Cerrado, mate_close_lem, mate_init_lem}
use tp_sistemas_operativos.Kernel.Deadlock.{chequear_ciclo, mayor_id}
use tp_sistemas_operativos.Kernel.Deadlock.Victima.{mayor_id_lem}
use tp_sistemas_operativos.Kernel.Deadlock.Ciclo.{
  Camino, vuelve, chequear_ciclo-Camino, chequear_ciclo_completo,
}
use tp_sistemas_operativos.Kernel.Planificacion.{ready_a_exec_sjf, ready_a_exec_hrrn}
use tp_sistemas_operativos.Kernel.Planificacion.Eleccion.{ready_a_exec_sjf-Elige}
use tp_sistemas_operativos.Kernel.Dispositivos.{soltar_dispositivo}
use tp_sistemas_operativos.Kernel.Dispositivos.Uso.{soltar_dispositivo_lem}
use tp_sistemas_operativos.Kernel.Reloj.{calcular_milisegundos_no_crece}
use text.Mathlib.Text

-- A carpincho of an id in a state that waits for another.
abbrev carpincho : ℕ → Estado → ℕ → Carpincho ℕ
carpincho i e j = record {
  id = i;
  rafaga_anterior = pos 0;
  estimacion_anterior = 0;
  estimacion_siguiente = 0;
  llegada_a_ready = 0;
  rr = 0;
  estado = e;
  cpu_en_uso = 0;
  tiempo_entrada_a_exec = 0;
  tiempo_salida_a_exec = 0;
  fd = 7;
  espera_por = none;
  sem_por_el_que_se_bloqueo = 1;
  sem_retenido = 1;
  tiene_su_espera = j;
}

abbrev semaforo : Semaforo
semaforo = record { id = 1; nombre = "SEM"; valor = negsuc 0; en_espera = 2 ∷ [] }

abbrev disco : Dispositivo
disco = record { id = 0; nombre = "DISCO"; duracion = 1000; en_uso = true; en_espera = []; sem = 0 }

-- The first executes, the second is blocked and the third suspended; the last two wait for each
-- other.
abbrev nucleo : Kernel ℕ
nucleo = record {
  lista_carpinchos =
      carpincho 1 exec 0 ∷ carpincho 2 blocked 3 ∷ carpincho 3 suspended_blocked 2 ∷ [];
  semaforos_carpinchos = semaforo ∷ [];
  lista_dispositivos_io = disco ∷ [];
  new = [];
  ready = [];
  exec = 1 ∷ [];
  blocked = 2 ∷ [];
  suspended_blocked = 3 ∷ [];
  suspended_ready = [];
  cpu_libres = [];
  id_carpincho_global = 4;
  id_semaforos = 2;
  grado_multiprogramacion_libre = 1;
  grado_multiprocesamiento_libre = 0;
  hay_estructura_creada = 0;
  cola_ready_con_elementos = 0;
  programacion_lleno = 0;
  procesamiento_lleno = 0;
  hay_bloqueados = 1;
  liberar_cpu = λ i. 0;
  usar_cpu = λ i. 0;
  cpu_libre = λ i. 0;
  enviados = [];
}

nucleo-Ubicados : Ubicados nucleo
unfolding encontrar
nucleo-Ubicados = record {
  lugar = lugar;
  unicos = λ i. ground arith;
  frescos = λ i h. ground arith;
}
  where
    lugar :
        (i : ℕ) (e : Estado)
        → cuenta i (cola e nucleo) ≡ esperado e (encontrar i nucleo.lista_carpinchos)
    lugar i new = ground arith
    lugar i ready = ground arith
    lugar i exec = ground arith
    lugar i blocked = ground arith
    lugar i suspended_blocked = ground arith
    lugar i suspended_ready = ground arith

abbrev igual : String → String → Bool
igual a b = Text.◌==◌ a b

mate_sem_post_example : Posteo igual "SEM" 7 nucleo semaforo (mate_sem_post igual 1 "SEM" 7 nucleo)
unfolding encontrar buscar_semaforo
mate_sem_post_example =
    mate_sem_post_lem igual 1 "SEM" 7 nucleo semaforo (carpincho 1 exec 0) refl refl vivos refl
  where
    vivos :
        (j : ℕ) (r : List ℕ)
        → ◌≡◌ {A = List ℕ} (2 ∷ []) (j ∷ r)
        → (c : Carpincho ℕ) × (encontrar j nucleo.lista_carpinchos ≡ some c)
    vivos j r h = (carpincho 2 blocked 3, ground arith)

abbrev reloj : Reloj
reloj = record { minutos = 1; segundos = 2; milisegundos = 3 }

mate_sem_wait_example :
    Esperado igual 1 "SEM" 7 reloj nucleo semaforo (mate_sem_wait igual 1 "SEM" 7 reloj nucleo)
unfolding encontrar buscar_semaforo
mate_sem_wait_example =
    mate_sem_wait_lem igual 1 "SEM" 7 reloj nucleo semaforo (carpincho 1 exec 0) refl refl refl

mate_close_example :
    (k' : Kernel ℕ) × (mate_close 3 7 nucleo ≡ sigue k')
    × Cerrado 3 (carpincho 3 suspended_blocked 2) nucleo k'
unfolding encontrar
mate_close_example =
    mate_close_lem 3 7 (carpincho 3 suspended_blocked 2) nucleo nucleo-Ubicados refl
      (inr (inr refl))

mate_init_example :
    (k' : Kernel ℕ) × (mate_init 0 30 5 7 (some (pos 0)) nucleo ≡ sigue k')
    × Ubicados k'
    × (encontrar 4 k'.lista_carpinchos ≡ (if is_neg (pos 0) then none else some (nuevo 0 30 5 4 7)))
    × (grado k' ≡ grado nucleo)
mate_init_example = mate_init_lem 0 30 5 7 (pos 0) nucleo nucleo-Ubicados

chequear_ciclo-Camino_example : Camino nucleo 2 2 (2 ∷ 3 ∷ []) × (length {A = ℕ} (2 ∷ 3 ∷ []) ≤ 5)
unfolding encontrar encontrar_estructura_segun_id chequear_ciclo
chequear_ciclo-Camino_example =
    chequear_ciclo-Camino nucleo (carpincho 2 blocked 3) (2 ∷ 3 ∷ []) refl refl

chequear_ciclo_completo_example :
    (q' : List ℕ) × (chequear_ciclo (carpincho 2 blocked 3) nucleo ≡ some q')
unfolding encontrar encontrar_estructura_segun_id
chequear_ciclo_completo_example =
    chequear_ciclo_completo nucleo (carpincho 2 blocked 3) (3 ∷ []) refl (vuelve refl refl)
      (omega arith)

abbrev es_cero : ℕ → Bool
es_cero x = x == 0

-- ALFA of one half.
abbrev estimar : ℤ → ℕ → ℕ
estimar (pos r) e = (r + e) / 2
estimar (negsuc r) e = e / 2

abbrev razon : ℤ → ℕ → ℕ → ℕ
razon ahora llegada rafaga = 1

-- Two carpinchos that are ready, with estimates of 4 and 3.
abbrev listos : Kernel ℕ
listos = record nucleo {
  lista_carpinchos =
      record (carpincho 1 ready 0) { estimacion_anterior = 8 }
      ∷ record (carpincho 2 ready 0) { estimacion_anterior = 6 }
      ∷ [];
  ready = 1 ∷ 2 ∷ [];
  exec = [];
  blocked = [];
  suspended_blocked = [];
}

listos-Ubicados : Ubicados listos
unfolding encontrar
listos-Ubicados = record {
  lugar = lugar;
  unicos = λ i. ground arith;
  frescos = λ i h. ground arith;
}
  where
    lugar :
        (i : ℕ) (e : Estado)
        → cuenta i (cola e listos) ≡ esperado e (encontrar i listos.lista_carpinchos)
    lugar i new = ground arith
    lugar i ready = ground arith
    lugar i exec = ground arith
    lugar i blocked = ground arith
    lugar i suspended_blocked = ground arith
    lugar i suspended_ready = ground arith

ltb-Irreflexivo : (x : ℕ) → ltb x x ≡ false
ltb-Irreflexivo x = ground arith

ltb-Transitivo : (x y z : ℕ) → ltb x y ≡ true → ltb y z ≡ true → ltb x z ≡ true
ltb-Transitivo x y z a b = ground (arith, a, b)

estimados : ℕ → ℕ
estimados i = if i == 1 then 4 else 3

listos-sjf :
    Valores 0 es_cero ltb estimar estimados
      (estimada 0 es_cero ltb estimar estimados)
      (1 ∷ 2 ∷ [])
      listos
unfolding estimados encontrar calculo_estimacion_siguiente calculo_rafaga_anterior
listos-sjf zero h = absurd (omega (arith, h))
listos-sjf (suc zero) h = (_, refl, refl)
listos-sjf (suc (suc zero)) h = (_, refl, refl)
listos-sjf (suc (suc (suc i))) h = absurd (ground (arith, h))

estimados-es_cero : (i : ℕ) → 0 < cuenta i (1 ∷ 2 ∷ []) → es_cero (estimados i) ≡ false
unfolding estimados
estimados-es_cero i h = ground arith

ready_a_exec_sjf_example :
    (j : ℕ) × ((ready_a_exec_sjf 0 es_cero ltb estimar listos).1 ≡ some j)
    × (0 < cuenta j (1 ∷ 2 ∷ []))
    × ((i : ℕ) → 0 < cuenta i (1 ∷ 2 ∷ []) → ltb (estimados i) (estimados j) ≡ false)
ready_a_exec_sjf_example =
    ready_a_exec_sjf_lem 0 es_cero ltb estimar estimados listos 1 listos-Ubicados refl
      ltb-Irreflexivo ltb-Transitivo (omega arith) listos-sjf estimados-es_cero

-- A ratio that tells the carpinchos apart.
abbrev razon_llegada : ℤ → ℕ → ℕ → ℕ
razon_llegada ahora llegada rafaga = 1 + rafaga

razones : ℕ → ℕ
razones i = if i == 1 then 5 else 4

listos-hrrn :
    Valores 0 es_cero ltb estimar razones
      (calculada 0 es_cero ltb estimar razones razon_llegada (λ i. reloj))
      (1 ∷ 2 ∷ [])
      listos
unfolding razones encontrar calculo_rr calculo_estimacion_siguiente calculo_rafaga_anterior
listos-hrrn zero h = absurd (omega (arith, h))
listos-hrrn (suc zero) h = (_, refl, refl)
listos-hrrn (suc (suc zero)) h = (_, refl, refl)
listos-hrrn (suc (suc (suc i))) h = absurd (ground (arith, h))

razones-es_cero : (i : ℕ) → 0 < cuenta i (1 ∷ 2 ∷ []) → es_cero (razones i) ≡ false
unfolding razones
razones-es_cero i h = ground arith

ready_a_exec_hrrn_example :
    (j : ℕ) × ((ready_a_exec_hrrn 0 es_cero ltb estimar razon_llegada (λ i. reloj) listos).1
      ≡ some j)
    × (0 < cuenta j (1 ∷ 2 ∷ []))
    × ((i : ℕ) → 0 < cuenta i (1 ∷ 2 ∷ []) → ltb (razones j) (razones i) ≡ false)
ready_a_exec_hrrn_example =
    ready_a_exec_hrrn_lem 0 es_cero ltb estimar razones razon_llegada (λ i. reloj) listos 1
      listos-Ubicados refl ltb-Irreflexivo ltb-Transitivo (omega arith) listos-hrrn razones-es_cero

-- The one that executes ends.
abbrev despues : Kernel ℕ
despues = terminar 1 (carpincho 1 exec 0) 7 nucleo

Historia-Conserva_example : Ubicados despues × (grado despues ≡ grado nucleo)
unfolding encontrar encontrar_estructura_segun_id exec_a_exit
Historia-Conserva_example =
    Historia-Conserva (ready_a_exec_sjf 0 es_cero ltb estimar) {k = nucleo} {k' = despues}
      (ready_a_exec_sjf-Elige 0 es_cero ltb estimar)
      (luego inicio (termina 1 7 (carpincho 1 exec 0) refl refl refl)) nucleo-Ubicados

calcular_milisegundos_no_crece_example :
    calcular_milisegundos (record { minutos = 3; segundos = 1; milisegundos = 0 })
    < calcular_milisegundos (record { minutos = 3; segundos = 0; milisegundos = 999 })
calcular_milisegundos_no_crece_example = calcular_milisegundos_no_crece 3 0 0 999 (omega arith)

mayor_id_example :
    (0 < cuenta (mayor_id 0 (2 ∷ 3 ∷ 1 ∷ [])) (2 ∷ 3 ∷ 1 ∷ []))
    × ((j : ℕ) → 0 < cuenta j (2 ∷ 3 ∷ 1 ∷ []) → j ≤ mayor_id 0 (2 ∷ 3 ∷ 1 ∷ []))
mayor_id_example = mayor_id_lem 2 (3 ∷ 1 ∷ [])

soltar_dispositivo_example :
    (k' : Kernel ℕ) × (soltar_dispositivo igual 2 "DISCO" nucleo ≡ sigue k')
    × Ubicados k'
    × (grado k' ≡ grado nucleo)
    × (((blocked ≡ blocked) × (k'.ready ≡ 2 ∷ []))
        ⊎ ((blocked ≡ suspended_blocked) × (k'.suspended_ready ≡ 2 ∷ [])))
unfolding encontrar
soltar_dispositivo_example =
    soltar_dispositivo_lem igual 2 "DISCO" (carpincho 2 blocked 3) nucleo nucleo-Ubicados refl
      (inl refl)
