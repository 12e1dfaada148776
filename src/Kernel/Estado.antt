-- ===== src/Kernel/Estado.antt =====
-- kernel/include/main.h: the structures of the kernel, and the lookups of kernel/src/main.c that
-- every operation starts with.
use Prim.Native.String.{String}
use tp_sistemas_operativos.Base.{
  ℕ, suc, ◌+◌, ◌-◌, ◌*◌, Bool, true, false, List, [], ◌∷◌, ◌++◌, Option, none, some, ◌==◌,
  if◌then◌else◌, ℤ, pos, negsuc, ltb,
}

-- The states of a carpincho (shared/include/shared_utils.h).
pub data Estado : Type 0 where
  new ready exec blocked suspended_blocked suspended_ready : Estado

abbrev pub mismo_estado : Estado → Estado → Bool
mismo_estado new new = true
mismo_estado ready ready = true
mismo_estado exec exec = true
mismo_estado blocked blocked = true
mismo_estado suspended_blocked suspended_blocked = true
mismo_estado suspended_ready suspended_ready = true
mismo_estado _ _ = false

-- `data_carpincho`. `F` is the type of the C `float` fields; `rafaga_anterior` is only ever the
-- difference of two `int`s below 2 ^ 24, which a `float` holds exactly. `espera_por` is
-- nombre_semaforo_por_el_que_se_bloqueo, with `none` for NULL.
pub record Carpincho (F : Type 0) : Type 0 where
  pub id : ℕ
  pub rafaga_anterior : ℤ
  pub estimacion_anterior : F
  pub estimacion_siguiente : F
  pub llegada_a_ready : F
  pub rr : F
  pub estado : Estado
  pub cpu_en_uso : ℕ
  pub tiempo_entrada_a_exec : ℕ
  pub tiempo_salida_a_exec : ℕ
  pub fd : ℕ
  pub espera_por : Option String
  pub sem_por_el_que_se_bloqueo : ℕ
  pub sem_retenido : ℕ
  pub tiene_su_espera : ℕ

-- `semaforo`. The queue holds pointers to carpinchos, here their ids.
pub record Semaforo : Type 0 where
  pub id : ℕ
  pub nombre : String
  pub valor : ℤ
  pub en_espera : List ℕ

-- `dispositivo_io`, with the value of its `sem_t` in dispositivo_sem.
pub record Dispositivo : Type 0 where
  pub id : ℕ
  pub nombre : String
  pub duracion : ℕ
  pub en_uso : Bool
  pub en_espera : List ℕ
  pub sem : ℕ

-- What the kernel sends: an `int` to a carpincho, or an order about a carpincho to memoria.
pub data Orden : Type 0 where
  orden_init orden_close suspender : Orden

pub data Mensaje : Type 0 where
  a_carpincho : ℕ → ℤ → Mensaje
  a_memoria : Orden → ℕ → Mensaje

-- The globals. A queue holds the ids of its carpinchos, whose structures are in
-- `lista_carpinchos`; the `sem_t` values are numbers.
pub record Kernel (F : Type 0) : Type 0 where
  pub lista_carpinchos : List (Carpincho F)
  pub semaforos_carpinchos : List Semaforo
  pub lista_dispositivos_io : List Dispositivo
  pub new : List ℕ
  pub ready : List ℕ
  pub exec : List ℕ
  pub blocked : List ℕ
  pub suspended_blocked : List ℕ
  pub suspended_ready : List ℕ
  pub cpu_libres : List ℕ
  pub id_carpincho_global : ℕ
  pub id_semaforos : ℕ
  pub grado_multiprogramacion_libre : ℕ
  pub grado_multiprocesamiento_libre : ℕ
  pub hay_estructura_creada : ℕ
  pub cola_ready_con_elementos : ℕ
  pub programacion_lleno : ℕ
  pub procesamiento_lleno : ℕ
  pub hay_bloqueados : ℕ
  pub liberar_cpu : ℕ → ℕ
  pub usar_cpu : ℕ → ℕ
  pub cpu_libre : ℕ → ℕ
  pub enviados : List Mensaje

-- What a piece of a thread does: it goes on, it waits at a `sem_wait`, or it faults (a NULL
-- pointer, or a value that was never set).
pub data Paso {ℓ} (A : Type ℓ) : Type ℓ where
  sigue : A → Paso A
  espera falla : Paso A

infixl 5 ◌>>=◌
abbrev pub ◌>>=◌ {ℓ κ} : {A : Type ℓ} {B : Type κ} → Paso A → (A → Paso B) → Paso B
sigue a >>= f = f a
espera >>= f = espera
falla >>= f = falla

-- `list_remove_by_condition(q, es_el_mismo)`: the first one with the id.
unfoldable pub quitar : ℕ → List ℕ → List ℕ
quitar i [] = []
quitar i (j ∷ q) = let resto = j ∷ quitar i q in if j == i then q else resto

-- One more in the semaphore of index `i`.
abbrev pub incrementar : ℕ → (ℕ → ℕ) → ℕ → ℕ
incrementar i f j = if j == i then suc (f j) else f j

abbrev pub decrementar : ℕ → (ℕ → ℕ) → ℕ → ℕ
decrementar i f j = if j == i then f j - 1 else f j

-- temporal_get_string_time gives the minutes, seconds and milliseconds of the clock.
pub record Reloj : Type 0 where
  pub minutos : ℕ
  pub segundos : ℕ
  pub milisegundos : ℕ

unfoldable pub calcular_milisegundos : Reloj → ℕ
calcular_milisegundos t = t.minutos * 60000 + t.segundos * 60 + t.milisegundos

-- The difference of two `int`s that are not negative.
unfoldable pub resta : ℕ → ℕ → ℤ
resta a b = if ltb a b then negsuc (b - a - 1) else pos (a - b)

module _ {F : Type 0} where
  unfoldable pub encontrar : ℕ → List (Carpincho F) → Option (Carpincho F)
  encontrar i [] = none
  encontrar i (c ∷ cs) = let resto = encontrar i cs in if c.id == i then some c else resto

  -- A write through the pointer to the carpincho.
  unfoldable pub modificar :
      ℕ → (Carpincho F → Carpincho F) → List (Carpincho F) → List (Carpincho F)
  modificar i f [] = []
  modificar i f (c ∷ cs) = let resto = c ∷ modificar i f cs in if c.id == i then f c ∷ cs else resto

  -- `list_remove_and_destroy_by_condition(lista_carpinchos, …)`.
  unfoldable pub eliminar : ℕ → List (Carpincho F) → List (Carpincho F)
  eliminar i [] = []
  eliminar i (c ∷ cs) = let resto = c ∷ eliminar i cs in if c.id == i then cs else resto

  unfoldable pub encontrar_estructura_segun_id : ℕ → Kernel F → Option (Carpincho F)
  unfolding encontrar
  encontrar_estructura_segun_id i k = encontrar i k.lista_carpinchos

  unfoldable pub validar_existencia_carpincho : ℕ → Kernel F → Bool
  unfolding encontrar
  validar_existencia_carpincho i k = elim (encontrar i k.lista_carpinchos) [
    | none ↦ false
    | some c ↦ true
  ]

  unfoldable pub calculo_rafaga_anterior : Carpincho F → Carpincho F
  unfolding resta
  calculo_rafaga_anterior c = record c {
    rafaga_anterior = resta c.tiempo_salida_a_exec c.tiempo_entrada_a_exec;
  }

  abbrev pub enviar : Mensaje → Kernel F → Kernel F
  enviar m k = record k { enviados = k.enviados ++ (m ∷ []) }
