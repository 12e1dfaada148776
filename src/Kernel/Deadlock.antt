-- ===== src/Kernel/Deadlock.antt =====
-- kernel/src/main.c: the deadlock detection. The lists of the detection hold ids in place of
-- pointers to carpinchos; a pointer to a carpincho that is gone is a fault.
pub mod Ciclo
pub mod Victima
use Prim.Native.String.{String}
use tp_sistemas_operativos.Base.{
  ℕ, suc, ◌-◌, Bool, true, false, List, [], ◌∷◌, ◌++◌, Option, none, some, ◌==◌, ltb, if◌then◌else◌,
  length,
}
use tp_sistemas_operativos.Kernel.Estado.{
  blocked, suspended_blocked, mismo_estado, Carpincho, Kernel, Semaforo, Paso, sigue, espera, falla,
  ◌>>=◌, encontrar_estructura_segun_id,
}
use tp_sistemas_operativos.Kernel.Semaforos.{escribir, mate_sem_post_deadlock}
use tp_sistemas_operativos.Kernel.Carpinchos.{mate_close}

-- lista_posibles, lista_conectados and the value of the semaphore segui_chequeando_deadlock.
pub record Deteccion : Type 0 where
  pub lista_posibles : List ℕ
  pub lista_conectados : List ℕ
  pub segui_chequeando_deadlock : ℕ

abbrev pub avisar : Deteccion → Deteccion
avisar d = record d { segui_chequeando_deadlock = suc d.segui_chequeando_deadlock }

abbrev pub conectar : ℕ → Deteccion → Deteccion
conectar i d = record d { lista_conectados = d.lista_conectados ++ (i ∷ []) }

abbrev pub es_posible : ℕ → Deteccion → Deteccion
es_posible i d = record d { lista_posibles = d.lista_posibles ++ (i ∷ []) }

unfoldable pub encontrar_estructura_semaforo : ℕ → List Semaforo → Option Semaforo
encontrar_estructura_semaforo i [] = none
encontrar_estructura_semaforo i (s ∷ ss) =
    let resto = encontrar_estructura_semaforo i ss in if s.id == i then some s else resto

-- The greatest id, from the one that is the greatest so far.
unfoldable pub mayor_id : ℕ → List ℕ → ℕ
mayor_id mayor_hasta_ahora [] = mayor_hasta_ahora
mayor_id mayor_hasta_ahora (i ∷ q) =
    mayor_id (if ltb mayor_hasta_ahora i then i else mayor_hasta_ahora) q

module _ {F : Type 0} where
  abbrev pub con_su_espera : ℕ → Carpincho F → Carpincho F
  con_su_espera j c = record c { tiene_su_espera = j }

  -- The carpincho `i` waits for the semaphore `sem`: whoever retains it has its wait.
  unfoldable pub buscar_en :
      ℕ → ℕ → List (Carpincho F) → Kernel F × Deteccion → Kernel F × Deteccion
  buscar_en i sem [] kd = kd
  buscar_en i sem (c ∷ cs) (k, d) = buscar_en i sem cs (
      if c.id == i
      then (k, d)
      else if c.sem_retenido == sem
      then (escribir i (con_su_espera c.id) k, conectar i d)
      else (k, d))

  unfoldable pub buscar_quien_tiene_su_espera :
      Carpincho F → Kernel F × Deteccion → Kernel F × Deteccion
  unfolding buscar_en
  buscar_quien_tiene_su_espera c (k, d) =
      let (k', d') = buscar_en c.id c.sem_por_el_que_se_bloqueo k.lista_carpinchos (k, d) in
      (k', avisar d')

  unfoldable pub puede_estar_en_deadlock : Carpincho F → Bool
  puede_estar_en_deadlock c =
      if (if mismo_estado c.estado blocked then true else mismo_estado c.estado suspended_blocked)
      then (if c.sem_retenido == 0
          then false
          else elim c.espera_por [ none ↦ false | some nombre ↦ true ])
      else false

  unfoldable pub agregar_desde : List (Carpincho F) → Kernel F × Deteccion → Kernel F × Deteccion
  unfolding buscar_quien_tiene_su_espera puede_estar_en_deadlock
  agregar_desde [] kd = kd
  agregar_desde (c ∷ cs) (k, d) = agregar_desde cs (
      if puede_estar_en_deadlock c
      then buscar_quien_tiene_su_espera c (k, es_posible c.id d)
      else (k, avisar d))

  unfoldable pub agregando_a_lista_posible_deadlock : Kernel F × Deteccion → Kernel F × Deteccion
  unfolding agregar_desde
  agregando_a_lista_posible_deadlock (k, d) =
      if ltb (length k.lista_carpinchos) 2
      then (k, avisar d)
      else agregar_desde k.lista_carpinchos (k, d)

  -- The ids that the code adds to el_ciclo when it returns true; `none` is false.
  unfoldable pub chequear_ciclo : Carpincho F → Kernel F → Option (List ℕ)
  chequear_ciclo c1 k = elim (encontrar_estructura_segun_id c1.tiene_su_espera k) [
    | none ↦ none
    | some c2 ↦ elim (encontrar_estructura_segun_id c2.tiene_su_espera k) [
      | none ↦ none
      | some c3 ↦
          if c2.tiene_su_espera == c1.id
          then some (c1.id ∷ c1.tiene_su_espera ∷ [])
          else elim (encontrar_estructura_segun_id c3.tiene_su_espera k) [
            | none ↦ none
            | some c4 ↦
                if c3.tiene_su_espera == c1.id
                then some (c1.id ∷ c1.tiene_su_espera ∷ c2.tiene_su_espera ∷ [])
                else elim (encontrar_estructura_segun_id c4.tiene_su_espera k) [
                  | none ↦ none
                  | some c5 ↦
                      if c4.tiene_su_espera == c1.id
                      then some (
                          c1.id ∷ c1.tiene_su_espera ∷ c2.tiene_su_espera ∷ c3.tiene_su_espera ∷ [])
                      else if c5.tiene_su_espera == c1.id
                      then some (
                          c1.id ∷ c1.tiene_su_espera ∷ c2.tiene_su_espera ∷ c3.tiene_su_espera
                          ∷ c4.tiene_su_espera ∷ [])
                      else none
                ]
          ]
    ]
  ]

  -- The first connected carpincho that closes a cycle.
  unfoldable pub hay_ciclo : List ℕ → Kernel F → Paso (Option (List ℕ))
  unfolding chequear_ciclo
  hay_ciclo [] k = sigue none
  hay_ciclo (i ∷ conectados) k =
      let resto = hay_ciclo conectados k in
      elim (encontrar_estructura_segun_id i k) [
        | none ↦ falla
        | some c ↦ elim (chequear_ciclo c k) [ some ciclo ↦ sigue (some ciclo) | none ↦ resto ]
      ]

  module _ (string_equals_ignore_case : String → String → Bool) where
    -- The carpincho of the greatest id is closed, and then there is a post to the semaphore that
    -- blocked it and one to the semaphore that it retained.
    unfoldable pub solucionatelo : List ℕ → Kernel F → Paso (Kernel F)
    unfolding mayor_id mate_close mate_sem_post_deadlock encontrar_estructura_semaforo
    solucionatelo el_ciclo k =
        let i = mayor_id 0 el_ciclo in
        elim (encontrar_estructura_segun_id i k) [
          | none ↦ falla
          | some c ↦ mate_close i c.fd k >>= λ k'.
              elim (encontrar_estructura_semaforo c.sem_por_el_que_se_bloqueo
                k.semaforos_carpinchos) [
                  | none ↦ falla
                  | some culpable ↦
                      mate_sem_post_deadlock string_equals_ignore_case culpable.nombre k' >>= λ k'.
                      elim (encontrar_estructura_semaforo c.sem_retenido k.semaforos_carpinchos) [
                        | none ↦ falla
                        | some s ↦ mate_sem_post_deadlock string_equals_ignore_case s.nombre k'
                      ]
                ]
        ]

    unfoldable pub resolver : Option (List ℕ) → Kernel F → Paso (Kernel F)
    unfolding solucionatelo
    resolver none k = sigue k
    resolver (some el_ciclo) k = solucionatelo el_ciclo k

    -- One round of detectate_deadlock, whose lists are empty before it and after it. It gives the
    -- kernel and the value of segui_chequeando_deadlock.
    unfoldable pub detectate_deadlock : ℕ → Kernel F → Paso (Kernel F × ℕ)
    unfolding agregando_a_lista_posible_deadlock hay_ciclo resolver
    detectate_deadlock avisos k =
        let (k', d) = agregando_a_lista_posible_deadlock (
          k,
          record { lista_posibles = []; lista_conectados = []; segui_chequeando_deadlock = avisos },
        ) in
        let resuelto =
          (if ltb (length d.lista_posibles) 2
            then sigue k'
            else (hay_ciclo d.lista_conectados k' >>= λ ciclo. resolver ciclo k')) in
        if d.segui_chequeando_deadlock == 0
        then espera
        else resuelto >>= λ k. sigue (k, d.segui_chequeando_deadlock - 1)
