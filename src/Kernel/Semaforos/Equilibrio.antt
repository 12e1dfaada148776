-- ===== src/Kernel/Semaforos/Equilibrio.antt =====
-- The semaphores of kernel/src/main.c against what a semaphore promises: a value below zero counts
-- the carpinchos that wait.
use Prim.Native.String.{String}
use mathlib.Core.Option
use tp_sistemas_operativos.Base.{
  ℕ, zero, suc, ◌<◌, ◌≡◌, ◌≢◌, refl, subst, sym, ap, ◌∙◌, ◌⊎◌, Bool, true, List, [], ◌∷◌, ◌++◌,
  none, some, ◌==◌, if◌then◌else◌, pos, negsuc, length, ℤ, incr, is_neg, arith, Bool-cases, inl,
  inr,
}
use tp_sistemas_operativos.Kernel.Estado.{
  quitar, Estado, blocked, suspended_ready, mismo_estado, Carpincho, Kernel, Semaforo, Paso, sigue,
  encontrar, encontrar_estructura_segun_id, validar_existencia_carpincho, enviar, a_carpincho,
}
use tp_sistemas_operativos.Kernel.Colas.{
  block_a_ready, suspended_blocked_a_suspended_ready, con_estado,
}
use tp_sistemas_operativos.Kernel.Colas.Ubicacion.{encontrar-modificar}
use tp_sistemas_operativos.Kernel.Semaforos.{
  con_valor, con_cola, con_retenido, con_espera, escribir, desbloquear, buscar_semaforo,
  modificar_semaforo, escribir_sem, mate_sem_post, despertar, atender_cola,
}

-- How far below zero an integer is.
abbrev pub falta : ℤ → ℕ
falta (pos n) = 0
falta (negsuc n) = suc n

-- As many wait as the value is below zero.
abbrev pub Equilibrado : Semaforo → Type 0
Equilibrado s = length s.en_espera ≡ falta s.valor

module _ (igual : String → String → Bool) where
  pub buscar-modificar :
      (nombre : String) (f : Semaforo → Semaforo) (ss : List Semaforo)
      → ((s : Semaforo) → (f s).nombre ≡ s.nombre)
      → buscar_semaforo igual nombre (modificar_semaforo igual nombre f ss)
        ≡ Option.map f (buscar_semaforo igual nombre ss)
  unfolding buscar_semaforo modificar_semaforo
  buscar-modificar nombre f [] h = refl
  buscar-modificar nombre f (s ∷ ss) h = elim (Bool-cases (igual s.nombre nombre)) [
    | inl x ↦ let y : igual (f s).nombre nombre ≡ true = rw (h s) x in rw (x, y)
    | inr x ↦ rw (x, x) (buscar-modificar nombre f ss h)
  ]

  module _ {F : Type 0} where
    -- The queues that no waking changes.
    abbrev Quietas : Kernel F → Kernel F → Type 0
    Quietas k k' = (k'.new ≡ k.new) × (k'.exec ≡ k.exec)

    abbrev QuietaSuspension : Kernel F → Kernel F → Type 0
    QuietaSuspension k k' =
        (k'.suspended_blocked ≡ k.suspended_blocked) × (k'.suspended_ready ≡ k.suspended_ready)

    -- Nobody moves.
    abbrev pub NadieSeMueve : Kernel F → Kernel F → Type 0
    NadieSeMueve k k' =
        Quietas k k' × QuietaSuspension k k' × (k'.ready ≡ k.ready) × (k'.blocked ≡ k.blocked)

    -- Where a carpincho with that state goes when it stops waiting; the others stay.
    abbrev pub Despierto : ℕ → Estado → Kernel F → Kernel F → Type 0
    Despierto j estado k k' =
        Quietas k k'
        × (((estado ≡ blocked)
              × QuietaSuspension k k'
              × (k'.ready ≡ k.ready ++ (j ∷ []))
              × (k'.blocked ≡ quitar j k.blocked))
            ⊎ ((estado ≢ blocked)
                × (k'.ready ≡ k.ready)
                × (k'.blocked ≡ k.blocked)
                × (k'.suspended_ready ≡ k.suspended_ready ++ (j ∷ []))
                × (k'.suspended_blocked ≡ quitar j k.suspended_blocked)))

    desbloquear-sigue :
        (j : ℕ) (c : Carpincho F) (k : Kernel F)
        → encontrar j k.lista_carpinchos ≡ some c
        → (k' : Kernel F) × (desbloquear j k ≡ sigue k')
          × (k'.semaforos_carpinchos ≡ k.semaforos_carpinchos)
          × Despierto j c.estado k k'
    unfolding desbloquear encontrar_estructura_segun_id block_a_ready
        suspended_blocked_a_suspended_ready
    desbloquear-sigue j c k x = elim (Bool-cases (mismo_estado c.estado blocked)) [
      | inl y ↦ (
        block_a_ready j (escribir j (con_espera none 0) k),
        rw (x, desbloquear, y),
        refl,
        ((refl, refl), inl (ground arith, (refl, refl), refl, refl)),
      )
      | inr y ↦ (
        suspended_blocked_a_suspended_ready j
            (escribir j (con_estado suspended_ready) (escribir j (con_espera none 0) k)),
        rw (x, desbloquear, y),
        refl,
        ((refl, refl), inr (ground arith, refl, refl, refl, refl)),
      )
    ]

    -- What a post does to a semaphore and to those who wait: nobody waits; the only one who waits
    -- is woken; or more than one waits, and nobody is woken.
    pub data Posteo (nombre : String) (fd : ℕ) (k : Kernel F) (s : Semaforo) (r : Paso (Kernel F))
        : Type 0 where
      nadie :
          (k' : Kernel F) (s' : Semaforo)
          → r ≡ sigue (enviar (a_carpincho fd (pos 0)) k')
          → buscar_semaforo igual nombre k'.semaforos_carpinchos ≡ some s'
          → s'.valor ≡ incr s.valor
          → s.en_espera ≡ []
          → Equilibrado s'
          → NadieSeMueve k k'
          → Posteo nombre fd k s r
      despierta :
          (k' : Kernel F) (s' : Semaforo) (j : ℕ) (c : Carpincho F)
          → r ≡ sigue (enviar (a_carpincho fd (pos 0)) k')
          → buscar_semaforo igual nombre k'.semaforos_carpinchos ≡ some s'
          → s'.valor ≡ incr s.valor
          → s.en_espera ≡ j ∷ []
          → Equilibrado s'
          → encontrar j k.lista_carpinchos ≡ some c
          → Despierto j c.estado k k'
          → Posteo nombre fd k s r
      perdido :
          (k' : Kernel F) (s' : Semaforo)
          → r ≡ sigue (enviar (a_carpincho fd (pos 0)) k')
          → buscar_semaforo igual nombre k'.semaforos_carpinchos ≡ some s'
          → s'.valor ≡ incr s.valor
          → 1 < length s.en_espera
          → s'.en_espera ≡ s.en_espera
          → ¬ Equilibrado s'
          → NadieSeMueve k k'
          → Posteo nombre fd k s r

    module _ (i : ℕ) (nombre : String) (fd : ℕ) (k : Kernel F) (s : Semaforo)
        (b : buscar_semaforo igual nombre k.semaforos_carpinchos ≡ some s) where
      -- The kernel with the value raised.
      subido : Kernel F
      subido = escribir_sem igual nombre (con_valor (incr s.valor)) k

      en_subido :
          (f : Semaforo → Semaforo)
          → ((s : Semaforo) → (f s).nombre ≡ s.nombre)
          → buscar_semaforo igual nombre
              (modificar_semaforo igual nombre f subido.semaforos_carpinchos)
            ≡ some (f (con_valor (incr s.valor) s))
      unfolding subido
      en_subido f h =
          buscar-modificar nombre f subido.semaforos_carpinchos h
          ∙ ap (Option.map f) (
              buscar-modificar nombre (con_valor (incr s.valor)) k.semaforos_carpinchos (λ s. refl)
              ∙ ap (Option.map (con_valor (incr s.valor))) b)

      -- What is left of the call once the queue has been served.
      post_eq :
          (k' : Kernel F)
          → (if is_neg (incr s.valor)
              then sigue subido
              else atender_cola igual i nombre s.en_espera subido)
            ≡ sigue k'
          → mate_sem_post igual i nombre fd k ≡ sigue (enviar (a_carpincho fd (pos 0)) k')
      unfolding mate_sem_post subido
      post_eq k' h = rw (b, mate_sem_post, h)

      sem_subido :
          buscar_semaforo igual nombre subido.semaforos_carpinchos
          ≡ some (con_valor (incr s.valor) s)
      unfolding subido
      sem_subido =
          buscar-modificar nombre (con_valor (incr s.valor)) k.semaforos_carpinchos (λ s. refl)
          ∙ ap (Option.map (con_valor (incr s.valor))) b

      -- The kernel from which the head of the queue wakes up.
      servido : Kernel F
      unfolding subido
      servido = escribir i (con_retenido 0) (escribir_sem igual nombre (con_cola []) subido)

      despertar_eq :
          (p c : Carpincho F) (j : ℕ)
          → encontrar i k.lista_carpinchos ≡ some p
          → encontrar j k.lista_carpinchos ≡ some c
          → atender_cola igual i nombre (j ∷ []) subido ≡ desbloquear j servido
      unfolding subido servido atender_cola despertar encontrar_estructura_segun_id
          validar_existencia_carpincho
      despertar_eq p c j hp hc = ground (arith, hc, hp)

      caso_uno :
          (p c : Carpincho F) (j : ℕ)
          → encontrar i k.lista_carpinchos ≡ some p
          → encontrar j k.lista_carpinchos ≡ some c
          → s.valor ≡ negsuc 0
          → s.en_espera ≡ j ∷ []
          → Posteo nombre fd k s (mate_sem_post igual i nombre fd k)
      unfolding servido subido
      caso_uno p c j hp hc v q =
          let c' : (c' : Carpincho F) × (c'.estado ≡ c.estado)
              × (encontrar j servido.lista_carpinchos ≡ some c') =
            elim (Bool-cases (i == j)) [
              | inl x ↦ (
                con_retenido 0 c,
                refl,
                encontrar-modificar j i (con_retenido 0) k.lista_carpinchos (λ c. refl)
                    ∙ rw (x, hc) refl,
              )
              | inr x ↦ (
                c,
                refl,
                encontrar-modificar j i (con_retenido 0) k.lista_carpinchos (λ c. refl)
                    ∙ rw (x, hc) refl,
              )
            ] in
          let d = desbloquear-sigue j c'.0 servido c'.2 in
          despierta d.0 (con_cola [] (con_valor (incr s.valor) s)) j c
            (post_eq d.0 (
              ap
                (λ q.
                  if is_neg (incr s.valor)
                  then sigue subido
                  else atender_cola igual i nombre q subido)
                q
              ∙ ap
                  (λ v.
                    if is_neg (incr v)
                    then sigue subido
                    else atender_cola igual i nombre (j ∷ []) subido)
                  v
              ∙ despertar_eq p c j hp hc
              ∙ d.1))
            (ap (buscar_semaforo igual nombre) d.2 ∙ en_subido (con_cola []) (λ s. refl)) refl q
            (rw v refl) hc (subst (λ e. Despierto j e k d.0) c'.1 d.3)

      quietos : NadieSeMueve k subido
      unfolding subido
      quietos = ((refl, refl), (refl, refl), refl, refl)

      caso :
          (p : Carpincho F) (v : ℤ) (q : List ℕ)
          → encontrar i k.lista_carpinchos ≡ some p
          → ((j : ℕ) (r : List ℕ)
              → s.en_espera ≡ j ∷ r
              → (c : Carpincho F) × (encontrar j k.lista_carpinchos ≡ some c))
          → s.valor ≡ v
          → s.en_espera ≡ q
          → length q ≡ falta v
          → Posteo nombre fd k s (mate_sem_post igual i nombre fd k)
      unfolding subido atender_cola
      caso p (pos n) [] hp vivos v q e =
          nadie subido (con_valor (incr s.valor) s) (post_eq subido (rw (v, q) refl)) sem_subido
            refl q (rw (v, q) refl) quietos
      caso p (pos n) (j ∷ r) hp vivos v q e = absurd (omega arith)
      caso p (negsuc zero) [] hp vivos v q e = absurd (omega arith)
      caso p (negsuc zero) (j ∷ []) hp vivos v q e =
          let c = vivos j [] q in caso_uno p c.0 j hp c.1 v q
      caso p (negsuc zero) (j ∷ l ∷ r) hp vivos v q e = absurd (omega arith)
      caso p (negsuc (suc n)) r hp vivos v q e =
          perdido subido (con_valor (incr s.valor) s) (post_eq subido (rw v refl)) sem_subido refl
            (rw q (omega arith)) refl
            (λ z.
              let y : length r ≡ suc n = sym (ap length q) ∙ z ∙ ap (λ x. falta (incr x)) v in
              omega arith)
            quietos

    -- A post of a carpincho that exists, on a semaphore that is found, whose queue has as many
    -- carpinchos as its value is below zero, the head of the queue being alive: the call always
    -- goes on, answers 0 and raises the value by one. If nobody waited, every queue of states
    -- stays; if exactly one waited, the queue of the semaphore is then empty and that carpincho
    -- leaves blocked for the end of ready if its state in the kernel was blocked, and suspended-
    -- blocked for the end of suspended-ready if not, and the other queues of states stay; if more
    -- waited, every queue of states and that of the semaphore stay, and the latter no longer agrees
    -- with the value.
    pub mate_sem_post_lem :
        (i : ℕ) (nombre : String) (fd : ℕ) (k : Kernel F) (s : Semaforo) (p : Carpincho F)
        → buscar_semaforo igual nombre k.semaforos_carpinchos ≡ some s
        → encontrar i k.lista_carpinchos ≡ some p
        → ((j : ℕ) (r : List ℕ)
            → s.en_espera ≡ j ∷ r
            → (c : Carpincho F) × (encontrar j k.lista_carpinchos ≡ some c))
        → Equilibrado s
        → Posteo nombre fd k s (mate_sem_post igual i nombre fd k)
    mate_sem_post_lem i nombre fd k s p b hp vivos e =
        caso i nombre fd k s b p s.valor s.en_espera hp vivos refl refl e
