-- ===== src/Kernel/Carpinchos/Vida.antt =====
-- mate_init and mate_close of kernel/src/main.c against the queues and the degree of
-- multiprogramming.
use tp_sistemas_operativos.Base.{
  ℕ, suc, ◌+◌, ◌≤◌, ◌<◌, ◌≡◌, refl, sym, ap, subst, ◌∙◌, ◌⊎◌, inl, inr, List, [], ◌∷◌, ◌++◌, none,
  some, ◌==◌, if◌then◌else◌, arith, ℤ, is_neg, ==_refl, Bool-cases,
}
use tp_sistemas_operativos.Kernel.Estado.{
  Estado, new, ready, exec, blocked, suspended_blocked, suspended_ready, mismo_estado, Carpincho,
  Kernel, Mensaje, enviar, a_memoria, orden_init, quitar, encontrar, modificar, eliminar, sigue,
  encontrar_estructura_segun_id,
}
use tp_sistemas_operativos.Kernel.Colas.{exec_a_exit, terminar}
use tp_sistemas_operativos.Kernel.Semaforos.{con_fd, escribir}
use tp_sistemas_operativos.Kernel.Colas.Ubicacion.{
  cuenta, cuenta-append, cuenta-quitar, ids, encontrar-eliminar, ids-eliminar, cola, esperado,
  Ubicados, encontrar-modificar, encontrar-append, encontrar_ausente, length-quitar,
}
use tp_sistemas_operativos.Kernel.Colas.Escritura.{escritura-Ubicados}
use tp_sistemas_operativos.Kernel.Colas.Movimientos.{terminar-Ubicados}
use tp_sistemas_operativos.Kernel.Colas.Grado.{grado, grado-terminar, en_cola}
use tp_sistemas_operativos.Kernel.Carpinchos.{
  mate_init, mate_close, cerrar_bloqueado, cerrar_suspendido, agregar, nuevo,
}

module _ {F : Type 0} where
  ids-append :
      (i : ℕ) (cs : List (Carpincho F)) (c : Carpincho F)
      → cuenta i (ids (cs ++ (c ∷ []))) ≡ cuenta i (ids cs) + (if c.id == i then 1 else 0)
  ids-append i [] c = omega arith
  ids-append i (x ∷ cs) c = omega (arith, ids-append i cs c)

  module _ (k : Kernel F) (u : Ubicados k) (j : ℕ) where
    con_fd-Ubicados : (fd : ℕ) → Ubicados (escribir j (con_fd fd) k)
    con_fd-Ubicados fd = escritura-Ubicados k u j (con_fd fd) (λ c. refl) (λ c. refl)

    -- The new carpincho is in the queue of the new ones.
    agregar-Ubicados :
        (c : Carpincho F) (k' : Kernel F)
        → j ≡ k.id_carpincho_global
        → c.id ≡ j
        → c.estado ≡ new
        → k'.id_carpincho_global ≡ suc j
        → k'.lista_carpinchos ≡ k.lista_carpinchos ++ (c ∷ [])
        → ((i : ℕ) (e : Estado)
            → cuenta i (cola e k')
              ≡ cuenta i (cola e k) + (if mismo_estado new e then cuenta i (j ∷ []) else 0))
        → Ubicados k'
    agregar-Ubicados c k' g n s g' l x = record {
      lugar = λ i e. x i e ∙ lugar i e ∙ sym (ap (λ l. esperado e (encontrar i l)) l);
      unicos = λ i. rw l (ground (arith, mas i, u.unicos i, u.frescos i));
      frescos = λ i m. rw l (ground (arith, g, g', m, mas i, u.frescos i));
    }
      where
        mas :
            (i : ℕ)
            → cuenta i (ids (k.lista_carpinchos ++ (c ∷ [])))
              ≡ cuenta i (ids k.lista_carpinchos) + (if j == i then 1 else 0)
        mas i = ids-append i k.lista_carpinchos c ∙ rw n refl

        lugar :
            (i : ℕ) (e : Estado)
            → cuenta i (cola e k) + (if mismo_estado new e then cuenta i (j ∷ []) else 0)
              ≡ esperado e (encontrar i (k.lista_carpinchos ++ (c ∷ [])))
        lugar i e = ground (
          arith,
          u.lugar i e,
          u.frescos j,
          n,
          s,
          g,
          encontrar_ausente j k.lista_carpinchos,
          encontrar-append i k.lista_carpinchos c,
        )

    -- A carpincho that leaves its queue and the list.
    sale-Ubicados :
        (c : Carpincho F) (k' : Kernel F)
        → encontrar j k.lista_carpinchos ≡ some c
        → k'.lista_carpinchos ≡ eliminar j k.lista_carpinchos
        → k'.id_carpincho_global ≡ k.id_carpincho_global
        → ((i : ℕ) (e : Estado)
            → cuenta i (cola e k') ≡ (
                if mismo_estado c.estado e
                then cuenta i (quitar j (cola e k))
                else cuenta i (cola e k)))
        → Ubicados k'
    sale-Ubicados c k' h l g x = record {
      lugar = λ i e. x i e ∙ lugar i e ∙ sym (ap (λ l. esperado e (encontrar i l)) l);
      unicos = λ i. rw (l, ids-eliminar j k.lista_carpinchos) (omega (arith, menos i, u.unicos i));
      frescos =
          λ i m. rw (l, ids-eliminar j k.lista_carpinchos) (omega (arith, g, menos i, u.frescos i));
    }
      where
        menos :
            (i : ℕ)
            → cuenta i (quitar j (ids k.lista_carpinchos)) ≤ cuenta i (ids k.lista_carpinchos)
        menos i = ground (arith, cuenta-quitar i j (ids k.lista_carpinchos))

        lugar :
            (i : ℕ) (e : Estado)
            → (if mismo_estado c.estado e
                then cuenta i (quitar j (cola e k))
                else cuenta i (cola e k))
              ≡ esperado e (encontrar i (eliminar j k.lista_carpinchos))
        lugar i e = ground (
          arith,
          u.lugar i e,
          h,
          cuenta-quitar i j (cola e k),
          encontrar-eliminar i j k.lista_carpinchos (u.unicos i),
        )

    cerrar_bloqueado-Ubicados :
        (c : Carpincho F) (fd : ℕ)
        → encontrar j k.lista_carpinchos ≡ some c
        → c.estado ≡ blocked
        → Ubicados (cerrar_bloqueado j fd k)
    unfolding cerrar_bloqueado
    cerrar_bloqueado-Ubicados c fd h x = sale-Ubicados c (cerrar_bloqueado j fd k) h refl refl lugar
      where
        lugar :
            (i : ℕ) (e : Estado)
            → cuenta i (cola e (cerrar_bloqueado j fd k)) ≡ (
                if mismo_estado c.estado e
                then cuenta i (quitar j (cola e k))
                else cuenta i (cola e k))
        lugar i blocked = rw x refl
        lugar i e = rw x refl

    cerrar_suspendido-Ubicados :
        (c : Carpincho F) (fd : ℕ)
        → encontrar j k.lista_carpinchos ≡ some c
        → c.estado ≡ suspended_blocked
        → Ubicados (cerrar_suspendido j fd k)
    unfolding cerrar_suspendido
    cerrar_suspendido-Ubicados c fd h x =
        sale-Ubicados c (cerrar_suspendido j fd k) h refl refl lugar
      where
        lugar :
            (i : ℕ) (e : Estado)
            → cuenta i (cola e (cerrar_suspendido j fd k)) ≡ (
                if mismo_estado c.estado e
                then cuenta i (quitar j (cola e k))
                else cuenta i (cola e k))
        lugar i suspended_blocked = rw x refl
        lugar i e = rw x refl

  -- What is known after the close of a carpincho that was `c`: it is not in the list of
  -- carpinchos, every other one is in the queue of its state, and the degree of multiprogramming has grown if it was suspended.
  abbrev pub Cerrado : ℕ → Carpincho F → Kernel F → Kernel F → Type 0
  Cerrado i c k k' =
      Ubicados k'
      × (encontrar i k'.lista_carpinchos ≡ none)
      × (grado k' ≡ grado k + (if mismo_estado c.estado suspended_blocked then 1 else 0))

  encontrar-con_fd :
      (i fd : ℕ) (c : Carpincho F) (k : Kernel F)
      → encontrar i k.lista_carpinchos ≡ some c
      → encontrar i (modificar i (con_fd fd) k.lista_carpinchos) ≡ some (con_fd fd c)
  encontrar-con_fd i fd c k h =
      encontrar-modificar i i (con_fd fd) k.lista_carpinchos (λ c. refl) ∙ rw (==_refl i, h) refl

  -- The carpincho is in no place of the list it was deleted from.
  ya_no_esta :
      (i : ℕ) (k : Kernel F) → Ubicados k → encontrar i (eliminar i k.lista_carpinchos) ≡ none
  ya_no_esta i k u = encontrar-eliminar i i k.lista_carpinchos (u.unicos i) ∙ rw (==_refl i) refl

  -- In a kernel where every carpincho is in the queue of its state, closing one that executes, is
  -- blocked or is suspended-blocked always ends; it is no more in the list of carpinchos, every
  -- carpincho of that list is in the queue of its state and in no other, no other id is in these
  -- queues, and the free places and the carpinchos that hold one add up to what they did, but to
  -- one more if the closed one was suspended.
  pub mate_close_lem :
      (i fd : ℕ) (c : Carpincho F) (k : Kernel F)
      → Ubicados k
      → encontrar i k.lista_carpinchos ≡ some c
      → (c.estado ≡ exec) ⊎ (c.estado ≡ blocked) ⊎ (c.estado ≡ suspended_blocked)
      → (k' : Kernel F) × (mate_close i fd k ≡ sigue k') × Cerrado i c k k'
  unfolding mate_close exec_a_exit encontrar_estructura_segun_id terminar cerrar_bloqueado
      cerrar_suspendido
  mate_close_lem i fd c k u h (inl x) =
      let k1 : Kernel F = escribir i (con_fd fd) k in
      let u1 : Ubicados k1 = con_fd-Ubicados k u i fd in
      let y : encontrar i k1.lista_carpinchos ≡ some (con_fd fd c) = encontrar-con_fd i fd c k h in
      (
        terminar i (con_fd fd c) fd k1,
        rw (h, mate_close, x, exec_a_exit, y) refl,
        (
          terminar-Ubicados k1 u1 i (con_fd fd c) fd y x,
          ya_no_esta i k1 u1,
          grado-terminar k1 u1 i (con_fd fd c) y fd x ∙ rw x (omega arith),
        ),
      )
  mate_close_lem i fd c k u h (inr (inl x)) =
      let k1 : Kernel F = escribir i (con_fd fd) k in
      let u1 : Ubicados k1 = con_fd-Ubicados k u i fd in
      let y : encontrar i k1.lista_carpinchos ≡ some (con_fd fd c) = encontrar-con_fd i fd c k h in
      let z : 0 < cuenta i k1.blocked =
        subst (λ e. 0 < cuenta i (cola e k1)) x (en_cola k1 i (con_fd fd c) u1 y) in
      (
        cerrar_bloqueado i fd k1,
        rw (h, mate_close, x) refl,
        (
          cerrar_bloqueado-Ubicados k1 u1 i (con_fd fd c) fd y x,
          ya_no_esta i k1 u1,
          rw x (omega (arith, length-quitar i k1.blocked z)),
        ),
      )
  mate_close_lem i fd c k u h (inr (inr x)) =
      let k1 : Kernel F = escribir i (con_fd fd) k in
      let u1 : Ubicados k1 = con_fd-Ubicados k u i fd in
      let y : encontrar i k1.lista_carpinchos ≡ some (con_fd fd c) = encontrar-con_fd i fd c k h in
      (
        cerrar_suspendido i fd k1,
        rw (h, mate_close, x) refl,
        (
          cerrar_suspendido-Ubicados k1 u1 i (con_fd fd c) fd y x,
          ya_no_esta i k1 u1,
          rw x (omega arith),
        ),
      )

  -- The id that was taken is not given again.
  con_id : (m : Mensaje) (k : Kernel F) → Kernel F
  con_id m k = enviar m (record k { id_carpincho_global = suc k.id_carpincho_global })

  con_id-Ubicados : (m : Mensaje) (k : Kernel F) → Ubicados k → Ubicados (con_id m k)
  unfolding con_id
  con_id-Ubicados m k u = record {
    lugar = lugar;
    unicos = u.unicos;
    frescos = λ i h. u.frescos i (omega arith);
  }
    where
      lugar :
          (i : ℕ) (e : Estado)
          → cuenta i (cola e (con_id m k)) ≡ esperado e (encontrar i k.lista_carpinchos)
      lugar i new = u.lugar i new
      lugar i ready = u.lugar i ready
      lugar i exec = u.lugar i exec
      lugar i blocked = u.lugar i blocked
      lugar i suspended_blocked = u.lugar i suspended_blocked
      lugar i suspended_ready = u.lugar i suspended_ready

  agregar_lugar :
      (c : Carpincho F) (m : Mensaje) (k : Kernel F) (i : ℕ) (e : Estado)
      → cuenta i (cola e (agregar c (con_id m k)))
        ≡ cuenta i (cola e k) + (if mismo_estado new e then cuenta i (c.id ∷ []) else 0)
  unfolding agregar con_id
  agregar_lugar c m k i new = omega (arith, cuenta-append i k.new c.id)
  agregar_lugar c m k i ready = omega arith
  agregar_lugar c m k i exec = omega arith
  agregar_lugar c m k i blocked = omega arith
  agregar_lugar c m k i suspended_blocked = omega arith
  agregar_lugar c m k i suspended_ready = omega arith

  ausente : (k : Kernel F) → Ubicados k → encontrar k.id_carpincho_global k.lista_carpinchos ≡ none
  ausente k u =
      encontrar_ausente k.id_carpincho_global k.lista_carpinchos
        (u.frescos k.id_carpincho_global (omega arith))

  -- In a kernel where every carpincho is in the queue of its state, an init that memoria answers
  -- always ends. With an answer of 0 or more the carpincho of the next id is found as mate_init
  -- filled it, and with a negative one there is no carpincho of that id; either way every carpincho
  -- is in the queue of its state, and the degree of multiprogramming is the same.
  pub mate_init_lem :
      (cero estimacion_inicial : F) (basura fd : ℕ) (r : ℤ) (k : Kernel F)
      → Ubicados k
      → (k' : Kernel F) × (mate_init cero estimacion_inicial basura fd (some r) k ≡ sigue k')
        × Ubicados k'
        × (encontrar k.id_carpincho_global k'.lista_carpinchos ≡ (
            if is_neg r
            then none
            else some (nuevo cero estimacion_inicial basura k.id_carpincho_global fd)))
        × (grado k' ≡ grado k)
  unfolding mate_init agregar nuevo con_id
  mate_init_lem cero estimacion_inicial basura fd r k u =
      let m = a_memoria orden_init k.id_carpincho_global in
      elim (Bool-cases (is_neg r)) [
        | inl x ↦ (con_id m k, rw x refl, con_id-Ubicados m k u, rw x (ausente k u), refl)
        | inr x ↦
            let c : Carpincho F = nuevo cero estimacion_inicial basura k.id_carpincho_global fd in
            (
              agregar c (con_id m k),
              rw x refl,
              agregar-Ubicados k u k.id_carpincho_global c (agregar c (con_id m k)) refl refl refl
                  refl refl (agregar_lugar c m k),
              rw x (
                  encontrar-append k.id_carpincho_global k.lista_carpinchos c
                  ∙ rw (ausente k u, ==_refl k.id_carpincho_global) refl),
              refl,
            )
      ]
