-- ===== src/Kernel/Colas/Evolucion.antt =====
-- The scheduling threads of kernel/src/main.c as steps of the whole kernel: in every order of the
-- steps each carpincho stays in the queue of its state, and no place is lost or made up.
use tp_sistemas_operativos.Base.{
  ℕ, ◌+◌, ◌-◌, ◌<◌, ◌≡◌, refl, sym, ap, subst, ◌∙◌, true, List, [], ◌∷◌, Option, none, some, ◌==◌,
  arith, Option-cases, Bool-cases, inl, inr, ==_refl, ==→ne, if◌then◌else◌, length-append,
}
use tp_sistemas_operativos.Kernel.Estado.{
  ◌>>=◌, Estado, new, ready, exec, blocked, suspended_blocked, suspended_ready, mismo_estado,
  Carpincho, Kernel, Reloj, Paso, sigue, espera, falla, encontrar, encontrar_estructura_segun_id,
}
use tp_sistemas_operativos.Kernel.Colas.{
  en_cpu, tomar_cpu, condiciones_para_suspender, entrantes_a_ready, tomar_entrante, pasar_a_ready,
  ready_a_exec, despachar, ejecutar, exec_a_block, bloquear, exec_a_exit, terminar, block_a_ready,
  suspended_blocked_a_suspended_ready, suspender_ronda, suspender_ultimo, suspender_a,
  separar_ultimo, ejecuta_toma, ejecuta_libera, con_cpu,
}
use tp_sistemas_operativos.Kernel.Colas.Ubicacion.{
  otros-Ubicados, cuenta, cola, Ubicados, encontrar-modificar, cuenta-separar,
}
use tp_sistemas_operativos.Kernel.Colas.Movimientos.{
  pasar_a_ready-new-Ubicados, pasar_a_ready-suspended_ready-Ubicados, ejecutar-Ubicados,
  bloquear-Ubicados, block_a_ready-Ubicados, suspended_blocked_a_suspended_ready-Ubicados,
  suspender_a-Ubicados, con_cpu-Ubicados, con_cpu_tomada, terminar-Ubicados,
}
use tp_sistemas_operativos.Kernel.Colas.Grado.{
  grado, grado-ejecutar, grado-bloquear, grado-terminar, grado-block_a_ready, grado-suspended_ready,
  grado-suspender_a,
}

mismo_estado-eq : (a b : Estado) → mismo_estado a b ≡ true → a ≡ b
mismo_estado-eq new b h = ground arith
mismo_estado-eq a b h = ground arith

o_si_no {ℓ} : {A : Type ℓ} → A → Paso A → A
o_si_no a (sigue b) = b
o_si_no a espera = a
o_si_no a falla = a

pub sigue-injective {ℓ} : {A : Type ℓ} (a b : A) → sigue a ≡ sigue b → a ≡ b
unfolding o_si_no
sigue-injective a b h = ap (o_si_no a) h

module _ {F : Type 0} where
  -- What a step keeps.
  abbrev pub Conserva : Kernel F → Kernel F → Type 0
  Conserva k k' = Ubicados k → Ubicados k' × (grado k' ≡ grado k)

  -- Whoever is in a queue has its structure in the list, in the state of the queue.
  pub de_la_cola :
      (k : Kernel F) (j : ℕ) (e : Estado)
      → Ubicados k
      → 0 < cuenta j (cola e k)
      → (c : Carpincho F) × (encontrar j k.lista_carpinchos ≡ some c) × (c.estado ≡ e)
  de_la_cola k j e u h = elim (Option-cases (encontrar j k.lista_carpinchos)) [
    | inl x ↦ absurd (ground (arith, u.lugar j e))
    | inr (c, x) ↦ elim (Bool-cases (mismo_estado c.estado e)) [
      | inl y ↦ (c, x, mismo_estado-eq c.estado e y)
      | inr y ↦ absurd (ground (arith, u.lugar j e))
    ]
  ]

  -- What the scheduler asks of ready_a_exec_SJF and ready_a_exec_HRRN.
  pub record Elige (elegir : Kernel F → Kernel F × Option ℕ) : Type 0 where
    pub conserva : (k : Kernel F) → Conserva k (elegir k).0
    pub de_ready :
        (k : Kernel F)
        → Ubicados k
        → (i : ℕ) → (elegir k).1 ≡ some i
        → 0 < cuenta i (elegir k).0.ready

  entra-Conserva :
      (k k' : Kernel F) (s n : List ℕ)
      → k.suspended_ready ≡ s
      → k.new ≡ n
      → tomar_entrante k s n ≡ sigue k'
      → Ubicados k
      → Ubicados k' × (grado k' ≡ grado k + 1)
  unfolding pasar_a_ready
  entra-Conserva k k' [] [] a b h u = absurd (ground arith)
  entra-Conserva k k' [] (i ∷ q) a b h u =
      let (c, x, y) = de_la_cola k i new u (rw b (ground arith)) in
      subst (λ k'. Ubicados k' × (grado k' ≡ grado k + 1)) (sigue-injective _ _ h)
        (pasar_a_ready-new-Ubicados k u i c q x y b, omega (arith, length-append k.ready (i ∷ [])))
  entra-Conserva k k' (i ∷ s) n a b h u =
      let (c, x, y) = de_la_cola k i suspended_ready u (rw a (ground arith)) in
      subst (λ k'. Ubicados k' × (grado k' ≡ grado k + 1)) (sigue-injective _ _ h)
        (
          pasar_a_ready-suspended_ready-Ubicados k u i c s x y a,
          omega (arith, length-append k.ready (i ∷ [])),
        )

  -- A round of the long-term scheduler uses one free place for one carpincho.
  pub entrantes_a_ready-Conserva :
      (k k' : Kernel F) → entrantes_a_ready k ≡ sigue k' → Conserva k k'
  unfolding entrantes_a_ready
  entrantes_a_ready-Conserva k k' h u = elim (Bool-cases (k.hay_estructura_creada == 0)) [
    | inl x ↦ absurd (ground arith)
    | inr x ↦ elim (Bool-cases (k.grado_multiprogramacion_libre == 0)) [
      | inl y ↦ absurd (ground arith)
      | inr y ↦
          let k1 : Kernel F = record k {
            hay_estructura_creada = k.hay_estructura_creada - 1;
            grado_multiprogramacion_libre = k.grado_multiprogramacion_libre - 1;
          } in
          let z : tomar_entrante k1 k.suspended_ready k.new ≡ sigue k' = ground arith in
          let (v, w) =
            entra-Conserva k1 k' k.suspended_ready k.new refl refl z
              (otros-Ubicados k k1 refl refl refl refl refl refl refl refl u) in
          (v, omega (arith, w, ==→ne k.grado_multiprogramacion_libre 0 y))
    ]
  ]

  en_cpu-some :
      (k : Kernel F) (i : ℕ) (reloj : Reloj) (c : Carpincho F)
      → encontrar i k.lista_carpinchos ≡ some c
      → en_cpu i reloj k ≡ sigue (ejecutar i c reloj k)
  unfolding en_cpu encontrar_estructura_segun_id
  en_cpu-some k i reloj c x = rw (x, en_cpu)

  con_cpu-Conserva :
      (k k' : Kernel F) (i : ℕ) (reloj : Reloj) (libres : List ℕ)
      → 0 < cuenta i k.ready
      → (tomar_cpu i k libres >>= en_cpu i reloj) ≡ sigue k'
      → Conserva k k'
  con_cpu-Conserva k k' i reloj [] m h u = absurd (ground arith)
  con_cpu-Conserva k k' i reloj (cpu ∷ libres) m h u =
      let (c, x, y) = de_la_cola k i ready u m in
      let k1 : Kernel F = con_cpu_tomada k u i cpu libres in
      let u1 : Ubicados k1 = con_cpu-Ubicados k u i cpu libres in
      let x1 : encontrar i k1.lista_carpinchos ≡ some (con_cpu cpu c) =
        encontrar-modificar i i (con_cpu cpu) k.lista_carpinchos (λ c. refl) ∙ rw (==_refl i, x) in
      let z : sigue (ejecutar i (con_cpu cpu c) reloj k1) ≡ sigue k' =
        sym (en_cpu-some k1 i reloj (con_cpu cpu c) x1) ∙ h in
      subst (λ k'. Ubicados k' × (grado k' ≡ grado k)) (sigue-injective _ _ z)
        (
          ejecutar-Ubicados k1 u1 i (con_cpu cpu c) reloj x1 y,
          grado-ejecutar k1 u1 i (con_cpu cpu c) x1 reloj y,
        )

  despachar-Conserva :
      (k k' : Kernel F) (reloj : Reloj) (o : Option ℕ)
      → ((i : ℕ) → o ≡ some i → 0 < cuenta i k.ready)
      → despachar reloj (k, o) ≡ sigue k'
      → Conserva k k'
  unfolding despachar
  despachar-Conserva k k' reloj none m h u = absurd (ground arith)
  despachar-Conserva k k' reloj (some i) m h u =
      con_cpu-Conserva k k' i reloj k.cpu_libres (m i refl) h u

  -- A round of the short-term scheduler moves a ready carpincho to a CPU.
  pub ready_a_exec-Conserva :
      (elegir : Kernel F → Kernel F × Option ℕ) (reloj : Reloj) (k k' : Kernel F)
      → Elige elegir
      → ready_a_exec elegir reloj k ≡ sigue k'
      → Conserva k k'
  unfolding ready_a_exec
  ready_a_exec-Conserva elegir reloj k k' e h u =
      elim (Bool-cases (k.cola_ready_con_elementos == 0)) [
        | inl x ↦ absurd (ground arith)
        | inr x ↦ elim (Bool-cases (k.grado_multiprocesamiento_libre == 0)) [
          | inl y ↦ absurd (ground arith)
          | inr y ↦
              let k1 : Kernel F = record k {
                cola_ready_con_elementos = k.cola_ready_con_elementos - 1;
                grado_multiprocesamiento_libre = k.grado_multiprocesamiento_libre - 1;
              } in
              let z : despachar reloj (elegir k1) ≡ sigue k' = rw (x, y) at h in
              let u1 = otros-Ubicados k k1 refl refl refl refl refl refl refl refl u in
              let (v, w) = e.conserva k1 u1 in
              let (v', w') =
                despachar-Conserva (elegir k1).0 k' reloj (elegir k1).1 (e.de_ready k1 u1) z v in
              (v', w' ∙ w)
        ]
      ]

  -- The cases of an operation that looks its carpincho up.
  segun_id :
      (P : Kernel F → Type 0) (f : Carpincho F → Kernel F) (k' : Kernel F)
      (o : Option (Carpincho F)) (c : Carpincho F)
      → o ≡ some c
      → elim o [ none ↦ falla | some c ↦ sigue (f c) ] ≡ sigue k'
      → P (f c)
      → P k'
  segun_id P f k' o c x h p =
      subst P
        (sigue-injective _ _
          (subst (λ o. elim o [ none ↦ falla | some c ↦ sigue (f c) ] ≡ sigue k') x h))
        p

  pub exec_a_block-Conserva :
      (i : ℕ) (c : Carpincho F) (reloj : Reloj) (k k' : Kernel F)
      → encontrar i k.lista_carpinchos ≡ some c
      → c.estado ≡ exec
      → exec_a_block i reloj k ≡ sigue k'
      → Conserva k k'
  unfolding exec_a_block encontrar_estructura_segun_id
  exec_a_block-Conserva i c reloj k k' x y h u =
      segun_id (λ k'. Ubicados k' × (grado k' ≡ grado k)) (λ c. bloquear i c reloj k) k'
        (encontrar i k.lista_carpinchos) c x h
        (bloquear-Ubicados k u i c reloj x y, grado-bloquear k u i c x reloj y)

  pub exec_a_exit-Conserva :
      (i fd : ℕ) (c : Carpincho F) (k k' : Kernel F)
      → encontrar i k.lista_carpinchos ≡ some c
      → c.estado ≡ exec
      → exec_a_exit i fd k ≡ sigue k'
      → Conserva k k'
  unfolding exec_a_exit encontrar_estructura_segun_id
  exec_a_exit-Conserva i fd c k k' x y h u =
      segun_id (λ k'. Ubicados k' × (grado k' ≡ grado k)) (λ c. terminar i c fd k) k'
        (encontrar i k.lista_carpinchos) c x h
        (terminar-Ubicados k u i c fd x y, grado-terminar k u i c x fd y)

  suspender_ultimo-Conserva : (k k' : Kernel F) → suspender_ultimo k ≡ sigue k' → Conserva k k'
  unfolding suspender_ultimo encontrar_estructura_segun_id
  suspender_ultimo-Conserva k k' h u = elim (Option-cases (separar_ultimo k.blocked)) [
    | inl e ↦ absurd (ground arith)
    | inr ((resto, i), e) ↦
        let (c, x, y) =
          de_la_cola k i blocked u
            (omega (arith, (cuenta-separar k.blocked resto i i e).0, uno i)) in
        let z : sigue (suspender_a i c resto k) ≡ sigue k' =
          sym (rw (e, suspender_ultimo, x)) ∙ h in
        subst (λ k'. Ubicados k' × (grado k' ≡ grado k)) (sigue-injective _ _ z)
          (suspender_a-Ubicados k u i c resto x y e, grado-suspender_a k i c resto e)
  ]
    where
      uno : (i : ℕ) → ◌≡◌ {A = ℕ} (if i == i then 1 else 0) 1
      uno i = ground arith

  -- A round of the medium-term scheduler suspends a blocked carpincho, or nobody.
  pub suspender_ronda-Conserva : (k k' : Kernel F) → suspender_ronda k ≡ sigue k' → Conserva k k'
  unfolding suspender_ronda
  suspender_ronda-Conserva k k' h u =
      let k1 : Kernel F = record k { procesamiento_lleno = k.procesamiento_lleno - 1 } in
      let u1 = otros-Ubicados k k1 refl refl refl refl refl refl refl refl u in
      elim (Bool-cases (k.procesamiento_lleno == 0)) [
        | inl x ↦ absurd (ground arith)
        | inr x ↦ elim (Bool-cases (condiciones_para_suspender k1)) [
          | inl y ↦
              let z : suspender_ultimo k1 ≡ sigue k' = rw (x, y) at h in
              suspender_ultimo-Conserva k1 k' z u1
          | inr y ↦
              let z : sigue k1 ≡ sigue k' = rw (x, y) at h in
              subst (λ k'. Ubicados k' × (grado k' ≡ grado k)) (sigue-injective _ _ z) (u1, refl)
        ]
      ]

  -- A step of one of the scheduling threads, or of the thread of a CPU, or the part of a request
  -- that moves a carpincho.
  pub data Evento (elegir : Kernel F → Kernel F × Option ℕ) (k k' : Kernel F) : Type 0 where
    entra : entrantes_a_ready k ≡ sigue k' → Evento elegir k k'
    despacha : (reloj : Reloj) → ready_a_exec elegir reloj k ≡ sigue k' → Evento elegir k k'
    suspende : suspender_ronda k ≡ sigue k' → Evento elegir k k'
    bloquea :
        (i : ℕ) (c : Carpincho F) (reloj : Reloj)
        → encontrar i k.lista_carpinchos ≡ some c
        → c.estado ≡ exec
        → exec_a_block i reloj k ≡ sigue k'
        → Evento elegir k k'
    termina :
        (i fd : ℕ) (c : Carpincho F)
        → encontrar i k.lista_carpinchos ≡ some c
        → c.estado ≡ exec
        → exec_a_exit i fd k ≡ sigue k'
        → Evento elegir k k'
    desbloquea :
        (i : ℕ) (c : Carpincho F)
        → encontrar i k.lista_carpinchos ≡ some c
        → c.estado ≡ blocked
        → k' ≡ block_a_ready i k
        → Evento elegir k k'
    reanuda :
        (i : ℕ) (c : Carpincho F)
        → encontrar i k.lista_carpinchos ≡ some c
        → c.estado ≡ suspended_blocked
        → k' ≡ suspended_blocked_a_suspended_ready i k
        → Evento elegir k k'
    cpu_toma : (cpu : ℕ) → ejecuta_toma cpu k ≡ sigue k' → Evento elegir k k'
    cpu_libera : (cpu : ℕ) → ejecuta_libera cpu k ≡ sigue k' → Evento elegir k k'

  ejecuta_toma-Conserva :
      (cpu : ℕ) (k k' : Kernel F) → ejecuta_toma cpu k ≡ sigue k' → Conserva k k'
  unfolding ejecuta_toma
  ejecuta_toma-Conserva cpu k k' h u = elim (Bool-cases (k.usar_cpu cpu == 0)) [
    | inl x ↦ absurd (ground arith)
    | inr x ↦ elim (Bool-cases (k.cpu_libre cpu == 0)) [
      | inl y ↦ absurd (ground arith)
      | inr y ↦
          subst (λ k'. Ubicados k' × (grado k' ≡ grado k)) (sigue-injective _ _ (rw (x, y) at h))
            (otros-Ubicados k _ refl refl refl refl refl refl refl refl u, refl)
    ]
  ]

  ejecuta_libera-Conserva :
      (cpu : ℕ) (k k' : Kernel F) → ejecuta_libera cpu k ≡ sigue k' → Conserva k k'
  unfolding ejecuta_libera
  ejecuta_libera-Conserva cpu k k' h u = elim (Bool-cases (k.liberar_cpu cpu == 0)) [
    | inl x ↦ absurd (ground arith)
    | inr x ↦
        subst (λ k'. Ubicados k' × (grado k' ≡ grado k)) (sigue-injective _ _ (rw x at h))
          (otros-Ubicados k _ refl refl refl refl refl refl refl refl u, refl)
  ]

  module _ (elegir : Kernel F → Kernel F × Option ℕ) (e : Elige elegir) where
    pub Evento-Conserva : {k k' : Kernel F} → Evento elegir k k' → Conserva k k'
    Evento-Conserva {k} {k'} (entra h) u = entrantes_a_ready-Conserva k k' h u
    Evento-Conserva {k} {k'} (despacha reloj h) u = ready_a_exec-Conserva elegir reloj k k' e h u
    Evento-Conserva {k} {k'} (suspende h) u = suspender_ronda-Conserva k k' h u
    Evento-Conserva {k} {k'} (bloquea i c reloj x y h) u =
        exec_a_block-Conserva i c reloj k k' x y h u
    Evento-Conserva {k} {k'} (termina i fd c x y h) u = exec_a_exit-Conserva i fd c k k' x y h u
    Evento-Conserva {k} {k'} (desbloquea i c x y h) u =
        subst (λ k'. Ubicados k' × (grado k' ≡ grado k)) (sym h)
          (block_a_ready-Ubicados k u i c x y, grado-block_a_ready k u i c x y)
    Evento-Conserva {k} {k'} (reanuda i c x y h) u =
        subst (λ k'. Ubicados k' × (grado k' ≡ grado k)) (sym h)
          (suspended_blocked_a_suspended_ready-Ubicados k u i c x y, grado-suspended_ready k i)
    Evento-Conserva {k} {k'} (cpu_toma cpu h) u = ejecuta_toma-Conserva cpu k k' h u
    Evento-Conserva {k} {k'} (cpu_libera cpu h) u = ejecuta_libera-Conserva cpu k k' h u

  -- Any number of steps, in any order.
  pub data Historia (elegir : Kernel F → Kernel F × Option ℕ) (k : Kernel F)
      : Kernel F → Type 0 where
    inicio : Historia elegir k k
    luego :
        {k' k'' : Kernel F} → Historia elegir k k' → Evento elegir k' k'' → Historia elegir k k''

  -- With a choice of the next carpincho that keeps the queues and takes from the ready one, from a
  -- kernel where every carpincho is in the queue of its state: after any history of steps every
  -- carpincho is in the queue of its state and in no other, and the free places and the carpinchos
  -- that hold one (ready, executing or blocked) add up to what they did.
  pub Historia-Conserva :
      (elegir : Kernel F → Kernel F × Option ℕ) {k k' : Kernel F}
      → Elige elegir
      → Historia elegir k k'
      → Ubicados k
      → Ubicados k' × (grado k' ≡ grado k)
  Historia-Conserva elegir e inicio u = (u, refl)
  Historia-Conserva elegir e (luego h x) u =
      let (v, w) = Historia-Conserva elegir e h u in
      let (v', w') = Evento-Conserva elegir e x v in (v', w' ∙ w)
