-- ===== src/Kernel/Colas/Movimientos.antt =====
-- Every move of kernel/src/main.c between queues keeps each carpincho in the queue of its state.
use mathlib.Core.Option
use tp_sistemas_operativos.Base.{ℕ, ◌≤◌, ◌≡◌, refl, List, ◌∷◌, some, ◌==◌, if◌then◌else◌, arith}
use tp_sistemas_operativos.Kernel.Estado.{
  incrementar, Estado, new, ready, exec, blocked, suspended_blocked, suspended_ready, Carpincho,
  Kernel, quitar, encontrar, modificar, eliminar, calculo_rafaga_anterior, Reloj,
}
use tp_sistemas_operativos.Kernel.Colas.{
  con_estado, detener, arrancar, con_cpu, pasar_a_ready, bloquear, terminar, ejecutar,
  block_a_ready, suspended_blocked_a_suspended_ready, suspender_a, separar_ultimo,
}
use tp_sistemas_operativos.Kernel.Colas.Ubicacion.{
  cuenta, cuenta-append, cuenta-quitar, cuenta-separar, ids, encontrar-eliminar, ids-eliminar, cola,
  esperado, Ubicados, lugar_nuevo,
}

module _ {F : Type 0} (k : Kernel F) (u : Ubicados k) (j : ℕ) where
  -- What `lugar_nuevo` asks for.
  abbrev En : (Carpincho F → Carpincho F) → Kernel F → Type 0
  En f k' =
      (i : ℕ) (e : Estado)
      → cuenta i (cola e k')
        ≡ esperado e (
            if j == i
            then Option.map f (encontrar i k.lista_carpinchos)
            else encontrar i k.lista_carpinchos)

  pub pasar_a_ready-new-Ubicados :
      (c : Carpincho F) (q : List ℕ)
      → encontrar j k.lista_carpinchos ≡ some c
      → c.estado ≡ new
      → k.new ≡ j ∷ q
      → Ubicados (pasar_a_ready j (record k { new = q }))
  unfolding pasar_a_ready
  pasar_a_ready-new-Ubicados c q h0 h1 h2 =
      lugar_nuevo k u j (con_estado ready) (pasar_a_ready j (record k { new = q })) (λ c. refl) refl
        refl lugar
    where
      lugar : En (con_estado ready) (pasar_a_ready j (record k { new = q }))
      lugar i new = ground (arith, u.lugar i new, h0, h1, h2)
      lugar i e = ground (arith, u.lugar i e, h0, h1, h2, cuenta-append i k.ready j)

  pub pasar_a_ready-suspended_ready-Ubicados :
      (c : Carpincho F) (q : List ℕ)
      → encontrar j k.lista_carpinchos ≡ some c
      → c.estado ≡ suspended_ready
      → k.suspended_ready ≡ j ∷ q
      → Ubicados (pasar_a_ready j (record k { suspended_ready = q }))
  unfolding pasar_a_ready
  pasar_a_ready-suspended_ready-Ubicados c q h0 h1 h2 =
      lugar_nuevo k u j (con_estado ready) (pasar_a_ready j (record k { suspended_ready = q }))
        (λ c. refl) refl refl lugar
    where
      lugar : En (con_estado ready) (pasar_a_ready j (record k { suspended_ready = q }))
      lugar i new = ground (arith, u.lugar i new, h0, h1, h2)
      lugar i e = ground (arith, u.lugar i e, h0, h1, h2, cuenta-append i k.ready j)

  pub ejecutar-Ubicados :
      (c : Carpincho F) (reloj : Reloj)
      → encontrar j k.lista_carpinchos ≡ some c
      → c.estado ≡ ready
      → Ubicados (ejecutar j c reloj k)
  unfolding ejecutar
  ejecutar-Ubicados c reloj h0 h1 =
      lugar_nuevo k u j (arrancar reloj) (ejecutar j c reloj k) (λ c. refl) refl refl lugar
    where
      lugar : En (arrancar reloj) (ejecutar j c reloj k)
      lugar i new = ground (arith, u.lugar i new, h0, h1)
      lugar i e =
          ground (arith, u.lugar i e, h0, h1, cuenta-append i k.exec j, cuenta-quitar i j k.ready)

  pub bloquear-Ubicados :
      (c : Carpincho F) (reloj : Reloj)
      → encontrar j k.lista_carpinchos ≡ some c
      → c.estado ≡ exec
      → Ubicados (bloquear j c reloj k)
  unfolding bloquear calculo_rafaga_anterior
  bloquear-Ubicados c reloj h0 h1 =
      lugar_nuevo k u j (detener reloj) (bloquear j c reloj k) (λ c. refl) refl refl lugar
    where
      lugar : En (detener reloj) (bloquear j c reloj k)
      lugar i new = ground (arith, u.lugar i new, h0, h1)
      lugar i e =
          ground (arith, u.lugar i e, h0, h1, cuenta-append i k.blocked j, cuenta-quitar i j k.exec)

  pub block_a_ready-Ubicados :
      (c : Carpincho F)
      → encontrar j k.lista_carpinchos ≡ some c
      → c.estado ≡ blocked
      → Ubicados (block_a_ready j k)
  unfolding block_a_ready
  block_a_ready-Ubicados c h0 h1 =
      lugar_nuevo k u j (con_estado ready) (block_a_ready j k) (λ c. refl) refl refl lugar
    where
      lugar : En (con_estado ready) (block_a_ready j k)
      lugar i new = ground (arith, u.lugar i new, h0, h1)
      lugar i e =
          ground
            (arith, u.lugar i e, h0, h1, cuenta-append i k.ready j, cuenta-quitar i j k.blocked)

  pub suspended_blocked_a_suspended_ready-Ubicados :
      (c : Carpincho F)
      → encontrar j k.lista_carpinchos ≡ some c
      → c.estado ≡ suspended_blocked
      → Ubicados (suspended_blocked_a_suspended_ready j k)
  unfolding suspended_blocked_a_suspended_ready
  suspended_blocked_a_suspended_ready-Ubicados c h0 h1 =
      lugar_nuevo k u j (con_estado suspended_ready) (suspended_blocked_a_suspended_ready j k)
        (λ c. refl) refl refl lugar
    where
      lugar : En (con_estado suspended_ready) (suspended_blocked_a_suspended_ready j k)
      lugar i new = ground (arith, u.lugar i new, h0, h1)
      lugar i e = ground (
        arith,
        u.lugar i e,
        h0,
        h1,
        cuenta-append i k.suspended_ready j,
        cuenta-quitar i j k.suspended_blocked,
      )

  pub suspender_a-Ubicados :
      (c : Carpincho F) (resto : List ℕ)
      → encontrar j k.lista_carpinchos ≡ some c
      → c.estado ≡ blocked
      → separar_ultimo k.blocked ≡ some (resto, j)
      → Ubicados (suspender_a j c resto k)
  unfolding suspender_a
  suspender_a-Ubicados c resto h0 h1 h2 =
      lugar_nuevo k u j (con_estado suspended_blocked) (suspender_a j c resto k) (λ c. refl) refl
        refl lugar
    where
      lugar : En (con_estado suspended_blocked) (suspender_a j c resto k)
      lugar i new = ground (arith, u.lugar i new, h0, h1, h2)
      lugar i e = ground (
        arith,
        u.lugar i e,
        h0,
        h1,
        h2,
        cuenta-append i k.suspended_blocked j,
        cuenta-separar k.blocked resto j i h2,
      )

  -- The carpincho has taken a CPU.
  abbrev pub con_cpu_tomada : ℕ → List ℕ → Kernel F
  con_cpu_tomada cpu libres = record k {
    cpu_libres = libres;
    lista_carpinchos = modificar j (con_cpu cpu) k.lista_carpinchos;
    usar_cpu = incrementar cpu k.usar_cpu;
  }

  pub con_cpu-Ubicados : (cpu : ℕ) (libres : List ℕ) → Ubicados (con_cpu_tomada cpu libres)
  con_cpu-Ubicados cpu libres =
      lugar_nuevo k u j (con_cpu cpu) (con_cpu_tomada cpu libres) (λ c. refl) refl refl lugar
    where
      lugar : En (con_cpu cpu) (con_cpu_tomada cpu libres)
      lugar i new = ground (arith, u.lugar i new)
      lugar i e = ground (arith, u.lugar i e)

  -- The carpincho that ends leaves its queue and the list.
  pub terminar-Ubicados :
      (c : Carpincho F) (fd : ℕ)
      → encontrar j k.lista_carpinchos ≡ some c
      → c.estado ≡ exec
      → Ubicados (terminar j c fd k)
  unfolding terminar
  terminar-Ubicados c fd h x = record {
    lugar = lugar;
    unicos = λ i. rw (ids-eliminar j k.lista_carpinchos) (omega (arith, menos i, u.unicos i));
    frescos = λ i m. rw (ids-eliminar j k.lista_carpinchos) (omega (arith, menos i, u.frescos i m));
  }
    where
      menos :
          (i : ℕ) → cuenta i (quitar j (ids k.lista_carpinchos)) ≤ cuenta i (ids k.lista_carpinchos)
      menos i = ground (arith, cuenta-quitar i j (ids k.lista_carpinchos))

      lugar :
          (i : ℕ) (e : Estado)
          → cuenta i (cola e (terminar j c fd k))
            ≡ esperado e (encontrar i (eliminar j k.lista_carpinchos))
      lugar i new =
          ground
            (arith, u.lugar i new, h, x, encontrar-eliminar i j k.lista_carpinchos (u.unicos i))
      lugar i e = ground (
        arith,
        u.lugar i e,
        h,
        x,
        cuenta-quitar i j k.exec,
        encontrar-eliminar i j k.lista_carpinchos (u.unicos i),
      )
