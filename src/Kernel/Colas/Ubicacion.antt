-- ===== src/Kernel/Colas/Ubicacion.antt =====
-- Where each carpincho of kernel/src/main.c is: the queue of its state, once, and no other.
use mathlib.Core.Option
use tp_sistemas_operativos.Base.{
  ℕ, ◌+◌, ◌-◌, ◌≤◌, ◌<◌, ◌≡◌, refl, sym, ap, ◌∙◌, List, [], ◌∷◌, ◌++◌, Option, none, some, ◌==◌,
  if◌then◌else◌, arith, length, map, inl, inr, Option-cases,
}
use tp_sistemas_operativos.Kernel.Estado.{
  Estado, new, ready, exec, blocked, suspended_blocked, suspended_ready, mismo_estado, Carpincho,
  Kernel, quitar, encontrar, modificar, eliminar,
}
use tp_sistemas_operativos.Kernel.Colas.{separar_ultimo}

-- How often a number is in a list.
abbrev pub cuenta : ℕ → List ℕ → ℕ
cuenta i [] = 0
cuenta i (j ∷ q) = (if j == i then 1 else 0) + cuenta i q

pub cuenta-append :
    (i : ℕ) (q : List ℕ) (j : ℕ) → cuenta i (q ++ (j ∷ [])) ≡ cuenta i q + (if j == i then 1 else 0)
cuenta-append i [] j = omega arith
cuenta-append i (x ∷ q) j = omega (arith, cuenta-append i q j)

pub cuenta-quitar :
    (i j : ℕ) (q : List ℕ) → cuenta i (quitar j q) ≡ (if j == i then cuenta i q - 1 else cuenta i q)
unfolding quitar
cuenta-quitar i j [] = ground arith
cuenta-quitar i j (x ∷ q) = ground (arith, cuenta-quitar i j q)

pub length-quitar : (j : ℕ) (q : List ℕ) → 0 < cuenta j q → length (quitar j q) + 1 ≡ length q
unfolding quitar
length-quitar j [] h = elim h [ ]
length-quitar j (x ∷ q) h = ground (arith, length-quitar j q)

separar-none : (q : List ℕ) → separar_ultimo q ≡ none → q ≡ []
unfolding separar_ultimo
separar-none [] h = refl
separar-none (x ∷ q) h = ground arith

pub cuenta-separar :
    (q r : List ℕ) (i j : ℕ)
    → separar_ultimo q ≡ some (r, i)
    → (cuenta j q ≡ cuenta j r + (if i == j then 1 else 0)) × (length q ≡ length r + 1)
unfolding separar_ultimo
cuenta-separar [] r i j h = cc
cuenta-separar (x ∷ q) r i j h = elim (Option-cases (separar_ultimo q)) [
  | inl e ↦ ground (arith, separar-none q e)
  | inr ((s, l), e) ↦ ground (arith, cuenta-separar q s l j e)
]

module _ {F : Type 0} where
  abbrev pub ids : List (Carpincho F) → List ℕ
  ids = map (λ c. c.id)

  pub encontrar-modificar :
      (i j : ℕ) (f : Carpincho F → Carpincho F) (cs : List (Carpincho F))
      → ((c : Carpincho F) → (f c).id ≡ c.id)
      → encontrar i (modificar j f cs)
        ≡ (if j == i then Option.map f (encontrar i cs) else encontrar i cs)
  unfolding encontrar modificar
  encontrar-modificar i j f [] h = ground arith
  encontrar-modificar i j f (c ∷ cs) h = ground (arith, h c, encontrar-modificar i j f cs h)

  pub ids-modificar :
      (j : ℕ) (f : Carpincho F → Carpincho F) (cs : List (Carpincho F))
      → ((c : Carpincho F) → (f c).id ≡ c.id)
      → ids (modificar j f cs) ≡ ids cs
  unfolding modificar
  ids-modificar j f [] h = refl
  ids-modificar j f (c ∷ cs) h = ground (arith, h c, ids-modificar j f cs h)

  pub encontrar_ausente :
      (i : ℕ) (cs : List (Carpincho F)) → cuenta i (ids cs) ≡ 0 → encontrar i cs ≡ none
  unfolding encontrar
  encontrar_ausente i [] h = refl
  encontrar_ausente i (c ∷ cs) h = ground (arith, encontrar_ausente i cs)

  pub encontrar-eliminar :
      (i j : ℕ) (cs : List (Carpincho F))
      → cuenta i (ids cs) ≤ 1
      → encontrar i (eliminar j cs) ≡ (if j == i then none else encontrar i cs)
  unfolding encontrar eliminar
  encontrar-eliminar i j [] h = ground arith
  encontrar-eliminar i j (c ∷ cs) h =
      ground (arith, encontrar-eliminar i j cs, encontrar_ausente i cs)

  pub ids-eliminar : (j : ℕ) (cs : List (Carpincho F)) → ids (eliminar j cs) ≡ quitar j (ids cs)
  unfolding eliminar quitar
  ids-eliminar j [] = refl
  ids-eliminar j (c ∷ cs) = ground (arith, ids-eliminar j cs)

  pub encontrar-id :
      (i : ℕ) (cs : List (Carpincho F)) (c : Carpincho F) → encontrar i cs ≡ some c → c.id ≡ i
  unfolding encontrar
  encontrar-id i [] c h = cc
  encontrar-id i (x ∷ cs) c h = ground (arith, encontrar-id i cs c)

  pub encontrar-append :
      (i : ℕ) (cs : List (Carpincho F)) (c : Carpincho F)
      → encontrar i (cs ++ (c ∷ []))
        ≡ elim (encontrar i cs) [ none ↦ (if c.id == i then some c else none) | some x ↦ some x ]
  unfolding encontrar
  encontrar-append i [] c = ground arith
  encontrar-append i (x ∷ cs) c = ground (arith, encontrar-append i cs c)

  -- The queue of a state.
  abbrev pub cola : Estado → Kernel F → List ℕ
  cola new k = k.new
  cola ready k = k.ready
  cola exec k = k.exec
  cola blocked k = k.blocked
  cola suspended_blocked k = k.suspended_blocked
  cola suspended_ready k = k.suspended_ready

  abbrev pub esperado : Estado → Option (Carpincho F) → ℕ
  esperado e none = 0
  esperado e (some c) = if mismo_estado c.estado e then 1 else 0

  -- Every carpincho of the list is once in the queue of its state and in no other queue; the
  -- queues hold nobody else; ids are not repeated, and those from id_carpincho_global on are free.
  pub record Ubicados (k : Kernel F) : Type 0 where
    pub lugar :
        (i : ℕ) (e : Estado) → cuenta i (cola e k) ≡ esperado e (encontrar i k.lista_carpinchos)
    pub unicos : (i : ℕ) → cuenta i (ids k.lista_carpinchos) ≤ 1
    pub frescos : (i : ℕ) → k.id_carpincho_global ≤ i → cuenta i (ids k.lista_carpinchos) ≡ 0

  module _ (k : Kernel F) (u : Ubicados k) (j : ℕ) where
    -- A carpincho whose state is written keeps the ids as they are.
    pub lugar_nuevo :
        (f : Carpincho F → Carpincho F) (k' : Kernel F)
        → ((c : Carpincho F) → (f c).id ≡ c.id)
        → k'.lista_carpinchos ≡ modificar j f k.lista_carpinchos
        → k'.id_carpincho_global ≡ k.id_carpincho_global
        → ((i : ℕ) (e : Estado)
            → cuenta i (cola e k')
              ≡ esperado e (
                  if j == i
                  then Option.map f (encontrar i k.lista_carpinchos)
                  else encontrar i k.lista_carpinchos))
        → Ubicados k'
    lugar_nuevo f k' h l g x = record {
      lugar = λ i e.
          x i e
          ∙ ap (esperado e)
              (sym (ap (encontrar i) l ∙ encontrar-modificar i j f k.lista_carpinchos h));
      unicos = λ i. rw (l, ids-modificar j f k.lista_carpinchos h) (u.unicos i);
      frescos =
          λ i m. rw (l, ids-modificar j f k.lista_carpinchos h) (u.frescos i (omega (arith, g)));
    }

  -- A write to other parts of the kernel.
  pub otros-Ubicados :
      (k k' : Kernel F)
      → k'.lista_carpinchos ≡ k.lista_carpinchos
      → k'.id_carpincho_global ≡ k.id_carpincho_global
      → k'.new ≡ k.new
      → k'.ready ≡ k.ready
      → k'.exec ≡ k.exec
      → k'.blocked ≡ k.blocked
      → k'.suspended_blocked ≡ k.suspended_blocked
      → k'.suspended_ready ≡ k.suspended_ready
      → Ubicados k
      → Ubicados k'
  otros-Ubicados k k' l g n r x b sb sr u = record {
    lugar = λ i e.
        ap (cuenta i) (iguales e) ∙ u.lugar i e ∙ ap (λ l. esperado e (encontrar i l)) (sym l);
    unicos = λ i. rw l (u.unicos i);
    frescos = λ i m. rw l (u.frescos i (omega (arith, g)));
  }
    where
      iguales : (e : Estado) → cola e k' ≡ cola e k
      iguales new = n
      iguales ready = r
      iguales exec = x
      iguales blocked = b
      iguales suspended_blocked = sb
      iguales suspended_ready = sr
