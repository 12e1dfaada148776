-- ===== src/Swamp/Guardar/Reservar.antt =====
-- reservar_bloque of Swamp/Guardar.antt (the `for` loops of guardar_pagina_asignacion_fija in
-- swamp/src/swap.c): the block of frames that a new process gets.
use mathlib.Core.List.{map-append, append-nil, append_assoc}
use mathlib.Core.Option.{some-injective}
use tp_sistemas_operativos.Base.{
  ℕ, zero, suc, ◌+◌, ◌-◌, ◌≤◌, ◌<◌, ◌≡◌, ◌≢◌, refl, sym, ap, subst, ◌∙◌, List, [], ◌∷◌, ◌++◌, arith,
  length, set, get_elem?, some, replicate, write_at, ◌⊎◌, inl, inr, get_elem?-lt, length-append,
  lt→ltb, le→ltb, length-replicate, length-set, get_elem?-set_ne, dec_lt,
}
use tp_sistemas_operativos.Swamp.Tabla.{
  Fila, libre, tabla_paginas_size, get_first_free_frame_number, get_frame_number,
}
use tp_sistemas_operativos.Swamp.Tabla.Busqueda.{
  Ausente, get_frame_number-set_detras, get_frame_number-set_ajeno, get_frame_number-append,
  get_frame_number-Ausente, get_frame_number-append_nuevo, get_frame_number-set_libre,
  get_elem?-get_frame_number, get_first_free_frame_number-le, primer_libre_final,
}
use tp_sistemas_operativos.Swamp.Tabla.Bloques.{
  procesos, bloques, primer_libre, length-procesos, get_first_free-primer_libre, get_elem?-procesos,
  bloque_libre, ocupar, write_at-bloques,
}
use tp_sistemas_operativos.Swamp.Guardar.{fila, reservar_desde, reservar_bloque}

procesos-set :
    (t : List Fila) (i : ℕ) (x : Fila) → procesos (set t i x) ≡ set (procesos t) i x.proceso
procesos-set [] i x = refl
procesos-set (f ∷ t) zero x = refl
procesos-set (f ∷ t) (suc i) x = ap (λ l. f.proceso ∷ l) (procesos-set t i x)

procesos-replicate : (n p : ℕ) → procesos (replicate n (fila p libre)) ≡ replicate n p
procesos-replicate zero p = refl
procesos-replicate (suc n) p = ap (λ l. p ∷ l) (procesos-replicate n p)

write_at-set :
    (l : List ℕ) (o p : ℕ) (src : List ℕ)
    → write_at (set l o p) (suc o) src ≡ write_at l o (p ∷ src)
write_at-set [] zero p src = refl
write_at-set [] (suc o) p src = refl
write_at-set (x ∷ l) zero p src = refl
write_at-set (x ∷ l) (suc o) p src = ap (λ l. x ∷ l) (write_at-set l o p src)

length-reservar_desde : (n o p : ℕ) (t : List Fila) → length (reservar_desde n o p t) ≡ length t
unfolding reservar_desde
length-reservar_desde zero o p t = refl
length-reservar_desde (suc n) o p t =
    length-reservar_desde n (suc o) p (set t (suc o) (fila p libre))
    ∙ length-set t (suc o) (fila p libre)

write_at-nada : (l : List ℕ) (o : ℕ) → write_at l o [] ≡ l
write_at-nada [] zero = refl
write_at-nada [] (suc o) = refl
write_at-nada (x ∷ l) zero = refl
write_at-nada (x ∷ l) (suc o) = ap (λ l. x ∷ l) (write_at-nada l o)

procesos-reservar_desde :
    (n o p : ℕ) (t : List Fila)
    → procesos (reservar_desde n o p t) ≡ write_at (procesos t) (suc o) (replicate n p)
unfolding reservar_desde
procesos-reservar_desde zero o p t = sym (write_at-nada (procesos t) (suc o))
procesos-reservar_desde (suc n) o p t =
    procesos-reservar_desde n (suc o) p (set t (suc o) (fila p libre))
    ∙ rw (procesos-set t (suc o) (fila p libre))
        (write_at-set (procesos t) (suc o) p (replicate n p))

-- The page found in front of the rows that are reserved stays where it is.
get_frame_number-reservar_desde :
    (n o p : ℕ) (t : List Fila) (q k : ℕ)
    → get_frame_number t q k ≤ o
    → get_frame_number (reservar_desde n o p t) q k ≡ get_frame_number t q k
unfolding reservar_desde
get_frame_number-reservar_desde zero o p t q k h = refl
get_frame_number-reservar_desde (suc n) o p t q k h =
    let e : get_frame_number (set t (suc o) (fila p libre)) q k ≡ get_frame_number t q k =
      get_frame_number-set_detras t (suc o) (fila p libre) q k (omega arith) in
    get_frame_number-reservar_desde n (suc o) p (set t (suc o) (fila p libre)) q k
      (omega (arith, e))
    ∙ e

-- The rows that are reserved were freed, so no other process has its rows there.
get_frame_number-reservar_desde_ajeno :
    (n o p : ℕ) (t : List Fila) (q k : ℕ)
    → p ≢ q
    → libre ≢ q
    → ((r : ℕ) → r < n → get_elem? (procesos t) (suc o + r) ≡ some libre)
    → get_frame_number (reservar_desde n o p t) q k ≡ get_frame_number t q k
unfolding reservar_desde
get_frame_number-reservar_desde_ajeno zero o p t q k a b h = refl
get_frame_number-reservar_desde_ajeno (suc n) o p t q k a b h =
    let x : suc o + 0 ≡ suc o = omega arith in
    let (f, en, es) =
      get_elem?-procesos t (suc o) libre
        (subst (λ i. get_elem? (procesos t) i ≡ some libre) x (h 0 (omega arith))) in
    get_frame_number-reservar_desde_ajeno n (suc o) p (set t (suc o) (fila p libre)) q k a b (λ r l.
      let y : suc o + suc r ≡ suc (suc o) + r = omega arith in
      rw (procesos-set t (suc o) (fila p libre)) (
        get_elem?-set_ne (procesos t) (suc o) (suc (suc o) + r) p (omega arith)
        ∙ subst (λ i. get_elem? (procesos t) i ≡ some libre) y (h (suc r) (omega arith))))
    ∙ get_frame_number-set_ajeno t (suc o) f (fila p libre) q k en (rw es b) a

-- What the new table is to the process, to the others, and to its file.
pub record Bloque (k p g : ℕ) (t : List Fila) (o : ℕ) (t' : List Fila) : Type 0 where
  pub hallada : get_frame_number t' p g ≡ o
  pub dentro : o < length t'
  pub crece : length t ≤ length t'
  pub largo : length t' ≤ tabla_paginas_size t + suc (suc k) ⊎ (length t' ≡ length t)
  pub ajenas :
      (q j : ℕ)
      → p ≢ q
      → libre ≢ q
      → get_frame_number t q j < length t
      → (get_frame_number t' q j ≡ get_frame_number t q j) × (o ≢ get_frame_number t q j)
  pub duenos : (ds : List ℕ) × (procesos t' ≡ bloques (suc (suc k)) ds)

bloques-append :
    (k p : ℕ) (ds : List ℕ) → bloques k ds ++ replicate k p ≡ bloques k (ds ++ (p ∷ []))
bloques-append k p [] = sym (append-nil (replicate k p))
bloques-append k p (d ∷ ds) =
    append_assoc (replicate k d) (bloques k ds) (replicate k p)
    ∙ ap (λ l. replicate k d ++ l) (bloques-append k p ds)

module _ (k p g : ℕ) (t : List Fila) (ds : List ℕ) (a : Ausente p t)
    (b : procesos t ≡ bloques (suc (suc k)) ds) where
  -- The first free frame.
  primero : ℕ
  primero = get_first_free_frame_number t p

  libres :
      primero < length t
      → (r : ℕ) → r < suc (suc k)
      → get_elem? (procesos t) (primero + r) ≡ some libre
  unfolding primero
  libres h r l =
      let e : get_first_free_frame_number t p ≡ primer_libre (bloques (suc (suc k)) ds) =
        get_first_free-primer_libre t p a ∙ ap primer_libre b in
      rw b (
        bloque_libre (suc k) ds r (get_first_free_frame_number t p + r)
          (omega (arith, e, h, length-procesos t, ap length b)) l (ap (λ i. i + r) e))

  nueva : List Fila
  nueva = set t primero (fila p g)

  ocupado : primero < length t → Bloque k p g t primero (reservar_desde (suc k) primero p nueva)
  unfolding primero nueva
  ocupado h = record {
    hallada = get_frame_number-reservar_desde (suc k) primero p nueva p g (omega (arith, ve)) ∙ ve;
    dentro = omega (arith, h, igual);
    crece = omega (arith, igual);
    largo = inr igual;
    ajenas = λ q j pq lq en. (
      get_frame_number-reservar_desde_ajeno (suc k) primero p nueva q j pq lq (λ r l.
            let y : primero + suc r ≡ suc primero + r = omega arith in
            rw (procesos-set t primero (fila p g)) (
              get_elem?-set_ne (procesos t) primero (suc primero + r) p (omega arith)
              ∙ subst (λ i. get_elem? (procesos t) i ≡ some libre) y
                  (libres h (suc r) (omega arith))))
          ∙ get_frame_number-set_ajeno t primero f (fila p g) q j en_f (rw es_f lq) pq,
      λ x. lq (otra_fila q j en x),
    );
    duenos = (
      ocupar p ds,
      procesos-reservar_desde (suc k) primero p nueva
          ∙ rw (procesos-set t primero (fila p g)) (
              write_at-set (procesos t) primero p (replicate (suc k) p)
              ∙ rw (get_first_free-primer_libre t p a, b) (write_at-bloques (suc k) p ds)),
    );
  }
    where
      ve : get_frame_number nueva p g ≡ primero
      ve = get_frame_number-set_libre t p g a h

      igual : length (reservar_desde (suc k) primero p nueva) ≡ length t
      igual = length-reservar_desde (suc k) primero p nueva ∙ length-set t primero (fila p g)

      primera : (f : Fila) × (get_elem? t primero ≡ some f) × (f.proceso ≡ libre)
      primera =
          let x : primero + 0 ≡ primero = omega arith in
          get_elem?-procesos t primero libre
            (subst (λ i. get_elem? (procesos t) i ≡ some libre) x (libres h 0 (omega arith)))

      f : Fila
      f = primera.0

      en_f : get_elem? t primero ≡ some f
      en_f = primera.1

      es_f : f.proceso ≡ libre
      es_f = primera.2

      otra_fila :
          (q j : ℕ)
          → get_frame_number t q j < length t
          → primero ≡ get_frame_number t q j
          → libre ≡ q
      otra_fila q j en x =
          let e : some f ≡ some (fila q j) =
            sym en_f ∙ rw x (get_elem?-get_frame_number t q j en) in
          sym es_f ∙ ap (λ (o : Fila). o.proceso) (some-injective _ _ e)

  cola : List Fila
  cola = fila p g ∷ replicate (suc k) (fila p libre)

  agregado : primero ≡ length t → Bloque k p g t primero (t ++ cola)
  unfolding primero cola
  agregado h = record {
    hallada =
        get_frame_number-append_nuevo t (replicate (suc k) (fila p libre)) p g
          (get_frame_number-Ausente t p g a)
        ∙ sym h;
    dentro = omega (arith, total, h);
    crece = omega (arith, total);
    largo = inl (omega (arith, total, primer_libre_final t p a h));
    ajenas = λ q j pq lq en. (get_frame_number-append t cola q j en, omega (arith, h, en));
    duenos = (
      ds ++ (p ∷ []),
      map-append (λ (f : Fila). f.proceso) t cola
          ∙ rw (b, procesos-replicate (suc k) p) (bloques-append (suc (suc k)) p ds),
    );
  }
    where
      total : length (t ++ cola) ≡ length t + suc (suc k)
      total = omega (arith, length-append t cola, length-replicate (suc k) (fila p libre))

  -- The block goes over freed rows or to the end of the table, at the first free frame.
  pub reservar_bloque_lem :
      Bloque k p g t
        (get_first_free_frame_number t p)
        (reservar_bloque (suc (suc k)) (get_first_free_frame_number t p) p g t)
  unfolding reservar_bloque primero nueva cola
  reservar_bloque_lem = elim (dec_lt primero (length t)) [
    | yes h ↦
        let l : primero + suc k < length t = omega (
          arith,
          length-procesos t,
          get_elem?-lt (procesos t) (primero + suc k) libre (libres h (suc k) (omega arith)),
        ) in
        rw (lt→ltb (get_first_free_frame_number t p + 1) (length t) (omega (arith, l)))
          (let e : suc (suc k) - 1 ≡ suc k = omega arith in rw e (ocupado h))
    | no h ↦
        let o : primero ≡ length t = omega (arith, h, get_first_free_frame_number-le t p) in
        rw (le→ltb (get_first_free_frame_number t p + 1) (length t) (omega (arith, o)))
          (let e : suc (suc k) - 1 ≡ suc k = omega arith in rw e (agregado o))
  ]
