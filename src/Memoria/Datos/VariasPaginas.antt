-- ===== src/Memoria/Datos/VariasPaginas.antt =====
-- memoria/src/memory_utils.c: reads and writes over several pages, of a process whose pages are
-- all present.
use mathlib.Core.Option.{some-injective}
use tp_sistemas_operativos.Base.{
  ℕ, zero, suc, ◌+◌, ◌*◌, ◌<◌, ◌≤◌, ◌≡◌, ◌≢◌, refl, sym, ap, subst, ◌∙◌, dec_lt, List, [], ◌∷◌,
  ◌++◌, some, ◌>>=◌, arith, length, get_elem?, get_elem?-some, take, drop, write_at,
  length-write_at, length-take_le, length-drop, read-write_at, drop-write_at_after,
  read-write_at_before,
}
use tp_sistemas_operativos.Swamp.Archivos.Lectura.{mul_le}
use tp_sistemas_operativos.Memoria.Estado.{Memoria, Swamp}
use tp_sistemas_operativos.Memoria.Contrato.{Contrato}
use tp_sistemas_operativos.Memoria.Datos.{editar_desde, leer_desde, editar_pagina, leer_pagina}
use tp_sistemas_operativos.Memoria.Datos.UnaPagina.{Fija, CabenEn, leer_una, editar_una}

-- A write in a frame does not reach a part of another one.
pub write_at-otro :
    (mem : List ℕ) (tam f g pos o n : ℕ) (c : List ℕ)
    → f ≢ g
    → pos + length c ≤ tam
    → o + n ≤ tam
    → take n (drop (g * tam + o) (write_at mem (f * tam + pos) c)) ≡ take n (drop (g * tam + o) mem)
write_at-otro mem tam f g pos o n c ne h k = elim (dec_lt f g) [
  | yes l ↦ ap (take n) (
      drop-write_at_after mem (f * tam + pos) c (g * tam + o)
        (omega (arith, mul_le tam (suc f) g l)))
  | no l ↦
      read-write_at_before mem (f * tam + pos) c (g * tam + o) n
        (omega (arith, mul_le tam (suc g) f (omega arith)))
]

take_nada {ℓ} : {A : Type ℓ} (n : ℕ) → take {A = A} n [] ≡ []
take_nada zero = refl
take_nada (suc n) = refl

pub take-split {ℓ} :
    {A : Type ℓ} (a b : ℕ) (xs : List A) → take a xs ++ take b (drop a xs) ≡ take (a + b) xs
take-split zero b xs = ap (λ n. take n xs) (omega arith)
take-split (suc a) b [] = take_nada b ∙ sym (take_nada (suc a + b))
take-split (suc a) b (x ∷ xs) =
    let e : suc a + b ≡ suc (a + b) = omega arith in
    ap (λ r. x ∷ r) (take-split a b xs) ∙ sym (ap (λ n. take n (x ∷ xs)) e)

-- The bytes from `pos` on in the page of a place are the first ones of `bytes`.
abbrev pub Parte : List ℕ → ℕ → List ℕ → ℕ → ℕ → ℕ → List ℕ → Type 0
Parte mem tam fs i pos n bytes =
    (f : ℕ) → get_elem? fs i ≡ some f → take n (drop (f * tam + pos) mem) ≡ take n bytes

-- `k` whole pages and `u` bytes of the next one.
abbrev pub Contenido : List ℕ → ℕ → List ℕ → ℕ → ℕ → ℕ → List ℕ → Type 0
Contenido mem tam fs i zero u bytes = Parte mem tam fs i 0 u bytes
Contenido mem tam fs i (suc k) u bytes =
    Parte mem tam fs i 0 tam bytes × Contenido mem tam fs (suc i) k u (drop tam bytes)

abbrev pub largo_de : ℕ → ℕ → ℕ → ℕ
largo_de zero tam u = u
largo_de (suc k) tam u = tam + largo_de k tam u

-- No two pages have the same frame.
abbrev pub Distintos : List ℕ → Type 0
Distintos fs = (i j f : ℕ) → get_elem? fs i ≡ some f → get_elem? fs j ≡ some f → i ≡ j

pub CabenEn-write_at :
    (fs : List ℕ) (t : ℕ) (mem : List ℕ) (off : ℕ) (c : List ℕ)
    → CabenEn fs t mem
    → CabenEn fs t (write_at mem off c)
CabenEn-write_at fs t mem off c k i f h = omega (arith, k i f h, length-write_at mem off c)

-- A write in a page is there, and not in the other pages.
pub Parte-write_at :
    (fs : List ℕ) (t : ℕ) (mem : List ℕ) (i f pos n : ℕ) (bytes : List ℕ)
    → CabenEn fs t mem
    → get_elem? fs i ≡ some f
    → pos + n ≤ t
    → n ≤ length bytes
    → Parte (write_at mem (f * t + pos) (take n bytes)) t fs i pos n bytes
Parte-write_at fs t mem i f pos n bytes k h le w g e =
    let z : f ≡ g = some-injective _ _ (sym h ∙ e) in
    subst
      (λ x. take n (drop (x * t + pos) (write_at mem (f * t + pos) (take n bytes))) ≡ take n bytes)
      z
      (subst
        (λ x.
          take x (drop (f * t + pos) (write_at mem (f * t + pos) (take n bytes))) ≡ take n bytes)
        (length-take_le n bytes w)
        (read-write_at mem (f * t + pos) (take n bytes)
          (omega (arith, length-take_le n bytes w, k i f h))))

pub Fuera-write_at :
    (fs : List ℕ) (t : ℕ) (mem : List ℕ) (i f pos n : ℕ) (bytes : List ℕ) (j g o q : ℕ)
    → Distintos fs
    → get_elem? fs i ≡ some f
    → pos + n ≤ t
    → n ≤ length bytes
    → j < i
    → get_elem? fs j ≡ some g
    → o + q ≤ t
    → take q (drop (g * t + o) (write_at mem (f * t + pos) (take n bytes)))
      ≡ take q (drop (g * t + o) mem)
Fuera-write_at fs t mem i f pos n bytes j g o q d h le w l k z =
    write_at-otro mem t f g pos o q (take n bytes)
      (λ e. omega (arith, l, d i j f h (subst (λ x. get_elem? fs j ≡ some x) (sym e) k)))
      (omega (arith, length-take_le n bytes w)) z

module _ {S : Type 0} (red : Swamp S) (vueltas pid : ℕ) (fs : List ℕ) (t : ℕ)
    {T : ℕ → ℕ → S → Type 0} where
  pub leer_desde_lem :
      (mem : List ℕ) (i k u : ℕ) (bytes : List ℕ) (m : Memoria S)
      → Fija T pid fs t mem m
      → CabenEn fs t mem
      → i + k < length fs
      → u ≤ t
      → Contenido mem t fs i k u bytes
      → (m' : Memoria S) × (leer_desde red vueltas pid (suc i) k u m
          ≡ some (take (largo_de k t u) bytes, m'))
        × Fija T pid fs t mem m'
  unfolding leer_desde
  leer_desde_lem mem i zero u bytes m x c l h p =
      let (f, e) = get_elem?-some fs i (omega arith) in
      let (m', q, y) = leer_una red vueltas pid fs t mem i f 0 u m x c e (omega arith) in
      (m', q ∙ ap (λ b. some (b, m')) (p f e), y)
  leer_desde_lem mem i (suc k) u bytes m x c l h p =
      let (f, e) = get_elem?-some fs i (omega arith) in
      let (m1, q, y) = leer_una red vueltas pid fs t mem i f 0 t m x c e (omega arith) in
      let (m2, r, z) = leer_desde_lem mem (suc i) k u (drop t bytes) m1 y c (omega arith) h p.1 in
      let q' : leer_pagina red vueltas pid (suc i) 0 m.tamanio_de_pagina m
          ≡ some (take t bytes, m1) =
        ap (λ n. leer_pagina red vueltas pid (suc i) 0 n m) x.tamanio
        ∙ q
        ∙ ap (λ b. some (b, m1)) (p.0 f e) in
      (
        m2,
        rw (q', leer_desde) (rw r (ap (λ b. some (b, m2)) (take-split t (largo_de k t u) bytes))),
        z,
      )

  pub editar_desde_lem :
      (mem : List ℕ) (i k u : ℕ) (bytes : List ℕ) (m : Memoria S)
      → Contrato red t T
      → Distintos fs
      → Fija T pid fs t mem m
      → CabenEn fs t mem
      → i + k < length fs
      → u ≤ t
      → largo_de k t u ≤ length bytes
      → (mem' : List ℕ) × (m' : Memoria S) × (editar_desde red vueltas pid (suc i) k bytes u m
          ≡ some m')
        × Fija T pid fs t mem' m'
        × CabenEn fs t mem'
        × Contenido mem' t fs i k u bytes
        × ((j g o n : ℕ)
            → j < i
            → get_elem? fs j ≡ some g
            → o + n ≤ t
            → take n (drop (g * t + o) mem') ≡ take n (drop (g * t + o) mem))
  unfolding editar_desde
  editar_desde_lem mem i zero u bytes m resp d x c l h w =
      let (f, e) = get_elem?-some fs i (omega arith) in
      let (m', q, y) =
        editar_una red vueltas pid fs t mem i f 0 u bytes m resp x c e (omega arith) w in
      (
        _,
        m',
        q,
        y,
        CabenEn-write_at fs t mem _ _ c,
        Parte-write_at fs t mem i f 0 u bytes c e (omega arith) w,
        λ j g o n lt k z. Fuera-write_at fs t mem i f 0 u bytes j g o n d e (omega arith) w lt k z,
      )
  editar_desde_lem mem i (suc k) u bytes m resp d x c l h w =
      let (f, e) = get_elem?-some fs i (omega arith) in
      let (m1, q, y) =
        editar_una red vueltas pid fs t mem i f 0 t bytes m resp x c e (omega arith)
          (omega arith) in
      let mem1 = write_at mem (f * t + 0) (take t bytes) in
      let (mem2, m2, r, z, c2, cont, fuera) =
        editar_desde_lem mem1 (suc i) k u (drop t bytes) m1 resp d y
          (CabenEn-write_at fs t mem _ _ c) (omega arith) h (omega (arith, length-drop t bytes)) in
      let q' : editar_desde red vueltas pid (suc i) (suc k) bytes u m ≡ (
          editar_pagina red vueltas pid (suc i) 0 bytes t m
          >>= editar_desde red vueltas pid (suc (suc i)) k (drop t bytes) u) =
        ap
          (λ n.
            editar_pagina red vueltas pid (suc i) 0 bytes n m
            >>= editar_desde red vueltas pid (suc (suc i)) k (drop n bytes) u)
          x.tamanio in
      (
        mem2,
        m2,
        q' ∙ rw q r,
        z,
        c2,
        (
          λ g o.
              fuera i g 0 t (omega arith) o (omega arith)
              ∙ Parte-write_at fs t mem i f 0 t bytes c e (omega arith) (omega arith) g o,
          cont,
        ),
        λ j g o n lt a b.
            fuera j g o n (omega arith) a b
            ∙ Fuera-write_at fs t mem i f 0 t bytes j g o n d e (omega arith) (omega arith) lt a b,
      )
