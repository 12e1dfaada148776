-- ===== src/Swamp/Tabla/Bloques.antt =====
-- Under fixed assignment (swamp/src/swap.c) a page table is made of blocks of rows, each of one
-- process or freed as a whole. What the first free frame is in such a table.
use tp_sistemas_operativos.Base.{
  ℕ, zero, suc, ◌+◌, ◌<◌, ◌≡◌, ◌≢◌, refl, ap, ◌∙◌, List, [], ◌∷◌, ◌++◌, map, ◌==◌, if◌then◌else◌,
  arith, length, get_elem?, some, replicate, overlay, write_at, Bool-cases, inl, inr, ==→eq, ==→ne,
  ne→==, length-append, length-replicate,
}
use tp_sistemas_operativos.Swamp.Tabla.{Fila, libre, get_first_free_frame_number}
use tp_sistemas_operativos.Swamp.Tabla.Busqueda.{Ausente}

abbrev pub procesos : List Fila → List ℕ
procesos = map (λ f. f.proceso)

-- The process column of a table of blocks of `k` rows, from the owner of each block.
abbrev pub bloques : ℕ → List ℕ → List ℕ
bloques k [] = []
bloques k (d ∷ ds) = replicate k d ++ bloques k ds

-- The first freed row.
abbrev pub primer_libre : List ℕ → ℕ
primer_libre [] = 0
primer_libre (q ∷ qs) = let sigue = suc (primer_libre qs) in if q == libre then 0 else sigue

pub length-procesos : (t : List Fila) → length (procesos t) ≡ length t
length-procesos [] = refl
length-procesos (f ∷ t) = ap suc (length-procesos t)

pub get_first_free-primer_libre :
    (t : List Fila) (p : ℕ)
    → Ausente p t
    → get_first_free_frame_number t p ≡ primer_libre (procesos t)
unfolding get_first_free_frame_number
get_first_free-primer_libre [] p a = refl
get_first_free-primer_libre (f ∷ t) p a = ground (arith, get_first_free-primer_libre t p a.1)

pub get_elem?-procesos :
    (t : List Fila) (i v : ℕ)
    → get_elem? (procesos t) i ≡ some v
    → (f : Fila) × (get_elem? t i ≡ some f) × (f.proceso ≡ v)
get_elem?-procesos [] i v h = cc
get_elem?-procesos (f ∷ t) zero v h = (f, refl, cc)
get_elem?-procesos (f ∷ t) (suc i) v h = get_elem?-procesos t i v h

primer_libre-replicate :
    (n d : ℕ) (r : List ℕ) → d ≢ libre → primer_libre (replicate n d ++ r) ≡ n + primer_libre r
primer_libre-replicate zero d r h = omega arith
primer_libre-replicate (suc n) d r h =
    rw (ne→== d libre h) (omega (arith, primer_libre-replicate n d r h))

get_elem?-replicate : (n d i : ℕ) (r : List ℕ) → i < n → get_elem? (replicate n d ++ r) i ≡ some d
get_elem?-replicate zero d i r h = elim h [ ]
get_elem?-replicate (suc n) d zero r h = refl
get_elem?-replicate (suc n) d (suc i) r h = get_elem?-replicate n d i r (omega arith)

get_elem?-detras :
    (n d j i : ℕ) (r : List ℕ) → j ≡ n + i → get_elem? (replicate n d ++ r) j ≡ get_elem? r i
get_elem?-detras zero d j i r h = let e : j ≡ i = omega arith in rw e
get_elem?-detras (suc n) d zero i r h = absurd (omega arith)
get_elem?-detras (suc n) d (suc j) i r h = get_elem?-detras n d j i r (omega arith)

-- From the first freed row on, a whole block is freed.
pub bloque_libre :
    (k : ℕ) (ds : List ℕ) (r j : ℕ)
    → primer_libre (bloques (suc k) ds) < length (bloques (suc k) ds)
    → r < suc k
    → j ≡ primer_libre (bloques (suc k) ds) + r
    → get_elem? (bloques (suc k) ds) j ≡ some libre
bloque_libre k [] r j h l e = elim h [ ]
bloque_libre k (d ∷ ds) r j h l e = elim (Bool-cases (d == libre)) [
  | inl si ↦
      let j' : j ≡ r = (e ∙ (rw si (omega arith))) in
      rw j' (get_elem?-replicate (suc k) d r (bloques (suc k) ds) l ∙ ap some (==→eq d libre si))
  | inr no_es ↦
      let b : List ℕ = bloques (suc k) ds in
      let x : primer_libre (replicate (suc k) d ++ b) ≡ suc k + primer_libre b =
        primer_libre-replicate (suc k) d b (==→ne d libre no_es) in
      get_elem?-detras (suc k) d j (primer_libre b + r) b (omega (arith, x, e))
      ∙ bloque_libre k ds r (primer_libre b + r)
          (omega (arith, h, x, length-append (replicate (suc k) d) b, length-replicate (suc k) d)) l
          refl
]

overlay-replicate :
    (n d p : ℕ) (r : List ℕ) → overlay (replicate n d ++ r) (replicate n p) ≡ replicate n p ++ r
overlay-replicate zero d p [] = refl
overlay-replicate zero d p (x ∷ r) = refl
overlay-replicate (suc n) d p r = ap (λ l. p ∷ l) (overlay-replicate n d p r)

write_at-detras :
    (n d j i : ℕ) (r src : List ℕ)
    → j ≡ n + i
    → write_at (replicate n d ++ r) j src ≡ replicate n d ++ write_at r i src
write_at-detras zero d j i r src h = let e : j ≡ i = omega arith in rw e
write_at-detras (suc n) d zero i r src h = absurd (omega arith)
write_at-detras (suc n) d (suc j) i r src h =
    ap (λ l. d ∷ l) (write_at-detras n d j i r src (omega arith))

-- The owners when the first freed block is given to a process.
abbrev pub ocupar : ℕ → List ℕ → List ℕ
ocupar p [] = []
ocupar p (d ∷ ds) = let sigue = d ∷ ocupar p ds in if d == libre then p ∷ ds else sigue

pub write_at-bloques :
    (k p : ℕ) (ds : List ℕ)
    → write_at (bloques (suc k) ds) (primer_libre (bloques (suc k) ds)) (replicate (suc k) p)
      ≡ bloques (suc k) (ocupar p ds)
write_at-bloques k p [] = refl
write_at-bloques k p (d ∷ ds) = elim (Bool-cases (d == libre)) [
  | inl si ↦ rw si (overlay-replicate (suc k) d p (bloques (suc k) ds))
  | inr no_es ↦
      let b : List ℕ = bloques (suc k) ds in
      write_at-detras (suc k) d (primer_libre (replicate (suc k) d ++ b)) (primer_libre b) b
        (replicate (suc k) p) (primer_libre-replicate (suc k) d b (==→ne d libre no_es))
      ∙ rw no_es (ap (λ l. replicate (suc k) d ++ l) (write_at-bloques k p ds))
]
