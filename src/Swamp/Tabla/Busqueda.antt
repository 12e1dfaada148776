-- ===== src/Swamp/Tabla/Busqueda.antt =====
-- The loops of swamp/src/swap.c that search a page table: what the index that they stop at says of
-- the table, and how a write to the table changes it.
use tp_sistemas_operativos.Base.{
  ℕ, zero, suc, ◌≤◌, ◌<◌, ◌≡◌, ◌≢◌, refl, ◌⊎◌, true, false, List, [], ◌∷◌, ◌++◌, arith, length, set,
  get_elem?, some,
}
use tp_sistemas_operativos.Swamp.Tabla.{
  libre, Fila, tabla_paginas_size, get_first_free_frame_number, get_frame_number,
  pagina_esta_en_swap,
}

pub tabla_paginas_size-le : (t : List Fila) → tabla_paginas_size t ≤ length t
unfolding tabla_paginas_size
tabla_paginas_size-le [] = omega arith
tabla_paginas_size-le (f ∷ t) = ground (arith, tabla_paginas_size-le t)

pub get_frame_number-le : (t : List Fila) (p g : ℕ) → get_frame_number t p g ≤ length t
unfolding get_frame_number
get_frame_number-le [] p g = omega arith
get_frame_number-le (f ∷ t) p g = ground (arith, get_frame_number-le t p g)

-- A page is in swap if the search for its frame stops before the end of the table.
pub esta-get_frame_number :
    (t : List Fila) (p g : ℕ)
    → ((pagina_esta_en_swap t p g ≡ true) × (get_frame_number t p g < length t))
      ⊎ ((pagina_esta_en_swap t p g ≡ false) × (get_frame_number t p g ≡ length t))
unfolding get_frame_number pagina_esta_en_swap
esta-get_frame_number [] p g = ground arith
esta-get_frame_number (f ∷ t) p g = ground (arith, esta-get_frame_number t p g)

-- The row found has the process and the page.
pub get_elem?-get_frame_number :
    (t : List Fila) (p g : ℕ)
    → get_frame_number t p g < length t
    → get_elem? t (get_frame_number t p g) ≡ some (record { proceso = p; pagina = g })
unfolding get_frame_number
get_elem?-get_frame_number [] p g h = elim h [ ]
get_elem?-get_frame_number (f ∷ t) p g h = ground (arith, get_elem?-get_frame_number t p g)

-- Two pages that are both in the table stand at different frames.
pub get_frame_number_inj :
    (t : List Fila) (p g q k : ℕ)
    → get_frame_number t p g < length t
    → get_frame_number t p g ≡ get_frame_number t q k
    → (p ≡ q) × (g ≡ k)
unfolding get_frame_number
get_frame_number_inj [] p g q k h e = elim h [ ]
get_frame_number_inj (f ∷ t) p g q k h e = ground (arith, get_frame_number_inj t p g q k)

-- The page that is put into a reserved row of its process is found there.
pub get_frame_number-set_reservado :
    (t : List Fila) (p g r : ℕ)
    → get_frame_number t p r < length t
    → get_frame_number t p g ≡ length t
    → get_frame_number (set t (get_frame_number t p r) (record { proceso = p; pagina = g })) p g
      ≡ get_frame_number t p r
unfolding get_frame_number
get_frame_number-set_reservado [] p g r h e = elim h [ ]
get_frame_number-set_reservado (f ∷ t) p g r h e =
    ground (arith, get_frame_number-set_reservado t p g r)

-- Every other page keeps its frame.
pub get_frame_number-set_otro :
    (t : List Fila) (p g r q k : ℕ)
    → ¬ ((p ≡ q) × (g ≡ k))
    → ¬ ((p ≡ q) × (r ≡ k))
    → get_frame_number (set t (get_frame_number t p r) (record { proceso = p; pagina = g })) q k
      ≡ get_frame_number t q k
unfolding get_frame_number
get_frame_number-set_otro [] p g r q k h e = refl
get_frame_number-set_otro (f ∷ t) p g r q k h e =
    ground (arith, get_frame_number-set_otro t p g r q k)

-- A row that belongs to others, before and after the write, is not seen by the search.
pub get_frame_number-set_ajeno :
    (t : List Fila) (i : ℕ) (f x : Fila) (q k : ℕ)
    → get_elem? t i ≡ some f
    → f.proceso ≢ q
    → x.proceso ≢ q
    → get_frame_number (set t i x) q k ≡ get_frame_number t q k
unfolding get_frame_number
get_frame_number-set_ajeno [] i f x q k h a b = refl
get_frame_number-set_ajeno (y ∷ t) zero f x q k h a b = ground arith
get_frame_number-set_ajeno (y ∷ t) (suc i) f x q k h a b =
    ground (arith, get_frame_number-set_ajeno t i f x q k)

-- A write behind the row that the search finds does not change what it finds.
pub get_frame_number-set_detras :
    (t : List Fila) (i : ℕ) (x : Fila) (q k : ℕ)
    → get_frame_number t q k < i
    → get_frame_number (set t i x) q k ≡ get_frame_number t q k
unfolding get_frame_number
get_frame_number-set_detras [] i x q k h = refl
get_frame_number-set_detras (y ∷ t) zero x q k h = elim h [ ]
get_frame_number-set_detras (y ∷ t) (suc i) x q k h =
    ground (arith, get_frame_number-set_detras t i x q k)

-- Rows put at the end do not change what is found before it.
pub get_frame_number-append :
    (t u : List Fila) (q k : ℕ)
    → get_frame_number t q k < length t
    → get_frame_number (t ++ u) q k ≡ get_frame_number t q k
unfolding get_frame_number
get_frame_number-append [] u q k h = elim h [ ]
get_frame_number-append (y ∷ t) u q k h = ground (arith, get_frame_number-append t u q k)

-- A page that is put at the end, and that was not there, is found at the old length.
pub get_frame_number-append_nuevo :
    (t u : List Fila) (p g : ℕ)
    → get_frame_number t p g ≡ length t
    → get_frame_number (t ++ (record { proceso = p; pagina = g } ∷ u)) p g ≡ length t
unfolding get_frame_number
get_frame_number-append_nuevo [] u p g h = ground arith
get_frame_number-append_nuevo (y ∷ t) u p g h =
    ground (arith, get_frame_number-append_nuevo t u p g)

-- No row of the table belongs to the process.
abbrev pub Ausente : ℕ → List Fila → Type 0
Ausente p [] = Unit {0}
Ausente p (f ∷ t) = (f.proceso ≢ p) × Ausente p t

-- For a process with no rows the first free frame is where a page put there is found.
pub get_frame_number-set_libre :
    (t : List Fila) (p g : ℕ)
    → Ausente p t
    → get_first_free_frame_number t p < length t
    → get_frame_number
        (set t (get_first_free_frame_number t p) (record { proceso = p; pagina = g }))
        p
        g
      ≡ get_first_free_frame_number t p
unfolding get_frame_number get_first_free_frame_number
get_frame_number-set_libre [] p g a h = elim h [ ]
get_frame_number-set_libre (f ∷ t) p g a h = ground (arith, get_frame_number-set_libre t p g a.1)

pub get_frame_number-Ausente :
    (t : List Fila) (p g : ℕ) → Ausente p t → get_frame_number t p g ≡ length t
unfolding get_frame_number
get_frame_number-Ausente [] p g a = refl
get_frame_number-Ausente (f ∷ t) p g a = ground (arith, get_frame_number-Ausente t p g a.1)

-- With no freed row and no row of the process, the first free frame is the end of the table, and
-- every row counts as used.
pub primer_libre_final :
    (t : List Fila) (p : ℕ)
    → Ausente p t
    → get_first_free_frame_number t p ≡ length t
    → tabla_paginas_size t ≡ length t
unfolding get_first_free_frame_number tabla_paginas_size
primer_libre_final [] p a h = refl
primer_libre_final (f ∷ t) p a h = ground (arith, primer_libre_final t p a.1)

pub get_first_free_frame_number-le :
    (t : List Fila) (p : ℕ) → get_first_free_frame_number t p ≤ length t
unfolding get_first_free_frame_number
get_first_free_frame_number-le [] p = omega arith
get_first_free_frame_number-le (f ∷ t) p = ground (arith, get_first_free_frame_number-le t p)

-- With no freed row and no reserved row of the process, the first free frame is the end.
pub primer_libre_lleno :
    (t : List Fila) (p : ℕ)
    → tabla_paginas_size t ≡ length t
    → pagina_esta_en_swap t p libre ≡ false
    → get_first_free_frame_number t p ≡ length t
unfolding get_first_free_frame_number tabla_paginas_size pagina_esta_en_swap
primer_libre_lleno [] p h e = refl
primer_libre_lleno (f ∷ t) p h e = ground (arith, tabla_paginas_size-le t, primer_libre_lleno t p)
