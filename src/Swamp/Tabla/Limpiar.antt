-- ===== src/Swamp/Tabla/Limpiar.antt =====
-- A page table without the rows of a process that has ended (finalizar_proceso of
-- swamp/src/swap.c).
use tp_sistemas_operativos.Base.{
  ℕ, suc, ◌≡◌, ◌≢◌, refl, ap, List, [], ◌∷◌, ◌++◌, map, ◌==◌, if◌then◌else◌, arith, length,
}
use tp_sistemas_operativos.Swamp.Tabla.{Fila, libre, get_frame_number}
use tp_sistemas_operativos.Swamp.Tabla.Busqueda.{Ausente}

abbrev pub limpiar : ℕ → Fila → Fila
limpiar p f = if f.proceso == p then record { proceso = libre; pagina = libre } else f

pub get_frame_number-medio :
    (xs ys : List Fila) (y : Fila) (p : ℕ)
    → Ausente p xs
    → y.proceso ≡ p
    → get_frame_number (xs ++ (y ∷ ys)) y.proceso y.pagina ≡ length xs
unfolding get_frame_number
get_frame_number-medio [] ys y p a h = ground arith
get_frame_number-medio (x ∷ xs) ys y p a h = ground (arith, get_frame_number-medio xs ys y p a.1)

pub Ausente-append :
    (p : ℕ) (xs : List Fila) (y : Fila) → Ausente p xs → y.proceso ≢ p → Ausente p (xs ++ (y ∷ []))
Ausente-append p [] y a h = (h, tt)
Ausente-append p (x ∷ xs) y a h = (a.0, Ausente-append p xs y a.1 h)

pub get_frame_number-limpiar :
    (t : List Fila) (p q k : ℕ)
    → p ≢ q
    → libre ≢ q
    → get_frame_number (map (limpiar p) t) q k ≡ get_frame_number t q k
unfolding get_frame_number
get_frame_number-limpiar [] p q k a b = refl
get_frame_number-limpiar (f ∷ t) p q k a b = ground (arith, get_frame_number-limpiar t p q k a b)

pub Ausente-limpiar : (t : List Fila) (p : ℕ) → p ≢ libre → Ausente p (map (limpiar p) t)
Ausente-limpiar [] p h = tt
Ausente-limpiar (f ∷ t) p h = ground (arith, Ausente-limpiar t p h)

pub length-limpiar : (t : List Fila) (p : ℕ) → length (map (limpiar p) t) ≡ length t
length-limpiar [] p = refl
length-limpiar (f ∷ t) p = ap suc (length-limpiar t p)
