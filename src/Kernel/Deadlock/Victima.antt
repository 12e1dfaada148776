-- ===== src/Kernel/Deadlock/Victima.antt =====
-- The carpincho that solucionatelo of kernel/src/main.c closes.
use tp_sistemas_operativos.Base.{
  ℕ, ◌≤◌, ◌<◌, ◌≡◌, ◌⊎◌, inl, inr, List, [], ◌∷◌, ltb, if◌then◌else◌, arith, refl, Bool-cases,
}
use tp_sistemas_operativos.Kernel.Colas.Ubicacion.{cuenta}
use tp_sistemas_operativos.Kernel.Deadlock.{mayor_id}

desde : (m : ℕ) (q : List ℕ) → m ≤ mayor_id m q
unfolding mayor_id
desde m [] = omega arith
desde m (i ∷ q) = ground (arith, desde i q, desde m q)

mayor_tope : (m : ℕ) (q : List ℕ) (j : ℕ) → 0 < cuenta j q → j ≤ mayor_id m q
unfolding mayor_id
mayor_tope m [] j h = absurd (omega arith)
mayor_tope m (i ∷ q) j h = ground (arith, desde i q, desde m q, mayor_tope i q j, mayor_tope m q j)

-- Whoever is the greatest of the rest with the greater of the two is the greatest of all.
junta :
    (m i m' g : ℕ) (q : List ℕ)
    → (m' ≡ i) ⊎ (m' ≡ m)
    → (g ≡ m') ⊎ (0 < cuenta g q)
    → (g ≡ m) ⊎ (0 < cuenta g (i ∷ q))
junta m i m' g q x (inr y) = inr (omega arith)
junta m i m' g q (inl x) (inl y) = inr (ground (arith, x, y))
junta m i m' g q (inr x) (inl y) = inl (omega arith)

el_mayor : (m i : ℕ) → ((if ltb m i then i else m) ≡ i) ⊎ ((if ltb m i then i else m) ≡ m)
el_mayor m i = elim (Bool-cases (ltb m i)) [ inl x ↦ inl (rw x refl) | inr x ↦ inr (rw x refl) ]

mayor_de : (m : ℕ) (q : List ℕ) → (mayor_id m q ≡ m) ⊎ (0 < cuenta (mayor_id m q) q)
unfolding mayor_id
mayor_de m [] = inl refl
mayor_de m (i ∷ q) =
    let m' : ℕ = if ltb m i then i else m in
    junta m i m' (mayor_id m' q) q (el_mayor m i) (mayor_de m' q)

-- The id that the loop of solucionatelo finds in a cycle that is not empty is one of the ids of the
-- cycle, and none of them is greater.
pub mayor_id_lem :
    (i : ℕ) (q : List ℕ)
    → (0 < cuenta (mayor_id 0 (i ∷ q)) (i ∷ q))
      × ((j : ℕ) → 0 < cuenta j (i ∷ q) → j ≤ mayor_id 0 (i ∷ q))
mayor_id_lem i q = (
  elim (mayor_de 0 (i ∷ q)) [ inl y ↦ ground (arith, y, mayor_tope 0 (i ∷ q) i) | inr y ↦ y ],
  mayor_tope 0 (i ∷ q),
)
