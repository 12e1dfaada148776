-- ===== src/Memoria/Tlb/Reemplazo.antt =====
-- Which entry of the TLB of memoria/src/memory_utils.c is replaced.
use tp_sistemas_operativos.Base.{
  ℕ, zero, suc, ◌+◌, ◌≤◌, ◌<◌, ◌≡◌, refl, ◌∙◌, ap, subst, ◌⊎◌, inl, inr, List, [], ◌∷◌, some, ltb,
  arith, Bool-cases, get_elem?, length, ltb→lt, ltb→le,
}
use mathlib.Core.Option.{some-injective}
use tp_sistemas_operativos.Memoria.Tlb.{Entrada, minimo_desde, list_get_minimum}

module _ (clave : Entrada → ℕ) where
  -- No entry has a lesser key.
  abbrev pub Minima : Entrada → List Entrada → Type 0
  Minima e es = (j : ℕ) (b : Entrada) → get_elem? es j ≡ some b → clave e ≤ clave b

  Minima-cons :
      (e a : Entrada) (es : List Entrada) → clave e ≤ clave a → Minima e es → Minima e (a ∷ es)
  Minima-cons e a es h m zero b x = subst (λ b. clave e ≤ clave b) (some-injective _ _ x) h
  Minima-cons e a es h m (suc j) b x = m j b x

  minimo_desde_lem :
      (i : ℕ) (a : Entrada) (j : ℕ) (q : List Entrada)
      → ((minimo_desde clave i a j q ≡ i) × Minima a q)
        ⊎ ((m : ℕ) × (e : Entrada) × (minimo_desde clave i a j q ≡ j + m)
            × (get_elem? q m ≡ some e)
            × (clave e ≤ clave a)
            × Minima e q)
  unfolding minimo_desde
  minimo_desde_lem i a j [] = inl (refl, λ m b x. absurd (cc x))
  minimo_desde_lem i a j (b ∷ q) = elim (Bool-cases (ltb (clave a) (clave b))) [
    | inl x ↦
        let l : clave a < clave b = ltb→lt (clave a) (clave b) x in
        rw x (elim (minimo_desde_lem i a (suc j) q) [
          | inl (r, t) ↦ inl (r, Minima-cons a b q (omega arith) t)
          | inr (m, e, r, g, k, t) ↦
              inr (suc m, e, r ∙ omega arith, g, k, Minima-cons e b q (omega arith) t)
        ])
    | inr x ↦
        let l : clave b ≤ clave a = ltb→le (clave a) (clave b) x in
        rw x (elim (minimo_desde_lem j b (suc j) q) [
          | inl (r, t) ↦ inr (0, b, r ∙ omega arith, refl, l, Minima-cons b b q (omega arith) t)
          | inr (m, e, r, g, k, t) ↦
              inr (suc m, e, r ∙ omega arith, g, omega arith, Minima-cons e b q k t)
        ])
  ]

  -- The place of an entry with the least key.
  pub list_get_minimum_lem :
      (es : List Entrada)
      → 0 < length es
      → (e : Entrada) × (get_elem? es (list_get_minimum clave es) ≡ some e) × Minima e es
  unfolding list_get_minimum
  list_get_minimum_lem [] h = elim h [ ]
  list_get_minimum_lem (a ∷ q) h = elim (minimo_desde_lem 0 a 1 q) [
    | inl (r, t) ↦ (a, ap (get_elem? (a ∷ q)) r, Minima-cons a a q (omega arith) t)
    | inr (m, e, r, g, k, t) ↦
        (e, ap (get_elem? (a ∷ q)) {y = suc m} (r ∙ omega arith) ∙ g, Minima-cons e a q k t)
  ]
