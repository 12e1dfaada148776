-- ===== src/Kernel/Deadlock/Ciclo.antt =====
-- chequear_ciclo of kernel/src/main.c against the cycles of the relation "waits for".
use mathlib.Core.Option
use tp_sistemas_operativos.Base.{
  ℕ, zero, suc, ◌≤◌, ◌≡◌, refl, subst, ◌∙◌, inl, inr, List, [], ◌∷◌, Option, none, some, ◌==◌,
  if◌then◌else◌, arith, length, Bool-cases, Option-cases, ==→eq, ==_refl,
}
use tp_sistemas_operativos.Kernel.Estado.{Carpincho, Kernel, encontrar_estructura_segun_id}
use tp_sistemas_operativos.Kernel.Deadlock.{chequear_ciclo}

module _ {F : Type 0} (k : Kernel F) where
  -- From `j`, each waits for the next one of the list, and the last one waits for `i`.
  pub data Camino (i : ℕ) : ℕ → List ℕ → Type 0 where
    vuelve :
        {j : ℕ} {c : Carpincho F}
        → encontrar_estructura_segun_id j k ≡ some c
        → c.tiene_su_espera ≡ i
        → Camino i j (j ∷ [])
    sigue_a :
        {j : ℕ} {c : Carpincho F} {q : List ℕ}
        → encontrar_estructura_segun_id j k ≡ some c
        → Camino i c.tiene_su_espera q
        → Camino i j (j ∷ q)

  -- At most `n` steps from `j` to one that waits for `i`.
  rodeo : ℕ → ℕ → ℕ → Option (List ℕ)
  rodeo zero i j = none
  rodeo (suc n) i j = elim (encontrar_estructura_segun_id j k) [
    | none ↦ none
    | some c ↦
        let resto = Option.map (λ q. j ∷ q) (rodeo n i c.tiene_su_espera) in
        if c.tiene_su_espera == i then some (j ∷ []) else resto
  ]

  rodeo_eq :
      (c : Carpincho F)
      → encontrar_estructura_segun_id c.id k ≡ some c
      → chequear_ciclo c k ≡ Option.map (λ q. c.id ∷ q) (rodeo 4 c.id c.tiene_su_espera)
  unfolding chequear_ciclo rodeo
  rodeo_eq c h = ground (arith, h)

  rodeo-Camino : (n i j : ℕ) (q : List ℕ) → rodeo n i j ≡ some q → Camino i j q × (length q ≤ n)
  unfolding rodeo
  rodeo-Camino zero i j q h = cc
  rodeo-Camino (suc n) i j q h = elim (Option-cases (encontrar_estructura_segun_id j k)) [
    | inl e ↦ absurd (ground arith)
    | inr (c, e) ↦ elim (Bool-cases (c.tiene_su_espera == i)) [
      | inl x ↦
          let y : j ∷ [] ≡ q = ground (arith, h, e, x) in
          subst (λ q. Camino i j q × (length q ≤ suc n)) y
            (vuelve e (==→eq c.tiene_su_espera i x), omega arith)
      | inr x ↦ elim (Option-cases (rodeo n i c.tiene_su_espera)) [
        | inl z ↦ absurd (ground arith)
        | inr (q', z) ↦
            let y : j ∷ q' ≡ q = ground (arith, h, e, x, z) in
            let (v, w) = rodeo-Camino n i c.tiene_su_espera q' z in
            subst (λ q. Camino i j q × (length q ≤ suc n)) y (sigue_a e v, omega arith)
      ]
    ]
  ]

  rodeo_completo :
      (n i j : ℕ) (q : List ℕ)
      → Camino i j q
      → length q ≤ n
      → (q' : List ℕ) × (rodeo n i j ≡ some q')
  unfolding rodeo
  rodeo_completo zero i j q (vuelve e x) l = absurd (omega arith)
  rodeo_completo zero i j q (sigue_a e h) l = absurd (omega arith)
  rodeo_completo (suc n) i j q (vuelve e x) l = (j ∷ [], rw (e, rodeo, x, ==_refl i) refl)
  rodeo_completo (suc n) i j q (sigue_a {c = c} {q = r} e h) l =
      let (r', y) = rodeo_completo n i c.tiene_su_espera r h (omega arith) in
      elim (Bool-cases (c.tiene_su_espera == i)) [
        | inl x ↦ (j ∷ [], rw (e, rodeo, x) refl)
        | inr x ↦ (j ∷ r', rw (e, rodeo, x, y) refl)
      ]

  -- What chequear_ciclo gives for a carpincho of the list is a cycle through it, of five carpinchos
  -- at most, in which each one waits for the next and the last one for the first.
  pub chequear_ciclo-Camino :
      (c : Carpincho F) (q : List ℕ)
      → encontrar_estructura_segun_id c.id k ≡ some c
      → chequear_ciclo c k ≡ some q
      → Camino c.id c.id q × (length q ≤ 5)
  chequear_ciclo-Camino c q h x = elim (Option-cases (rodeo 4 c.id c.tiene_su_espera)) [
    | inl z ↦ absurd (ground (arith, rodeo_eq c h))
    | inr (r, z) ↦
        let y : c.id ∷ r ≡ q = ground (arith, rodeo_eq c h, z, x) in
        let (v, w) = rodeo-Camino 4 c.id c.tiene_su_espera r z in
        subst (λ q. Camino c.id c.id q × (length q ≤ 5)) y (sigue_a h v, omega arith)
  ]

  -- For a carpincho of the list that waits, through at most four others, for itself, chequear_ciclo
  -- gives a cycle.
  pub chequear_ciclo_completo :
      (c : Carpincho F) (q : List ℕ)
      → encontrar_estructura_segun_id c.id k ≡ some c
      → Camino c.id c.tiene_su_espera q
      → length q ≤ 4
      → (q' : List ℕ) × (chequear_ciclo c k ≡ some q')
  chequear_ciclo_completo c q h x l =
      let (r, y) = rodeo_completo 4 c.id c.tiene_su_espera q x l in
      (c.id ∷ r, rodeo_eq c h ∙ rw y refl)
