-- ===== src/Swamp/Archivos/MenosOcupado.antt =====
-- swap_file_menos_ocupado of swamp/src/swap.c: the file with the most free frames.
use tp_sistemas_operativos.Base.{
  ℕ, zero, suc, ◌+◌, ◌-◌, ◌≤◌, ◌<◌, ◌≡◌, refl, ◌⊎◌, ◌∙◌, List, [], ◌∷◌, Option, none, some, ap, ltb,
  arith, inl, inr, get_elem?, Bool-cases, ltb→lt, ltb→le,
}
use tp_sistemas_operativos.Swamp.Tabla.{tabla_paginas_size}
use tp_sistemas_operativos.Swamp.Archivos.{
  Nodo, Swap, frames_count, menos_ocupado, swap_file_menos_ocupado,
}

abbrev pub libres : ℕ → Nodo → ℕ
libres frames n = frames - tabla_paginas_size n.tabla_paginas

-- No file of the list has more free frames than `m`.
abbrev pub Tope : ℕ → List Nodo → ℕ → Type 0
Tope frames nodos m = (j : ℕ) (n : Nodo) → get_elem? nodos j ≡ some n → libres frames n ≤ m

Tope-cons :
    (frames : ℕ) (n : Nodo) (nodos : List Nodo) (m : ℕ)
    → libres frames n ≤ m
    → Tope frames nodos m
    → Tope frames (n ∷ nodos) m
Tope-cons frames n nodos m h t zero o e = ground arith
Tope-cons frames n nodos m h t (suc j) o e = t j o e

-- What the loop returns: nothing if all are full, what it had if that was not exceeded, or the
-- first file with the most free frames.
abbrev Salida : ℕ → List Nodo → ℕ → ℕ → Option ℕ → Option ℕ → Type 0
Salida frames nodos i most res r =
    ((most ≡ 0) × (r ≡ none) × Tope frames nodos 0)
    ⊎ ((0 < most) × (r ≡ res) × Tope frames nodos most)
    ⊎ ((j : ℕ) × (n : Nodo) × (r ≡ some (i + j))
        × (get_elem? nodos j ≡ some n)
        × (most < libres frames n)
        × Tope frames nodos (libres frames n))

menos_ocupado-Salida :
    (frames : ℕ) (nodos : List Nodo) (i most : ℕ) (res : Option ℕ)
    → Salida frames nodos i most res (menos_ocupado frames nodos i most res)
unfolding menos_ocupado
menos_ocupado-Salida frames [] i zero res = inl (refl, refl, λ j n e. absurd (cc e))
menos_ocupado-Salida frames [] i (suc most) res =
    inr (inl (omega arith, ground arith, λ j n e. absurd (cc e)))
menos_ocupado-Salida frames (n ∷ nodos) i most res =
    elim (Bool-cases (ltb most (libres frames n))) [
      | inl mas ↦
          let l : most < libres frames n = ltb→lt most (libres frames n) mas in
          rw mas (elim (menos_ocupado-Salida frames nodos (suc i) (libres frames n) (some i)) [
            | inl (z, r, t) ↦ absurd (omega arith)
            | inr (inl (z, r, t)) ↦ inr (
                inr (
                  0,
                  n,
                  r ∙ ap some (omega arith),
                  refl,
                  l,
                  Tope-cons frames n nodos (libres frames n) (omega arith) t,
                ))
            | inr (inr (j, m, r, e, z, t)) ↦ inr (
                inr (
                  suc j,
                  m,
                  r ∙ ap some (omega arith),
                  e,
                  omega arith,
                  Tope-cons frames n nodos (libres frames m) (omega arith) t,
                ))
          ])
      | inr no_mas ↦
          let l : libres frames n ≤ most = ltb→le most (libres frames n) no_mas in
          rw no_mas (elim (menos_ocupado-Salida frames nodos (suc i) most res) [
            | inl (z, r, t) ↦ inl (z, r, Tope-cons frames n nodos 0 (omega arith) t)
            | inr (inl (z, r, t)) ↦ inr (inl (z, r, Tope-cons frames n nodos most l t))
            | inr (inr (j, m, r, e, z, t)) ↦ inr (
                inr (
                  suc j,
                  m,
                  r ∙ ap some (omega arith),
                  e,
                  z,
                  Tope-cons frames n nodos (libres frames m) (omega arith) t,
                ))
          ])
    ]

-- swap_file_menos_ocupado gives NULL, and then no file has a free frame; or a file that has a free
-- frame, and no file has more.
pub swap_file_menos_ocupado_lem :
    (s : Swap)
    → ((swap_file_menos_ocupado s ≡ none) × Tope (frames_count s) s.swap_list 0)
      ⊎ ((i : ℕ) × (n : Nodo) × (swap_file_menos_ocupado s ≡ some i)
          × (get_elem? s.swap_list i ≡ some n)
          × (0 < libres (frames_count s) n)
          × Tope (frames_count s) s.swap_list (libres (frames_count s) n))
unfolding swap_file_menos_ocupado
swap_file_menos_ocupado_lem s = elim (menos_ocupado-Salida (frames_count s) s.swap_list 0 0 none) [
  | inl (z, r, t) ↦ inl (r, t)
  | inr (inl (z, r, t)) ↦ absurd (omega arith)
  | inr (inr (j, m, r, e, z, t)) ↦ inr (j, m, r ∙ ap some (omega arith), e, z, t)
]
