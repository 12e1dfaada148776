-- ===== src/Memoria/Marcos/Libre.antt =====
-- memoria/src/memory_utils.c: the frames that no page has, before and after a page loses its own.
use mathlib.Core.Option.{some-injective}
use tp_sistemas_operativos.Base.{
  ℕ, zero, suc, ◌+◌, ◌<◌, ◌≤◌, ◌≡◌, ◌≢◌, ◌⊎◌, inl, inr, refl, ap, subst, Bool, true, false, List,
  [], ◌∷◌, ◌++◌, none, some, ◌==◌, if◌then◌else◌, arith, get_elem?, list_find, list_any_satisfy,
  Todos, Todos-append, Todos-list_find, Bool-cases, Option-cases, list_any_satisfy-list_find,
  dec_lt, ℕ_discrete,
}
use tp_sistemas_operativos.Memoria.Estado.{
  free, busy, Pagina, Tabla, Memoria, de_proceso, paginas_de, frames_totales,
}
use tp_sistemas_operativos.Memoria.Marcos.{
  primer_frame, sin_frame, sacar_frame, sacar_de_todas, frame_asignado, esta_ocupado_un,
  get_new_empty_frame,
}

abbrev pub tiene : ℕ → ℕ × Pagina → Bool
tiene f x = x.1.frame == f

-- The first frame that passes: below the end, and none before it passes.
pub primer_frame_lem :
    (p : ℕ → Bool) (n i : ℕ)
    → ((f : ℕ) × (primer_frame p n i ≡ some f)
        × (i ≤ f)
        × (f < i + n)
        × (p f ≡ true)
        × ((g : ℕ) → i ≤ g → g < f → p g ≡ false))
      ⊎ ((primer_frame p n i ≡ none) × ((g : ℕ) → i ≤ g → g < i + n → p g ≡ false))
unfolding primer_frame
primer_frame_lem p zero i = inr (refl, λ g h k. absurd (omega arith))
primer_frame_lem p (suc n) i = elim (Bool-cases (p i)) [
  | inl y ↦ inl (i, rw y refl, omega arith, omega arith, y, λ g h k. absurd (omega arith))
  | inr y ↦ elim (primer_frame_lem p n (suc i)) [
    | inl (f, e, a, b, c, d) ↦ inl (
      f,
      rw y e,
      omega arith,
      omega arith,
      c,
      λ g h k. elim (ℕ_discrete i g) [
        | yes z ↦ subst (λ x. p x ≡ false) z y
        | no z ↦ d g (omega arith) k
      ],
    )
    | inr (e, d) ↦ inr (
      rw y e,
      λ g h k. elim (ℕ_discrete i g) [
        | yes z ↦ subst (λ x. p x ≡ false) z y
        | no z ↦ d g (omega arith) (omega arith)
      ],
    )
  ]
]

list_any_satisfy-append {ℓ} :
    {A : Type ℓ} (p : A → Bool) (xs ys : List A)
    → list_any_satisfy p xs ≡ false
    → list_any_satisfy p ys ≡ false
    → list_any_satisfy p (xs ++ ys) ≡ false
unfolding list_any_satisfy
list_any_satisfy-append p [] ys h k = k
list_any_satisfy-append p (x ∷ xs) ys h k = ground (arith, list_any_satisfy-append p xs ys)

sacar_frame-tiene :
    (total f pid : ℕ) (ps : List Pagina)
    → f ≢ total + 1
    → list_any_satisfy (tiene f) (de_proceso pid (sacar_frame total f ps)) ≡ false
unfolding list_any_satisfy sacar_frame
sacar_frame-tiene total f pid [] h = refl
sacar_frame-tiene total f pid (p ∷ ps) h = ground (arith, sacar_frame-tiene total f pid ps h)

-- A frame that was taken away belongs to no page.
pub sacar_de_todas-tiene :
    (total f : ℕ) (ts : List Tabla)
    → f ≢ total + 1
    → list_any_satisfy (tiene f) (paginas_de (sacar_de_todas total f ts)) ≡ false
unfolding list_any_satisfy sacar_de_todas
sacar_de_todas-tiene total f [] h = refl
sacar_de_todas-tiene total f (t ∷ ts) h =
    list_any_satisfy-append (tiene f) (de_proceso t.id (sacar_frame total f t.paginas)) _
      (sacar_frame-tiene total f t.id t.paginas h) (sacar_de_todas-tiene total f ts h)

-- The tables stay, each with the same process.
pub list_find-sacar_de_todas :
    (total f pid : ℕ) (ts : List Tabla) (t : Tabla)
    → list_find (λ (u : Tabla). u.id == pid) ts ≡ some t
    → list_find (λ (u : Tabla). u.id == pid) (sacar_de_todas total f ts)
      ≡ some (record t { paginas = sacar_frame total f t.paginas })
unfolding list_find sacar_de_todas
list_find-sacar_de_todas total f pid [] t h = cc
list_find-sacar_de_todas total f pid (u ∷ ts) t h = elim (Bool-cases (u.id == pid)) [
  | inl y ↦ rw y (
      ap (λ (v : Tabla). some (record v { paginas = sacar_frame total f v.paginas }))
        (some-injective _ _ (rw y at h)))
  | inr y ↦ rw y (list_find-sacar_de_todas total f pid ts t (rw y at h))
]

pub get_elem?-sacar_frame :
    (total f : ℕ) (ps : List Pagina) (i : ℕ) (p : Pagina)
    → get_elem? ps i ≡ some p
    → get_elem? (sacar_frame total f ps) i ≡ some (if p.frame == f then sin_frame total p else p)
unfolding sacar_frame
get_elem?-sacar_frame total f [] i p h = cc
get_elem?-sacar_frame total f (q ∷ ps) zero p h =
    ap (λ (v : Pagina). some (if v.frame == f then sin_frame total v else v)) (some-injective _ _ h)
get_elem?-sacar_frame total f (q ∷ ps) (suc i) p h = get_elem?-sacar_frame total f ps i p h

-- Every page is busy.
abbrev pub Ocupadas : List Tabla → Type 0
Ocupadas = Todos (λ (t : Tabla). Todos (λ (p : Pagina). p.isfree ≡ busy) t.paginas)

Todos-de_proceso :
    (pid : ℕ) (ps : List Pagina)
    → Todos (λ (p : Pagina). p.isfree ≡ busy) ps
    → Todos (λ (x : ℕ × Pagina). x.1.isfree ≡ busy) (de_proceso pid ps)
Todos-de_proceso pid [] h = tt
Todos-de_proceso pid (p ∷ ps) h = (h.0, Todos-de_proceso pid ps h.1)

pub Ocupadas-paginas_de :
    (ts : List Tabla) → Ocupadas ts → Todos (λ (x : ℕ × Pagina). x.1.isfree ≡ busy) (paginas_de ts)
Ocupadas-paginas_de [] h = tt
Ocupadas-paginas_de (t ∷ ts) h =
    Todos-append _ (de_proceso t.id t.paginas) _ (Todos-de_proceso t.id t.paginas h.0)
      (Ocupadas-paginas_de ts h.1)

sacar_frame-Ocupadas :
    (total f : ℕ) (ps : List Pagina)
    → Todos (λ (p : Pagina). p.isfree ≡ busy) ps
    → Todos (λ (p : Pagina). p.isfree ≡ busy) (sacar_frame total f ps)
unfolding sacar_frame
sacar_frame-Ocupadas total f [] h = tt
sacar_frame-Ocupadas total f (p ∷ ps) h = (ground (arith, h.0), sacar_frame-Ocupadas total f ps h.1)

pub sacar_de_todas-Ocupadas :
    (total f : ℕ) (ts : List Tabla) → Ocupadas ts → Ocupadas (sacar_de_todas total f ts)
unfolding sacar_de_todas
sacar_de_todas-Ocupadas total f [] h = tt
sacar_de_todas-Ocupadas total f (t ∷ ts) h =
    (sacar_frame-Ocupadas total f t.paginas h.0, sacar_de_todas-Ocupadas total f ts h.1)

list_find-list_any_satisfy :
    (f : ℕ) (xs : List (ℕ × Pagina))
    → list_any_satisfy (tiene f) xs ≡ false
    → list_find (tiene f) xs ≡ none
unfolding list_find list_any_satisfy
list_find-list_any_satisfy f [] h = refl
list_find-list_any_satisfy f (x ∷ xs) h = ground (arith, list_find-list_any_satisfy f xs)

module _ {S : Type 0} where
  pub esta_ocupado_un-libre :
      (f : ℕ) (m : Memoria S) → frame_asignado f m ≡ false → esta_ocupado_un f m ≡ free
  unfolding esta_ocupado_un frame_asignado
  esta_ocupado_un-libre f m h =
      rw (list_find-list_any_satisfy f (paginas_de m.todas_las_tablas) h, esta_ocupado_un) refl

  -- Where every page is busy, a frame that is not taken belongs to no page.
  pub esta_ocupado_un-nadie :
      (f : ℕ) (m : Memoria S)
      → Ocupadas m.todas_las_tablas
      → esta_ocupado_un f m ≢ busy
      → frame_asignado f m ≡ false
  unfolding esta_ocupado_un frame_asignado
  esta_ocupado_un-nadie f m h k =
      elim (Option-cases (list_find (tiene f) (paginas_de m.todas_las_tablas))) [
        | inl e ↦ list_any_satisfy-list_find (tiene f) _ e
        | inr (x, e) ↦ absurd (
            rw (e, esta_ocupado_un) at k
              (Todos-list_find _ (tiene f) _ x (Ocupadas-paginas_de _ h) e))
      ]

  -- With a dynamic assignment: a frame that no page has is enough for a new page to get one.
  pub get_new_empty_frame_lem :
      (pid f : ℕ) (m : Memoria S)
      → m.asignacion_dinamica ≡ true
      → f < frames_totales m
      → frame_asignado f m ≡ false
      → (g : ℕ) × (get_new_empty_frame pid m ≡ some (some g))
        × (g ≤ f)
        × (esta_ocupado_un g m ≢ busy)
  unfolding get_new_empty_frame
  get_new_empty_frame_lem pid f m y h a =
      let libre : ℕ → Bool = λ f. if esta_ocupado_un f m == busy then false else true in
      let l = esta_ocupado_un-libre f m a in
      let pasa : libre f ≡ true = rw l refl in
      elim (primer_frame_lem libre (frames_totales m) 0) [
        | inl (g, e, c, d, z, min) ↦ (
          g,
          rw (y, e) refl,
          elim (dec_lt f g) [ yes n ↦ (let z = min f (omega arith) n in cc) | no n ↦ omega arith ],
          ground (arith, z),
        )
        | inr (e, min) ↦ let z = min f (omega arith) (omega arith) in cc
      ]
