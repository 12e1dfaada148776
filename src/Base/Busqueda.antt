-- ===== src/Base/Busqueda.antt =====
-- The first element of a list that passes a test, as list_find gives it, and writes through the
-- pointer to it.
use Prim.Native.Nat.{ℕ, zero, suc, ◌<◌}
use mathlib.Core.Path.{◌≡◌, refl, subst, ap, ◌∙◌}
use mathlib.Core.Bool.{Bool, true, false}
use mathlib.Core.List.{List, [], ◌∷◌, ◌++◌}
use mathlib.Core.Option.{Option, none, some}
use mathlib.Core.Logic.{inl, inr}
use mathlib.Core.Option.{some-injective}
use native.Mathlib.Omega.{arith}
use tp_sistemas_operativos.Base.Lists.{length, set, get_elem?}
use tp_sistemas_operativos.Base.Tests.{if◌then◌else◌, Bool-cases}

module _ {ℓ} {A : Type ℓ} where
  unfoldable pub list_find : (A → Bool) → List A → Option A
  list_find p [] = none
  list_find p (x ∷ xs) = let resto = list_find p xs in if p x then some x else resto

  unfoldable pub list_any_satisfy : (A → Bool) → List A → Bool
  list_any_satisfy p [] = false
  list_any_satisfy p (x ∷ xs) = let resto = list_any_satisfy p xs in if p x then true else resto

  -- The first element that passes is written; the rest stays.
  unfoldable pub modificar_si : (A → Bool) → (A → A) → List A → List A
  modificar_si p f [] = []
  modificar_si p f (x ∷ xs) = let resto = x ∷ modificar_si p f xs in if p x then f x ∷ xs else resto

  pub length-modificar_si :
      (p : A → Bool) (f : A → A) (xs : List A) → length (modificar_si p f xs) ≡ length xs
  unfolding modificar_si
  length-modificar_si p f [] = refl
  length-modificar_si p f (x ∷ xs) = ground (arith, length-modificar_si p f xs)

  pub list_find-cumple : (p : A → Bool) (xs : List A) (x : A) → list_find p xs ≡ some x → p x ≡ true
  unfolding list_find
  list_find-cumple p [] x h = cc
  list_find-cumple p (y ∷ xs) x h = ground (arith, list_find-cumple p xs x)

  -- The write is at some place of the list.
  pub modificar_si-set :
      (p : A → Bool) (f : A → A) (xs : List A)
      → list_any_satisfy p xs ≡ true
      → (i : ℕ) × (x : A) × (get_elem? xs i ≡ some x)
        × (p x ≡ true)
        × (modificar_si p f xs ≡ set xs i (f x))
  unfolding list_any_satisfy modificar_si
  modificar_si-set p f [] h = cc
  modificar_si-set p f (x ∷ xs) h = elim (Bool-cases (p x)) [
    | inl y ↦ (0, x, refl, y, rw y refl)
    | inr y ↦
        let (i, v, g, c, e) = modificar_si-set p f xs (rw y at h) in
        (suc i, v, g, c, rw (y, e) refl)
  ]

  -- Nothing of the list passes.
  pub list_any_satisfy-list_find :
      (p : A → Bool) (xs : List A) → list_find p xs ≡ none → list_any_satisfy p xs ≡ false
  unfolding list_any_satisfy list_find
  list_any_satisfy-list_find p [] h = refl
  list_any_satisfy-list_find p (x ∷ xs) h = ground (arith, list_any_satisfy-list_find p xs)

  pub list_any_satisfy-implica :
      (p q : A → Bool) (xs : List A)
      → ((x : A) → q x ≡ true → p x ≡ true)
      → list_any_satisfy p xs ≡ false
      → list_any_satisfy q xs ≡ false
  unfolding list_any_satisfy
  list_any_satisfy-implica p q [] f h = refl
  list_any_satisfy-implica p q (x ∷ xs) f h = ground (arith, f x, list_any_satisfy-implica p q xs f)

  pub list_find-set :
      (p : A → Bool) (xs : List A) (i : ℕ) (v : A)
      → list_find p xs ≡ none
      → i < length xs
      → p v ≡ true
      → list_find p (set xs i v) ≡ some v
  unfolding list_find
  list_find-set p [] i v h l y = absurd (omega arith)
  list_find-set p (x ∷ xs) zero v h l y = rw y refl
  list_find-set p (x ∷ xs) (suc i) v h l y =
      let l' : i < length xs = omega arith in ground (arith, list_find-set p xs i v, l')

  -- The write through the pointer is found where it was.
  pub list_find-modificar_si :
      (p : A → Bool) (f : A → A) (xs : List A) (x : A)
      → list_find p xs ≡ some x
      → p (f x) ≡ true
      → list_find p (modificar_si p f xs) ≡ some (f x)
  unfolding list_find modificar_si
  list_find-modificar_si p f [] x h k = cc
  list_find-modificar_si p f (y ∷ xs) x h k = elim (Bool-cases (p y)) [
    | inl z ↦
        let e : y ≡ x = some-injective _ _ (rw z at h) in
        rw z (rw (ap (λ v. p (f v)) e ∙ k) (ap (λ v. some (f v)) e))
    | inr z ↦ rw z (rw z (list_find-modificar_si p f xs x (rw z at h) k))
  ]

  pub list_find-append :
      (p : A → Bool) (xs : List A) (v : A)
      → list_find p xs ≡ none
      → p v ≡ true
      → list_find p (xs ++ (v ∷ [])) ≡ some v
  unfolding list_find
  list_find-append p [] v h y = rw y refl
  list_find-append p (x ∷ xs) v h y = ground (arith, list_find-append p xs v)

  -- Every element of the list.
  abbrev pub Todos {κ} : (A → Type κ) → List A → Type κ
  Todos P [] = Unit
  Todos P (x ∷ xs) = P x × Todos P xs

  pub Todos-implica {κ μ} :
      (P : A → Type κ) (Q : A → Type μ) (xs : List A)
      → ((x : A) → P x → Q x)
      → Todos P xs
      → Todos Q xs
  Todos-implica P Q [] f h = tt
  Todos-implica P Q (x ∷ xs) f h = (f x h.0, Todos-implica P Q xs f h.1)

  pub Todos-append {κ} :
      (P : A → Type κ) (xs ys : List A) → Todos P xs → Todos P ys → Todos P (xs ++ ys)
  Todos-append P [] ys h k = k
  Todos-append P (x ∷ xs) ys h k = (h.0, Todos-append P xs ys h.1 k)

  pub Todos-set {κ} :
      (P : A → Type κ) (xs : List A) (i : ℕ) (v : A) → Todos P xs → P v → Todos P (set xs i v)
  Todos-set P [] i v h k = tt
  Todos-set P (x ∷ xs) zero v h k = (k, h.1)
  Todos-set P (x ∷ xs) (suc i) v h k = (h.0, Todos-set P xs i v h.1 k)

  pub Todos-modificar_si {κ} :
      (P : A → Type κ) (p : A → Bool) (f : A → A) (xs : List A)
      → ((x : A) → P x → P (f x))
      → Todos P xs
      → Todos P (modificar_si p f xs)
  unfolding modificar_si
  Todos-modificar_si P p f [] k h = tt
  Todos-modificar_si P p f (x ∷ xs) k h = elim (Bool-cases (p x)) [
    | inl y ↦ rw y (k x h.0, h.1)
    | inr y ↦ rw y (h.0, Todos-modificar_si P p f xs k h.1)
  ]

  pub Todos-get_elem? {κ} :
      (P : A → Type κ) (xs : List A) (i : ℕ) (x : A) → Todos P xs → get_elem? xs i ≡ some x → P x
  Todos-get_elem? P [] i x h e = cc
  Todos-get_elem? P (y ∷ xs) zero x h e = subst P (some-injective _ _ e) h.0
  Todos-get_elem? P (y ∷ xs) (suc i) x h e = Todos-get_elem? P xs i x h.1 e

  pub Todos-list_find {κ} :
      (P : A → Type κ) (p : A → Bool) (xs : List A) (x : A)
      → Todos P xs
      → list_find p xs ≡ some x
      → P x
  unfolding list_find
  Todos-list_find P p [] x h e = cc
  Todos-list_find P p (y ∷ xs) x h e = elim (Bool-cases (p y)) [
    | inl z ↦ subst P (some-injective _ _ (rw z at e)) h.0
    | inr z ↦ Todos-list_find P p xs x h.1 (rw z at e)
  ]
