-- ===== src/Base/Lists.antt =====
-- Lists measured and indexed by native numbers, under the library's names, and copies of byte
-- ranges as `memcpy` makes them.
use Prim.Native.Nat.{ℕ, zero, suc, ◌+◌, ◌-◌, ◌≤◌, ◌<◌}
use mathlib.Core.Path.{◌≡◌, refl, ap}
use mathlib.Core.Logic.{◌≢◌}
use mathlib.Core.List.{List, [], ◌∷◌, ◌++◌}
use mathlib.Core.Option.{Option, none, some}
use native.Mathlib.Omega.{arith}

module _ {ℓ} {A : Type ℓ} where
  abbrev pub length : List A → ℕ
  length [] = 0
  length (x ∷ xs) = suc (length xs)

  abbrev pub get_elem? : List A → ℕ → Option A
  get_elem? [] i = none
  get_elem? (x ∷ xs) zero = some x
  get_elem? (x ∷ xs) (suc i) = get_elem? xs i

  -- A write out of bounds changes nothing.
  abbrev pub set : List A → ℕ → A → List A
  set [] i v = []
  set (x ∷ xs) zero v = v ∷ xs
  set (x ∷ xs) (suc i) v = x ∷ set xs i v

  abbrev pub take : ℕ → List A → List A
  take zero xs = []
  take (suc n) [] = []
  take (suc n) (x ∷ xs) = x ∷ take n xs

  abbrev pub drop : ℕ → List A → List A
  drop zero xs = xs
  drop (suc n) [] = []
  drop (suc n) (x ∷ xs) = drop n xs

  abbrev pub replicate : ℕ → A → List A
  replicate zero a = []
  replicate (suc n) a = a ∷ replicate n a

  pub length-append : (xs ys : List A) → length (xs ++ ys) ≡ length xs + length ys
  length-append [] ys = omega arith
  length-append (x ∷ xs) ys = omega (arith, length-append xs ys)

module _ {ℓ} {A : Type ℓ} where
  pub length-set : (xs : List A) (i : ℕ) (v : A) → length (set xs i v) ≡ length xs
  length-set [] i v = refl
  length-set (x ∷ xs) zero v = refl
  length-set (x ∷ xs) (suc i) v = ap suc (length-set xs i v)

  pub set_past : (xs : List A) (i : ℕ) (v : A) → length xs ≤ i → set xs i v ≡ xs
  set_past [] i v h = refl
  set_past (x ∷ xs) zero v h = elim h [ ]
  set_past (x ∷ xs) (suc i) v h = ap (λ r. x ∷ r) (set_past xs i v (omega arith))

  pub get_elem?-set_self :
      (xs : List A) (i : ℕ) (v : A) → i < length xs → get_elem? (set xs i v) i ≡ some v
  get_elem?-set_self [] i v h = elim h [ ]
  get_elem?-set_self (x ∷ xs) zero v h = refl
  get_elem?-set_self (x ∷ xs) (suc i) v h = get_elem?-set_self xs i v (omega arith)

  pub get_elem?-set_ne :
      (xs : List A) (i j : ℕ) (v : A) → i ≢ j → get_elem? (set xs i v) j ≡ get_elem? xs j
  get_elem?-set_ne [] i j v h = refl
  get_elem?-set_ne (x ∷ xs) zero zero v h = absurd (h refl)
  get_elem?-set_ne (x ∷ xs) zero (suc j) v h = refl
  get_elem?-set_ne (x ∷ xs) (suc i) zero v h = refl
  get_elem?-set_ne (x ∷ xs) (suc i) (suc j) v h = get_elem?-set_ne xs i j v (λ e. h (ap suc e))

  pub get_elem?-lt : (xs : List A) (i : ℕ) (v : A) → get_elem? xs i ≡ some v → i < length xs
  get_elem?-lt [] i v h = cc
  get_elem?-lt (x ∷ xs) zero v h = omega arith
  get_elem?-lt (x ∷ xs) (suc i) v h = omega (arith, get_elem?-lt xs i v h)

  pub get_elem?-some : (xs : List A) (i : ℕ) → i < length xs → (v : A) × (get_elem? xs i ≡ some v)
  get_elem?-some [] i h = elim h [ ]
  get_elem?-some (x ∷ xs) zero h = (x, refl)
  get_elem?-some (x ∷ xs) (suc i) h = get_elem?-some xs i (omega arith)

  pub length-replicate : (n : ℕ) (a : A) → length (replicate n a) ≡ n
  length-replicate zero a = refl
  length-replicate (suc n) a = ap suc (length-replicate n a)

  pub length-take_le : (n : ℕ) (xs : List A) → n ≤ length xs → length (take n xs) ≡ n
  length-take_le zero xs h = refl
  length-take_le (suc n) [] h = elim h [ ]
  length-take_le (suc n) (x ∷ xs) h = omega (arith, length-take_le n xs)

  pub length-drop : (n : ℕ) (xs : List A) → length (drop n xs) ≡ length xs - n
  length-drop zero xs = omega arith
  length-drop (suc n) [] = omega arith
  length-drop (suc n) (x ∷ xs) = omega (arith, length-drop n xs)

  -- The bytes `src`, laid over `dst` from the offset on; what would lie past the end is lost.
  abbrev pub overlay : List A → List A → List A
  overlay [] src = []
  overlay (x ∷ dst) [] = x ∷ dst
  overlay (x ∷ dst) (y ∷ src) = y ∷ overlay dst src

  abbrev pub write_at : List A → ℕ → List A → List A
  write_at dst zero src = overlay dst src
  write_at [] (suc off) src = []
  write_at (x ∷ dst) (suc off) src = x ∷ write_at dst off src

  pub length-overlay : (dst src : List A) → length (overlay dst src) ≡ length dst
  length-overlay [] src = refl
  length-overlay (x ∷ dst) [] = refl
  length-overlay (x ∷ dst) (y ∷ src) = ap suc (length-overlay dst src)

  pub length-write_at :
      (dst : List A) (off : ℕ) (src : List A) → length (write_at dst off src) ≡ length dst
  length-write_at dst zero src = length-overlay dst src
  length-write_at [] (suc off) src = refl
  length-write_at (x ∷ dst) (suc off) src = ap suc (length-write_at dst off src)

  take-overlay :
      (dst src : List A) → length src ≤ length dst → take (length src) (overlay dst src) ≡ src
  take-overlay dst [] h = refl
  take-overlay [] (y ∷ src) h = elim h [ ]
  take-overlay (x ∷ dst) (y ∷ src) h = ap (λ r. y ∷ r) (take-overlay dst src (omega arith))

  -- What was written is read back.
  pub read-write_at :
      (dst : List A) (off : ℕ) (src : List A)
      → off + length src ≤ length dst
      → take (length src) (drop off (write_at dst off src)) ≡ src
  read-write_at dst zero src h = take-overlay dst src (omega arith)
  read-write_at [] (suc off) [] h = refl
  read-write_at [] (suc off) (y ∷ src) h = absurd (omega arith)
  read-write_at (x ∷ dst) (suc off) src h = read-write_at dst off src (omega arith)

  drop-overlay : (dst src : List A) (o : ℕ) → length src ≤ o → drop o (overlay dst src) ≡ drop o dst
  drop-overlay [] src o h = refl
  drop-overlay (x ∷ dst) [] o h = refl
  drop-overlay (x ∷ dst) (y ∷ src) zero h = elim h [ ]
  drop-overlay (x ∷ dst) (y ∷ src) (suc o) h = drop-overlay dst src o (omega arith)

  -- A read that starts at the end of a write, or later, does not see it.
  pub drop-write_at_after :
      (dst : List A) (off : ℕ) (src : List A) (o : ℕ)
      → off + length src ≤ o
      → drop o (write_at dst off src) ≡ drop o dst
  drop-write_at_after dst zero src o h = drop-overlay dst src o (omega arith)
  drop-write_at_after [] (suc off) src o h = refl
  drop-write_at_after (x ∷ dst) (suc off) src zero h = absurd (omega arith)
  drop-write_at_after (x ∷ dst) (suc off) src (suc o) h =
      drop-write_at_after dst off src o (omega arith)

  take-write_at :
      (dst : List A) (off : ℕ) (src : List A) (n : ℕ)
      → n ≤ off
      → take n (write_at dst off src) ≡ take n dst
  take-write_at dst zero src zero h = refl
  take-write_at dst zero src (suc n) h = elim h [ ]
  take-write_at [] (suc off) src n h = refl
  take-write_at (x ∷ dst) (suc off) src zero h = refl
  take-write_at (x ∷ dst) (suc off) src (suc n) h =
      ap (λ r. x ∷ r) (take-write_at dst off src n (omega arith))

  -- Nor does a read that ends before it.
  pub read-write_at_before :
      (dst : List A) (off : ℕ) (src : List A) (o n : ℕ)
      → o + n ≤ off
      → take n (drop o (write_at dst off src)) ≡ take n (drop o dst)
  read-write_at_before dst off src zero n h = take-write_at dst off src n (omega arith)
  read-write_at_before dst zero src (suc o) n h = absurd (omega arith)
  read-write_at_before [] (suc off) src (suc o) n h = refl
  read-write_at_before (x ∷ dst) (suc off) src (suc o) n h =
      read-write_at_before dst off src o n (omega arith)
