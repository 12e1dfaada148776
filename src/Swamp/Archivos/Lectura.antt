-- ===== src/Swamp/Archivos/Lectura.antt =====
-- The frames of a mapped swap file of swamp/src/swap.c: what a write of one frame does to the
-- reads, and the dictionary of processes.

use native.Mathlib.Nat.{mul-div-le}
use tp_sistemas_operativos.Base.{
  ℕ, suc, ◌+◌, ◌*◌, ◌/◌, ◌≤◌, ◌<◌, ◌≡◌, ◌≢◌, refl, ap, subst, dec_lt, List, [], ◌∷◌, none, some,
  ◌==◌, if◌then◌else◌, arith, length, take, drop, write_at, read-write_at, drop-write_at_after,
  read-write_at_before,
}
use tp_sistemas_operativos.Swamp.Archivos.{
  dictionary_get, dictionary_remove, dictionary_put, memcpy_to, memcpy_from,
}

-- The bytes of a frame.
abbrev pub leer : ℕ → List ℕ → ℕ → List ℕ
leer tam archivo frame = take tam (drop (tam * frame) archivo)

pub take_todo {ℓ} : {A : Type ℓ} (xs : List A) → take (length xs) xs ≡ xs
take_todo [] = refl
take_todo (x ∷ xs) = ap (λ r. x ∷ r) (take_todo xs)

pub mul_le : (a b c : ℕ) → b ≤ c → a * b ≤ a * c
mul_le a b c h = grind arith

-- A frame below the count lies inside of the file.
pub cabe : (total tam frame : ℕ) → frame < total / tam → tam * frame + tam ≤ total
cabe total tam frame h = omega (arith, mul_le tam (suc frame) (total / tam) h, mul-div-le total tam)

pub memcpy_to-write_at :
    (archivo : List ℕ) (off n : ℕ) (c : List ℕ)
    → length c ≡ n
    → off + n ≤ length archivo
    → memcpy_to archivo off c n ≡ some (write_at archivo off c)
unfolding memcpy_to
memcpy_to-write_at archivo off n c e h = ground (arith, ap (λ n. take n c) e, take_todo c)

pub memcpy_from-take :
    (archivo : List ℕ) (off n : ℕ)
    → off + n ≤ length archivo
    → memcpy_from archivo off n ≡ some (take n (drop off archivo))
unfolding memcpy_from
memcpy_from-take archivo off n h = ground arith

pub memcpy_to-some :
    (archivo : List ℕ) (tam frame : ℕ) (c : List ℕ)
    → length c ≡ tam
    → tam * frame + tam ≤ length archivo
    → memcpy_to archivo (tam * frame) c tam ≡ some (write_at archivo (tam * frame) c)
memcpy_to-some archivo tam frame c e h = memcpy_to-write_at archivo (tam * frame) tam c e h

pub memcpy_from-some :
    (archivo : List ℕ) (tam frame : ℕ)
    → tam * frame + tam ≤ length archivo
    → memcpy_from archivo (tam * frame) tam ≡ some (leer tam archivo frame)
memcpy_from-some archivo tam frame h = memcpy_from-take archivo (tam * frame) tam h

pub leer-write_at :
    (archivo : List ℕ) (tam frame : ℕ) (c : List ℕ)
    → length c ≡ tam
    → tam * frame + tam ≤ length archivo
    → leer tam (write_at archivo (tam * frame) c) frame ≡ c
leer-write_at archivo tam frame c e h =
    subst (λ n. take n (drop (tam * frame) (write_at archivo (tam * frame) c)) ≡ c) e
      (read-write_at archivo (tam * frame) c (omega arith))

pub leer-write_at_otro :
    (archivo : List ℕ) (tam frame otro : ℕ) (c : List ℕ)
    → length c ≡ tam
    → frame ≢ otro
    → leer tam (write_at archivo (tam * frame) c) otro ≡ leer tam archivo otro
leer-write_at_otro archivo tam frame otro c e ne = elim (dec_lt frame otro) [
  | yes h ↦ ap (take tam) (
      drop-write_at_after archivo (tam * frame) c (tam * otro)
        (omega (arith, mul_le tam (suc frame) otro h)))
  | no h ↦
      read-write_at_before archivo (tam * frame) c (tam * otro) tam
        (omega (arith, mul_le tam (suc otro) frame (omega arith)))
]

pub dictionary_get-remove :
    (k j : ℕ) (m : List (ℕ × ℕ))
    → dictionary_get j (dictionary_remove k m) ≡ (if k == j then none else dictionary_get j m)
unfolding dictionary_get dictionary_remove
dictionary_get-remove k j [] = ground arith
dictionary_get-remove k j ((i, v) ∷ m) = ground (arith, dictionary_get-remove k j m)

pub dictionary_get-put :
    (k j v : ℕ) (m : List (ℕ × ℕ))
    → dictionary_get j (dictionary_put k v m) ≡ (if k == j then some v else dictionary_get j m)
unfolding dictionary_get dictionary_put
dictionary_get-put k j v m = ground (arith, dictionary_get-remove k j m)
