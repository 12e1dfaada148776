-- ===== src/Memoria/Heap/Metadatos.antt =====
-- memoria/src/memory_utils.c: the metadata that is written is read back.
use tp_sistemas_operativos.Base.{
  ℕ, ◌+◌, ◌<◌, ◌≤◌, ◌≡◌, refl, ap, subst, ◌∙◌, List, [], ◌∷◌, some, arith, length, take, drop,
  write_at, read-write_at, read-write_at_before, length-write_at, ◌%◌,
}
use tp_sistemas_operativos.Swamp.Archivos.Lectura.{memcpy_to-write_at, memcpy_from-take}
use tp_sistemas_operativos.Memoria.Heap.{
  HeapMetaData, bytes_de, de_bytes, set_heap_metadata, get_heap_metadata,
}

-- A `uint32_t` is the one of its bytes.
de_bytes-bytes_de : (n : ℕ) → n < 4294967296 → de_bytes (bytes_de n) ≡ n
unfolding de_bytes bytes_de
de_bytes-bytes_de n h = omega arith

de_byte : (n : ℕ) → n < 256 → de_bytes (n % 256 ∷ []) ≡ n
unfolding de_bytes
de_byte n h = omega arith

length-bytes_de : (n : ℕ) → length (bytes_de n) ≡ 4
unfolding bytes_de
length-bytes_de n = refl

-- The memory after the three copies.
abbrev tres : List ℕ → ℕ → List ℕ → List ℕ → List ℕ → List ℕ
tres m offset a b c = write_at (write_at (write_at m offset a) (offset + 4) b) (offset + 8) c

length-tres : (m : List ℕ) (offset : ℕ) (a b c : List ℕ) → length (tres m offset a b c) ≡ length m
length-tres m offset a b c =
    length-write_at (write_at (write_at m offset a) (offset + 4) b) (offset + 8) c
    ∙ length-write_at (write_at m offset a) (offset + 4) b
    ∙ length-write_at m offset a

-- Each part of it is read back.
tres-primera :
    (m : List ℕ) (offset : ℕ) (a b c : List ℕ)
    → length a ≡ 4
    → offset + 9 ≤ length m
    → take 4 (drop offset (tres m offset a b c)) ≡ a
tres-primera m offset a b c e h =
    read-write_at_before (write_at (write_at m offset a) (offset + 4) b) (offset + 8) c offset 4
      (omega arith)
    ∙ read-write_at_before (write_at m offset a) (offset + 4) b offset 4 (omega arith)
    ∙ subst (λ n. take n (drop offset (write_at m offset a)) ≡ a) e
        (read-write_at m offset a (omega arith))

tres-segunda :
    (m : List ℕ) (offset : ℕ) (a b c : List ℕ)
    → length b ≡ 4
    → offset + 9 ≤ length m
    → take 4 (drop (offset + 4) (tres m offset a b c)) ≡ b
tres-segunda m offset a b c e h =
    read-write_at_before (write_at (write_at m offset a) (offset + 4) b) (offset + 8) c (offset + 4)
      4 (omega arith)
    ∙ subst (λ n. take n (drop (offset + 4) (write_at (write_at m offset a) (offset + 4) b)) ≡ b) e
        (read-write_at (write_at m offset a) (offset + 4) b
          (omega (arith, length-write_at m offset a)))

tres-tercera :
    (m : List ℕ) (offset : ℕ) (a b c : List ℕ)
    → length c ≡ 1
    → offset + 9 ≤ length m
    → take 1 (drop (offset + 8) (tres m offset a b c)) ≡ c
tres-tercera m offset a b c e h =
    subst (λ n. take n (drop (offset + 8) (tres m offset a b c)) ≡ c) e
      (read-write_at (write_at (write_at m offset a) (offset + 4) b) (offset + 8) c (
        omega (
          arith,
          length-write_at m offset a,
          length-write_at (write_at m offset a) (offset + 4) b,
        )))

abbrev escrita : HeapMetaData → ℕ → List ℕ → List ℕ
escrita heap offset m =
    tres m offset (bytes_de heap.prev_alloc) (bytes_de heap.next_alloc) (heap.isfree % 256 ∷ [])

set-escrita :
    (heap : HeapMetaData) (offset : ℕ) (m : List ℕ)
    → offset + 9 ≤ length m
    → set_heap_metadata heap offset m ≡ some (escrita heap offset m)
unfolding set_heap_metadata
set-escrita heap offset m h =
    let a = bytes_de heap.prev_alloc in
    let b = bytes_de heap.next_alloc in
    let l1 = length-write_at m offset a in
    let l2 = length-write_at (write_at m offset a) (offset + 4) b in
    rw (memcpy_to-write_at m offset 4 a (length-bytes_de heap.prev_alloc) (omega arith)) (
      rw
        (memcpy_to-write_at (write_at m offset a) (offset + 4) 4 b (length-bytes_de heap.next_alloc)
          (omega arith))
        (memcpy_to-write_at (write_at (write_at m offset a) (offset + 4) b) (offset + 8) 1
          (heap.isfree % 256 ∷ []) refl (omega arith)))

get-escrita :
    (heap : HeapMetaData) (offset : ℕ) (m : List ℕ)
    → heap.prev_alloc < 4294967296
    → heap.next_alloc < 4294967296
    → heap.isfree < 256
    → offset + 9 ≤ length m
    → get_heap_metadata offset (escrita heap offset m) ≡ some heap
unfolding get_heap_metadata
get-escrita heap offset m x y z h =
    let a = bytes_de heap.prev_alloc in
    let b = bytes_de heap.next_alloc in
    let c : List ℕ = heap.isfree % 256 ∷ [] in
    let l = length-tres m offset a b c in
    rw
      (
        memcpy_from-take (tres m offset a b c) offset 4 (omega arith),
        tres-primera m offset a b c (length-bytes_de heap.prev_alloc) h,
      )
      (rw
        (
          memcpy_from-take (tres m offset a b c) (offset + 4) 4 (omega arith),
          tres-segunda m offset a b c (length-bytes_de heap.next_alloc) h,
        )
        (rw
          (
            memcpy_from-take (tres m offset a b c) (offset + 8) 1 (omega arith),
            tres-tercera m offset a b c refl h,
          )
          (ap some (λ i. record {
            prev_alloc = de_bytes-bytes_de heap.prev_alloc x i;
            next_alloc = de_bytes-bytes_de heap.next_alloc y i;
            isfree = de_byte heap.isfree z i;
          }))))

-- The metadata of an allocation, with fields of 32, 32 and 8 bits, that is written at an offset
-- with nine bytes in the memory is written, leaves the length of the memory as it was, and is read
-- back.
pub get-set_heap_metadata :
    (heap : HeapMetaData) (offset : ℕ) (m : List ℕ)
    → heap.prev_alloc < 4294967296
    → heap.next_alloc < 4294967296
    → heap.isfree < 256
    → offset + 9 ≤ length m
    → (m' : List ℕ) × (set_heap_metadata heap offset m ≡ some m')
      × (length m' ≡ length m)
      × (get_heap_metadata offset m' ≡ some heap)
get-set_heap_metadata heap offset m x y z h =
    (_, set-escrita heap offset m h, length-tres m offset _ _ _, get-escrita heap offset m x y z h)
