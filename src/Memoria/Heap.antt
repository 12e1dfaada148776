-- ===== src/Memoria/Heap.antt =====
-- memoria/src/memory_utils.c: the metadata of an allocation in the memory, and the way through
-- the allocations of a process.
pub mod Metadatos
use tp_sistemas_operativos.Base.{
  ℕ, zero, suc, ◌+◌, ◌-◌, ◌*◌, ◌/◌, ◌%◌, List, [], ◌∷◌, Option, none, some, ◌==◌, leb, ◌&&◌, true,
  false, ◌>>=◌,
}
use tp_sistemas_operativos.Swamp.Archivos.{memcpy_to, memcpy_from}
use tp_sistemas_operativos.Memoria.Estado.{Pagina, Tabla, Memoria, Swamp, get_page_de}
use tp_sistemas_operativos.Memoria.Traduccion.{get_frame_de_un}

pub record HeapMetaData : Type 0 where
  pub prev_alloc : ℕ
  pub next_alloc : ℕ
  pub isfree : ℕ

-- The bytes of a `uint32_t`, the least one first, and the `uint32_t` of four bytes.
unfoldable pub bytes_de : ℕ → List ℕ
bytes_de n = n % 256 ∷ n / 256 % 256 ∷ n / 65536 % 256 ∷ n / 16777216 % 256 ∷ []

unfoldable pub de_bytes : List ℕ → ℕ
de_bytes [] = 0
de_bytes (b ∷ q) = b + 256 * de_bytes q

-- The code copies the fields one after the other.
unfoldable pub set_heap_metadata : HeapMetaData → ℕ → List ℕ → Option (List ℕ)
unfolding memcpy_to bytes_de
set_heap_metadata heap offset memoria = do
  m1 ← memcpy_to memoria offset (bytes_de heap.prev_alloc) 4
  m2 ← memcpy_to m1 (offset + 4) (bytes_de heap.next_alloc) 4
  memcpy_to m2 (offset + 8) (heap.isfree % 256 ∷ []) 1

unfoldable pub get_heap_metadata : ℕ → List ℕ → Option HeapMetaData
unfolding memcpy_from de_bytes
get_heap_metadata offset memoria = do
  prev ← memcpy_from memoria offset 4
  next ← memcpy_from memoria (offset + 4) 4
  libre ← memcpy_from memoria (offset + 8) 1
  some (record { prev_alloc = de_bytes prev; next_alloc = de_bytes next; isfree = de_bytes libre })

module _ {S : Type 0} (red : Swamp S) (vueltas : ℕ) where
  -- The loop from the allocation at `actual` on; `none` inside is the NULL of an address that no
  -- allocation has. The fuel bounds the allocations that are read.
  unfoldable pub page_desde :
      ℕ → ℕ → ℕ → ℕ → ℕ → Memoria S → Option (Option (ℕ × Pagina) × Memoria S)
  unfolding get_page_de get_frame_de_un get_heap_metadata
  page_desde zero pid final dir actual m = none
  page_desde (suc n) pid final dir actual m =
      let t = m.tamanio_de_pagina in
      elim (leb actual dir && leb dir final) [
        | false ↦ some (none, m)
        | true ↦ elim (actual == dir) [
          | true ↦ get_page_de pid (actual / t + 1) m >>= λ x. some (some x, m)
          | false ↦ do
            (frame, m1) ← get_frame_de_un red vueltas pid (actual / t + 1) m
            heap ← get_heap_metadata (frame * t + (actual - actual / t * t)) m1.memoria
            page_desde n pid final dir heap.next_alloc m1
        ]
      ]

  unfoldable pub get_page_by_dir_logica :
      ℕ → Tabla → ℕ → Memoria S → Option (Option (ℕ × Pagina) × Memoria S)
  unfolding page_desde
  get_page_by_dir_logica n tabla dir m = page_desde n tabla.id tabla.last_heap dir 0 m
