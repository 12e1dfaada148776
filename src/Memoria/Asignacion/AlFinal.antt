-- ===== src/Memoria/Asignacion/AlFinal.antt =====
-- memoria/src/memory_utils.c: memalloc, for a new allocation at the end, in the pages that there are.
use native.Mathlib.Nat.{div-add-mod'}
use tp_sistemas_operativos.Base.{
  ℕ, ◌+◌, ◌*◌, ◌-◌, ◌/◌, ◌<◌, ◌≤◌, ◌≡◌, refl, ap, ◌∙◌, dec_lt, List, [], ◌∷◌, ◌++◌, some, true, leb,
  arith, length,
}
use tp_sistemas_operativos.Swamp.Archivos.Lectura.{mul_le}
use tp_sistemas_operativos.Memoria.Estado.{busy, Tabla, Memoria, Swamp, get_pages_by}
use tp_sistemas_operativos.Memoria.Contrato.{Contrato}
use tp_sistemas_operativos.Memoria.Datos.{heap_metadata_size, read_from_memory}
use tp_sistemas_operativos.Memoria.Datos.UnaPagina.{Fija, CabenEn}
use tp_sistemas_operativos.Memoria.Datos.VariasPaginas.{Distintos}
use tp_sistemas_operativos.Memoria.Datos.IdaYVuelta.{editar_algo, leer_algo, Estan-AntesDe}
use tp_sistemas_operativos.Memoria.Heap.{bytes_de}
use tp_sistemas_operativos.Memoria.Asignacion.{
  mayor_nro_de_pagina, escribir_ultimo, alloc_segun_lugar, alloc_al_final, con_last_heap,
}

div_menor : (x t k : ℕ) → x < k * t → x / t < k
div_menor x t k h = elim (dec_lt (x / t) k) [
  | yes l ↦ l
  | no n ↦ absurd (omega (arith, div-add-mod' x t, mul_le t k (x / t) (omega arith)))
]

-- The metadata of a last allocation.
abbrev pub ultimo_heap : ℕ → List ℕ
ultimo_heap last = bytes_de last ++ (bytes_de 0 ++ (busy ∷ []))

-- The next field and the state of an allocation that is taken.
abbrev pub siguiente_y_estado : ℕ → List ℕ
siguiente_y_estado ubicacion = bytes_de ubicacion ++ (busy ∷ [])

module _ {S : Type 0} (red : Swamp S) (vueltas pid : ℕ) (fs : List ℕ) (t : ℕ)
    {T : ℕ → ℕ → S → Type 0} where
  escribir_ultimo_lem :
      (mem : List ℕ) (last ubicacion : ℕ) (m : Memoria S)
      → Contrato red t T
      → Distintos fs
      → Fija T pid fs t mem m
      → CabenEn fs t mem
      → 0 < t
      → last + 9 ≤ ubicacion
      → ubicacion + 9 ≤ length fs * t
      → (m' m'' m3 : Memoria S) × (escribir_ultimo red vueltas pid last ubicacion m ≡ some m')
        × (read_from_memory red vueltas pid ubicacion 9 m' ≡ some (ultimo_heap last, m''))
        × (read_from_memory red vueltas pid (last + 4) 5 m'
            ≡ some (siguiente_y_estado ubicacion, m3))
  unfolding escribir_ultimo bytes_de
  escribir_ultimo_lem mem last ubicacion m resp d x c ht h k =
      let escritos = siguiente_y_estado ubicacion in
      let l1 : (last + 4 + 5 - 1) / t < length fs = div_menor _ t (length fs) (omega arith) in
      let l2 : (ubicacion + 9 - 1) / t < length fs = div_menor _ t (length fs) (omega arith) in
      let (m1, q, (mem1, x1, c1, esta1, _)) =
        editar_algo red vueltas pid fs t mem (last + 4) escritos m resp d x c ht (omega arith) l1 in
      let (m2, q2, (mem2, x2, c2, esta2, antes)) =
        editar_algo red vueltas pid fs t mem1 ubicacion (ultimo_heap last) m1 resp d x1 c1 ht
          (omega arith) l2 in
      let (m3, r) =
        leer_algo red vueltas pid fs t mem2 ubicacion (ultimo_heap last) m2 esta2 x2 c2 ht
          (omega arith) l2 in
      let quedan =
        Estan-AntesDe red vueltas pid fs t mem1 mem2 (last + 4) escritos ubicacion ht (omega arith)
          (omega arith) antes esta1 in
      let (m4, r4) =
        leer_algo red vueltas pid fs t mem2 (last + 4) escritos m2 quedan x2 c2 ht (omega arith)
          l1 in
      (m2, m3, m4, rw q q2, r, r4)

  -- For a process whose pages are all present, in distinct frames that lie in the memory, with a
  -- TLB that agrees with them, a size of a page that is not 0 and swamp having every page of the
  -- process and keeping the contract of Memoria/Contrato.antt, whose greatest busy page is the last
  -- one: when the pages have place after the last allocation for its metadata, for the bytes that
  -- are asked for and for metadata again, the new allocation always ends. The answer is the place
  -- of the last allocation; its new place is after the bytes that were asked for; reading there
  -- gives metadata that points back to the answer, to nothing after it, and is busy; and reading
  -- the rest of the metadata at the answer, after its first four bytes, gives that new place and
  -- busy.
  pub alloc_al_final_lem :
      (mem : List ℕ) (pedido : ℕ) (tabla : Tabla) (m : Memoria S)
      → Contrato red t T
      → Distintos fs
      → Fija T pid fs t mem m
      → CabenEn fs t mem
      → 0 < t
      → get_pages_by pid m ≡ some tabla
      → mayor_nro_de_pagina 0 tabla.paginas ≡ length fs
      → tabla.last_heap + 9 + (pedido + 9) ≤ length fs * t
      → (m' m'' m3 : Memoria S) × (alloc_al_final red vueltas pid pedido m
          ≡ some (tabla.last_heap, con_last_heap pid (tabla.last_heap + (pedido + 9)) m'))
        × (read_from_memory red vueltas pid (tabla.last_heap + (pedido + 9)) 9 m'
            ≡ some (ultimo_heap tabla.last_heap, m''))
        × (read_from_memory red vueltas pid (tabla.last_heap + 4) 5 m'
            ≡ some (siguiente_y_estado (tabla.last_heap + (pedido + 9)), m3))
  unfolding alloc_al_final alloc_segun_lugar
  alloc_al_final_lem mem pedido tabla m resp d x c ht g mayor k =
      let last = tabla.last_heap in
      let (m', m'', m3, q, r, r3) =
        escribir_ultimo_lem mem last (last + (pedido + 9)) m resp d x c ht (omega arith)
          (omega arith) in
      let y : leb (last + heap_metadata_size + (pedido + heap_metadata_size))
            (mayor_nro_de_pagina 0 tabla.paginas * m.tamanio_de_pagina)
          ≡ true =
        rw (mayor, x.tamanio) (ground (arith, k)) in
      (
        m',
        m'',
        m3,
        rw g (ap (λ b. alloc_segun_lugar red vueltas b pid tabla (pedido + 9) m) y ∙ rw q refl),
        r,
        r3,
      )
