-- ===== src/Swamp/Archivos.antt =====
-- swamp/src/swap.c: the state of the module (swap_list, swap_dict, the configuration), the mapped
-- files, the dictionary of processes, and the choice of a file for a new process.
pub mod Lectura
pub mod MenosOcupado
use tp_sistemas_operativos.Base.{
  ℕ, suc, ◌+◌, ◌-◌, ◌/◌, List, [], ◌∷◌, Option, none, some, ◌==◌, ltb, leb, if◌then◌else◌, length,
  take, drop, write_at,
}
use tp_sistemas_operativos.Swamp.Tabla.{Fila, tabla_paginas_size}

-- `nodo_swap_list`, with the bytes of the file of that name. The names of the files of the
-- configuration are distinct, so a file stands with its node.
pub record Nodo : Type 0 where
  pub tabla_paginas : List Fila
  pub archivo : List ℕ

-- The globals of swap.h. `swap_list` does not change after the start, so a pointer to a table is
-- the index of its node. `swap_dict` takes a process to the table of its file.
pub record Swap : Type 0 where
  pub swap_file_size : ℕ
  pub swap_page_size : ℕ
  pub marcos_por_carpincho : ℕ
  pub tipo_asignacion : ℕ
  pub swap_list : List Nodo
  pub swap_dict : List (ℕ × ℕ)

abbrev pub asignacion_fija : ℕ
asignacion_fija = 0

abbrev pub asignacion_dinamica : ℕ
asignacion_dinamica = 1

-- The dictionary, keyed by the process.
unfoldable pub dictionary_get : ℕ → List (ℕ × ℕ) → Option ℕ
dictionary_get k [] = none
dictionary_get k ((j, v) ∷ m) = let sigue = dictionary_get k m in if j == k then some v else sigue

pub dictionary_remove : ℕ → List (ℕ × ℕ) → List (ℕ × ℕ)
dictionary_remove k [] = []
dictionary_remove k ((j, v) ∷ m) =
    let sigue = dictionary_remove k m in if j == k then sigue else (j, v) ∷ sigue

pub dictionary_put : ℕ → ℕ → List (ℕ × ℕ) → List (ℕ × ℕ)
dictionary_put k v m = (k, v) ∷ dictionary_remove k m

-- `memcpy(map + off, src, n)` and a read of `n` bytes at `map + off`. `none` is an access outside
-- of the mapping or of the source.
unfoldable pub memcpy_to : List ℕ → ℕ → List ℕ → ℕ → Option (List ℕ)
memcpy_to map off src n =
    if leb n (length src)
    then (if leb (off + n) (length map) then some (write_at map off (take n src)) else none)
    else none

unfoldable pub memcpy_from : List ℕ → ℕ → ℕ → Option (List ℕ)
memcpy_from map off n = if leb (off + n) (length map) then some (take n (drop off map)) else none

abbrev pub frames_count : Swap → ℕ
frames_count s = s.swap_file_size / s.swap_page_size

-- The loop of `swap_file_menos_ocupado`: the index of the node it stands at, the most free frames
-- so far and the node that has them. A file with more used frames than it has counts as full, as
-- the negative difference does in the code.
pub menos_ocupado : ℕ → List Nodo → ℕ → ℕ → Option ℕ → Option ℕ
menos_ocupado frames [] i most resultado = if most == 0 then none else resultado
menos_ocupado frames (nodo ∷ nodos) i most resultado =
    let libres = frames - tabla_paginas_size nodo.tabla_paginas in
    menos_ocupado frames nodos (suc i) (if ltb most libres then libres else most)
      (if ltb most libres then some i else resultado)

-- `NULL` if no file has a free frame.
pub swap_file_menos_ocupado : Swap → Option ℕ
unfolding menos_ocupado
swap_file_menos_ocupado s = menos_ocupado (frames_count s) s.swap_list 0 0 none
