-- ===== src/Swamp/Tabla.antt =====
-- swamp/src/swap.c: the inverted page table of a swap file, and the loops that search it.
pub mod Busqueda
pub mod Bloques
pub mod Limpiar
use tp_sistemas_operativos.Base.{
  ℕ, suc, Bool, true, false, ◌&&◌, List, [], ◌∷◌, ◌==◌, if◌then◌else◌,
}

-- `fila_tabla_paginas`: the row at index i says what frame i of the file holds. Process and page
-- numbers are only compared, so they are natural numbers.
pub record Fila : Type 0 where
  pub proceso : ℕ
  pub pagina : ℕ

-- 9999 as a process marks a row that was freed, and as a page one that is reserved.
abbrev pub libre : ℕ
libre = 9999

-- The number of rows that belong to some process.
unfoldable pub tabla_paginas_size : List Fila → ℕ
tabla_paginas_size [] = 0
tabla_paginas_size (fila ∷ tabla) =
    let size = tabla_paginas_size tabla in if fila.proceso == libre then size else suc size

-- The number of rows that hold a page.
pub frames_ocupados : List Fila → ℕ
frames_ocupados [] = 0
frames_ocupados (fila ∷ tabla) =
    let i = frames_ocupados tabla in if fila.pagina == libre then i else suc i

-- The index of the first row that was freed or is reserved for the process; the length of the
-- table if there is none.
unfoldable pub get_first_free_frame_number : List Fila → ℕ → ℕ
get_first_free_frame_number [] proceso = 0
get_first_free_frame_number (fila ∷ tabla) proceso =
    let sigue = suc (get_first_free_frame_number tabla proceso) in
    if fila.proceso == libre
    then 0
    else if fila.proceso == proceso
    then (if fila.pagina == libre then 0 else sigue)
    else sigue

-- The index of the first row of the process with the page; the length of the table if there is
-- none.
unfoldable pub get_frame_number : List Fila → ℕ → ℕ → ℕ
get_frame_number [] proceso pagina = 0
get_frame_number (fila ∷ tabla) proceso pagina =
    let sigue = suc (get_frame_number tabla proceso pagina) in
    if fila.proceso == proceso then (if fila.pagina == pagina then 0 else sigue) else sigue

unfoldable pub pagina_esta_en_swap : List Fila → ℕ → ℕ → Bool
pagina_esta_en_swap [] proceso pagina = false
pagina_esta_en_swap (fila ∷ tabla) proceso pagina =
    let sigue = pagina_esta_en_swap tabla proceso pagina in
    if fila.proceso == proceso && fila.pagina == pagina then true else sigue
