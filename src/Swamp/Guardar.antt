-- ===== src/Swamp/Guardar.antt =====
-- swamp/src/swap.c: guardar_pagina, obtener_pagina and finalizar_proceso. `none` is a fault: an
-- access outside of the mapped file, or through a pointer that is not valid.
pub mod Escribir
pub mod Fija
pub mod Reservar
pub mod Primera
pub mod Dinamica
pub mod Finalizar
use tp_sistemas_operativos.Base.{
  ℕ, zero, suc, ◌+◌, ◌-◌, ◌*◌, List, [], ◌∷◌, ◌++◌, Option, none, some, ◌>>=◌, ◌==◌, ltb,
  if◌then◌else◌, length, get_elem?, set, replicate,
}
use tp_sistemas_operativos.Swamp.Tabla.{
  Fila, libre, tabla_paginas_size, get_first_free_frame_number, get_frame_number,
  pagina_esta_en_swap,
}
use tp_sistemas_operativos.Swamp.Archivos.{
  Nodo, Swap, asignacion_fija, asignacion_dinamica, dictionary_get, dictionary_remove,
  dictionary_put, memcpy_to, memcpy_from, frames_count, swap_file_menos_ocupado,
}

-- The state after the call and the value that it returns, 1 for a saved page.
abbrev pub Resultado : Type 0
Resultado = Option (Swap × ℕ)

abbrev pub fila : ℕ → ℕ → Fila
fila proceso pagina = record { proceso = proceso; pagina = pagina }

-- The rows that reserve further frames: `n` times, the next index takes a reserved row.
pub reservar_desde : ℕ → ℕ → ℕ → List Fila → List Fila
reservar_desde zero frame proceso tabla = tabla
reservar_desde (suc n) frame proceso tabla =
    reservar_desde n (suc frame) proceso (set tabla (suc frame) (fila proceso libre))

-- The table when a new process has been given the frame: over the rows of a process that has
-- ended, or at the end.
pub reservar_bloque : ℕ → ℕ → ℕ → ℕ → List Fila → List Fila
unfolding reservar_desde
reservar_bloque marcos frame proceso pagina tabla =
    if ltb (frame + 1) (length tabla)
    then reservar_desde (marcos - 1) frame proceso (set tabla frame (fila proceso pagina))
    else tabla ++ (fila proceso pagina ∷ replicate (marcos - 1) (fila proceso libre))

-- Writes the page to its frame and puts the table and the file in their node.
pub escribir : Swap → ℕ → Nodo → ℕ → List ℕ → List Fila → Resultado
escribir s i nodo frame contenido tabla = do
  archivo ← memcpy_to nodo.archivo (s.swap_page_size * frame) contenido s.swap_page_size
  let nuevo = record nodo { tabla_paginas = tabla; archivo = archivo }
  some (record s { swap_list = set s.swap_list i nuevo }, 1)

-- The first page of a process, in the file `i`.
pub asignar_fija : Swap → ℕ → ℕ → List ℕ → ℕ → Resultado
unfolding escribir reservar_bloque
asignar_fija s proceso pagina contenido i = do
  nodo ← get_elem? s.swap_list i
  let tabla = nodo.tabla_paginas
  let frame = get_first_free_frame_number tabla proceso
  let bloque = reservar_bloque s.marcos_por_carpincho frame proceso pagina tabla
  let con_archivo = record s { swap_dict = dictionary_put proceso i s.swap_dict }
  if ltb (frames_count s - tabla_paginas_size tabla) s.marcos_por_carpincho
      then some (s, 0)
      else escribir con_archivo i nodo frame contenido bloque

-- A page of a process that the dictionary takes to the file `i`.
pub guardar_fija_en : Swap → ℕ → ℕ → List ℕ → ℕ → Resultado
unfolding escribir
guardar_fija_en s proceso pagina contenido i = do
  nodo ← get_elem? s.swap_list i
  let tabla = nodo.tabla_paginas
  let frame = get_frame_number tabla proceso pagina
  let reservado = get_frame_number tabla proceso libre
  if pagina_esta_en_swap tabla proceso pagina
      then escribir s i nodo frame contenido tabla
      else if reservado == tabla_paginas_size tabla
      then some (s, 0)
      else escribir s i nodo reservado contenido (set tabla reservado (fila proceso pagina))

pub guardar_pagina_asignacion_fija : Swap → ℕ → ℕ → List ℕ → Resultado
unfolding asignar_fija guardar_fija_en
guardar_pagina_asignacion_fija s proceso pagina contenido =
    elim (dictionary_get proceso s.swap_dict) [
      | some i ↦ guardar_fija_en s proceso pagina contenido i
      | none ↦ elim (swap_file_menos_ocupado s) [
        | none ↦ some (s, 0)
        | some i ↦ asignar_fija s proceso pagina contenido i
      ]
    ]

pub asignar_dinamica : Swap → ℕ → ℕ → List ℕ → ℕ → Resultado
unfolding escribir
asignar_dinamica s proceso pagina contenido i = do
  nodo ← get_elem? s.swap_list i
  let tabla = nodo.tabla_paginas
  let frame = get_first_free_frame_number tabla proceso
  let con_archivo = record s { swap_dict = dictionary_put proceso i s.swap_dict }
  escribir con_archivo i nodo frame contenido (
      if ltb (frame + 1) (tabla_paginas_size tabla)
      then set tabla frame (fila proceso pagina)
      else tabla ++ (fila proceso pagina ∷ []))

pub guardar_dinamica_en : Swap → ℕ → ℕ → List ℕ → ℕ → Resultado
unfolding escribir
guardar_dinamica_en s proceso pagina contenido i = do
  nodo ← get_elem? s.swap_list i
  let tabla = nodo.tabla_paginas
  let frame = get_frame_number tabla proceso pagina
  let primero = get_first_free_frame_number tabla proceso
  if pagina_esta_en_swap tabla proceso pagina
      then escribir s i nodo frame contenido tabla
      else if ltb (tabla_paginas_size tabla) (frames_count s)
      then escribir s i nodo primero contenido (tabla ++ (fila proceso pagina ∷ []))
      else some (s, 0)

pub guardar_pagina_asignacion_dinamica : Swap → ℕ → ℕ → List ℕ → Resultado
unfolding asignar_dinamica guardar_dinamica_en
guardar_pagina_asignacion_dinamica s proceso pagina contenido =
    elim (dictionary_get proceso s.swap_dict) [
      | some i ↦ guardar_dinamica_en s proceso pagina contenido i
      | none ↦ elim (swap_file_menos_ocupado s) [
        | none ↦ some (s, 0)
        | some i ↦ asignar_dinamica s proceso pagina contenido i
      ]
    ]

unfoldable pub guardar_pagina : Swap → ℕ → ℕ → List ℕ → Resultado
unfolding guardar_pagina_asignacion_fija guardar_pagina_asignacion_dinamica
guardar_pagina s proceso pagina contenido =
    if s.tipo_asignacion == asignacion_fija
    then guardar_pagina_asignacion_fija s proceso pagina contenido
    else if s.tipo_asignacion == asignacion_dinamica
    then guardar_pagina_asignacion_dinamica s proceso pagina contenido
    else some (s, 0)

-- `none` also where the process is not in swap: the code returns the buffer that it has freed.
pub obtener_pagina : Swap → ℕ → ℕ → Option (List ℕ)
obtener_pagina s proceso pagina = do
  i ← dictionary_get proceso s.swap_dict
  nodo ← get_elem? s.swap_list i
  let frame = get_frame_number nodo.tabla_paginas proceso pagina
  memcpy_from nodo.archivo (s.swap_page_size * frame) s.swap_page_size

-- The loop of `finalizar_proceso` over the rows that are left. The first argument holds the rows
-- that it has passed, so that the search from the start sees the table as it stands.
pub liberar_filas : ℕ → ℕ → List Fila → List Fila → List ℕ → Option (List Fila × List ℕ)
liberar_filas tam proceso pasadas [] archivo = some (pasadas, archivo)
liberar_filas tam proceso pasadas (actual ∷ resto) archivo =
    let frame = get_frame_number (pasadas ++ (actual ∷ resto)) actual.proceso actual.pagina in
    let borrar =
      (memcpy_to archivo (tam * frame) (replicate tam 0) tam >>= λ limpio.
      liberar_filas tam proceso (pasadas ++ (fila libre libre ∷ [])) resto limpio) in
    let dejar = liberar_filas tam proceso (pasadas ++ (actual ∷ [])) resto archivo in
    if actual.proceso == proceso then borrar else dejar

pub finalizar_proceso : Swap → ℕ → Option Swap
unfolding liberar_filas
finalizar_proceso s proceso = elim (dictionary_get proceso s.swap_dict) [
  | none ↦ some s
  | some i ↦ do
    nodo ← get_elem? s.swap_list i
    (tabla, archivo) ← liberar_filas s.swap_page_size proceso [] nodo.tabla_paginas nodo.archivo
    let nuevo = record nodo { tabla_paginas = tabla; archivo = archivo }
    some (record s {
      swap_list = set s.swap_list i nuevo;
      swap_dict = dictionary_remove proceso s.swap_dict;
    })
]
