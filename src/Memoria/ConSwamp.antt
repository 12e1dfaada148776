-- ===== src/Memoria/ConSwamp.antt =====
-- swamp/src/consola.c, for the messages of memoria: the swamp of Swamp/Guardar.antt as what memoria
-- asks of it, and what a page that is sent there does.
pub mod Cumple
use tp_sistemas_operativos.Base.{
  ℕ, ◌+◌, ◌*◌, ◌≤◌, ◌≡◌, ◌⊎◌, inl, inr, refl, sym, ◌∙◌, true, false, List, Option, none, some, ◌==◌,
  if◌then◌else◌, arith, length, get_elem?, drop, length-take_le, length-drop,
}
use tp_sistemas_operativos.Swamp.Tabla.{libre, pagina_esta_en_swap, tabla_paginas_size}
use tp_sistemas_operativos.Swamp.Archivos.{
  Nodo, Swap, asignacion_dinamica, asignacion_fija, dictionary_get, frames_count,
}
use tp_sistemas_operativos.Swamp.Archivos.Lectura.{leer, memcpy_from-some}
use tp_sistemas_operativos.Swamp.Guardar.{
  guardar_pagina, guardar_pagina_asignacion_dinamica, guardar_pagina_asignacion_fija,
  obtener_pagina, finalizar_proceso,
}
use tp_sistemas_operativos.Swamp.Guardar.Escribir.{TodosOk}
use tp_sistemas_operativos.Swamp.Guardar.Dinamica.{guardar_pagina_asignacion_dinamica_lem}
use tp_sistemas_operativos.Memoria.Estado.{Memoria, Swamp}
use tp_sistemas_operativos.Memoria.Marcos.{mandar_pagina_a_gonza}

-- MEMORY_SEND_SWAP_RECV: a content of another size has no answer.
unfoldable pub recibir_pagina : ℕ → ℕ → List ℕ → Swap → Option (Swap × ℕ)
unfolding guardar_pagina
recibir_pagina proceso pagina contenido s =
    if length contenido == s.swap_page_size then guardar_pagina s proceso pagina contenido else none

-- The console, as the swamp of memoria: MEMORY_SEND_SWAP_RECV, MEMORY_RECV_SWAP_SEND and
-- FINISH_PROCESS.
abbrev pub consola : Swamp Swap
unfolding recibir_pagina
consola = record {
  guardar = recibir_pagina;
  obtener = λ proceso pagina s. obtener_pagina s proceso pagina;
  finalizar = λ proceso s. finalizar_proceso s proceso;
}

-- With the dynamic assignment.
pub recibir-dinamica :
    (s : Swap) (proceso pagina : ℕ) (c : List ℕ)
    → s.tipo_asignacion ≡ asignacion_dinamica
    → length c ≡ s.swap_page_size
    → recibir_pagina proceso pagina c s ≡ guardar_pagina_asignacion_dinamica s proceso pagina c
unfolding recibir_pagina guardar_pagina
recibir-dinamica s proceso pagina c t l =
    let y : (length c == s.swap_page_size) ≡ true = ground (arith, l) in
    let a : (s.tipo_asignacion == asignacion_fija) ≡ false = ground (arith, t) in
    let b : (s.tipo_asignacion == asignacion_dinamica) ≡ true = ground (arith, t) in
    rw (y, recibir_pagina) (rw (a, b, guardar_pagina) refl)

-- With the fixed assignment.
pub recibir-fija :
    (s : Swap) (proceso pagina : ℕ) (c : List ℕ)
    → s.tipo_asignacion ≡ asignacion_fija
    → length c ≡ s.swap_page_size
    → recibir_pagina proceso pagina c s ≡ guardar_pagina_asignacion_fija s proceso pagina c
unfolding recibir_pagina guardar_pagina
recibir-fija s proceso pagina c t l =
    let y : (length c == s.swap_page_size) ≡ true = ground (arith, l) in
    let a : (s.tipo_asignacion == asignacion_fija) ≡ true = ground (arith, t) in
    rw (y, recibir_pagina) (rw (a, guardar_pagina) refl)

module _ (pid frame nro i : ℕ) (n : Nodo) (m : Memoria Swap) where
  -- Memoria with the swamp of Swamp/Guardar.antt at the other end, with the dynamic assignment and
  -- the size of a page of memoria, for a process that its dictionary takes to a file with no freed
  -- row and no row reserved for the process, with all tables fitting their files, and a frame that
  -- lies in the memory: sending the frame as a page of the process always ends and leaves the
  -- memory as it was. Either swamp then gives the bytes of the frame back for that page, and
  -- nothing has to be undone; or the page was not in swap and the file had no frame left, and
  -- memoria notes that, with swamp as it was.
  pub mandar_pagina_a_gonza_lem :
      dictionary_get pid m.swamp.swap_dict ≡ some i
      → get_elem? m.swamp.swap_list i ≡ some n
      → TodosOk m.swamp
      → m.swamp.tipo_asignacion ≡ asignacion_dinamica
      → m.swamp.swap_page_size ≡ m.tamanio_de_pagina
      → tabla_paginas_size n.tabla_paginas ≡ length n.tabla_paginas
      → pagina_esta_en_swap n.tabla_paginas pid libre ≡ false
      → m.tamanio_de_pagina * frame + m.tamanio_de_pagina ≤ length m.memoria
      → (m' : Memoria Swap) × (mandar_pagina_a_gonza consola pid frame nro m ≡ some m')
        × (m'.memoria ≡ m.memoria)
        × (((m'.hay_que_degenerar ≡ m.hay_que_degenerar)
              × (obtener_pagina m'.swamp pid nro ≡ some (leer m.tamanio_de_pagina m.memoria frame)))
            ⊎ ((m'.hay_que_degenerar ≡ true)
                × (m'.swamp ≡ m.swamp)
                × (pagina_esta_en_swap n.tabla_paginas pid nro ≡ false)
                × (frames_count m.swamp ≤ tabla_paginas_size n.tabla_paginas)))
  unfolding mandar_pagina_a_gonza consola
  mandar_pagina_a_gonza_lem d g ok tipo igual llena libres entra =
      let c = leer m.tamanio_de_pagina m.memoria frame in
      let largo : length c ≡ m.tamanio_de_pagina =
        length-take_le m.tamanio_de_pagina (drop (m.tamanio_de_pagina * frame) m.memoria)
          (omega (arith, entra, length-drop (m.tamanio_de_pagina * frame) m.memoria)) in
      let lee = memcpy_from-some m.memoria m.tamanio_de_pagina frame entra in
      let va = recibir-dinamica m.swamp pid nro c tipo (largo ∙ sym igual) in
      elim (guardar_pagina_asignacion_dinamica_lem m.swamp pid nro i n c d g ok (largo ∙ sym igual)
        llena libres) [
          | inl (_, k) ↦ (
            record m { swamp = k.despues },
            rw (lee, mandar_pagina_a_gonza) (rw (va ∙ k.devuelve) refl),
            refl,
            inl (refl, k.leida),
          )
          | inr (falta, lleno, e) ↦ (
            record m { hay_que_degenerar = true },
            rw (lee, mandar_pagina_a_gonza) (rw (va ∙ e) refl),
            refl,
            inr (refl, refl, falta, lleno),
          )
        ]
