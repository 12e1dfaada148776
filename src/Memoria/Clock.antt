-- ===== src/Memoria/Clock.antt =====
-- memoria/src/memory_utils.c: the replacement by the improved clock.
pub mod Vueltas
use tp_sistemas_operativos.Base.{
  ℕ, zero, suc, Bool, true, false, ◌&&◌, ◌||◌, List, [], ◌∷◌, Option, none, some, ◌==◌, leb,
  if◌then◌else◌, list_find, list_any_satisfy, modificar_si, ◌>>=◌,
}
use tp_sistemas_operativos.Memoria.Estado.{
  Pagina, Tabla, Memoria, Swamp, paginas_de, frames_totales,
}
use tp_sistemas_operativos.Memoria.Marcos.{get_process_id_by, frame_asignado, desalojar}

unfoldable pub ultima : List (ℕ × Pagina) → Option (ℕ × Pagina)
ultima [] = none
ultima (x ∷ xs) = let resto = ultima xs in elim resto [ none ↦ some x | some y ↦ some y ]

-- With no page that has the frame the answer is the last page of the loops; `none` is the pointer
-- that was never set.
unfoldable pub get_marco_de : ℕ → List Tabla → Option (ℕ × Pagina)
unfolding list_find ultima
get_marco_de nro ts = elim (list_find (λ (x : ℕ × Pagina). x.1.frame == nro) (paginas_de ts)) [
  | none ↦ ultima (paginas_de ts)
  | some x ↦ some x
]

-- Writes through the pointer that getMarcoDe gives.
unfoldable pub con_primera : ℕ → (Pagina → Pagina) → List Tabla → List Tabla
unfolding list_any_satisfy modificar_si
con_primera nro f [] = []
con_primera nro f (t ∷ ts) =
    let resto = t ∷ con_primera nro f ts in
    if list_any_satisfy (λ (p : Pagina). p.frame == nro) t.paginas
    then record t { paginas = modificar_si (λ p. p.frame == nro) f t.paginas } ∷ ts
    else resto

unfoldable pub con_ultimo : (Pagina → Pagina) → List Pagina → List Pagina
con_ultimo f [] = []
con_ultimo f (p ∷ []) = f p ∷ []
con_ultimo f (p ∷ q ∷ ps) = p ∷ con_ultimo f (q ∷ ps)

unfoldable pub con_ultima : (Pagina → Pagina) → List Tabla → List Tabla
unfolding con_ultimo ultima
con_ultima f [] = []
con_ultima f (t ∷ ts) =
    let resto = t ∷ con_ultima f ts in
    elim (ultima (paginas_de ts)) [
      | none ↦ record t { paginas = con_ultimo f t.paginas } ∷ ts
      | some x ↦ resto
    ]

abbrev pub sin_uso : Pagina → Pagina
sin_uso p = record p { bit_uso = 0 }

-- The first round wants a page that was neither used nor modified, the second one not used.
abbrev pub es_candidata : Bool → Pagina → Bool
es_candidata true p = p.bit_uso == 0
es_candidata false p = p.bit_modificado == 0 && p.bit_uso == 0

module _ {S : Type 0} where
  unfoldable pub con_marco : ℕ → (Pagina → Pagina) → Memoria S → Memoria S
  unfolding frame_asignado con_primera con_ultima
  con_marco nro f m = record m {
    todas_las_tablas =
        if frame_asignado nro m
        then con_primera nro f m.todas_las_tablas
        else con_ultima f m.todas_las_tablas;
  }

  abbrev pub avanzar : Memoria S → Memoria S
  avanzar m = record m { puntero_frame_clock = suc m.puntero_frame_clock }

  -- Whether the frame under the hand is looked at: any one, or those of the process.
  unfoldable pub le_toca : ℕ → Memoria S → Bool
  unfolding get_process_id_by
  le_toca pid m =
      if m.asignacion_dinamica then true else elim (get_process_id_by m.puntero_frame_clock m) [
        | none ↦ false
        | some duenio ↦ duenio == pid
      ]

  module _ (red : Swamp S) where
    -- The frame under the hand: its page is evicted, or loses its bit of use in the second round.
    unfoldable pub revisar_marco : Bool → Memoria S → Option (Bool × Memoria S)
    unfolding get_marco_de get_process_id_by desalojar con_marco
    revisar_marco segunda m = do
      (d, p) ← get_marco_de m.puntero_frame_clock m.todas_las_tablas
      if es_candidata segunda p
          then (do
            duenio ← get_process_id_by p.frame m
            m1 ← desalojar red duenio duenio p m
            some (true, m1))
          else some (false, if segunda then con_marco m.puntero_frame_clock sin_uso m else m)

    -- The body of both loops, and whether it found the page.
    unfoldable pub revisar : Bool → ℕ → Memoria S → Option (Bool × Memoria S)
    unfolding le_toca revisar_marco
    revisar segunda pid m =
        if leb (frames_totales m) m.puntero_frame_clock
        then some (false, record m { puntero_frame_clock = 0 })
        else (do
          (encontrado, m1) ← if le_toca pid m then revisar_marco segunda m else some (false, m)
          some (encontrado, avanzar m1))

    -- A `do` loop, until a page was found or the hand is where it started.
    unfoldable pub vuelta : ℕ → Bool → ℕ → ℕ → Bool → Memoria S → Option (Bool × Memoria S)
    unfolding revisar
    vuelta zero segunda inicial pid e m = none
    vuelta (suc n) segunda inicial pid e m = do
      (encontrado, m1) ← revisar segunda pid m
      elim ((e || encontrado) || inicial == m1.puntero_frame_clock) [
        | true ↦ some (e || encontrado, m1)
        | false ↦ vuelta n segunda inicial pid false m1
      ]

    -- From LOOP on: a round, another one if nothing was found, and again if the hand is where it
    -- started. Each step of the fuel is a jump to LOOP; a round has at most two steps more than
    -- there are frames.
    unfoldable pub desde_loop : ℕ → ℕ → ℕ → Bool → Memoria S → Option (Memoria S)
    unfolding vuelta
    desde_loop zero inicial pid e m = none
    desde_loop (suc n) inicial pid e m = do
      (e1, m1) ← vuelta (suc (suc (frames_totales m))) false inicial pid e m
      (e2, m2) ←
          if e1 then some (e1, m1) else vuelta (suc (suc (frames_totales m))) true inicial pid e1 m1
      elim (inicial == m2.puntero_frame_clock) [
        | true ↦ desde_loop n inicial pid e2 m2
        | false ↦ some m2
      ]

    unfoldable pub seleccion_clock_mejorado : ℕ → ℕ → Memoria S → Option (Memoria S)
    unfolding desde_loop
    seleccion_clock_mejorado n pid m = desde_loop n m.puntero_frame_clock pid false m
