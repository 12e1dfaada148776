-- ===== src/Memoria/Disco.antt =====
-- A swamp with three pages of process 1 in its file, for the tests of memoria.
use mathlib.Core.Option.{some-injective}
use tp_sistemas_operativos.Base.{
  ℕ, zero, suc, ◌*◌, ◌<◌, refl, subst, List, [], ◌∷◌, arith, replicate, inl,
}
use tp_sistemas_operativos.Swamp.Tabla.{Fila, get_frame_number}
use tp_sistemas_operativos.Swamp.Archivos.{Nodo, Swap, asignacion_dinamica, dictionary_get}
use tp_sistemas_operativos.Swamp.Guardar.{fila}
use tp_sistemas_operativos.Swamp.Guardar.Escribir.{NodoOk, TodosOk}
use tp_sistemas_operativos.Memoria.ConSwamp.Cumple.{Tiene}

abbrev filas : List Fila
filas = fila 1 1 ∷ fila 1 2 ∷ fila 1 3 ∷ []

abbrev nodo : ℕ → Nodo
nodo tam = record { tabla_paginas = filas; archivo = replicate (3 * tam) 9 }

-- Pages of `tam` bytes.
abbrev pub disco : ℕ → Swap
disco tam = record {
  swap_file_size = 3 * tam;
  swap_page_size = tam;
  marcos_por_carpincho = 2;
  tipo_asignacion = asignacion_dinamica;
  swap_list = nodo tam ∷ [];
  swap_dict = (1, 0) ∷ [];
}

un_nodo : (tam : ℕ) → NodoOk (disco tam) (nodo tam) → TodosOk (disco tam)
un_nodo tam x zero m h = subst (NodoOk (disco tam)) (some-injective _ _ h) x
un_nodo tam x (suc i) m h = absurd (cc h)

con_fila :
    (tam nro : ℕ)
    → TodosOk (disco tam)
    → get_frame_number filas 1 nro < 3
    → Tiene tam 1 nro (disco tam)
unfolding dictionary_get
con_fila tam nro ok h = record {
  lugar = 0;
  nodo = nodo tam;
  en = record { clave = refl; nodo = refl; hallada = h };
  ok = ok;
  tamanio = refl;
  tipo = inl refl;
}

disco_4 : TodosOk (disco 4)
disco_4 = un_nodo 4 (record { filas = omega arith; bytes = refl })

disco_12 : TodosOk (disco 12)
disco_12 = un_nodo 12 (record { filas = omega arith; bytes = refl })

pub disco-1 : Tiene 4 1 1 (disco 4)
unfolding get_frame_number
disco-1 = con_fila 4 1 disco_4 (omega arith)

pub disco-2 : Tiene 4 1 2 (disco 4)
unfolding get_frame_number
disco-2 = con_fila 4 2 disco_4 (omega arith)

pub disco-3 : Tiene 4 1 3 (disco 4)
unfolding get_frame_number
disco-3 = con_fila 4 3 disco_4 (omega arith)

pub disco_12-1 : Tiene 12 1 1 (disco 12)
unfolding get_frame_number
disco_12-1 = con_fila 12 1 disco_12 (omega arith)

pub disco_12-2 : Tiene 12 1 2 (disco 12)
unfolding get_frame_number
disco_12-2 = con_fila 12 2 disco_12 (omega arith)
