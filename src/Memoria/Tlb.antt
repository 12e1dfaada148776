-- ===== src/Memoria/Tlb.antt =====
-- memoria/src/memory_utils.c: the TLB, its replacement and its metrics. A pointer to an entry is a
-- place of the list. The `sleep`s are left out, and what string_equals_ignore_case says of
-- ALGORITMO_REEMPLAZO_TLB and "FIFO" is the field `reemplazo_fifo`.
pub mod Reemplazo
pub mod Agregar
pub mod Metricas
use tp_sistemas_operativos.Base.{
  ℕ, zero, suc, Bool, true, false, ◌&&◌, List, [], ◌∷◌, ◌++◌, Option, none, some, ◌==◌, ltb,
  if◌then◌else◌, length, set, list_find, list_any_satisfy, modificar_si,
}

-- `TLB`
pub record Entrada : Type 0 where
  pub pid : ℕ
  pub pagina : ℕ
  pub frame : ℕ
  pub fifo : ℕ
  pub lru : ℕ

pub record Metric : Type 0 where
  pub pid : ℕ
  pub hits : ℕ
  pub miss : ℕ

-- The globals of the TLB.
pub record Tlb : Type 0 where
  pub tlb_list : List Entrada
  pub metrics_list : List Metric
  pub max_entradas_tlb : ℕ
  pub max_tlb_hit : ℕ
  pub max_tlb_miss : ℕ
  pub entrada_fifo : ℕ
  pub tlb_lru_global : ℕ
  pub reemplazo_fifo : Bool

abbrev pub uint32_max : ℕ
uint32_max = 4294967295

-- What delete_entrada_tlb leaves in the place of an entry.
abbrev pub vacia : Entrada
vacia = record {
  pid = uint32_max;
  pagina = uint32_max;
  frame = uint32_max;
  fifo = uint32_max;
  lru = uint32_max;
}

abbrev pub has_empty_instance : Entrada → Bool
has_empty_instance e = e.pid == uint32_max && e.pagina == uint32_max && e.frame == uint32_max

abbrev pub es_de_pagina : ℕ → ℕ → Entrada → Bool
es_de_pagina pid pagina e = e.pid == pid && e.pagina == pagina

abbrev pub es_la_entrada : ℕ → ℕ → ℕ → Entrada → Bool
es_la_entrada pid pagina frame e = e.pid == pid && e.pagina == pagina && e.frame == frame

unfoldable pub set_pid_metric_if_missing : ℕ → List Metric → List Metric
unfolding list_any_satisfy
set_pid_metric_if_missing pid ms =
    if list_any_satisfy (λ m. m.pid == pid) ms
    then ms
    else ms ++ (record { pid = pid; hits = 0; miss = 0 } ∷ [])

abbrev pub sumar : Bool → Metric → Metric
sumar true m = record m { hits = suc m.hits }
sumar false m = record m { miss = suc m.miss }

-- Every metric of the process counts; `es_hit` is TLB_HIT.
unfoldable pub sum_metric : ℕ → Bool → List Metric → List Metric
sum_metric pid es_hit [] = []
sum_metric pid es_hit (m ∷ ms) =
    (if m.pid == pid then sumar es_hit m else m) ∷ sum_metric pid es_hit ms

-- A new entry takes the next stamps.
unfoldable pub new_entrada_tlb : ℕ → ℕ → ℕ → Tlb → Entrada
new_entrada_tlb pid pagina frame t = record {
  pid = pid;
  pagina = pagina;
  frame = frame;
  fifo = t.entrada_fifo;
  lru = t.tlb_lru_global;
}

-- `list_get_minimum` with get_minimum_fifo_tlb or get_minimum_lru_tlb: the place of the entry that
-- is left when each one is compared with the best so far, `a` at the place `i`.
unfoldable pub minimo_desde : (Entrada → ℕ) → ℕ → Entrada → ℕ → List Entrada → ℕ
minimo_desde clave i a j [] = i
minimo_desde clave i a j (b ∷ q) =
    let queda = ltb (clave a) (clave b) in
    minimo_desde clave (if queda then i else j) (if queda then a else b) (suc j) q

unfoldable pub list_get_minimum : (Entrada → ℕ) → List Entrada → ℕ
unfolding minimo_desde
list_get_minimum clave [] = 0
list_get_minimum clave (a ∷ q) = minimo_desde clave 0 a 1 q

-- The stamp that the replacement compares.
abbrev pub sello : Bool → Entrada → ℕ
sello true e = e.fifo
sello false e = e.lru

unfoldable pub replace_entrada : Bool → Entrada → List Entrada → List Entrada
unfolding list_get_minimum
replace_entrada reemplazo_fifo nueva es = set es (list_get_minimum (sello reemplazo_fifo) es) nueva

-- Where the new entry goes: over an empty one, at the end, or over the one that is replaced.
unfoldable pub insertar : Tlb → Entrada → List Entrada
unfolding list_any_satisfy modificar_si replace_entrada
insertar t nueva =
    if list_any_satisfy has_empty_instance t.tlb_list
    then modificar_si has_empty_instance (λ e. nueva) t.tlb_list
    else if ltb (length t.tlb_list) t.max_entradas_tlb
    then t.tlb_list ++ (nueva ∷ [])
    else replace_entrada t.reemplazo_fifo nueva t.tlb_list

unfoldable pub add_entrada_tlb : ℕ → ℕ → ℕ → Tlb → Tlb
unfolding list_any_satisfy new_entrada_tlb insertar set_pid_metric_if_missing
add_entrada_tlb pid pagina frame t =
    if list_any_satisfy (es_la_entrada pid pagina frame) t.tlb_list then t else record t {
      tlb_list = insertar t (new_entrada_tlb pid pagina frame t);
      metrics_list = set_pid_metric_if_missing pid t.metrics_list;
      entrada_fifo = suc t.entrada_fifo;
      tlb_lru_global = suc t.tlb_lru_global;
    }

unfoldable pub delete_entrada_tlb : ℕ → ℕ → ℕ → Tlb → Tlb
unfolding modificar_si
delete_entrada_tlb pid pagina frame t = if t.max_entradas_tlb == 0 then t else record t {
  tlb_list = modificar_si (es_la_entrada pid pagina frame) (λ e. vacia) t.tlb_list;
}

abbrev pub con_lru : ℕ → Entrada → Entrada
con_lru lru e = record e { lru = lru }

-- The frame of the entry, on a hit.
unfoldable pub fetch_entrada_tlb : ℕ → ℕ → Tlb → Option ℕ × Tlb
unfolding list_find modificar_si sum_metric
fetch_entrada_tlb pid pagina t = elim (list_find (es_de_pagina pid pagina) t.tlb_list) [
  | some e ↦ (
    some e.frame,
    record t {
      tlb_list = modificar_si (es_de_pagina pid pagina) (con_lru t.tlb_lru_global) t.tlb_list;
      metrics_list = sum_metric pid true t.metrics_list;
      max_tlb_hit = suc t.max_tlb_hit;
      tlb_lru_global = suc t.tlb_lru_global;
    },
  )
  | none ↦ (
    none,
    record t {
      metrics_list = sum_metric pid false t.metrics_list;
      max_tlb_miss = suc t.max_tlb_miss;
    },
  )
]
