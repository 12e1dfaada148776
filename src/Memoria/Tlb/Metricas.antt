-- ===== src/Memoria/Tlb/Metricas.antt =====
-- The metrics of the TLB of memoria/src/memory_utils.c over any sequence of its calls.
pub mod Sumas
use mathlib.Core.Option
use tp_sistemas_operativos.Base.{
  ℕ, suc, ◌+◌, ◌≤◌, ◌<◌, ◌≡◌, ◌≢◌, refl, sym, ◌∙◌, subst, inl, inr, List, [], ◌∷◌, ◌++◌, some,
  if◌then◌else◌, arith, Bool-cases, Option-cases, length, true, false, Bool, ◌==◌, list_find,
  list_any_satisfy, modificar_si, length-modificar_si, Todos, Todos-implica, Todos-append,
  Todos-set, Todos-modificar_si, Todos-list_find, list_find-cumple,
}
use tp_sistemas_operativos.Memoria.Tlb.{
  Entrada, Metric, Tlb, uint32_max, vacia, es_la_entrada, es_de_pagina, new_entrada_tlb, insertar,
  con_lru, sum_metric, set_pid_metric_if_missing, add_entrada_tlb, delete_entrada_tlb,
  fetch_entrada_tlb,
}
use tp_sistemas_operativos.Memoria.Tlb.Agregar.{
  Agregada, en_vacia, al_final, en_lugar_de, insertar_lem, Agregada-length,
}
use tp_sistemas_operativos.Memoria.Tlb.Metricas.Sumas.{
  suma_hits, suma_miss, veces, hits-sum_metric, miss-sum_metric, veces-sum_metric, tiene, no_tiene,
  nuevas, set_pid_metric_if_missing_lem,
}

-- The counters of the TLB and its metrics.
pub record Medida (t : Tlb) : Type 0 where
  pub hits : suma_hits t.metrics_list ≡ t.max_tlb_hit
  pub miss : suma_miss t.metrics_list ≤ t.max_tlb_miss
  pub con_metrica :
      Todos (λ (e : Entrada). e.pid ≢ uint32_max → veces e.pid t.metrics_list ≡ 1) t.tlb_list
  pub una : (q : ℕ) → veces q t.metrics_list ≤ 1
  pub cabe : length t.tlb_list ≤ t.max_entradas_tlb

-- The calls on the TLB.
pub data Llamada : Type 0 where
  agregar : ℕ → ℕ → ℕ → Llamada
  borrar : ℕ → ℕ → ℕ → Llamada
  buscar : ℕ → ℕ → Llamada

pub hacer : Llamada → Tlb → Tlb
hacer (agregar pid pagina frame) t = add_entrada_tlb pid pagina frame t
hacer (borrar pid pagina frame) t = delete_entrada_tlb pid pagina frame t
hacer (buscar pid pagina) t = (fetch_entrada_tlb pid pagina t).1

pub hacer_todas : List Llamada → Tlb → Tlb
hacer_todas [] t = t
hacer_todas (c ∷ cs) t = hacer_todas cs (hacer c t)

-- No process has the id that marks an empty entry.
abbrev pub Real : Llamada → Type 0
Real (agregar pid pagina frame) = pid ≢ uint32_max
Real (borrar pid pagina frame) = pid ≢ uint32_max
Real (buscar pid pagina) = pid ≢ uint32_max

abbrev pub TodasReales : List Llamada → Type 0
TodasReales = Todos Real

pub busquedas : List Llamada → ℕ
busquedas [] = 0
busquedas (buscar pid pagina ∷ cs) = suc (busquedas cs)
busquedas (c ∷ cs) = busquedas cs

Agregada-Todos :
    (P : Entrada → Type 0) (t : Tlb) (nueva : Entrada) (es : List Entrada)
    → Todos P t.tlb_list
    → P nueva
    → Agregada t nueva es
    → Todos P es
Agregada-Todos P t nueva es h k (en_vacia i v g c e) =
    subst (Todos P) (sym e) (Todos-set P t.tlb_list i nueva h k)
Agregada-Todos P t nueva es h k (al_final l e) =
    subst (Todos P) (sym e) (Todos-append P t.tlb_list (nueva ∷ []) h (k, tt))
Agregada-Todos P t nueva es h k (en_lugar_de i v l g m e) =
    subst (Todos P) (sym e) (Todos-set P t.tlb_list i nueva h k)

con_metrica_sum :
    (pid : ℕ) (b : Bool) (t : Tlb)
    → Medida t
    → Todos
        (λ (e : Entrada). e.pid ≢ uint32_max → veces e.pid (sum_metric pid b t.metrics_list) ≡ 1)
        t.tlb_list
con_metrica_sum pid b t m =
    Todos-implica (λ (e : Entrada). e.pid ≢ uint32_max → veces e.pid t.metrics_list ≡ 1)
      (λ (e : Entrada). e.pid ≢ uint32_max → veces e.pid (sum_metric pid b t.metrics_list) ≡ 1)
      t.tlb_list (λ e k r. veces-sum_metric pid e.pid b t.metrics_list ∙ k r) m.con_metrica

add-Medida :
    (pid pagina frame : ℕ) (t : Tlb)
    → 0 < t.max_entradas_tlb
    → Medida t
    → Medida (add_entrada_tlb pid pagina frame t)
unfolding add_entrada_tlb new_entrada_tlb
add-Medida pid pagina frame t h m =
    elim (Bool-cases (list_any_satisfy (es_la_entrada pid pagina frame) t.tlb_list)) [
      | inl x ↦ rw x m
      | inr x ↦
          let nueva = new_entrada_tlb pid pagina frame t in
          let a = insertar_lem t nueva h in
          let ms = set_pid_metric_if_missing pid t.metrics_list in
          let s = λ (q : ℕ). set_pid_metric_if_missing_lem pid q t.metrics_list (m.una q) in
          rw x record {
            hits = (s 0).1 ∙ m.hits;
            miss = omega (arith, (s 0).2, m.miss);
            con_metrica =
                Agregada-Todos (λ (e : Entrada). e.pid ≢ uint32_max → veces e.pid ms ≡ 1) t nueva
                  (insertar t nueva)
                  (Todos-implica
                    (λ (e : Entrada). e.pid ≢ uint32_max → veces e.pid t.metrics_list ≡ 1)
                    (λ (e : Entrada). e.pid ≢ uint32_max → veces e.pid ms ≡ 1) t.tlb_list
                    (λ e k r. ground (arith, (s e.pid).0, k r)) m.con_metrica)
                  (λ r. ground (arith, (s pid).0)) a;
            una = λ q. ground (arith, (s q).0, m.una q);
            cabe = Agregada-length t nueva (insertar t nueva) m.cabe a;
          }
    ]

delete-Medida :
    (pid pagina frame : ℕ) (t : Tlb) → Medida t → Medida (delete_entrada_tlb pid pagina frame t)
unfolding delete_entrada_tlb
delete-Medida pid pagina frame t m = elim (Bool-cases (t.max_entradas_tlb == 0)) [
  | inl x ↦ rw x m
  | inr x ↦ rw x record {
    hits = m.hits;
    miss = m.miss;
    con_metrica =
        Todos-modificar_si (λ (e : Entrada). e.pid ≢ uint32_max → veces e.pid t.metrics_list ≡ 1)
          (es_la_entrada pid pagina frame) (λ e. vacia) t.tlb_list (λ e k r. absurd (r refl))
          m.con_metrica;
    una = m.una;
    cabe = rw (length-modificar_si (es_la_entrada pid pagina frame) (λ e. vacia) t.tlb_list) m.cabe;
  }
]

-- A search in the place of a hit and of a miss.
acierto :
    (pid pagina : ℕ) (t : Tlb) (e : Entrada)
    → list_find (es_de_pagina pid pagina) t.tlb_list ≡ some e
    → pid ≢ uint32_max
    → Medida t
    → Medida (record t {
      tlb_list = modificar_si (es_de_pagina pid pagina) (con_lru t.tlb_lru_global) t.tlb_list;
      metrics_list = sum_metric pid true t.metrics_list;
      max_tlb_hit = suc t.max_tlb_hit;
      tlb_lru_global = suc t.tlb_lru_global;
    })
acierto pid pagina t e x r m =
    let c : es_de_pagina pid pagina e ≡ true =
      list_find-cumple (es_de_pagina pid pagina) t.tlb_list e x in
    let p : e.pid ≡ pid = ground (arith, c) in
    let k =
      Todos-list_find (λ (e : Entrada). e.pid ≢ uint32_max → veces e.pid t.metrics_list ≡ 1)
        (es_de_pagina pid pagina) t.tlb_list e m.con_metrica x in
    let v : veces pid t.metrics_list ≡ 1 = ground (arith, p, k) in
    let (a, b) = hits-sum_metric pid t.metrics_list in
    record {
      hits = omega (arith, a, m.hits);
      miss = omega (arith, b, m.miss);
      con_metrica =
          Todos-modificar_si
            (λ (e : Entrada).
              e.pid ≢ uint32_max → veces e.pid (sum_metric pid true t.metrics_list) ≡ 1)
            (es_de_pagina pid pagina) (con_lru t.tlb_lru_global) t.tlb_list (λ e k. k)
            (con_metrica_sum pid true t m);
      una = λ q. omega (arith, veces-sum_metric pid q true t.metrics_list, m.una q);
      cabe =
          rw (length-modificar_si (es_de_pagina pid pagina) (con_lru t.tlb_lru_global) t.tlb_list)
            m.cabe;
    }

fetch-Medida :
    (pid pagina : ℕ) (t : Tlb)
    → pid ≢ uint32_max
    → Medida t
    → Medida (fetch_entrada_tlb pid pagina t).1
      × ((fetch_entrada_tlb pid pagina t).1.max_tlb_hit
            + (fetch_entrada_tlb pid pagina t).1.max_tlb_miss
          ≡ t.max_tlb_hit + t.max_tlb_miss + 1)
unfolding fetch_entrada_tlb
fetch-Medida pid pagina t r m =
    elim (Option-cases (list_find (es_de_pagina pid pagina) t.tlb_list)) [
      | inl x ↦
          let (a, b) = miss-sum_metric pid t.metrics_list in
          rw (x, fetch_entrada_tlb)
            (
              record {
                hits = omega (arith, b, m.hits);
                miss = omega (arith, a, m.miss, m.una pid);
                con_metrica = con_metrica_sum pid false t m;
                una = λ q. omega (arith, veces-sum_metric pid q false t.metrics_list, m.una q);
                cabe = m.cabe;
              },
              omega arith,
            )
      | inr (e, x) ↦ rw (x, fetch_entrada_tlb) (acierto pid pagina t e x r m, omega arith)
    ]

-- What no insertion and no removal changes.
abbrev Mismos : Tlb → Tlb → Type 0
Mismos t t' =
    (t'.max_entradas_tlb ≡ t.max_entradas_tlb)
    × (t'.max_tlb_hit + t'.max_tlb_miss ≡ t.max_tlb_hit + t.max_tlb_miss)

add-Mismos : (pid pagina frame : ℕ) (t : Tlb) → Mismos t (add_entrada_tlb pid pagina frame t)
unfolding add_entrada_tlb
add-Mismos pid pagina frame t =
    elim (Bool-cases (list_any_satisfy (es_la_entrada pid pagina frame) t.tlb_list)) [
      | inl x ↦ rw x (refl, refl)
      | inr x ↦ rw x (refl, refl)
    ]

delete-Mismos : (pid pagina frame : ℕ) (t : Tlb) → Mismos t (delete_entrada_tlb pid pagina frame t)
unfolding delete_entrada_tlb
delete-Mismos pid pagina frame t = elim (Bool-cases (t.max_entradas_tlb == 0)) [
  | inl x ↦ rw x (refl, refl)
  | inr x ↦ rw x (refl, refl)
]

fetch-max :
    (pid pagina : ℕ) (t : Tlb)
    → (fetch_entrada_tlb pid pagina t).1.max_entradas_tlb ≡ t.max_entradas_tlb
unfolding fetch_entrada_tlb
fetch-max pid pagina t = elim (Option-cases (list_find (es_de_pagina pid pagina) t.tlb_list)) [
  | inl x ↦ rw (x, fetch_entrada_tlb) refl
  | inr (e, x) ↦ rw (x, fetch_entrada_tlb) refl
]

-- In a TLB with a place whose hits of the metrics add up to those counted, whose misses of the
-- metrics are no more than those counted, where every process of an entry has one metric and no
-- process has two, and whose entries are no more than the places: after any sequence of additions,
-- deletions and searches of processes other than 4294967295 all of that holds again, and hits and
-- misses have grown together by one for each search.
pub hacer_todas-Medida :
    (cs : List Llamada) (t : Tlb)
    → 0 < t.max_entradas_tlb
    → Medida t
    → TodasReales cs
    → Medida (hacer_todas cs t)
      × ((hacer_todas cs t).max_tlb_hit + (hacer_todas cs t).max_tlb_miss
          ≡ t.max_tlb_hit + t.max_tlb_miss + busquedas cs)
unfolding hacer_todas hacer busquedas
hacer_todas-Medida [] t h m r = (m, omega arith)
hacer_todas-Medida (agregar pid pagina frame ∷ cs) t h m r =
    let (n, s) = add-Mismos pid pagina frame t in
    let (a, b) =
      hacer_todas-Medida cs (add_entrada_tlb pid pagina frame t) (rw n h)
        (add-Medida pid pagina frame t h m) r.1 in
    (a, b ∙ omega arith)
hacer_todas-Medida (borrar pid pagina frame ∷ cs) t h m r =
    let (n, s) = delete-Mismos pid pagina frame t in
    let (a, b) =
      hacer_todas-Medida cs (delete_entrada_tlb pid pagina frame t) (rw n h)
        (delete-Medida pid pagina frame t m) r.1 in
    (a, b ∙ omega arith)
hacer_todas-Medida (buscar pid pagina ∷ cs) t h m r =
    let (a', b') = fetch-Medida pid pagina t r.0 m in
    let (a, b) =
      hacer_todas-Medida cs (fetch_entrada_tlb pid pagina t).1 (rw (fetch-max pid pagina t) h) a'
        r.1 in
    (a, b ∙ omega arith)
