-- ===== src/Memoria/Tlb/Metricas/Sumas.antt =====
-- memoria/src/memory_utils.c: the sums of the metrics of the TLB, and what its calls do to them.
use tp_sistemas_operativos.Base.{
  ℕ, ◌+◌, ◌≤◌, ◌<◌, ◌≡◌, refl, inl, inr, List, [], ◌∷◌, ◌++◌, if◌then◌else◌, arith, Bool-cases,
  true, false, Bool, ◌==◌, list_any_satisfy,
}
use tp_sistemas_operativos.Memoria.Tlb.{Metric, sum_metric, set_pid_metric_if_missing}

unfoldable pub suma_hits : List Metric → ℕ
suma_hits [] = 0
suma_hits (m ∷ ms) = m.hits + suma_hits ms

unfoldable pub suma_miss : List Metric → ℕ
suma_miss [] = 0
suma_miss (m ∷ ms) = m.miss + suma_miss ms

-- How many metrics a process has.
unfoldable pub veces : ℕ → List Metric → ℕ
veces pid [] = 0
veces pid (m ∷ ms) = (if m.pid == pid then 1 else 0) + veces pid ms

pub hits-sum_metric :
    (pid : ℕ) (ms : List Metric)
    → (suma_hits (sum_metric pid true ms) ≡ suma_hits ms + veces pid ms)
      × (suma_miss (sum_metric pid true ms) ≡ suma_miss ms)
unfolding sum_metric suma_hits suma_miss veces
hits-sum_metric pid [] = (refl, refl)
hits-sum_metric pid (m ∷ ms) = ground (arith, hits-sum_metric pid ms)

pub miss-sum_metric :
    (pid : ℕ) (ms : List Metric)
    → (suma_miss (sum_metric pid false ms) ≡ suma_miss ms + veces pid ms)
      × (suma_hits (sum_metric pid false ms) ≡ suma_hits ms)
unfolding sum_metric suma_hits suma_miss veces
miss-sum_metric pid [] = (refl, refl)
miss-sum_metric pid (m ∷ ms) = ground (arith, miss-sum_metric pid ms)

pub veces-sum_metric :
    (pid q : ℕ) (b : Bool) (ms : List Metric) → veces q (sum_metric pid b ms) ≡ veces q ms
unfolding sum_metric veces
veces-sum_metric pid q b [] = refl
veces-sum_metric pid q true (m ∷ ms) = ground (arith, veces-sum_metric pid q true ms)
veces-sum_metric pid q false (m ∷ ms) = ground (arith, veces-sum_metric pid q false ms)

pub tiene :
    (pid : ℕ) (ms : List Metric)
    → list_any_satisfy (λ (m : Metric). m.pid == pid) ms ≡ true
    → 0 < veces pid ms
unfolding list_any_satisfy veces
tiene pid [] h = cc
tiene pid (m ∷ ms) h = ground (arith, tiene pid ms)

pub no_tiene :
    (pid : ℕ) (ms : List Metric)
    → list_any_satisfy (λ (m : Metric). m.pid == pid) ms ≡ false
    → veces pid ms ≡ 0
unfolding list_any_satisfy veces
no_tiene pid [] h = refl
no_tiene pid (m ∷ ms) h = ground (arith, no_tiene pid ms)

pub nuevas :
    (pid q : ℕ) (ms : List Metric)
    → (veces q (ms ++ (record { pid = pid; hits = 0; miss = 0 } ∷ []))
        ≡ veces q ms + (if pid == q then 1 else 0))
      × (suma_hits (ms ++ (record { pid = pid; hits = 0; miss = 0 } ∷ [])) ≡ suma_hits ms)
      × (suma_miss (ms ++ (record { pid = pid; hits = 0; miss = 0 } ∷ [])) ≡ suma_miss ms)
unfolding veces suma_hits suma_miss
nuevas pid q [] = (omega arith, refl, refl)
nuevas pid q (m ∷ ms) = ground (arith, nuevas pid q ms)

-- The process has a metric after the call; the sums stay, and so do the metrics of the others.
pub set_pid_metric_if_missing_lem :
    (pid q : ℕ) (ms : List Metric)
    → veces q ms ≤ 1
    → (veces q (set_pid_metric_if_missing pid ms) ≡ (if pid == q then 1 else veces q ms))
      × (suma_hits (set_pid_metric_if_missing pid ms) ≡ suma_hits ms)
      × (suma_miss (set_pid_metric_if_missing pid ms) ≡ suma_miss ms)
unfolding set_pid_metric_if_missing
set_pid_metric_if_missing_lem pid q ms h =
    elim (Bool-cases (list_any_satisfy (λ (m : Metric). m.pid == pid) ms)) [
      | inl x ↦ let y : 0 < veces pid ms = tiene pid ms x in rw x (ground arith, refl, refl)
      | inr x ↦
          let y : veces pid ms ≡ 0 = no_tiene pid ms x in
          let (a, b, c) = nuevas pid q ms in rw x (ground (arith, a, y), b, c)
    ]
