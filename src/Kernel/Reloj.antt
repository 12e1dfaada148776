-- ===== src/Kernel/Reloj.antt =====
-- calcular_milisegundos of kernel/src/main.c against the order of the clock.
use tp_sistemas_operativos.Base.{ℕ, suc, ◌+◌, ◌<◌, arith}
use tp_sistemas_operativos.Kernel.Estado.{calcular_milisegundos}

-- Of two instants of one minute in consecutive seconds, the later one has the lesser number of
-- milliseconds whenever its milliseconds are more than 60 below those of the earlier one.
pub calcular_milisegundos_no_crece :
    (m s a b : ℕ)
    → a + 60 < b
    → calcular_milisegundos (record { minutos = m; segundos = suc s; milisegundos = a })
      < calcular_milisegundos (record { minutos = m; segundos = s; milisegundos = b })
unfolding calcular_milisegundos
calcular_milisegundos_no_crece m s a b h = omega arith
