-- ===== src/Kernel/Colas/Escritura.antt =====
-- A write through a pointer to a carpincho that leaves its id and its state alone keeps every
-- carpincho of kernel/src/main.c in the queue of its state.
use mathlib.Core.Option
use tp_sistemas_operativos.Base.{ℕ, ◌≡◌, refl, ◌∙◌, Option, none, some, ◌==◌, if◌then◌else◌, arith}
use tp_sistemas_operativos.Kernel.Estado.{
  Estado, new, ready, exec, blocked, suspended_blocked, suspended_ready, Carpincho, Kernel,
  encontrar, modificar,
}
use tp_sistemas_operativos.Kernel.Colas.Ubicacion.{cuenta, cola, esperado, Ubicados, lugar_nuevo}

module _ {F : Type 0} (k : Kernel F) (u : Ubicados k) (j : ℕ) (f : Carpincho F → Carpincho F) where
  -- The kernel after the write.
  abbrev escrito : Kernel F
  escrito = record k { lista_carpinchos = modificar j f k.lista_carpinchos }

  pub escritura-Ubicados :
      ((c : Carpincho F) → (f c).id ≡ c.id)
      → ((c : Carpincho F) → (f c).estado ≡ c.estado)
      → Ubicados escrito
  escritura-Ubicados h s =
      lugar_nuevo k u j f escrito h refl refl
        (λ i e. quieta i e ∙ u.lugar i e ∙ mismo i e (encontrar i k.lista_carpinchos))
    where
      quieta : (i : ℕ) (e : Estado) → cuenta i (cola e escrito) ≡ cuenta i (cola e k)
      quieta i new = refl
      quieta i ready = refl
      quieta i exec = refl
      quieta i blocked = refl
      quieta i suspended_blocked = refl
      quieta i suspended_ready = refl

      mismo :
          (i : ℕ) (e : Estado) (x : Option (Carpincho F))
          → esperado e x ≡ esperado e (if j == i then Option.map f x else x)
      mismo i e none = ground arith
      mismo i e (some c) = ground (arith, s c)
