-- ===== src/Memoria/Contrato.antt =====
-- What memoria relies on of swamp (the messages that swamp/src/consola.c answers), for the pages
-- that swamp has.
use tp_sistemas_operativos.Base.{ℕ, ◌≡◌, List, some, length}
use tp_sistemas_operativos.Memoria.Estado.{Swamp}

-- `T pid nro s` is that swamp has the page in the state `s`. A content of one page for a page that
-- swamp has is accepted, is there then, and no page is lost; and a page that swamp has is given
-- with the size of one.
pub record Contrato {S : Type 0} (red : Swamp S) (tam : ℕ) (T : ℕ → ℕ → S → Type 0) : Type 0 where
  pub guarda :
      (pid nro : ℕ) (c : List ℕ) (s : S)
      → T pid nro s
      → length c ≡ tam
      → (s' : S) × (red.guardar pid nro c s ≡ some (s', 1))
        × (red.obtener pid nro s' ≡ some c)
        × ((q k : ℕ) → T q k s → T q k s')
  pub devuelve :
      (pid nro : ℕ) (s : S)
      → T pid nro s
      → (c : List ℕ) × (red.obtener pid nro s ≡ some c) × (length c ≡ tam)
