-- ===== src/Kernel/Semaforos/Espera.antt =====
-- mate_sem_wait of kernel/src/main.c on every branch.
use Prim.Native.String.{String}
use mathlib.Core.Option
use tp_sistemas_operativos.Base.{
  ℕ, zero, suc, ◌≡◌, refl, ap, ◌∙◌, Bool, true, [], ◌∷◌, ◌++◌, some, if◌then◌else◌, pos, negsuc,
  length, ℤ, decr, is_neg, arith, ==_refl, length-append,
}
use tp_sistemas_operativos.Kernel.Estado.{
  Carpincho, Kernel, Semaforo, Paso, sigue, Reloj, modificar, encontrar,
  encontrar_estructura_segun_id, enviar, a_carpincho,
}
use tp_sistemas_operativos.Kernel.Colas.{exec_a_block}
use tp_sistemas_operativos.Kernel.Colas.Ubicacion.{encontrar-modificar}
use tp_sistemas_operativos.Kernel.Semaforos.{
  con_valor, con_cola, con_fd, con_retenido, con_espera, escribir, buscar_semaforo, escribir_sem,
  mate_sem_wait, esperar,
}
use tp_sistemas_operativos.Kernel.Semaforos.Equilibrio.{falta, Equilibrado, buscar-modificar}

module _ (igual : String → String → Bool) where
  module _ {F : Type 0} where
    -- What a wait does: it passes, or the carpincho joins the queue and leaves the exec queue.
    pub data Esperado (i : ℕ) (nombre : String) (fd : ℕ) (reloj : Reloj) (k : Kernel F)
        (s : Semaforo) (r : Paso (Kernel F)) : Type 0 where
      pasa :
          (k' : Kernel F) (s' : Semaforo) (c : Carpincho F) (n : ℕ)
          → s.valor ≡ pos (suc n)
          → r ≡ sigue (enviar (a_carpincho fd (pos 0)) k')
          → buscar_semaforo igual nombre k'.semaforos_carpinchos ≡ some s'
          → s'.valor ≡ pos n
          → s'.en_espera ≡ s.en_espera
          → Equilibrado s'
          → (encontrar i k'.lista_carpinchos ≡ some c) × (c.sem_retenido ≡ s.id)
          → k'.exec ≡ k.exec
          → Esperado i nombre fd reloj k s r
      bloquea :
          (k' : Kernel F) (s' : Semaforo) (c : Carpincho F)
          → is_neg (decr s.valor) ≡ true
          → r ≡ exec_a_block i reloj k'
          → buscar_semaforo igual nombre k'.semaforos_carpinchos ≡ some s'
          → s'.valor ≡ decr s.valor
          → s'.en_espera ≡ s.en_espera ++ (i ∷ [])
          → Equilibrado s'
          → (encontrar i k'.lista_carpinchos ≡ some c)
            × (c.espera_por ≡ some nombre)
            × (c.sem_por_el_que_se_bloqueo ≡ s.id)
          → k'.enviados ≡ k.enviados
          → Esperado i nombre fd reloj k s r

    module _ (i : ℕ) (nombre : String) (fd : ℕ) (reloj : Reloj) (k : Kernel F) (s : Semaforo)
        (c : Carpincho F) (b : buscar_semaforo igual nombre k.semaforos_carpinchos ≡ some s)
        (hc : encontrar i k.lista_carpinchos ≡ some c) where
      -- The kernel with the value lowered.
      bajado : Kernel F
      bajado = escribir i (con_fd fd) (escribir_sem igual nombre (con_valor (decr s.valor)) k)

      sem_bajado :
          buscar_semaforo igual nombre bajado.semaforos_carpinchos
          ≡ some (con_valor (decr s.valor) s)
      unfolding bajado
      sem_bajado =
          buscar-modificar igual nombre (con_valor (decr s.valor)) k.semaforos_carpinchos
            (λ s. refl)
          ∙ ap (Option.map (con_valor (decr s.valor))) b

      escrito_i :
          (f : Carpincho F → Carpincho F)
          → ((c : Carpincho F) → (f c).id ≡ c.id)
          → encontrar i (modificar i f bajado.lista_carpinchos) ≡ some (f (con_fd fd c))
      unfolding bajado
      escrito_i f h =
          encontrar-modificar i i f bajado.lista_carpinchos h
          ∙ rw (==_refl i) (
              ap (Option.map f) {y = some (con_fd fd c)} (
                encontrar-modificar i i (con_fd fd) k.lista_carpinchos (λ c. refl)
                ∙ rw (==_refl i, hc) refl))

      espera_eq : mate_sem_wait igual i nombre fd reloj k ≡ (
          if is_neg (decr s.valor)
          then exec_a_block i reloj (
              escribir_sem igual nombre
                (con_cola (s.en_espera ++ (i ∷ [])))
                (escribir i (con_espera (some nombre) s.id) bajado))
          else sigue (enviar (a_carpincho fd (pos 0)) (escribir i (con_retenido s.id) bajado)))
      unfolding mate_sem_wait esperar bajado encontrar_estructura_segun_id
      espera_eq = rw (b, mate_sem_wait, esperar, hc) refl

      no_pasa :
          is_neg (decr s.valor) ≡ true
          → length (s.en_espera ++ (i ∷ [])) ≡ falta (decr s.valor)
          → Esperado i nombre fd reloj k s (mate_sem_wait igual i nombre fd reloj k)
      unfolding bajado
      no_pasa n e =
          bloquea
            (escribir_sem igual nombre (con_cola (s.en_espera ++ (i ∷ [])))
              (escribir i (con_espera (some nombre) s.id) bajado))
            (con_cola (s.en_espera ++ (i ∷ [])) (con_valor (decr s.valor) s))
            (con_espera (some nombre) s.id (con_fd fd c)) n (espera_eq ∙ rw n refl)
            (buscar-modificar igual nombre (con_cola (s.en_espera ++ (i ∷ [])))
                bajado.semaforos_carpinchos (λ s. refl)
              ∙ ap (Option.map (con_cola (s.en_espera ++ (i ∷ [])))) sem_bajado)
            refl refl e (escrito_i (con_espera (some nombre) s.id) (λ c. refl), refl, refl) refl

      caso :
          (v : ℤ)
          → s.valor ≡ v
          → length s.en_espera ≡ falta v
          → Esperado i nombre fd reloj k s (mate_sem_wait igual i nombre fd reloj k)
      unfolding bajado
      caso (pos zero) v e = no_pasa (rw v refl) (rw (v, length-append) (omega arith))
      caso (pos (suc n)) v e =
          pasa (escribir i (con_retenido s.id) bajado) (con_valor (decr s.valor) s)
            (con_retenido s.id (con_fd fd c)) n v (espera_eq ∙ rw v refl) sem_bajado (rw v refl)
            refl (rw v e) (escrito_i (con_retenido s.id) (λ c. refl), refl) refl
      caso (negsuc n) v e = no_pasa (rw v refl) (rw (v, length-append) (omega arith))

    -- A wait of a carpincho that exists, on a semaphore that is found, whose queue has as many
    -- carpinchos as its value is below zero: the value goes down by one and the queue agrees with
    -- it again. If the value was above zero the carpincho is told 0 and retains the semaphore, and
    -- the executing queue stays; otherwise it is told nothing, joins the queue of the semaphore,
    -- records what it waits for, and the call goes on as exec_a_block.
    pub mate_sem_wait_lem :
        (i : ℕ) (nombre : String) (fd : ℕ) (reloj : Reloj) (k : Kernel F) (s : Semaforo)
        (c : Carpincho F)
        → buscar_semaforo igual nombre k.semaforos_carpinchos ≡ some s
        → encontrar i k.lista_carpinchos ≡ some c
        → Equilibrado s
        → Esperado i nombre fd reloj k s (mate_sem_wait igual i nombre fd reloj k)
    mate_sem_wait_lem i nombre fd reloj k s c b hc e =
        caso i nombre fd reloj k s c b hc s.valor refl e
