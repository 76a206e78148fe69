-- ===== src/System.antt =====
-- The program around the operating system: a state, and the system calls made so far whose results
-- the code does not use. What a call returns and the code uses is an argument of the operation.
use ws25_np.Prelude.{List, [], ◌∷◌, ◌++◌}
use ws25_np.Prelude.Int.{ℤ}
use ws25_np.Prelude.Run.{M, modify}
use ws25_np.Memory.{Bytes}

pub data Effect : Type 0 where
  -- `send(fd, …)`; its result only decides whether `perror` is called.
  send : ℤ → Bytes → Effect
  -- `shutdown(fd, SHUT_WR)`
  shutdown : ℤ → Effect
  close : ℤ → Effect
  -- The warning of the client that no heartbeat arrives.
  warned : Effect

pub record World (S : Type 0) : Type 0 where
  pub app : S
  pub log : List Effect

abbrev pub emit : {S : Type 0} → Effect → M (World S) (Unit {0})
emit f = modify (λ w. record w { log = w.log ++ (f ∷ []) })

abbrev pub update : {S : Type 0} → (S → S) → M (World S) (Unit {0})
update f = modify (λ w. record w { app = f w.app })
