-- ===== src/Server/Slots.antt =====
-- The two connections of the server as slots that are taken and given back.
use mathlib.Core.Option
use ws25_np.Prelude.{◌≡◌, ◌≢◌, false, List, [], ◌∷◌, arith}
use ws25_np.Prelude.Int.{ℤ, negsuc, ◌==ℤ◌, ==ℤ_iff}
use ws25_np.Prelude.Run.{fault}
use ws25_np.Memory.{Endian}
use ws25_np.System.{World, Effect}
use ws25_np.Events.{Table}
use ws25_np.Events.Lookup.{registered}
use ws25_np.Server.{Server, Connection, Callback, on_acceptable}

-- The server with two connections.
abbrev pub server : ℤ → Table Callback → Connection → Connection → List Effect → World Server
server socket table a b log = record {
  app = record { socket_fd = socket; connections = a ∷ b ∷ []; table = table };
  log = log;
}

-- A connection whose slot is taken again.
abbrev pub reused : Connection → ℤ → Connection
reused a accepted = record a { fd = accepted; registered = 0; conn_send = 0 }

module _ (e : Endian) (socket : ℤ) where
  -- With both connections in use, an accepted third one makes `on_acceptable` go through a NULL
  -- pointer.
  pub on_acceptable_full :
      (table : Table Callback) (a b : Connection) (log : List Effect) (accepted : ℤ)
      → a.fd ≢ negsuc 0
      → b.fd ≢ negsuc 0
      → accepted ≢ negsuc 0
      → on_acceptable e accepted (server socket table a b log) ≡ fault
  unfolding on_acceptable
  on_acceptable_full table a b log accepted ha hb hc =
      rw (ne_test accepted hc, ne_test a.fd ha, ne_test b.fd hb)
    where
      ne_test : (k : ℤ) → k ≢ negsuc 0 → (k ==ℤ negsuc 0) ≡ false
      ne_test k h = ground (arith, ==ℤ_iff k (negsuc 0))

  -- The state behind the closing of the first connection.
  abbrev closed : Connection → Connection
  closed a = record a { fd = negsuc 0; registered = 0; conn_send = 0 }
