-- ===== src/Events.antt =====
-- The callbacks for descriptors of client/lib/cblib.c: the array `cb`, the set `read_fds` and
-- `maxfd` are a record. `C` stands for a callback with its argument, and `none` for `dummy`.
pub mod Lookup
pub mod Moved
pub mod Register
use ws25_np.Prelude.{
  ℕ, zero, suc, Bool, true, false, ◌&&◌, ◌||◌, Option, none, some, List, [], ◌∷◌, ltb, ◌==◌,
  if◌then◌else◌, length, set, replicate,
}
use ws25_np.Prelude.Int.{ℤ, pos, negsuc, ltb_ℤ, ◌==ℤ◌}

-- `struct cbarg`
pub record Entry (C : Type 0) : Type 0 where
  pub fd : ℤ
  pub callback : Option C

abbrev pub entry : {C : Type 0} → ℤ → Option C → Entry C
entry fd callback = record { fd = fd; callback = callback }

pub record Table (C : Type 0) : Type 0 where
  pub cb : List (Entry C)
  pub read_fds : ℤ → Bool
  pub maxfd : ℤ

-- `FD_SET` and `FD_CLR`.
abbrev pub fd_set : ℤ → (ℤ → Bool) → ℤ → Bool
fd_set fd fds other = if fd ==ℤ other then true else fds other

abbrev pub fd_clr : ℤ → (ℤ → Bool) → ℤ → Bool
fd_clr fd fds other = if fd ==ℤ other then false else fds other

-- `fd <= 0`
abbrev pub not_positive : ℤ → Bool
not_positive fd = ltb_ℤ fd (pos 1)

module _ {C : Type 0} where
  -- The entry of a free slot.
  abbrev pub unused : Entry C
  unused = entry (negsuc 0) none

  -- With `FD_SETSIZE` slots.
  unfoldable pub init_cblib : ℕ → Table C
  init_cblib fd_setsize = record {
    cb = replicate fd_setsize unused;
    read_fds = λ fd. false;
    maxfd = negsuc 0;
  }

  -- The index at which the loops for a descriptor stop: the first slot that has it, or the number of
  -- slots.
  unfoldable pub slot_of : ℤ → List (Entry C) → ℕ
  slot_of fd [] = 0
  slot_of fd (s ∷ cb) = if s.fd ==ℤ fd then 0 else suc (slot_of fd cb)

  -- The common end of the two functions that register: a slot that has the descriptor is given the
  -- callback; otherwise a free slot is taken, and `maxfd` raised.
  pub register : ℤ → C → Table C → Table C
  unfolding slot_of
  register fd callback t =
      if ltb (slot_of fd t.cb) (length t.cb)
      then record t { cb = set t.cb (slot_of fd t.cb) (entry fd (some callback)) }
      else if ltb (slot_of (negsuc 0) t.cb) (length t.cb)
      then record t {
        cb = set t.cb (slot_of (negsuc 0) t.cb) (entry fd (some callback));
        read_fds = fd_set fd t.read_fds;
        maxfd = if ltb_ℤ t.maxfd fd then fd else t.maxfd;
      }
      else t

  unfoldable pub register_fd_callback : ℤ → Option C → Table C → Table C
  unfolding register
  register_fd_callback fd none t = t
  register_fd_callback fd (some callback) t = if not_positive fd then t else register fd callback t

  unfoldable pub register_stdin_callback : Option C → Table C → Table C
  unfolding register
  register_stdin_callback none t = t
  register_stdin_callback (some callback) t = register (pos 0) callback t

  -- The loop that computes `maxfd` anew.
  unfoldable pub max_fd : ℤ → List (Entry C) → ℤ
  max_fd maxfd [] = maxfd
  max_fd maxfd (s ∷ cb) = max_fd (if ltb_ℤ maxfd s.fd then s.fd else maxfd) cb

  unfoldable pub deregister_fd_callback : ℤ → Table C → Table C
  unfolding slot_of max_fd
  deregister_fd_callback fd t =
      if not_positive fd
      then t
      else let cb' = set t.cb (slot_of fd t.cb) unused in
        if ltb (slot_of fd t.cb) (length t.cb)
        then record t {
          cb = cb';
          read_fds = fd_clr fd t.read_fds;
          maxfd = if t.maxfd ==ℤ fd then max_fd (negsuc 0) cb' else t.maxfd;
        }
        else record t { read_fds = fd_clr fd t.read_fds }

  unfoldable pub deregister_stdin_callback : Table C → Table C
  unfolding slot_of
  deregister_stdin_callback t =
      if ltb (slot_of (pos 0) t.cb) (length t.cb)
      then record t {
        cb = set t.cb (slot_of (pos 0) t.cb) unused;
        read_fds = fd_clr (pos 0) t.read_fds;
        maxfd = if t.maxfd ==ℤ pos 0 then negsuc 0 else t.maxfd;
      }
      else record t { read_fds = fd_clr (pos 0) t.read_fds }
