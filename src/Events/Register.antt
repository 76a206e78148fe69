-- ===== src/Events/Register.antt =====
-- Registering and deregistering callbacks in the table, as updates of a finite map.
use ws25_np.Prelude.{
  ◌≡◌, refl, inl, inr, true, false, ◌||◌, none, some, arith, if◌then◌else◌, set, Bool-cases,
}
use ws25_np.Prelude.Int.{ℤ, negsuc, ◌==ℤ◌, ==ℤ_iff}
use ws25_np.Events.{entry, Table, unused, slot_of, not_positive, register, deregister_fd_callback}
use ws25_np.Events.Lookup.{
  find, registered, Distinct, slot-test, find-set, find-set_self, find-absent, find-unused,
}

module _ {C : Type 0} (fd : ℤ) (callback : C) (t : Table C) where
  register-known :
      registered fd t.cb ≡ true
      → register fd callback t
        ≡ record t { cb = set t.cb (slot_of fd t.cb) (entry fd (some callback)) }
  unfolding register
  register-known h = rw (slot-test fd t.cb, h)

  register-new :
      registered fd t.cb ≡ false
      → registered (negsuc 0) t.cb ≡ true
      → (register fd callback t).cb ≡ set t.cb (slot_of (negsuc 0) t.cb) (entry fd (some callback))
  unfolding register
  register-new h free = rw (slot-test fd t.cb, h, slot-test (negsuc 0) t.cb, free)

  -- Where the descriptor has a slot or a slot is free, the table behind a registration has the
  -- callback at the descriptor, and what it had at every other one, -1 left aside.
  pub find-register :
      (other : ℤ)
      → (registered fd t.cb || registered (negsuc 0) t.cb) ≡ true
      → (negsuc 0 ==ℤ other) ≡ false
      → find other (register fd callback t).cb
        ≡ (if fd ==ℤ other then some (entry fd (some callback)) else find other t.cb)
  find-register other room used = elim (Bool-cases (registered fd t.cb)) [
    | inl known ↦ rw (register-known known) (known_case known)
    | inr new ↦ rw (register-new new (ground arith)) (new_case new (ground arith))
  ]
    where
      known_case :
          registered fd t.cb ≡ true
          → find other (set t.cb (slot_of fd t.cb) (entry fd (some callback)))
            ≡ (if fd ==ℤ other then some (entry fd (some callback)) else find other t.cb)
      known_case known = elim (Bool-cases (fd ==ℤ other)) [
        | inl e ↦
            rw (e, ← (==ℤ_iff fd other).0 e)
              (find-set_self fd (entry fd (some callback)) t.cb known (inl refl))
        | inr ne ↦ rw ne (find-set fd other (entry fd (some callback)) t.cb known ne ne)
      ]

      new_case :
          registered fd t.cb ≡ false
          → registered (negsuc 0) t.cb ≡ true
          → find other (set t.cb (slot_of (negsuc 0) t.cb) (entry fd (some callback)))
            ≡ (if fd ==ℤ other then some (entry fd (some callback)) else find other t.cb)
      new_case new free = elim (Bool-cases (fd ==ℤ other)) [
        | inl e ↦
            rw (e, ← (==ℤ_iff fd other).0 e)
              (find-set_self (negsuc 0) (entry fd (some callback)) t.cb free (inr new))
        | inr ne ↦ rw ne (find-set (negsuc 0) other (entry fd (some callback)) t.cb free used ne)
      ]

-- In a table without double entries, giving up a positive descriptor takes it out of the map and
-- out of the set for `select`, and changes no other descriptor, -1 left aside.
pub find-deregister_fd_callback :
    {C : Type 0} (fd other : ℤ) (t : Table C)
    → Distinct t.cb
    → not_positive fd ≡ false
    → (negsuc 0 ==ℤ other) ≡ false
    → (find other (deregister_fd_callback fd t).cb
        ≡ (if fd ==ℤ other then none else find other t.cb))
      × ((deregister_fd_callback fd t).read_fds other
          ≡ (if fd ==ℤ other then false else t.read_fds other))
unfolding deregister_fd_callback
find-deregister_fd_callback fd other t d positive used = elim (Bool-cases (registered fd t.cb)) [
  | inl known ↦ rw (positive, slot-test fd t.cb, known) (known_case known, refl)
  | inr absent ↦ rw (positive, slot-test fd t.cb, absent) (absent_case absent, refl)
]
  where
    known_case :
        registered fd t.cb ≡ true
        → find other (set t.cb (slot_of fd t.cb) unused)
          ≡ (if fd ==ℤ other then none else find other t.cb)
    known_case known = elim (Bool-cases (fd ==ℤ other)) [
      | inl e ↦ rw (e, ← (==ℤ_iff fd other).0 e) (find-unused fd t.cb d known (ground arith))
      | inr ne ↦ rw ne (find-set fd other unused t.cb known ne used)
    ]

    absent_case :
        registered fd t.cb ≡ false
        → find other t.cb ≡ (if fd ==ℤ other then none else find other t.cb)
    absent_case absent = elim (Bool-cases (fd ==ℤ other)) [
      | inl e ↦ rw (e, ← (==ℤ_iff fd other).0 e) (find-absent fd t.cb absent)
      | inr ne ↦ rw ne
    ]
