-- ===== src/Events/Moved.antt =====
-- A callback that moves from one descriptor to another: given up in the table, and registered again.
use ws25_np.Prelude.{
  ◌≡◌, refl, ◌∙◌, ◌⊎◌, inl, inr, true, false, none, some, List, [], ◌∷◌, arith, if◌then◌else◌,
  Bool-cases,
}
use ws25_np.Prelude.Int.{ℤ, negsuc, ◌==ℤ◌, ==ℤ_iff}
use ws25_np.Events.{
  Entry, entry, Table, unused, not_positive, fd_set, register, register_fd_callback,
  deregister_fd_callback,
}
use ws25_np.Events.Lookup.{find, find-absent, registered, Distinct, slot-test, registered-set}
use ws25_np.Events.Register.{find-register, find-deregister_fd_callback}

registered-find :
    {C : Type 0} (fd : ℤ) (cb : List (Entry C)) → find fd cb ≡ none → registered fd cb ≡ false
registered-find fd [] e = refl
registered-find fd (s ∷ cb) e = ground (arith, registered-find fd cb)

module _ {C : Type 0} (fd new : ℤ) (callback : C) (t : Table C) where
  -- A slot is free behind it.
  room :
      registered fd t.cb ≡ true
      → not_positive fd ≡ false
      → registered (negsuc 0) (deregister_fd_callback fd t).cb ≡ true
  unfolding deregister_fd_callback
  room known positive =
      rw (positive, slot-test fd t.cb, known)
        (rw (registered-set fd (negsuc 0) unused t.cb known (ground arith)) refl)

  -- The new descriptor has no slot behind it.
  new_absent :
      Distinct t.cb
      → not_positive fd ≡ false
      → not_positive new ≡ false
      → (new ≡ fd) ⊎ (registered new t.cb ≡ false)
      → registered new (deregister_fd_callback fd t).cb ≡ false
  new_absent d positive positive' h =
      registered-find new _
        ((find-deregister_fd_callback fd new t d positive (ground arith)).0 ∙ outcome h)
    where
      outcome :
          (new ≡ fd) ⊎ (registered new t.cb ≡ false)
          → (if fd ==ℤ new then none else find new t.cb) ≡ none
      outcome h = elim h [
        | inl same ↦ rw (same, (==ℤ_iff fd fd).1 refl) refl
        | inr none_has ↦ elim (Bool-cases (fd ==ℤ new)) [
          | inl e ↦ rw e refl
          | inr e ↦ rw e (find-absent new t.cb none_has)
        ]
      ]

  register_fds :
      (u : Table C)
      → registered new u.cb ≡ false
      → registered (negsuc 0) u.cb ≡ true
      → (register new callback u).read_fds ≡ fd_set new u.read_fds
  unfolding register
  register_fds u absent free = rw (slot-test new u.cb, absent, slot-test (negsuc 0) u.cb, free)

  -- The descriptor that is given up has no callback and is not waited for; the new one has the callback and
  -- is waited for; nothing changes for any other, -1 left aside.
  pub register_fd_callback-deregister_fd_callback :
      (other : ℤ)
      → Distinct t.cb
      → registered fd t.cb ≡ true
      → not_positive fd ≡ false
      → not_positive new ≡ false
      → (new ≡ fd) ⊎ (registered new t.cb ≡ false)
      → (negsuc 0 ==ℤ other) ≡ false
      → let t' = register_fd_callback new (some callback) (deregister_fd_callback fd t) in
        (find other t'.cb ≡ (
          if new ==ℤ other
          then some (entry new (some callback))
          else if fd ==ℤ other
          then none
          else find other t.cb))
        × (t'.read_fds other
            ≡ (if new ==ℤ other then true else if fd ==ℤ other then false else t.read_fds other))
  unfolding register_fd_callback
  register_fd_callback-deregister_fd_callback other d known positive positive' apart used =
      let u = deregister_fd_callback fd t in
      let free : registered (negsuc 0) u.cb ≡ true = room known positive in
      let absent : registered new u.cb ≡ false = new_absent d positive positive' apart in
      let (entries, fds) = find-deregister_fd_callback fd other t d positive used in
      (
        rw positive'
            (find-register new callback u other (rw (absent, free) refl) used ∙ rw entries refl),
        rw positive' (rw (register_fds u absent free, fds) refl),
      )
