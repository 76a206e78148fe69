-- ===== src/Events/Lookup.antt =====
-- The table of callbacks as a finite map from descriptors, and its invariant.
use ws25_np.Prelude.{
  ◌<◌, ◌≡◌, refl, ap, sym, ◌∙◌, ◌⊎◌, inl, inr, Bool, true, false, ◌||◌, Option, none, some, List,
  [], ◌∷◌, ltb, if◌then◌else◌, length, set, arith, Bool-cases, lt→ltb, ltb-eq-false,
}
use ws25_np.Prelude.Int.{ℤ, negsuc, ◌==ℤ◌, ==ℤ_iff}
use ws25_np.Events.{Entry, unused, slot_of}

or_swap : (a b c : Bool) → (a || (b || c)) ≡ (b || (a || c))
or_swap true true c = refl
or_swap true false c = refl
or_swap false true c = refl
or_swap false false c = refl

==ℤ_comm : (a b : ℤ) → (a ==ℤ b) ≡ (b ==ℤ a)
==ℤ_comm a b = ground arith

module _ {C : Type 0} where
  -- The entry that a descriptor has.
  abbrev pub find : ℤ → List (Entry C) → Option (Entry C)
  find fd [] = none
  find fd (s ∷ cb) = if s.fd ==ℤ fd then some s else find fd cb

  abbrev pub registered : ℤ → List (Entry C) → Bool
  registered fd [] = false
  registered fd (s ∷ cb) = (s.fd ==ℤ fd) || registered fd cb

  -- No descriptor has two slots; a free slot has -1.
  abbrev pub Distinct : List (Entry C) → Type 0
  Distinct [] = Unit
  Distinct (s ∷ cb) = (((s.fd ==ℤ negsuc 0) ≡ true) ⊎ (registered s.fd cb ≡ false)) × Distinct cb

  slot_of-lt : (fd : ℤ) (cb : List (Entry C)) → registered fd cb ≡ true → slot_of fd cb < length cb
  unfolding slot_of
  slot_of-lt fd [] h = cc
  slot_of-lt fd (s ∷ cb) h = ground (arith, slot_of-lt fd cb)

  slot_of-absent :
      (fd : ℤ) (cb : List (Entry C)) → registered fd cb ≡ false → slot_of fd cb ≡ length cb
  unfolding slot_of
  slot_of-absent fd [] h = refl
  slot_of-absent fd (s ∷ cb) h = ground (arith, slot_of-absent fd cb)

  -- The test of the loops for a descriptor.
  pub slot-test :
      (fd : ℤ) (cb : List (Entry C)) → ltb (slot_of fd cb) (length cb) ≡ registered fd cb
  slot-test fd cb = elim (Bool-cases (registered fd cb)) [
    | inl h ↦ lt→ltb _ _ (slot_of-lt fd cb h) ∙ sym h
    | inr h ↦ ltb-eq-false _ _ (omega (arith, slot_of-absent fd cb h)) ∙ sym h
  ]

  -- Another descriptor's entry after a write into the slot that `fd` has.
  pub find-set :
      (fd other : ℤ) (new : Entry C) (cb : List (Entry C))
      → registered fd cb ≡ true
      → (fd ==ℤ other) ≡ false
      → (new.fd ==ℤ other) ≡ false
      → find other (set cb (slot_of fd cb) new) ≡ find other cb
  unfolding slot_of
  find-set fd other new [] h ne ne' = cc
  find-set fd other new (s ∷ cb) h ne ne' = elim (Bool-cases (s.fd ==ℤ fd)) [
    | inl here ↦ let same : s.fd ≡ fd = (==ℤ_iff s.fd fd).0 here in rw (here, ne', same, ne)
    | inr later ↦ rw later (
        ap (λ o. if s.fd ==ℤ other then some s else o)
          (find-set fd other new cb (ground arith) ne ne'))
  ]

  -- What the slot holds behind a write, if no slot before it has that descriptor.
  pub find-set_self :
      (fd : ℤ) (new : Entry C) (cb : List (Entry C))
      → registered fd cb ≡ true
      → (fd ≡ new.fd) ⊎ (registered new.fd cb ≡ false)
      → find new.fd (set cb (slot_of fd cb) new) ≡ some new
  unfolding slot_of
  find-set_self fd new [] h u = cc
  find-set_self fd new (s ∷ cb) h u = elim (Bool-cases (s.fd ==ℤ fd)) [
    | inl here ↦ rw (here, (==ℤ_iff new.fd new.fd).1 refl)
    | inr later ↦ rw later (behind (find-set_self fd new cb (ground arith)) later u)
  ]
    where
      behind :
          ((fd ≡ new.fd) ⊎ (registered new.fd cb ≡ false)
            → find new.fd (set cb (slot_of fd cb) new) ≡ some new)
          → (s.fd ==ℤ fd) ≡ false
          → (fd ≡ new.fd) ⊎ (registered new.fd (s ∷ cb) ≡ false)
          → (if s.fd ==ℤ new.fd then some s else find new.fd (set cb (slot_of fd cb) new))
            ≡ some new
      behind ih later (inl e) = rw (ap (λ k. s.fd ==ℤ k) (sym e) ∙ later) (ih (inl e))
      behind ih later (inr absent) = elim (Bool-cases (s.fd ==ℤ new.fd)) [
        | inl there ↦ absurd (ground arith)
        | inr other ↦ rw other (ih (inr (ground arith)))
      ]

  pub registered-set :
      (fd other : ℤ) (new : Entry C) (cb : List (Entry C))
      → registered fd cb ≡ true
      → (fd ==ℤ other) ≡ false
      → registered other (set cb (slot_of fd cb) new) ≡ ((new.fd ==ℤ other) || registered other cb)
  unfolding slot_of
  registered-set fd other new [] h ne = cc
  registered-set fd other new (s ∷ cb) h ne = elim (Bool-cases (s.fd ==ℤ fd)) [
    | inl here ↦ let same : s.fd ≡ fd = (==ℤ_iff s.fd fd).0 here in rw (here, same, ne)
    | inr later ↦
        rw (later, registered-set fd other new cb (ground arith) ne)
          (or_swap (s.fd ==ℤ other) (new.fd ==ℤ other) (registered other cb))
  ]

  pub find-absent : (fd : ℤ) (cb : List (Entry C)) → registered fd cb ≡ false → find fd cb ≡ none
  find-absent fd [] h = refl
  find-absent fd (s ∷ cb) h = ground (arith, find-absent fd cb)

  -- A descriptor that the table gives up is found no more.
  pub find-unused :
      (fd : ℤ) (cb : List (Entry C))
      → Distinct cb
      → registered fd cb ≡ true
      → (fd ==ℤ negsuc 0) ≡ false
      → find fd (set cb (slot_of fd cb) unused) ≡ none
  unfolding slot_of
  find-unused fd [] d h u = cc
  find-unused fd (s ∷ cb) (first, d) h u = elim (Bool-cases (s.fd ==ℤ fd)) [
    | inl here ↦
        let same : s.fd ≡ fd = (==ℤ_iff s.fd fd).0 here in
        rw (here, ==ℤ_comm (negsuc 0) fd ∙ u)
          (find-absent fd cb
            (elim first [ inl free ↦ absurd (ground arith) | inr absent ↦ rw same at absent ]))
    | inr later ↦ rw (later, later) (find-unused fd cb d (ground arith) u)
  ]
