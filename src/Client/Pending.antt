-- ===== src/Client/Pending.antt =====
-- The list of unacknowledged moves of client.c: what its timers rely on.
use mathlib.Core.Path.{subst}
use ws25_np.Prelude.{
  ℕ, ◌<◌, ◌^◌, ◌≡◌, ◌≢◌, refl, ap, sym, ◌∙◌, ◌⊎◌, inl, inr, false, Option, none, some, List, [],
  ◌∷◌, ◌++◌, ◌==◌, arith, All, Bool-cases, Option-cases, ==_iff, some_inj,
}
use ws25_np.Client.{UnAck, TimerCallback, transmit, find_item, set_timeout, take_item}

-- An item has this address and this timer.
abbrev pub Holds : ℕ → ℕ → List UnAck → Type 0
Holds a q [] = ⊥
Holds a q (i ∷ items) = ((i.address ≡ a) × (i.timer ≡ q)) ⊎ Holds a q items

-- No item has this timer.
abbrev pub Absent : ℕ → List UnAck → Type 0
Absent q [] = Unit
Absent q (i ∷ items) = (i.timer ≢ q) × Absent q items

-- Every item has a timer of its own.
abbrev pub Distinct : List UnAck → Type 0
Distinct [] = Unit
Distinct (i ∷ items) = Absent i.timer items × Distinct items

-- The timer of the item exists and transmits this item, and its numbers fit their fields.
abbrev pub IsLive : (ℕ → Option TimerCallback) → UnAck → Type 0
IsLive callback_of i =
    (callback_of i.timer ≡ some (transmit i.address)) × (i.sequence < 2 ^ 32) × (i.column < 2 ^ 16)

abbrev pub AreLive : (ℕ → Option TimerCallback) → List UnAck → Type 0
AreLive callback_of = All (IsLive callback_of)

module _ (f : ℕ → Option TimerCallback) where
  -- The item that an address finds.
  pub find_item-Holds :
      (a q : ℕ) (items : List UnAck)
      → AreLive f items
      → Holds a q items
      → (i : UnAck) × (find_item a items ≡ some i)
        × (i.address ≡ a)
        × IsLive f i
        × Holds a i.timer items
  unfolding find_item
  find_item-Holds a q (i ∷ items) (live, lives) h = elim (Bool-cases (i.address == a)) [
    | inl here ↦
        let same = (==_iff i.address a).0 here in (i, rw here, same, live, inl (same, refl))
    | inr later ↦
        let (j, found, same, live', holds) = find_item-Holds a q items lives (behind later h) in
        (j, rw later found, same, live', inr holds)
  ]
    where
      behind : (i.address == a) ≡ false → Holds a q (i ∷ items) → Holds a q items
      behind later (inl (e, _)) = absurd (ground arith)
      behind later (inr h) = h
  find_item-Holds a q [] lives h = absurd h

  pub AreLive-set_timeout :
      (a k : ℕ) (items : List UnAck) → AreLive f items → AreLive f (set_timeout a k items)
  unfolding set_timeout
  AreLive-set_timeout a k [] h = tt
  AreLive-set_timeout a k (i ∷ items) (live, h) = elim (Bool-cases (i.address == a)) [
    | inl here ↦ rw here (live, h)
    | inr later ↦ rw later (live, AreLive-set_timeout a k items h)
  ]

  pub AreLive-append :
      (items : List UnAck) (i : UnAck)
      → AreLive f items
      → IsLive f i
      → AreLive f (items ++ (i ∷ []))
  AreLive-append [] i h live = (live, tt)
  AreLive-append (j ∷ items) i (l, h) live = (l, AreLive-append items i h live)

-- Timers may change where no item has one.
pub AreLive-change :
    (f g : ℕ → Option TimerCallback) (items : List UnAck)
    → AreLive f items
    → ((i : UnAck)
        → Holds i.address i.timer items
        → f i.timer ≡ some (transmit i.address)
        → g i.timer ≡ f i.timer)
    → AreLive g items
AreLive-change f g [] h same = tt
AreLive-change f g (i ∷ items) ((live, hs, hc), h) same = (
  (same i (inl (refl, refl)) live ∙ live, hs, hc),
  AreLive-change f g items h (λ j holds. same j (inr holds)),
)

pub Holds-set_timeout :
    (a q b k : ℕ) (items : List UnAck) → Holds a q items → Holds a q (set_timeout b k items)
unfolding set_timeout
Holds-set_timeout a q b k (i ∷ items) h = elim (Bool-cases (i.address == b)) [
  | inl here ↦ rw here h
  | inr later ↦
      rw later (elim h [ inl e ↦ inl e | inr h ↦ inr (Holds-set_timeout a q b k items h) ])
]
Holds-set_timeout a q b k [] h = absurd h

pub Absent-set_timeout :
    (q b k : ℕ) (items : List UnAck) → Absent q items → Absent q (set_timeout b k items)
unfolding set_timeout
Absent-set_timeout q b k [] h = tt
Absent-set_timeout q b k (i ∷ items) (ne, h) = elim (Bool-cases (i.address == b)) [
  | inl here ↦ rw here (ne, h)
  | inr later ↦ rw later (ne, Absent-set_timeout q b k items h)
]

pub Distinct-set_timeout :
    (b k : ℕ) (items : List UnAck) → Distinct items → Distinct (set_timeout b k items)
unfolding set_timeout
Distinct-set_timeout b k [] h = tt
Distinct-set_timeout b k (i ∷ items) (out, h) = elim (Bool-cases (i.address == b)) [
  | inl here ↦ rw here (out, h)
  | inr later ↦
      rw later (Absent-set_timeout i.timer b k items out, Distinct-set_timeout b k items h)
]

pub Holds-append :
    (a q : ℕ) (items : List UnAck) (i : UnAck) → Holds a q items → Holds a q (items ++ (i ∷ []))
Holds-append a q (j ∷ items) i (inl e) = inl e
Holds-append a q (j ∷ items) i (inr h) = inr (Holds-append a q items i h)
Holds-append a q [] i h = absurd h

pub Holds-last : (items : List UnAck) (i : UnAck) → Holds i.address i.timer (items ++ (i ∷ []))
Holds-last [] i = inl (refl, refl)
Holds-last (j ∷ items) i = inr (Holds-last items i)

pub Absent-append :
    (q : ℕ) (items : List UnAck) (i : UnAck)
    → Absent q items
    → i.timer ≢ q
    → Absent q (items ++ (i ∷ []))
Absent-append q [] i h ne = (ne, tt)
Absent-append q (j ∷ items) i (ne', h) ne = (ne', Absent-append q items i h ne)

pub Distinct-append :
    (items : List UnAck) (i : UnAck)
    → Distinct items
    → Absent i.timer items
    → Distinct (items ++ (i ∷ []))
Distinct-append [] i h out = (tt, tt)
Distinct-append (j ∷ items) i (out', h) (ne, out) =
    (Absent-append j.timer items i out' (λ e. ne (sym e)), Distinct-append items i h out)

pub Holds-Absent : (a q p : ℕ) (items : List UnAck) → Absent p items → Holds a q items → q ≢ p
Holds-Absent a q p (i ∷ items) (ne, out) (inl (_, e)) = λ same. ne (e ∙ same)
Holds-Absent a q p (i ∷ items) (ne, out) (inr h) = Holds-Absent a q p items out h
Holds-Absent a q p [] out h = absurd h

-- A number that has no callback is no item's timer.
pub Absent-of_none :
    (f : ℕ → Option TimerCallback) (q : ℕ) (items : List UnAck)
    → f q ≡ none
    → AreLive f items
    → Absent q items
Absent-of_none f q [] e h = tt
Absent-of_none f q (i ∷ items) e ((live, _, _), h) =
    (λ same. let clash = sym live ∙ ap f same ∙ e in cc, Absent-of_none f q items e h)

-- What taking an item leaves.
pub record Taken (f : ℕ → Option TimerCallback) (items : List UnAck) (i : UnAck) (rest : List UnAck)
    : Type 0 where
  pub live : IsLive f i
  pub lives : AreLive f rest
  pub distinct : Distinct rest
  pub absent : Absent i.timer rest
  pub kept : (a q : ℕ) → Holds a q items → (q ≡ i.timer) ⊎ Holds a q rest
  pub others : (q : ℕ) → Absent q items → Absent q rest × (i.timer ≢ q)

module _ (f : ℕ → Option TimerCallback) (j : UnAck) (items : List UnAck) (live : IsLive f j)
    (out : Absent j.timer items) where
  first-Taken : AreLive f items → Distinct items → Taken f (j ∷ items) j items
  first-Taken h d = record {
    live = live;
    lives = h;
    distinct = d;
    absent = out;
    kept = λ a q holds. elim holds [ inl e ↦ inl (sym (e.1)) | inr later ↦ inr later ];
    others = λ q (ne, o). (o, ne);
  }

  later-Taken :
      {i : UnAck} {rest : List UnAck} → Taken f items i rest → Taken f (j ∷ items) i (j ∷ rest)
  later-Taken t = record {
    live = t.live;
    lives = (live, t.lives);
    distinct = ((t.others j.timer out).0, t.distinct);
    absent = (λ e. (t.others j.timer out).1 (sym e), t.absent);
    kept = λ a q holds. elim holds [
      | inl e ↦ inr (inl e)
      | inr later ↦ elim (t.kept a q later) [ inl e ↦ inl e | inr left ↦ inr (inr left) ]
    ];
    others = λ q (ne, o). ((ne, (t.others q o).0), (t.others q o).1);
  }

pub take_item-Taken :
    (f : ℕ → Option TimerCallback) (s : ℕ) (items : List UnAck) {i : UnAck} {rest : List UnAck}
    → AreLive f items
    → Distinct items
    → take_item s items ≡ some (i, rest)
    → Taken f items i rest
unfolding take_item
take_item-Taken f s [] h d e = cc
take_item-Taken f s (j ∷ items) {i} {rest} (live, h) (out, d) e =
    elim (Bool-cases (j.sequence == s)) [
      | inl hit ↦
          let same : (j, items) ≡ (i, rest) = some_inj _ _ (sym (rw hit) ∙ e) in
          subst (λ p. Taken f (j ∷ items) p.0 p.1) same (first-Taken f j items live out h d)
      | inr miss ↦ elim (Option-cases (take_item s items)) [
        | inl nothing ↦ absurd (ground arith)
        | inr (found, e') ↦
            let same : (found.0, j ∷ found.1) ≡ (i, rest) =
              some_inj _ _ (sym (rw (miss, e')) ∙ e) in
            subst (λ p. Taken f (j ∷ items) p.0 p.1) same
              (later-Taken f j items live out
                (take_item-Taken f s items {i = found.0} {rest = found.1} h d e'))
      ]
    ]
