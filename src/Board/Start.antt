-- ===== src/Board/Start.antt =====
-- `init_4clib` of 4clib.c: whatever the arrays held, a game starts on an empty board.
use ws25_np.Prelude.{ℕ, zero, suc, ◌<◌, ◌≡◌, refl, sym, ◌∙◌, inl, inr, arith, ◌==◌, set, Bool-cases}
use ws25_np.Prelude.Int.{pos, ◌==ℤ◌, ==ℤ_iff}
use ws25_np.Board.{
  Board, number_of_rows, number_of_columns, cell, set_cell, row_of, for_below, init_4clib, winner,
}
use ws25_np.Board.Cells.{
  IsShaped, row_of-set, cell-set_cell, set_cell-IsShaped, set_next_row-IsShaped,
}
use ws25_np.Board.Moves.{IsStacked, stones, stones_of_empty}
use ws25_np.Board.Winner.{Four, Fits, Direction, east, north, north_east, north_west, winner_sound}

module _ {ℓ} {S : Type 0} (P : ℕ → S → Type ℓ) (body : ℕ → S → S) where
  -- The rule for the counted loops.
  for_below_inv :
      (n : ℕ) {s : S}
      → P 0 s
      → ((k : ℕ) (s : S) → k < n → P k s → P (suc k) (body k s))
      → P n (for_below n body s)
  unfolding for_below
  for_below_inv zero h step = h
  for_below_inv (suc n) {s} h step =
      step n (for_below n body s) (omega arith)
        (for_below_inv n h (λ k s hk. step k s (omega arith)))

abbrev ClearRows : ℕ → Board → Type 0
ClearRows n b = IsShaped b × ((i j : ℕ) → i < n → j < number_of_columns → cell b i j ≡ pos 0)

abbrev ClearInRow : ℕ → ℕ → Board → Type 0
ClearInRow i n b = ClearRows i b × ((j : ℕ) → j < n → cell b i j ≡ pos 0)

abbrev ClearTops : ℕ → Board → Type 0
ClearTops n b = ClearRows number_of_rows b × ((j : ℕ) → j < n → row_of b j ≡ 0)

clear_cell :
    (i k : ℕ) (b : Board)
    → i < number_of_rows
    → k < number_of_columns
    → ClearInRow i k b
    → ClearInRow i (suc k) (set_cell b i k (pos 0))
clear_cell i k b hi hk ((s, above), here) = (
  (
    set_cell-IsShaped i k (pos 0) s hi,
    λ i' j hi' hj. ground (arith, cell-set_cell i k (pos 0) i' j s hi hk, above i' j hi' hj),
  ),
  λ j hj. ground (arith, cell-set_cell i k (pos 0) i j s hi hk, here j),
)

clear_row :
    (i : ℕ) (b : Board)
    → i < number_of_rows
    → ClearRows i b
    → ClearRows (suc i) (for_below number_of_columns (λ j t. set_cell t i j (pos 0)) b)
clear_row i b hi h =
    let ((s, above), here) =
      for_below_inv (ClearInRow i) (λ j t. set_cell t i j (pos 0)) number_of_columns {s = b}
        (h, λ j hj. elim hj [ ]) (λ k t hk. clear_cell i k t hi hk) in
    (
      s,
      λ i' j hi' hj. elim (Bool-cases (i' == i)) [
        | inl e ↦ ground (arith, here j hj)
        | inr ne ↦ above i' j (ground arith) hj
      ],
    )

clear_top :
    (k : ℕ) (b : Board)
    → k < number_of_columns
    → ClearTops k b
    → ClearTops (suc k) (record b { next_row = set b.next_row k 0 })
clear_top k b hk ((s, clear), tops) =
    ((set_next_row-IsShaped k 0 s, clear), λ j hj. ground (arith, row_of-set k j 0 s hk, tops j))

init_4clib-ClearTops : (b : Board) → IsShaped b → ClearTops number_of_columns (init_4clib b)
unfolding init_4clib
init_4clib-ClearTops b s =
    for_below_inv ClearTops (λ j t. record t { next_row = set t.next_row j 0 }) number_of_columns
      (
        for_below_inv ClearRows
            (λ i t. for_below number_of_columns (λ j u. set_cell u i j (pos 0)) t) number_of_rows
            {s = b} (s, λ i j hi. elim hi [ ]) (λ k t hk. clear_row k t hk),
        λ j hj. elim hj [ ],
      )
      (λ k t hk. clear_top k t hk)

Fits-on_board :
    (d : Direction) (i j : ℕ) → Fits d i j → (i < number_of_rows) × (j < number_of_columns)
Fits-on_board east i j h = omega arith
Fits-on_board north i j h = omega arith
Fits-on_board north_east i j h = omega arith
Fits-on_board north_west i j h = omega arith

winner_of_clear :
    (b : Board)
    → ((i j : ℕ) → i < number_of_rows → j < number_of_columns → cell b i j ≡ pos 0)
    → winner b ≡ pos 0
winner_of_clear b clear = elim (Bool-cases (winner b ==ℤ pos 0)) [
  | inl e ↦ (==ℤ_iff _ _).0 e
  | inr ne ↦
      let line : Four b (winner b) =
        winner_sound b refl (λ e. ground (arith, (==ℤ_iff (winner b) (pos 0)).1 e)) in
      let (hi, hj) = Fits-on_board line.direction line.row line.column line.fits in
      absurd (line.stone (sym line.same_0 ∙ clear line.row line.column hi hj))
]

-- Whatever the arrays of the declared sizes held before, `init_4clib` leaves every square and
-- every column empty, and nobody has won.
pub init_4clib-IsStacked :
    (b : Board)
    → IsShaped b
    → IsStacked (init_4clib b) × (stones (init_4clib b) ≡ 0) × (winner (init_4clib b) ≡ pos 0)
init_4clib-IsStacked b s =
    let ((shaped, clear), tops) = init_4clib-ClearTops b s in
    (
      record {
        shaped = shaped;
        below_top = λ j hj. omega (arith, tops j hj);
        filled = λ i j hi hj h. absurd (omega (arith, tops j hj));
        empty = λ i j hi hj _. clear i j hi hj;
      },
      stones_of_empty shaped tops,
      winner_of_clear (init_4clib b) clear,
    )
