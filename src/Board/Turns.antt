-- ===== src/Board/Turns.antt =====
-- A turn of a player, as client/src/client.c makes it: `valid_move`, `make_move`, `winner`.
use ws25_np.Prelude.{
  ℕ, ◌≡◌, ◌≢◌, refl, sym, ◌∙◌, ◌⊎◌, inl, inr, true, ◌&&◌, some, arith, ◌==◌, Bool-cases,
}
use ws25_np.Prelude.Int.{ℤ, pos, ==ℤ_iff, ◌==ℤ◌}
use ws25_np.Board.{Board, cell, row_of, valid_move, make_move, winner}
use ws25_np.Board.Moves.{IsStacked, Dropped, make_move-Dropped, Dropped-IsStacked}
use ws25_np.Board.Winner.{Four, row_at, column_at, winner_sound, winner_complete}

module _ {b b' : Board} {k : ℕ} {player : ℤ} (d : Dropped b k player b') where
  square : (i j : ℕ) {v : ℤ} → cell b' i j ≡ v → (v ≡ player) ⊎ (cell b i j ≡ v)
  square i j {v} e = elim (Bool-cases (row_of b k == i && k == j)) [
    | inl new ↦ inl (ground (arith, d.cells i j))
    | inr old ↦ inr (ground (arith, d.cells i j))
  ]

  -- A line behind the move is the mover's, or it stood before.
  Four-Dropped : {v : ℤ} → Four b' v → (v ≡ player) ⊎ Four b v
  Four-Dropped {v} four = elim (square row column same_0) [
    | inl e ↦ inl e
    | inr e0 ↦ elim (square (row_at direction row 1) (column_at direction column 1) same_1) [
      | inl e ↦ inl e
      | inr e1 ↦ elim (square (row_at direction row 2) (column_at direction column 2) same_2) [
        | inl e ↦ inl e
        | inr e2 ↦ elim (square (row_at direction row 3) (column_at direction column 3) same_3) [
          | inl e ↦ inl e
          | inr e3 ↦ inr (record {
            direction = direction;
            row = row;
            column = column;
            fits = fits;
            stone = stone;
            same_0 = e0;
            same_1 = e1;
            same_2 = e2;
            same_3 = e3;
          })
        ]
      ]
    ]
  ]
    where
      open four use {direction, row, column, fits, stone, same_0, same_1, same_2, same_3}

-- On a board that nobody has won, an accepted move is made without a write out of bounds, and
-- behind it `winner` names nobody or the player who moved.
pub winner-make_move :
    {b : Board} (c player : ℤ)
    → IsStacked b
    → player ≢ pos 0
    → winner b ≡ pos 0
    → valid_move b c ≡ true
    → (b' : Board) × (make_move b c player ≡ some b')
      × IsStacked b'
      × ((winner b' ≡ pos 0) ⊎ ((winner b' ≡ player) × Four b' player))
winner-make_move {b} c player v np nobody good =
    let (k, b', _, made, d) = make_move-Dropped b c player v.shaped good in
    (
      b',
      made,
      Dropped-IsStacked k player v np d,
      elim (Bool-cases (winner b' ==ℤ pos 0)) [
        | inl e ↦ inl ((==ℤ_iff _ _).0 e)
        | inr ne ↦ inr (mover b' k d (λ e. ground (arith, (==ℤ_iff (winner b') (pos 0)).1 e)))
      ],
    )
  where
    mover :
        (b' : Board) (k : ℕ)
        → Dropped b k player b'
        → winner b' ≢ pos 0
        → (winner b' ≡ player) × Four b' player
    mover b' k d nz = elim (Four-Dropped d (winner_sound b' refl nz)) [
      | inl e ↦ (e, winner_sound b' e np)
      | inr old ↦ let (w, e, line) = winner_complete b old in absurd (line.stone (sym e ∙ nobody))
    ]
