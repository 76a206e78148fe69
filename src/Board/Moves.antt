-- ===== src/Board/Moves.antt =====
-- `valid_move` and `make_move` of 4clib.c: gravity, bounds, and the length of a game.
use ws25_np.Prelude.{
  ℕ, zero, suc, ◌+◌, ◌*◌, ◌≤◌, ◌<◌, ◌≡◌, ◌≢◌, refl, ap, inl, inr, true, false, ◌&&◌, All, Option,
  none, some, List, [], ◌∷◌, arith, ◌==◌, if◌then◌else◌, Bool, Bool-cases, some_inj, get_or, set,
  length,
}
use mathlib.Core.Path.{subst}
use ws25_np.Prelude.Int.{ℤ, pos, negsuc}
use ws25_np.Board.{
  Board, number_of_rows, number_of_columns, cell, set_cell, row_of, valid_move, make_move,
}
use ws25_np.Board.Cells.{
  IsShaped, row_of-set, cell-set_cell, set_cell-IsShaped, set_next_row-IsShaped,
}

-- The stones of each column lie without a gap from row 0 up to `next_row`.
pub record IsStacked (b : Board) : Type 0 where
  pub shaped : IsShaped b
  pub below_top : (j : ℕ) → j < number_of_columns → row_of b j ≤ number_of_rows
  pub filled :
      (i j : ℕ) → i < number_of_rows → j < number_of_columns → i < row_of b j → cell b i j ≢ pos 0
  pub empty :
      (i j : ℕ) → i < number_of_rows → j < number_of_columns → row_of b j ≤ i → cell b i j ≡ pos 0

-- What the move of a stone into column `c` leaves behind.
pub record Dropped (b : Board) (c : ℕ) (player : ℤ) (b' : Board) : Type 0 where
  pub column_in : c < number_of_columns
  pub row_in : row_of b c < number_of_rows
  pub cells : (i j : ℕ) → cell b' i j ≡ (if row_of b c == i && c == j then player else cell b i j)
  pub tops : (j : ℕ) → row_of b' j ≡ (if c == j then row_of b c + 1 else row_of b j)
  pub shaped : IsShaped b'

-- A move that `valid_move` accepts stays inside the arrays.
pub valid_move-in_bounds :
    (b : Board) (c : ℤ)
    → valid_move b c ≡ true
    → (k : ℕ) × (c ≡ pos k) × (k < number_of_columns) × (row_of b k < number_of_rows)
unfolding valid_move
valid_move-in_bounds b (pos k) h = (k, refl, ground arith, ground arith)
valid_move-in_bounds b (negsuc k) h = cc

make_move_in :
    (b : Board) (c : ℕ) (player : ℤ)
    → IsShaped b
    → valid_move b (pos c) ≡ true
    → (b' : Board) × (make_move b (pos c) player ≡ some b') × Dropped b c player b'
unfolding valid_move make_move
make_move_in b c player s h =
    let hc : c < number_of_columns = ground arith in
    let hr : row_of b c < number_of_rows = ground arith in
    (
      record (set_cell b (row_of b c) c player) { next_row = set b.next_row c (row_of b c + 1) },
      rw h,
      record {
        column_in = hc;
        row_in = hr;
        cells = λ i j. cell-set_cell (row_of b c) c player i j s hr hc;
        tops = λ j. row_of-set c j (row_of b c + 1) s hc;
        shaped = set_next_row-IsShaped c _ (set_cell-IsShaped (row_of b c) c player s hr);
      },
    )

-- On arrays of the declared sizes `make_move` writes inside them for a move that `valid_move` accepts.
pub make_move-Dropped :
    (b : Board) (c player : ℤ)
    → IsShaped b
    → valid_move b c ≡ true
    → (k : ℕ) × (b' : Board) × (c ≡ pos k)
      × (make_move b c player ≡ some b')
      × Dropped b k player b'
unfolding valid_move
make_move-Dropped b (pos k) player s h =
    let (b', e, d) = make_move_in b k player s h in (k, b', refl, e, d)
make_move-Dropped b (negsuc k) player s h = cc

-- The move of a stone onto the lowest free square of column `c`, and what it leaves behind.
pub record Lowest (b : Board) (c : ℕ) (player : ℤ) (b' : Board) : Type 0 where
  pub row : ℕ
  pub row_in : row < number_of_rows
  pub column_in : c < number_of_columns
  pub free : cell b row c ≡ pos 0
  pub taken_below : (i : ℕ) → i < row → cell b i c ≢ pos 0
  pub cells : (i j : ℕ) → cell b' i j ≡ (if row == i && c == j then player else cell b i j)
  pub tops : (j : ℕ) → row_of b' j ≡ (if c == j then row + 1 else row_of b j)

-- On a board without gaps, `make_move` of a column that `valid_move` accepts writes inside the arrays:
-- it puts the stone on the lowest free square of the column, whose `next_row` is the row above it from
-- then on, and changes nothing else.
pub make_move-Lowest :
    (b : Board) (c player : ℤ)
    → IsStacked b
    → valid_move b c ≡ true
    → (k : ℕ) × (b' : Board) × (c ≡ pos k) × (make_move b c player ≡ some b') × Lowest b k player b'
make_move-Lowest b c player v h =
    let (k, b', same, made, d) = make_move-Dropped b c player v.shaped h in
    (
      k,
      b',
      same,
      made,
      record {
        row = row_of b k;
        row_in = d.row_in;
        column_in = d.column_in;
        free = v.empty (row_of b k) k d.row_in d.column_in (omega arith);
        taken_below = λ i hi. v.filled i k (omega (arith, d.row_in)) d.column_in hi;
        cells = d.cells;
        tops = d.tops;
      },
    )

pub make_move_invalid :
    (b : Board) (c player : ℤ) → valid_move b c ≡ false → make_move b c player ≡ none
unfolding valid_move make_move
make_move_invalid b (pos c) player h = rw h
make_move_invalid b (negsuc c) player h = refl

-- A dropped stone keeps the columns without gaps.
pub Dropped-IsStacked :
    {b b' : Board} (k : ℕ) (player : ℤ)
    → IsStacked b
    → player ≢ pos 0
    → Dropped b k player b'
    → IsStacked b'
Dropped-IsStacked {b} {b'} k player v np d = record {
  shaped = d.shaped;
  below_top = λ j hj. ground (arith, d.tops j, v.below_top j, d.row_in);
  filled = λ i j hi hj h. ground (arith, d.cells i j, d.tops j, v.filled i j, np, h);
  empty = λ i j hi hj h. ground (arith, d.cells i j, d.tops j, v.empty i j, h);
}

-- The stones on the board, as `next_row` counts them.
abbrev pub total : List ℕ → ℕ
total [] = 0
total (n ∷ ns) = n + total ns

pub stones : Board → ℕ
stones b = total b.next_row

total-set :
    (ns : List ℕ) (j n : ℕ) → j < length ns → total (set ns j n) + get_or ns j 0 ≡ total ns + n
total-set [] j n h = absurd (omega arith)
total-set (m ∷ ns) zero n h = omega arith
total-set (m ∷ ns) (suc j) n h = omega (arith, total-set ns j n (omega arith))

total-le :
    (ns : List ℕ) (k : ℕ) → ((j : ℕ) → j < length ns → get_or ns j 0 ≤ k) → total ns ≤ length ns * k
total-le [] k h = omega arith
total-le (n ∷ ns) k h =
    omega (arith, h 0 (omega arith), total-le ns k (λ j hj. h (suc j) (omega arith)))

pub stones-le : {b : Board} → IsStacked b → stones b ≤ 42
unfolding stones
stones-le {b} v = omega (
  arith,
  v.shaped.next_rows,
  total-le b.next_row 6 (λ j hj. v.below_top j (omega (arith, v.shaped.next_rows))),
)

pub stones_of_empty :
    {b : Board} → IsShaped b → ((j : ℕ) → j < number_of_columns → row_of b j ≡ 0) → stones b ≡ 0
unfolding stones
stones_of_empty {b} s tops = omega (
  arith,
  total-le b.next_row 0 (λ j hj. omega (arith, s.next_rows, tops j (omega (arith, s.next_rows)))),
)

-- A game: each turn is a column and a player, accepted by `valid_move` and made by `make_move`.
-- `none` is a turn that is refused.
unfoldable pub play : Board → List (ℤ × ℤ) → Option Board
play b [] = some b
play b ((c, player) ∷ turns) =
    if valid_move b c
    then elim (make_move b c player) [ some b' ↦ play b' turns | none ↦ none ]
    else none

stones-Dropped :
    {b b' : Board} (k : ℕ) (player : ℤ)
    → IsShaped b
    → make_move b (pos k) player ≡ some b'
    → stones b' ≡ stones b + 1
unfolding stones make_move
stones-Dropped {b} {b'} k player s e =
    ground (arith, total-set b.next_row k (row_of b k + 1), s.next_rows)

-- Every turn of a game adds one stone and keeps the columns without gaps.
pub play-stones :
    (turns : List (ℤ × ℤ)) {b b' : Board}
    → IsStacked b
    → All (λ turn. turn.1 ≢ pos 0) turns
    → play b turns ≡ some b'
    → IsStacked b' × (stones b' ≡ stones b + length turns)
unfolding play
play-stones [] {b} {b'} v np e =
    let same = some_inj b b' e in (subst IsStacked same v, omega (arith, ap stones same))
play-stones ((c, player) ∷ turns) {b} {b'} v np e = elim (Bool-cases (valid_move b c)) [
  | inl good ↦
      let (k, b₁, ec, em, d) = make_move-Dropped b c player v.shaped good in
      let rest =
        play-stones turns {b = b₁} (Dropped-IsStacked k player v np.0 d) np.1 (ground arith) in
      (rest.0, omega (arith, rest.1, stones-Dropped {b' = b₁} k player v.shaped (rw (← ec) em)))
  | inr bad ↦ absurd (ground arith)
]

-- Whether `valid_move` accepts every turn of a game, up to one that `make_move` cannot make.
unfoldable pub accepted : Board → List (ℤ × ℤ) → Bool
accepted b [] = true
accepted b ((c, player) ∷ turns) =
    valid_move b c && elim (make_move b c player) [ some b' ↦ accepted b' turns | none ↦ true ]

play-accepted :
    (turns : List (ℤ × ℤ)) {b : Board}
    → IsStacked b
    → All (λ turn. turn.1 ≢ pos 0) turns
    → accepted b turns ≡ true
    → (b' : Board) × (play b turns ≡ some b')
unfolding play accepted
play-accepted [] {b} v np h = (b, refl)
play-accepted ((c, player) ∷ turns) {b} v np h = elim (Bool-cases (valid_move b c)) [
  | inl good ↦
      let (k, b₁, ec, em, d) = make_move-Dropped b c player v.shaped good in
      let (b', run) =
        play-accepted turns {b = b₁} (Dropped-IsStacked k player v np.0 d) np.1 (ground arith) in
      (b', rw (good, em) run)
  | inr bad ↦ absurd (ground arith)
]

-- A game of players other than 0 that starts on a board without gaps, and whose turns `valid_move`
-- accepts, is played to its end without a write outside the arrays; the board behind it has no gaps,
-- every turn has added one stone, and so the game has at most 42 turns, the stones that lay there
-- already included.
pub play-length :
    (turns : List (ℤ × ℤ)) {b : Board}
    → IsStacked b
    → All (λ turn. turn.1 ≢ pos 0) turns
    → accepted b turns ≡ true
    → (b' : Board) × (play b turns ≡ some b')
      × IsStacked b'
      × (stones b' ≡ stones b + length turns)
      × (stones b + length turns ≤ 42)
play-length turns v np h =
    let (b', run) = play-accepted turns v np h in
    let (v', n) = play-stones turns v np run in (b', run, v', n, omega (arith, stones-le v', n))
