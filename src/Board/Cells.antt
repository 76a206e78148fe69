-- ===== src/Board/Cells.antt =====
-- The shape of the arrays of 4clib.c, and reads after writes.
use ws25_np.Prelude.{
  ℕ, ◌<◌, ◌≡◌, ◌∙◌, inl, inr, ◌&&◌, List, [], arith, ◌==◌, if◌then◌else◌, Bool-cases, ==_iff,
  get_or, set, length, length-set, get_or-set_self, get_or-set_ne,
}
use ws25_np.Prelude.Int.{ℤ, pos}
use ws25_np.Board.{Board, number_of_rows, number_of_columns, cell, set_cell, row_of}

-- The arrays have the sizes that the source declares.
pub record IsShaped (b : Board) : Type 0 where
  pub rows : length b.field ≡ number_of_rows
  pub columns : (i : ℕ) → i < number_of_rows → length (get_or b.field i []) ≡ number_of_columns
  pub next_rows : length b.next_row ≡ number_of_columns

get_or-set {ℓ} :
    {A : Type ℓ} (xs : List A) (i j : ℕ) (v d : A)
    → i < length xs
    → get_or (set xs i v) j d ≡ (if i == j then v else get_or xs j d)
get_or-set xs i j v d h = elim (Bool-cases (i == j)) [
  | inl e ↦ rw (e, ← (==_iff i j).0 e) (get_or-set_self xs i v d h)
  | inr ne ↦ rw ne (get_or-set_ne xs i j v d (λ e. ground arith))
]

pub row_of-set :
    {b : Board} (i j v : ℕ)
    → IsShaped b
    → i < number_of_columns
    → get_or (set b.next_row i v) j 0 ≡ (if i == j then v else row_of b j)
row_of-set {b} i j v s h = get_or-set b.next_row i j v 0 (omega (arith, s.next_rows))

-- A read after `field[r][c] = v`.
pub cell-set_cell :
    {b : Board} (r c : ℕ) (v : ℤ) (i j : ℕ)
    → IsShaped b
    → r < number_of_rows
    → c < number_of_columns
    → cell (set_cell b r c v) i j ≡ (if r == i && c == j then v else cell b i j)
unfolding set_cell
cell-set_cell {b} r c v i j s hr hc =
    rw (get_or-set b.field r i (set (get_or b.field r []) c v) [] (omega (arith, s.rows)))
      (elim (Bool-cases (r == i)) [
        | inl e ↦
            rw (e, ← (==_iff r i).0 e)
              (get_or-set (get_or b.field r []) c j v (pos 0) (omega (arith, s.columns r hr)))
        | inr ne ↦ rw ne
      ])

pub set_cell-IsShaped :
    {b : Board} (r c : ℕ) (v : ℤ) → IsShaped b → r < number_of_rows → IsShaped (set_cell b r c v)
unfolding set_cell
set_cell-IsShaped {b} r c v s hr = record {
  rows = length-set b.field r _ ∙ s.rows;
  columns = λ i h.
      rw (get_or-set b.field r i (set (get_or b.field r []) c v) [] (omega (arith, s.rows)))
        (elim (Bool-cases (r == i)) [
          | inl e ↦ rw e (length-set (get_or b.field r []) c v ∙ s.columns r hr)
          | inr ne ↦ rw ne (s.columns i h)
        ]);
  next_rows = s.next_rows;
}

-- `next_row[c] = n` leaves the sizes as they are.
pub set_next_row-IsShaped :
    {b : Board} (c n : ℕ) → IsShaped b → IsShaped (record b { next_row = set b.next_row c n })
set_next_row-IsShaped {b} c n s = record {
  rows = s.rows;
  columns = s.columns;
  next_rows = length-set b.next_row c n ∙ s.next_rows;
}
