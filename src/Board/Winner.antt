-- ===== src/Board/Winner.antt =====
-- `winner` of 4clib.c against an independent description of four stones in a line.
use ws25_np.Prelude.{
  ℕ, zero, suc, ◌+◌, ◌-◌, ◌≤◌, ◌<◌, ◌≡◌, ◌≢◌, refl, ap, sym, ◌⊎◌, inl, inr, Option, none, some,
  arith, Option-cases,
}
use ws25_np.Prelude.Int.{ℤ, pos, ==ℤ_iff}
use ws25_np.Board.{
  Board, number_of_rows, number_of_columns, cell, first_hit, same_four, horizontal, rising,
  vertical, falling, scan, or_else, or_zero, winning, winner,
}

pub data Direction : Type 0 where
  east north north_east north_west : Direction

-- The row and the column of the square `k` steps from row `i`, column `j`.
abbrev pub row_at : Direction → ℕ → ℕ → ℕ
row_at east i k = i
row_at north i k = i + k
row_at north_east i k = i + k
row_at north_west i k = i + k

abbrev pub column_at : Direction → ℕ → ℕ → ℕ
column_at east j k = j + k
column_at north j k = j
column_at north_east j k = j + k
column_at north_west j k = j - k

-- The line of four squares from row `i`, column `j` lies on the board.
abbrev pub Fits : Direction → ℕ → ℕ → Type 0
Fits east i j = (i < number_of_rows) × (j + 3 < number_of_columns)
Fits north i j = (i + 3 < number_of_rows) × (j < number_of_columns)
Fits north_east i j = (i + 3 < number_of_rows) × (j + 3 < number_of_columns)
Fits north_west i j = (i + 3 < number_of_rows) × (j < number_of_columns) × (3 ≤ j)

-- Four stones of one player in a line.
pub record Four (b : Board) (player : ℤ) : Type 0 where
  pub direction : Direction
  pub row : ℕ
  pub column : ℕ
  pub fits : Fits direction row column
  pub stone : player ≢ pos 0
  pub same_0 : cell b row column ≡ player
  pub same_1 : cell b (row_at direction row 1) (column_at direction column 1) ≡ player
  pub same_2 : cell b (row_at direction row 2) (column_at direction column 2) ≡ player
  pub same_3 : cell b (row_at direction row 3) (column_at direction column 3) ≡ player

module _ {A : Type 0} where
  first_hit_sound :
      (from n : ℕ) (f : ℕ → Option A) {a : A}
      → first_hit from n f ≡ some a
      → (i : ℕ) × (from ≤ i) × (i < from + n) × (f i ≡ some a)
  unfolding first_hit
  first_hit_sound from zero f e = cc
  first_hit_sound from (suc n) f {a} e = elim (Option-cases (f from)) [
    | inl none_here ↦
        let (i, lo, hi, h) = first_hit_sound (suc from) n f (ground arith) in
        (i, omega arith, omega arith, h)
    | inr (x, here) ↦ (from, omega arith, omega arith, ground arith)
  ]

  first_hit_complete :
      (from n : ℕ) (f : ℕ → Option A) (i : ℕ)
      → from ≤ i
      → i < from + n
      → f i ≢ none
      → first_hit from n f ≢ none
  unfolding first_hit
  first_hit_complete from zero f i lo hi h e = absurd (omega arith)
  first_hit_complete from (suc n) f i lo hi h e = elim (Option-cases (f from)) [
    | inl none_here ↦
        first_hit_complete (suc from) n f i (ground arith) (omega arith) h (ground arith)
    | inr (x, here) ↦ ground arith
  ]

scan_sound :
    (rows from columns : ℕ) (f : ℕ → ℕ → Option ℤ) {a : ℤ}
    → scan rows from columns f ≡ some a
    → (i j : ℕ) × (i < rows) × (from ≤ j) × (j < from + columns) × (f i j ≡ some a)
unfolding scan
scan_sound rows from columns f e =
    let (i, _, hi, h) = first_hit_sound 0 rows (λ i. first_hit from columns (f i)) e in
    let (j, lo, hj, h') = first_hit_sound from columns (f i) h in (i, j, omega arith, lo, hj, h')

scan_complete :
    (rows from columns : ℕ) (f : ℕ → ℕ → Option ℤ) (i j : ℕ)
    → i < rows
    → from ≤ j
    → j < from + columns
    → f i j ≢ none
    → scan rows from columns f ≢ none
unfolding scan
scan_complete rows from columns f i j hi lo hj h =
    first_hit_complete 0 rows (λ i. first_hit from columns (f i)) i (omega arith) (omega arith)
      (first_hit_complete from columns (f i) j lo hj h)

same_four_sound :
    (a b c d : ℤ) {v : ℤ}
    → same_four a b c d ≡ some v
    → (v ≢ pos 0) × (a ≡ v) × (b ≡ v) × (c ≡ v) × (d ≡ v)
same_four_sound a b c d e = ground (arith, ==ℤ_iff a (pos 0), ==ℤ_iff a b, ==ℤ_iff a c, ==ℤ_iff a d)

same_four_complete :
    (a b c d : ℤ) {v : ℤ} → v ≢ pos 0 → a ≡ v → b ≡ v → c ≡ v → d ≡ v → same_four a b c d ≡ some v
same_four_complete a b c d nz ea eb ec ed =
    ground (arith, ==ℤ_iff a (pos 0), ==ℤ_iff a b, ==ℤ_iff a c, ==ℤ_iff a d)

or_else-eq-some : (o p : Option ℤ) {a : ℤ} → or_else o p ≡ some a → (o ≡ some a) ⊎ (p ≡ some a)
or_else-eq-some none p e = inr e
or_else-eq-some (some x) p e = inl e

ne-none_of_some : (o : Option ℤ) {v : ℤ} → o ≡ some v → o ≢ none
ne-none_of_some o e h = cc

or_else-ne-none : (o p : Option ℤ) → (o ≢ none) ⊎ (p ≢ none) → or_else o p ≢ none
or_else-ne-none none p (inl h) = absurd (h refl)
or_else-ne-none none p (inr h) = h
or_else-ne-none (some x) p h = cc

abbrev rows_hit : Board → Option ℤ
rows_hit b = scan 6 0 4 (horizontal b)

abbrev rising_hit : Board → Option ℤ
rising_hit b = scan 3 0 4 (rising b)

abbrev columns_hit : Board → Option ℤ
columns_hit b = scan 3 0 7 (vertical b)

module _ (b : Board) {v : ℤ} where
  east_sound : scan 6 0 4 (horizontal b) ≡ some v → Four b v
  unfolding horizontal
  east_sound e =
      let (i, j, hi, _, hj, h) = scan_sound 6 0 4 (horizontal b) e in
      let (nz, e0, e1, e2, e3) = same_four_sound _ _ _ _ h in
      record {
        direction = east;
        row = i;
        column = j;
        fits = (hi, omega arith);
        stone = nz;
        same_0 = e0;
        same_1 = e1;
        same_2 = e2;
        same_3 = e3;
      }

  north_east_sound : scan 3 0 4 (rising b) ≡ some v → Four b v
  unfolding rising
  north_east_sound e =
      let (i, j, hi, _, hj, h) = scan_sound 3 0 4 (rising b) e in
      let (nz, e0, e1, e2, e3) = same_four_sound _ _ _ _ h in
      record {
        direction = north_east;
        row = i;
        column = j;
        fits = omega arith;
        stone = nz;
        same_0 = e0;
        same_1 = e1;
        same_2 = e2;
        same_3 = e3;
      }

  north_sound : scan 3 0 7 (vertical b) ≡ some v → Four b v
  unfolding vertical
  north_sound e =
      let (i, j, hi, _, hj, h) = scan_sound 3 0 7 (vertical b) e in
      let (nz, e0, e1, e2, e3) = same_four_sound _ _ _ _ h in
      record {
        direction = north;
        row = i;
        column = j;
        fits = omega arith;
        stone = nz;
        same_0 = e0;
        same_1 = e1;
        same_2 = e2;
        same_3 = e3;
      }

  north_west_sound : scan 3 3 4 (falling b) ≡ some v → Four b v
  unfolding falling
  north_west_sound e =
      let (i, j, hi, lo, hj, h) = scan_sound 3 3 4 (falling b) e in
      let (nz, e0, e1, e2, e3) = same_four_sound _ _ _ _ h in
      record {
        direction = north_west;
        row = i;
        column = j;
        fits = omega arith;
        stone = nz;
        same_0 = e0;
        same_1 = e1;
        same_2 = e2;
        same_3 = e3;
      }

  pub winning_sound : winning b ≡ some v → Four b v
  unfolding winning
  winning_sound e = elim (or_else-eq-some _ _ e) [
    | inl h ↦ east_sound h
    | inr e1 ↦ elim (or_else-eq-some _ _ e1) [
      | inl h ↦ north_east_sound h
      | inr e2 ↦ elim (or_else-eq-some _ _ e2) [
        | inl h ↦ north_sound h
        | inr h ↦ north_west_sound h
      ]
    ]
  ]

  lines_complete :
      (d : Direction) (i j : ℕ)
      → Fits d i j
      → v ≢ pos 0
      → cell b i j ≡ v
      → cell b (row_at d i 1) (column_at d j 1) ≡ v
      → cell b (row_at d i 2) (column_at d j 2) ≡ v
      → cell b (row_at d i 3) (column_at d j 3) ≡ v
      → winning b ≢ none
  unfolding winning
  lines_complete east i j fits nz e0 e1 e2 e3 = or_else-ne-none (rows_hit b) _ (
      inl (
        scan_complete 6 0 4 (horizontal b) i j fits.0 (omega arith) (omega arith)
          (ne-none_of_some _ (same_four_complete _ _ _ _ nz e0 e1 e2 e3))))
  lines_complete north_east i j fits nz e0 e1 e2 e3 = or_else-ne-none (rows_hit b) _ (
      inr (
        or_else-ne-none (rising_hit b) _ (
          inl (
            scan_complete 3 0 4 (rising b) i j (omega arith) (omega arith) (omega arith)
              (ne-none_of_some _ (same_four_complete _ _ _ _ nz e0 e1 e2 e3))))))
  lines_complete north i j fits nz e0 e1 e2 e3 = or_else-ne-none (rows_hit b) _ (
      inr (
        or_else-ne-none (rising_hit b) _ (
          inr (
            or_else-ne-none (columns_hit b) _ (
              inl (
                scan_complete 3 0 7 (vertical b) i j (omega arith) (omega arith) (omega arith)
                  (ne-none_of_some _ (same_four_complete _ _ _ _ nz e0 e1 e2 e3))))))))
  lines_complete north_west i j fits nz e0 e1 e2 e3 = or_else-ne-none (rows_hit b) _ (
      inr (
        or_else-ne-none (rising_hit b) _ (
          inr (
            or_else-ne-none (columns_hit b) _ (
              inr (
                scan_complete 3 3 4 (falling b) i j (omega arith) (omega arith) (omega arith)
                  (ne-none_of_some _ (same_four_complete _ _ _ _ nz e0 e1 e2 e3))))))))

or_zero_of_some : (o : Option ℤ) (v : ℤ) → or_zero o ≡ v → v ≢ pos 0 → o ≡ some v
or_zero_of_some none v e nz = absurd (nz (sym e))
or_zero_of_some (some x) v e nz = ap some e

-- What `winner` returns, if not 0, is the player of four stones in a line.
pub winner_sound : (b : Board) {v : ℤ} → winner b ≡ v → v ≢ pos 0 → Four b v
unfolding winner
winner_sound b {v} e nz = winning_sound b (or_zero_of_some (winning b) v e nz)

-- Four stones of a player in a line make `winner` return a player that has such a line.
pub winner_complete : (b : Board) {v : ℤ} → Four b v → (w : ℤ) × (winner b ≡ w) × Four b w
unfolding winner
winner_complete b {v} four = elim (Option-cases (winning b)) [
  | inl none_found ↦
      absurd
        (lines_complete b direction row column fits stone same_0 same_1 same_2 same_3 none_found)
  | inr (w, found) ↦ (w, rw found, winning_sound b found)
]
  where
    open four use {direction, row, column, fits, stone, same_0, same_1, same_2, same_3}
