-- ===== src/Board/Print.antt =====
-- `print_board` of 4clib.c: the bytes that it writes to the standard output.
use native.Mathlib.Decide.{dec_lt}
use ws25_np.Prelude.{
  ℕ, zero, suc, ◌+◌, ◌-◌, ◌*◌, ◌<◌, ◌≡◌, ◌≢◌, ◌⊎◌, inl, inr, Bool-cases, refl, ap, ◌∙◌, some, List,
  [], ◌∷◌, ◌++◌, arith, if◌then◌else◌, get_elem?, length,
}
use ws25_np.Prelude.Int.{ℤ, ◌==ℤ◌, ==ℤ_iff}
use ws25_np.Board.{Board, number_of_rows, number_of_columns, player_1, player_2, cell}

abbrev pub newline : ℕ
newline = 10

pub dashes : List ℕ
dashes =
    b'-' ∷ b'-' ∷ b'-' ∷ b'-' ∷ b'-' ∷ b'-' ∷ b'-' ∷ b'-' ∷ b'-' ∷ b'-' ∷ b'-' ∷ b'-' ∷ b'-' ∷ b'-'
    ∷ b'-' ∷ newline ∷ []

-- The cases of `switch (field[i][j])`.
pub symbol : ℤ → ℕ
symbol v = if v ==ℤ player_1 then b'X' else if v ==ℤ player_2 then b'O' else b' '

-- `for (; j < NUMBER_OF_COLUMNS; j++)` with `n` columns left.
pub print_cells : Board → ℕ → ℕ → ℕ → List ℕ
unfolding symbol
print_cells b i j zero = []
print_cells b i j (suc n) = b'|' ∷ symbol (cell b i j) ∷ print_cells b i (suc j) n

-- `for (i = n - 1; i >= 0; i--)`
pub print_rows : Board → ℕ → List ℕ
unfolding print_cells
print_rows b zero = []
print_rows b (suc i) = print_cells b i 0 number_of_columns ++ (b'|' ∷ newline ∷ print_rows b i)

unfoldable pub print_board : Board → List ℕ
unfolding dashes print_rows
print_board b = dashes ++ (print_rows b number_of_rows ++ dashes)

symbol-cases :
    (v : ℤ)
    → ((v ≡ player_1) × (symbol v ≡ b'X'))
      ⊎ ((v ≡ player_2) × (symbol v ≡ b'O'))
      ⊎ ((v ≢ player_1) × (v ≢ player_2) × (symbol v ≡ b' '))
unfolding symbol
symbol-cases v = elim (Bool-cases (v ==ℤ player_1)) [
  | inl first ↦ inl ((==ℤ_iff v player_1).0 first, rw first refl)
  | inr not_first ↦ elim (Bool-cases (v ==ℤ player_2)) [
    | inl second ↦ inr (inl ((==ℤ_iff v player_2).0 second, rw (not_first, second) refl))
    | inr other ↦ inr (
        inr (
          ground (arith, ==ℤ_iff v player_1),
          ground (arith, ==ℤ_iff v player_2),
          rw (not_first, other) refl,
        ))
  ]
]

module _ {A : Type 0} where
  get_elem?-append_right :
      (xs ys : List A) (m k : ℕ) → m ≡ length xs + k → get_elem? (xs ++ ys) m ≡ get_elem? ys k
  get_elem?-append_right [] ys m k e = ap (get_elem? ys) (omega arith)
  get_elem?-append_right (x ∷ xs) ys zero k e = absurd (omega arith)
  get_elem?-append_right (x ∷ xs) ys (suc m) k e = get_elem?-append_right xs ys m k (omega arith)

  get_elem?-append_left :
      (xs ys : List A) (k : ℕ) → k < length xs → get_elem? (xs ++ ys) k ≡ get_elem? xs k
  get_elem?-append_left [] ys k h = absurd (omega arith)
  get_elem?-append_left (x ∷ xs) ys zero h = refl
  get_elem?-append_left (x ∷ xs) ys (suc k) h = get_elem?-append_left xs ys k (omega arith)

module _ (b : Board) where
  length-print_cells : (i j n : ℕ) → length (print_cells b i j n) ≡ 2 * n
  unfolding print_cells
  length-print_cells i j zero = refl
  length-print_cells i j (suc n) = omega (arith, length-print_cells i (suc j) n)

  print_cells-at :
      (i j n k : ℕ)
      → k < n
      → get_elem? (print_cells b i j n) (suc (2 * k)) ≡ some (symbol (cell b i (j + k)))
  unfolding print_cells
  print_cells-at i j zero k h = absurd (omega arith)
  print_cells-at i j (suc n) zero h = ap (λ t. some (symbol (cell b i t))) (omega arith)
  print_cells-at i j (suc n) (suc k) h =
      ap (get_elem? (print_cells b i j (suc n))) {x = suc (2 * suc k)} {y = suc (suc (suc (2 * k)))}
        (omega arith)
      ∙ print_cells-at i (suc j) n k (omega arith)
      ∙ ap (λ t. some (symbol (cell b i t))) (omega arith)

  length-print_rows : (n : ℕ) → length (print_rows b n) ≡ 16 * n
  unfolding print_rows
  length-print_rows zero = refl
  length-print_rows (suc n) = omega (arith, length-print_rows n)

  print_rows-suc :
      (n : ℕ)
      → print_rows b (suc n)
        ≡ print_cells b n 0 number_of_columns ++ (b'|' ∷ newline ∷ print_rows b n)
  unfolding print_rows
  print_rows-suc n = refl

  print_rows-top :
      (n m j : ℕ)
      → j < number_of_columns
      → m ≡ suc (2 * j)
      → get_elem? (print_rows b (suc n)) m ≡ some (symbol (cell b n j))
  print_rows-top n m j hj e =
      ap (λ t. get_elem? t m) (print_rows-suc n)
      ∙ get_elem?-append_left (print_cells b n 0 number_of_columns) _ m
          (omega (arith, length-print_cells n 0 number_of_columns))
      ∙ ap (get_elem? (print_cells b n 0 number_of_columns)) e
      ∙ print_cells-at n 0 number_of_columns j hj
      ∙ ap (λ t. some (symbol (cell b n t))) (omega arith)

  print_rows-below :
      (n m k : ℕ) → m ≡ 16 + k → get_elem? (print_rows b (suc n)) m ≡ get_elem? (print_rows b n) k
  print_rows-below n m k e =
      ap (λ t. get_elem? t m) (print_rows-suc n)
      ∙ get_elem?-append_right (print_cells b n 0 number_of_columns) _ m (suc (suc k))
          (omega (arith, length-print_cells n 0 number_of_columns))

  print_board-inner :
      (m k : ℕ)
      → m ≡ 16 + k
      → k < 96
      → get_elem? (print_board b) m ≡ get_elem? (print_rows b number_of_rows) k
  unfolding print_board
  print_board-inner m k e h =
      get_elem?-append_right dashes (print_rows b number_of_rows ++ dashes) m k e
      ∙ get_elem?-append_left (print_rows b number_of_rows) dashes k
          (omega (arith, length-print_rows number_of_rows))

  print_rows-at :
      (n i j m : ℕ)
      → i < n
      → j < number_of_columns
      → m ≡ 16 * (n - suc i) + suc (2 * j)
      → get_elem? (print_rows b n) m ≡ some (symbol (cell b i j))
  print_rows-at zero i j m hi hj e = absurd (omega arith)
  print_rows-at (suc n) i j m hi hj e = elim (dec_lt i n) [
    | yes above ↦
        print_rows-below n m (m - 16) (omega arith)
        ∙ print_rows-at n i j (m - 16) above hj (omega arith)
    | no top ↦
        print_rows-top n m j hj (omega arith) ∙ ap (λ t. some (symbol (cell b t j))) (omega arith)
  ]

  print_board-symbol :
      (i j : ℕ)
      → i < number_of_rows
      → j < number_of_columns
      → get_elem? (print_board b) (16 * (number_of_rows - i) + (2 * j + 1))
        ≡ some (symbol (cell b i j))
  print_board-symbol i j hi hj =
      print_board-inner _ (16 * (number_of_rows - suc i) + suc (2 * j)) (omega arith) (omega arith)
      ∙ print_rows-at number_of_rows i j _ hi hj refl

  -- The stone on row `i`, column `j` is printed in its place, an X for player 1, an O for player 2 and a
  -- blank for anything else: the rows from the top down, sixteen bytes each behind sixteen of the
  -- border, and the columns from left to right.
  pub print_board-at :
      (i j : ℕ)
      → i < number_of_rows
      → j < number_of_columns
      → (c : ℕ) × (get_elem? (print_board b) (16 * (number_of_rows - i) + (2 * j + 1)) ≡ some c)
        × (((cell b i j ≡ player_1) × (c ≡ b'X'))
            ⊎ ((cell b i j ≡ player_2) × (c ≡ b'O'))
            ⊎ ((cell b i j ≢ player_1) × (cell b i j ≢ player_2) × (c ≡ b' ')))
  print_board-at i j hi hj =
      (symbol (cell b i j), print_board-symbol i j hi hj, symbol-cases (cell b i j))
