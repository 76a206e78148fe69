-- ===== src/Board.antt =====
-- The playing field of client/lib/4clib.c and 4clib.h: the static arrays `field` and `next_row`
-- are a record that each function takes and returns.
pub mod Cells
pub mod Moves
pub mod Start
pub mod Winner
pub mod Turns
pub mod Print
use ws25_np.Prelude.{
  ℕ, zero, suc, ◌+◌, ◌-◌, Bool, true, false, not, ◌&&◌, Option, none, some, List, [], ◌∷◌, ◌++◌,
  ltb, ◌==◌, if◌then◌else◌, get_or, set,
}
use ws25_np.Prelude.Int.{ℤ, pos, negsuc, pos_part, ◌==ℤ◌}

abbrev pub number_of_rows : ℕ
number_of_rows = 6

abbrev pub number_of_columns : ℕ
number_of_columns = 7

abbrev pub player_1 : ℤ
player_1 = negsuc 0

abbrev pub player_2 : ℤ
player_2 = pos 1

-- `next_row` only ever holds 0 and its increments.
pub record Board : Type 0 where
  pub field : List (List ℤ)
  pub next_row : List ℕ

-- `field[i][j]`
abbrev pub cell : Board → ℕ → ℕ → ℤ
cell b i j = get_or (get_or b.field i []) j (pos 0)

-- `field[i][j] = v`
pub set_cell : Board → ℕ → ℕ → ℤ → Board
set_cell b i j v = record b { field = set b.field i (set (get_or b.field i []) j v) }

-- `next_row[j]`
abbrev pub row_of : Board → ℕ → ℕ
row_of b j = get_or b.next_row j 0

-- `for (i = 0; i < n; i++) s = body(i, s)`
pub for_below {ℓ} : {S : Type ℓ} → ℕ → (ℕ → S → S) → S → S
for_below zero body s = s
for_below (suc n) body s = body n (for_below n body s)

unfoldable pub init_4clib : Board → Board
unfolding for_below set_cell
init_4clib b =
    for_below number_of_columns (λ j s. record s { next_row = set s.next_row j 0 })
      (for_below number_of_rows
        (λ i s. for_below number_of_columns (λ j t. set_cell t i j (pos 0)) s) b)

unfoldable pub valid_move : Board → ℤ → Bool
valid_move b (pos c) = ltb c number_of_columns && ltb (row_of b c) number_of_rows
valid_move b (negsuc c) = false

-- `none` where the source would write outside its arrays.
unfoldable pub make_move : Board → ℤ → ℤ → Option Board
unfolding set_cell
make_move b (negsuc c) player = none
make_move b (pos c) player =
    if ltb c number_of_columns && ltb (row_of b c) number_of_rows
    then some
        (record (set_cell b (row_of b c) c player) { next_row = set b.next_row c (row_of b c + 1) })
    else none

-- `for (i = from; i < from + n; i++) if (f(i)) return …`: the first hit of a loop that may return.
pub first_hit {ℓ} : {A : Type ℓ} → ℕ → ℕ → (ℕ → Option A) → Option A
first_hit from zero f = none
first_hit from (suc n) f = elim (f from) [ some a ↦ some a | none ↦ first_hit (suc from) n f ]

-- The test of each of the four loops of `winner`, and the value that it returns.
abbrev pub same_four : ℤ → ℤ → ℤ → ℤ → Option ℤ
same_four a b c d = if not (a ==ℤ pos 0) && (a ==ℤ b && (a ==ℤ c && a ==ℤ d)) then some a else none

pub horizontal : Board → ℕ → ℕ → Option ℤ
horizontal b i j = same_four (cell b i j) (cell b i (j + 1)) (cell b i (j + 2)) (cell b i (j + 3))

pub rising : Board → ℕ → ℕ → Option ℤ
rising b i j =
    same_four (cell b i j) (cell b (i + 1) (j + 1)) (cell b (i + 2) (j + 2))
      (cell b (i + 3) (j + 3))

pub vertical : Board → ℕ → ℕ → Option ℤ
vertical b i j = same_four (cell b i j) (cell b (i + 1) j) (cell b (i + 2) j) (cell b (i + 3) j)

pub falling : Board → ℕ → ℕ → Option ℤ
falling b i j =
    same_four (cell b i j) (cell b (i + 1) (j - 1)) (cell b (i + 2) (j - 2))
      (cell b (i + 3) (j - 3))

-- A pair of nested loops over the rows below `rows`, and `columns` columns from `from` on.
pub scan : ℕ → ℕ → ℕ → (ℕ → ℕ → Option ℤ) → Option ℤ
unfolding first_hit
scan rows from columns test = first_hit 0 rows (λ i. first_hit from columns (test i))

abbrev pub or_else : Option ℤ → Option ℤ → Option ℤ
or_else (some a) o = some a
or_else none o = o

abbrev pub or_zero : Option ℤ → ℤ
or_zero (some a) = a
or_zero none = pos 0

-- Where the source returns from the first loop that hits, or 0 behind the last.
pub winning : Board → Option ℤ
unfolding scan horizontal rising vertical falling
winning b = or_else (scan number_of_rows 0 (number_of_columns - 3) (horizontal b)) (
    or_else (scan (number_of_rows - 3) 0 (number_of_columns - 3) (rising b)) (
      or_else (scan (number_of_rows - 3) 0 number_of_columns (vertical b))
        (scan (number_of_rows - 3) 3 (number_of_columns - 3) (falling b))))

unfoldable pub winner : Board → ℤ
unfolding winning
winner b = or_zero (winning b)
