-- ===== src/Tests/Games.antt =====
-- The theorems on the playing field at concrete games.
use ws25_np.Prelude.{
  ℕ, zero, suc, ◌+◌, ◌≤◌, ◌<◌, ◌≡◌, ◌≢◌, refl, ◌⊎◌, true, some, List, [], ◌∷◌, get_elem?, get_or,
  length, arith, replicate,
}
use ws25_np.Prelude.Int.{ℤ, pos}
use ws25_np.Board.{Board, cell, player_1, player_2, valid_move, make_move, winner, init_4clib}
use ws25_np.Board.Cells.{IsShaped}
use ws25_np.Board.Moves.{IsStacked, Lowest, stones, play, accepted, make_move-Lowest, play-length}
use ws25_np.Board.Start.{init_4clib-IsStacked}
use ws25_np.Board.Winner.{Four, Direction, winner_sound, winner_complete}
use ws25_np.Board.Turns.{winner-make_move}
use ws25_np.Board.Print.{print_board, print_board-at}

-- Any arrays of the declared sizes.
abbrev blank_row : List ℤ
blank_row = replicate 7 (pos 0)

abbrev pub blank : Board
blank = record { field = replicate 6 blank_row; next_row = replicate 7 0 }

blank_columns : (i : ℕ) → i < 6 → length (get_or blank.field i []) ≡ 7
blank_columns zero h = refl
blank_columns (suc zero) h = refl
blank_columns (suc (suc zero)) h = refl
blank_columns (suc (suc (suc zero))) h = refl
blank_columns (suc (suc (suc (suc zero)))) h = refl
blank_columns (suc (suc (suc (suc (suc zero))))) h = refl
blank_columns (suc (suc (suc (suc (suc (suc i)))))) h = absurd (omega arith)

pub blank-IsShaped : IsShaped blank
blank-IsShaped = record { rows = refl; columns = blank_columns; next_rows = refl }

pub fresh-IsStacked : IsStacked (init_4clib blank)
fresh-IsStacked = (init_4clib-IsStacked blank blank-IsShaped).0

init_4clib-IsStacked_example :
    IsStacked (init_4clib blank)
    × (stones (init_4clib blank) ≡ 0)
    × (winner (init_4clib blank) ≡ pos 0)
init_4clib-IsStacked_example = init_4clib-IsStacked blank blank-IsShaped

pub first_move_good : valid_move (init_4clib blank) (pos 3) ≡ true
unfolding valid_move init_4clib
first_move_good = refl

winner-make_move_example :
    (b' : Board) × (make_move (init_4clib blank) (pos 3) player_1 ≡ some b')
    × IsStacked b'
    × ((winner b' ≡ pos 0) ⊎ ((winner b' ≡ player_1) × Four b' player_1))
winner-make_move_example =
    winner-make_move {b = init_4clib blank} (pos 3) player_1 fresh-IsStacked
      (λ e. absurd (ground arith)) (init_4clib-IsStacked blank blank-IsShaped).2 first_move_good

make_move-Lowest_example :
    (k : ℕ) × (b' : Board) × (pos 3 ≡ pos k)
    × (make_move (init_4clib blank) (pos 3) player_1 ≡ some b')
    × Lowest (init_4clib blank) k player_1 b'
make_move-Lowest_example =
    make_move-Lowest (init_4clib blank) (pos 3) player_1 fresh-IsStacked first_move_good

-- The lowest row has four stones of the second player.
abbrev won : Board
won = record {
  field = (pos 0 ∷ pos 1 ∷ pos 1 ∷ pos 1 ∷ pos 1 ∷ pos 0 ∷ pos 0 ∷ []) ∷ replicate 5 blank_row;
  next_row = 0 ∷ 1 ∷ 1 ∷ 1 ∷ 1 ∷ 0 ∷ 0 ∷ [];
}

second_player_won : winner won ≡ pos 1
unfolding winner
second_player_won = refl

winner_sound_example : Four won (pos 1)
winner_sound_example = winner_sound won {v = pos 1} second_player_won (λ e. absurd (ground arith))

won-Four : Four won (pos 1)
won-Four = record {
  direction = Direction.east;
  row = 0;
  column = 1;
  fits = (omega arith, omega arith);
  stone = λ e. absurd (ground arith);
  same_0 = refl;
  same_1 = refl;
  same_2 = refl;
  same_3 = refl;
}

winner_complete_example : (w : ℤ) × (winner won ≡ w) × Four won w
winner_complete_example = winner_complete won {v = pos 1} won-Four

-- Two turns in one column.
abbrev opening : List (ℤ × ℤ)
opening = (pos 3, player_1) ∷ (pos 3, player_2) ∷ []

opening_accepted : accepted (init_4clib blank) opening ≡ true
unfolding accepted valid_move init_4clib make_move
opening_accepted = refl

play-length_example :
    (b' : Board) × (play (init_4clib blank) opening ≡ some b')
    × IsStacked b'
    × (stones b' ≡ stones (init_4clib blank) + 2)
    × (stones (init_4clib blank) + 2 ≤ 42)
play-length_example =
    play-length opening {b = init_4clib blank} fresh-IsStacked
      (λ e. absurd (ground arith), (λ e. absurd (ground arith), tt)) opening_accepted

print_board-at_example :
    (c : ℕ) × (get_elem? (print_board won) 99 ≡ some c)
    × (((cell won 0 1 ≡ player_1) × (c ≡ b'X'))
        ⊎ ((cell won 0 1 ≡ player_2) × (c ≡ b'O'))
        ⊎ ((cell won 0 1 ≢ player_1) × (cell won 0 1 ≢ player_2) × (c ≡ b' ')))
print_board-at_example = print_board-at won 0 1 (omega arith) (omega arith)
