-- ===== src/Terminal/Reading.antt =====
-- `client_menu`, `client_select_room` and `client_select_seat`: what the user types.
use sist_distrib2c.Base.{
  ℕ, ◌+◌, ◌-◌, ◌*◌, ◌%◌, ◌^◌, Bool, true, false, ◌&&◌, ◌||◌, codes, List, [], ◌∷◌, Option, none,
  some, ◌==◌, ltb, leb, if◌then◌else◌, any,
}
use sist_distrib2c.Base.Words.{is_positive}

abbrev pub refresh_seats : ℕ
refresh_seats = 2 ^ 32 - 500

abbrev pub go_back : ℕ
go_back = 2 ^ 32 - 135

abbrev pub option_make_reservation : ℕ
option_make_reservation = 1

abbrev pub option_see_reservation : ℕ
option_see_reservation = 2

abbrev pub option_buy_reservation : ℕ
option_buy_reservation = 3

abbrev pub option_exit : ℕ
option_exit = 4

abbrev pub Line : Type 0
Line = List ℕ

abbrev is_space : ℕ → Bool
is_space c = c == 32 || (ltb 8 c && ltb c 14)

abbrev is_digit : ℕ → Bool
is_digit c = ltb 47 c && ltb c 58

-- The digits at the front of the text, as a number.
abbrev digits : ℕ → Line → ℕ
digits n [] = n
digits n (c ∷ text) = let rest = digits (10 * n + (c - 48)) text in if is_digit c then rest else n

-- The casts to int of a long, which `strtol` keeps within its bounds.
abbrev positive_int : ℕ → ℕ
positive_int n = if ltb n (2 ^ 63) then n % 2 ^ 32 else 2 ^ 32 - 1

abbrev negative_int : ℕ → ℕ
negative_int n = if leb n (2 ^ 63) then (2 ^ 32 - n % 2 ^ 32) % 2 ^ 32 else 0

abbrev signed : Line → ℕ
signed [] = 0
signed (c ∷ text) =
    if c == 45
    then negative_int (digits 0 text)
    else if c == 43
    then positive_int (digits 0 text)
    else positive_int (digits 0 (c ∷ text))

-- `(int)strtol(str, nullptr, 10)`.
unfoldable pub strtol : Line → ℕ
strtol [] = 0
strtol (c ∷ text) = let rest = strtol text in if is_space c then rest else signed (c ∷ text)

-- `strcmp` with 0 for one of these texts.
abbrev same_text : Line → Line → Bool
same_text [] [] = true
same_text (a ∷ as') (b ∷ bs) = a == b && same_text as' bs
same_text _ _ = false

abbrev is_one_of : List Line → Line → Bool
is_one_of texts line = any (same_text line) texts

abbrev back_texts : List Line
back_texts = codes "Back\n" ∷ codes "back\n" ∷ codes "b\n" ∷ codes "B\n" ∷ []

abbrev refresh_texts : List Line
refresh_texts = codes "Refresh\n" ∷ codes "refresh\n" ∷ codes "r\n" ∷ codes "R\n" ∷ []

-- `selected_valid_option`.
unfoldable pub is_offered : ℕ → ℕ → Bool
is_offered count option =
    let always = option == option_make_reservation || option == option_exit in
    if is_positive count
    then always || (option == option_buy_reservation || option == option_see_reservation)
    else always

-- The option and the lines behind it; `none` while the program waits for a line.
unfoldable pub client_menu : ℕ → List Line → Option (ℕ × List Line)
client_menu count [] = none
client_menu count (line ∷ lines) =
    let again = client_menu count lines in
    if is_offered count (strtol line) then some (strtol line, lines) else again

-- The second line is only the <<Enter>>.
abbrev pub enter_pressed : ℕ → List Line → Option (ℕ × List Line)
enter_pressed value [] = none
enter_pressed value (enter ∷ lines) = some (value, lines)

unfoldable pub client_select_room : List Line → Option (ℕ × List Line)
client_select_room [] = none
client_select_room (line ∷ lines) =
    if is_one_of back_texts line then some (go_back, lines) else enter_pressed (strtol line) lines

unfoldable pub client_select_seat : List Line → Option (ℕ × List Line)
client_select_seat [] = none
client_select_seat (line ∷ lines) =
    if is_one_of refresh_texts line
    then some (refresh_seats, lines)
    else if is_one_of back_texts line
    then some (go_back, lines)
    else enter_pressed (strtol line) lines
