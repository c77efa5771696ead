-- ===== src/Display.antt =====
-- kernel/display.c: the text screen at 0xB8000, its cursor and its characters.
use Prim.Native.Nat.{bit_or}
use projet_pcsea.Common.{
  ℕ, zero, suc, ◌+◌, ◌*◌, ◌-◌, ◌%◌, ◌/◌, ◌^◌, Bool, true, false, ◌==◌, ltb, leb, ◌&&◌, not,
  if◌then◌else◌, List, [], ◌∷◌,
}
pub mod Cursor

abbrev pub nb_col : ℕ
nb_col = 80

abbrev pub nb_lig : ℕ
nb_lig = 25

abbrev pub posi_l_init : ℕ
posi_l_init = 1

abbrev pub posi_c_init : ℕ
posi_c_init = 0

-- `cell` is the video memory in 16-bit words from 0xB8000 on; `ports` the writes (value, port) to the
-- cursor's registers, the latest first.
pub record Display : Type 0 where
  pub cell : ℕ → ℕ
  pub curs_lig_pos : ℕ
  pub curs_col_pos : ℕ
  pub ports : List (ℕ × ℕ)

-- The index of the word that ptr_mem gives the address of.
abbrev pub ptr_mem : ℕ → ℕ → ℕ
ptr_mem lig col = lig * nb_col + col

unfoldable pub ecrit_car : ℕ → ℕ → ℕ → ℕ → ℕ → ℕ → Display → Display
ecrit_car lig col c ct cf cl d =
    let v = bit_or (bit_or (bit_or c (cl * 2 ^ 15)) (cf * 2 ^ 12)) (ct * 2 ^ 8) % 2 ^ 16 in
    record d { cell = λ i. if i == ptr_mem lig col then v else d.cell i }

unfoldable pub clear_cols : ℕ → ℕ → ℕ → Display → Display
unfolding ecrit_car
clear_cols zero lig col d = d
clear_cols (suc n) lig col d = clear_cols n lig (suc col) (ecrit_car lig col 32 15 0 0 d)

unfoldable pub clear_ligs : ℕ → ℕ → Display → Display
unfolding clear_cols
clear_ligs zero lig d = d
clear_ligs (suc n) lig d = clear_ligs n (suc lig) (clear_cols nb_col lig 0 d)

unfoldable pub efface_ecran : Display → Display
unfolding clear_ligs
efface_ecran d = clear_ligs nb_lig 0 d

abbrev pub outb : ℕ → ℕ → Display → Display
outb value port d = record d { ports = (value, port) ∷ d.ports }

unfoldable pub place_curseur : ℕ → ℕ → Display → Display
place_curseur lig col d =
    let pos = (col + lig * nb_col) % 2 ^ 16 in
    let d1 =
      outb (pos / 256) 0x3D5 (outb 0x0E 0x3D4 (outb (pos % 256) 0x3D5 (outb 0x0F 0x3D4 d))) in
    record d1 { curs_lig_pos = lig; curs_col_pos = col }

unfoldable pub next_tab : ℕ → ℕ
next_tab col =
    if ltb col 8
    then 8
    else if ltb col 16
    then 16
    else if ltb col 24
    then 24
    else if ltb col 32
    then 32
    else if ltb col 40
    then 40
    else if ltb col 48
    then 48
    else if ltb col 56
    then 56
    else if ltb col 64
    then 64
    else if ltb col 72
    then 72
    else if leb col 79
    then 79
    else 0

-- The memmove of the lines below up by one.
unfoldable pub scroll : Display → Display
scroll d = record d {
  cell = λ i.
      if leb (ptr_mem posi_l_init 0) i && ltb i (ptr_mem posi_l_init 0 + (nb_lig - 1) * nb_col)
      then d.cell (i + nb_col)
      else d.cell i;
}

unfoldable pub defilement : Display → Display
unfolding scroll place_curseur clear_cols
defilement d =
    let d1 = scroll d in
    let d2 =
      (if ltb posi_l_init d1.curs_lig_pos
        then place_curseur (d1.curs_lig_pos - 1) d1.curs_col_pos d1
        else d1) in
    clear_cols nb_col 24 0 d2

abbrev pub set_col : ℕ → Display → Display
set_col col d = record d { curs_col_pos = col }

abbrev pub set_lig : ℕ → Display → Display
set_lig lig d = record d { curs_lig_pos = lig }

-- The end of the line has been reached. The line is compared with NB_COL - 1.
unfoldable pub wrap_line : Display → Display
unfolding defilement
wrap_line d =
    let d1 = set_col posi_c_init d in
    if not (d1.curs_lig_pos == nb_col - 1) then set_lig (d1.curs_lig_pos + 1) d1 else defilement d1

unfoldable pub print_char : ℕ → Display → Display
unfolding ecrit_car wrap_line
print_char c d =
    let d1 = ecrit_car d.curs_lig_pos d.curs_col_pos c 15 0 0 d in
    let d2 = set_col (d.curs_col_pos + 1) d1 in
    if d.curs_col_pos + 1 == nb_col then wrap_line d2 else d2

unfoldable pub tab_char : Display → Display
unfolding next_tab
tab_char d =
    let d1 = set_col (next_tab d.curs_col_pos) d in
    if d1.curs_col_pos == 0 then set_lig posi_l_init d1 else d1

unfoldable pub new_line : Display → Display
unfolding defilement
new_line d =
    set_col posi_c_init
      (if not (d.curs_lig_pos == nb_lig - 1) then set_lig (d.curs_lig_pos + 1) d else defilement d)

-- What traite_car does before it places the cursor.
unfoldable pub treat : ℕ → Display → Display
unfolding print_char tab_char new_line efface_ecran
treat c d =
    if leb 32 c && leb c 126
    then print_char c d
    else if c == 8
    then (if not (d.curs_col_pos == 0) then set_col (d.curs_col_pos - 1) d else d)
    else if c == 9
    then tab_char d
    else if c == 10
    then new_line d
    else if c == 12
    then set_col posi_c_init (set_lig posi_l_init (efface_ecran d))
    else if c == 13
    then set_col posi_c_init d
    else d

unfoldable pub traite_car : ℕ → Display → Display
unfolding treat place_curseur
traite_car c d = let d1 = treat c d in place_curseur d1.curs_lig_pos d1.curs_col_pos d1

unfoldable pub console_putbytes : List ℕ → Display → Display
unfolding traite_car
console_putbytes [] d = d
console_putbytes (c ∷ cs) d = console_putbytes cs (traite_car c d)
