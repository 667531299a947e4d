-- ===== src/Screen/Layout.antt =====
-- src/main.cpp: the length that a text takes on the screen, and the lines of the boxes. A text is a list of
-- bytes in UTF-8, with escape sequences that end in the letter m.
pub mod Width
use juno_miner.Base.{
  ℕ, zero, suc, ◌+◌, ◌-◌, ◌/◌, Bool, true, false, ◌&&◌, not, [], ◌∷◌, ◌++◌, ◌==◌, if◌then◌else◌,
  length, Bytes,
}
use juno_miner.Text.{codes}

abbrev pub escape : ℕ
escape = 27

-- By how many bytes a character goes on behind its first one
unfoldable pub following : ℕ → ℕ
following c =
    if c / 128 == 0
    then 0
    else if c / 32 == 6
    then 1
    else if c / 16 == 14
    then 2
    else if c / 8 == 30
    then 3
    else 0

-- The loop stands in an escape sequence or not, and is to pass over some bytes.
pub record Scan : Type 0 where
  pub in_escape : Bool
  pub skip : ℕ

abbrev pub start : Scan
start = record { in_escape = false; skip = 0 }

-- What one byte does to the scan
unfoldable pub scan_byte : ℕ → Bool → ℕ → Scan
scan_byte c in_escape (suc skip) = record { in_escape = in_escape; skip = skip }
scan_byte c in_escape zero =
    if c == escape
    then record { in_escape = true; skip = 0 }
    else if in_escape && (c == b'm')
    then record { in_escape = false; skip = 0 }
    else if not in_escape
    then record { in_escape = false; skip = following c }
    else record { in_escape = true; skip = 0 }

-- Whether the byte is counted
unfoldable pub counted : ℕ → Bool → ℕ → ℕ
counted c in_escape (suc skip) = 0
counted c in_escape zero =
    if c == escape
    then 0
    else if in_escape && (c == b'm')
    then 0
    else if not in_escape
    then 1
    else 0

unfoldable pub visible_from : Scan → Bytes → ℕ
unfolding scan_byte counted
visible_from scan [] = 0
visible_from scan (c ∷ cs) =
    counted c scan.in_escape scan.skip + visible_from (scan_byte c scan.in_escape scan.skip) cs

abbrev pub visible_length : Bytes → ℕ
visible_length str = visible_from start str

-- The characters of the boxes
abbrev pub bar : Bytes
bar = 0xe2 ∷ 0x94 ∷ 0x82 ∷ []

-- `for (int i = 0; i < n; i++) std::cout << s;`
abbrev pub repeated : ℕ → Bytes → Bytes
repeated zero s = []
repeated (suc n) s = s ++ repeated n s

-- An escape sequence
abbrev pub sequence : Bytes → Bytes
sequence text = escape ∷ text

-- `drawRow`, without the end of the line; a negative padding writes no spaces.
unfoldable pub draw_row : Bytes → Bytes → ℕ → Bytes
draw_row label value width =
    let padding = width - visible_length label - visible_length value - 2 in
    bar
    ++ (codes " "
        ++ (sequence (codes "[1;36m")
            ++ (label
                ++ (sequence (codes "[0m")
                    ++ (repeated padding (codes " ")
                        ++ (sequence (codes "[1;33m")
                            ++ (value ++ (sequence (codes "[0m") ++ (codes " " ++ bar)))))))))

-- `if (!color.empty()) std::cout << s;`
abbrev pub if_colored : Bytes → Bytes → Bytes
if_colored [] s = []
if_colored (c ∷ cs) s = s

unfoldable pub draw_centered : Bytes → Bytes → ℕ → Bytes
draw_centered text color width =
    let padding = (width - visible_length text) / 2 in
    let right_pad = width - visible_length text - padding in
    bar
    ++ (repeated padding (codes " ")
        ++ (color
            ++ (text
                ++ (if_colored color (sequence (codes "[0m"))
                    ++ (repeated right_pad (codes " ") ++ bar)))))

-- `drawLine` with a title that is not empty, and without one
unfoldable pub draw_line : Bytes → Bytes → Bytes → Bytes → ℕ → Bytes
draw_line [] left right fill width = left ++ (repeated width fill ++ right)
draw_line (c ∷ cs) left right fill width =
    let title_len = length (c ∷ cs) + 2 in
    let left_pad = (width - title_len) / 2 in
    let right_pad = width - title_len - left_pad in
    left
    ++ (repeated left_pad fill
        ++ (codes " "
            ++ (sequence (codes "[1;37m")
                ++ ((c ∷ cs)
                    ++ (sequence (codes "[0m")
                        ++ (codes " " ++ (repeated right_pad fill ++ right)))))))
