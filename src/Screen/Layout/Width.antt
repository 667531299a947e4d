-- ===== src/Screen/Layout/Width.antt =====
-- src/main.cpp: the rows of a box are as wide as its borders.
use juno_miner.Base.{
  ℕ, zero, suc, ◌+◌, ◌-◌, ◌*◌, ◌/◌, ◌≤◌, ◌≡◌, refl, ap, ◌∙◌, subst, [], ◌∷◌, ◌++◌, arith, length,
  Bytes,
}
use juno_miner.Text.{codes}
use juno_miner.Screen.Layout.{
  following, Scan, start, scan_byte, counted, visible_from, visible_length, bar, repeated, sequence,
  if_colored, draw_row, draw_centered, draw_line,
}

abbrev pub scan_all : Scan → Bytes → Scan
scan_all scan [] = scan
scan_all scan (c ∷ cs) = scan_all (scan_byte c scan.in_escape scan.skip) cs

visible_from-append :
    (scan : Scan) (xs ys : Bytes)
    → visible_from scan (xs ++ ys) ≡ visible_from scan xs + visible_from (scan_all scan xs) ys
unfolding visible_from
visible_from-append scan [] ys = omega arith
visible_from-append scan (x ∷ xs) ys =
    omega (arith, visible_from-append (scan_byte x scan.in_escape scan.skip) xs ys)

-- A text whose last character and last escape sequence are complete, and that is `n` wide
abbrev pub IsText : Bytes → ℕ → Type 0
IsText text n = (scan_all start text ≡ start) × (visible_length text ≡ n)

scan_all-append :
    (scan : Scan) (xs ys : Bytes) → scan_all scan (xs ++ ys) ≡ scan_all (scan_all scan xs) ys
scan_all-append scan [] ys = refl
scan_all-append scan (x ∷ xs) ys = scan_all-append (scan_byte x scan.in_escape scan.skip) xs ys

pub append-IsText :
    (xs ys : Bytes) (n m : ℕ) → IsText xs n → IsText ys m → IsText (xs ++ ys) (n + m)
append-IsText xs ys n m (e, f) (g, h) = (
  scan_all-append start xs ys ∙ ap (λ (s : Scan). scan_all s ys) e ∙ g,
  omega (arith, visible_from-append start xs ys, ap (λ (s : Scan). visible_from s ys) e, f, h),
)

pub repeated-IsText : (n : ℕ) (s : Bytes) (m : ℕ) → IsText s m → IsText (repeated n s) (n * m)
unfolding visible_from
repeated-IsText zero s m t = (refl, omega arith)
repeated-IsText (suc n) s m t =
    subst (IsText (s ++ repeated n s)) (omega arith)
      (append-IsText s (repeated n s) m (n * m) t (repeated-IsText n s m t))

bar-IsText : IsText bar 1
unfolding visible_from scan_byte counted following
bar-IsText = (refl, refl)

space-IsText : IsText (codes " ") 1
unfolding visible_from scan_byte counted following
space-IsText = (refl, refl)

cyan-IsText : IsText (sequence (codes "[1;36m")) 0
unfolding visible_from scan_byte counted following
cyan-IsText = (refl, refl)

yellow-IsText : IsText (sequence (codes "[1;33m")) 0
unfolding visible_from scan_byte counted following
yellow-IsText = (refl, refl)

white-IsText : IsText (sequence (codes "[1;37m")) 0
unfolding visible_from scan_byte counted following
white-IsText = (refl, refl)

reset-IsText : IsText (sequence (codes "[0m")) 0
unfolding visible_from scan_byte counted following
reset-IsText = (refl, refl)

-- A row with a label and a value that are complete texts, and fit with the two spaces, is two wider than the
-- box is wide inside, whatever escape sequences and characters of several bytes they hold.
pub draw_row-IsText :
    (label value : Bytes) (l v width : ℕ)
    → IsText label l
    → IsText value v
    → l + v + 2 ≤ width
    → IsText (draw_row label value width) (width + 2)
unfolding draw_row
draw_row-IsText label value l v width (a, b) (c, d) fits =
    subst (IsText (draw_row label value width)) (omega (arith, b, d, fits)) (
      append-IsText bar _ 1 _ bar-IsText (
        append-IsText (codes " ") _ 1 _ space-IsText (
          append-IsText _ _ 0 _ cyan-IsText (
            append-IsText label _ l _ (a, b)
              (append-IsText _ _ 0 _ reset-IsText (
                append-IsText _ _ _ _
                  (repeated-IsText (width - visible_length label - visible_length value - 2)
                    (codes " ") 1 space-IsText)
                  (append-IsText _ _ 0 _ yellow-IsText (
                    append-IsText value _ v _ (c, d)
                      (append-IsText _ _ 0 _ reset-IsText
                        (append-IsText (codes " ") bar 1 1 space-IsText bar-IsText))))))))))

spaces-IsText : (n : ℕ) → IsText (repeated n (codes " ")) (n * 1)
spaces-IsText n = repeated-IsText n (codes " ") 1 space-IsText

colored-IsText : (color : Bytes) → IsText (if_colored color (sequence (codes "[0m"))) 0
unfolding visible_from
colored-IsText [] = (refl, refl)
colored-IsText (c ∷ cs) = reset-IsText

-- A centered text that is complete and fits, in a color that takes no place, is as wide as the row.
pub draw_centered-IsText :
    (text color : Bytes) (n width : ℕ)
    → IsText text n
    → IsText color 0
    → n ≤ width
    → IsText (draw_centered text color width) (width + 2)
unfolding draw_centered
draw_centered-IsText text color n width (a, b) colored fits =
    subst (IsText (draw_centered text color width)) (omega (arith, b, fits)) (
      append-IsText bar _ 1 _ bar-IsText (
        append-IsText _ _ _ _ (spaces-IsText ((width - visible_length text) / 2)) (
          append-IsText color _ 0 _ colored (
            append-IsText text _ n _ (a, b)
              (append-IsText _ _ 0 _ (colored-IsText color) (
                append-IsText _ bar _ 1
                  (spaces-IsText (width - visible_length text - (width - visible_length text) / 2))
                  bar-IsText))))))

-- A border whose corners and filling are one character wide is two wider than the box is wide inside, also with
-- a title that fits with its spaces, if each byte of the title is a character.
pub draw_line-IsText :
    (title left right fill : Bytes) (width : ℕ)
    → IsText title (length title)
    → IsText left 1
    → IsText right 1
    → IsText fill 1
    → length title + 2 ≤ width
    → IsText (draw_line title left right fill width) (width + 2)
unfolding draw_line
draw_line-IsText [] left right fill width t l r f fits =
    subst (IsText (draw_line [] left right fill width)) (omega arith)
      (append-IsText left _ 1 _ l (append-IsText _ right _ 1 (repeated-IsText width fill 1 f) r))
draw_line-IsText (c ∷ cs) left right fill width t l r f fits =
    let title_len = length (c ∷ cs) + 2 in
    subst (IsText (draw_line (c ∷ cs) left right fill width)) (omega (arith, fits)) (
      append-IsText left _ 1 _ l (
        append-IsText _ _ _ _ (repeated-IsText ((width - title_len) / 2) fill 1 f) (
          append-IsText (codes " ") _ 1 _ space-IsText (
            append-IsText _ _ 0 _ white-IsText (
              append-IsText (c ∷ cs) _ (length (c ∷ cs)) _ t (
                append-IsText _ _ 0 _ reset-IsText (
                  append-IsText (codes " ") _ 1 _ space-IsText (
                    append-IsText _ right _ 1
                      (repeated-IsText (width - title_len - (width - title_len) / 2) fill 1 f)
                      r))))))))
