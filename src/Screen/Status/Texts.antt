-- ===== src/Screen/Status/Texts.antt =====
-- src/main.cpp: how wide the texts are that the status screen is made of.
use juno_miner.Base.{
  ℕ, zero, suc, ◌+◌, ◌-◌, ◌/◌, ◌%◌, ◌^◌, ◌≤◌, ◌<◌, ◌≡◌, refl, ap, ◌∙◌, ◌≢◌, inl, inr, Bool, true,
  false, [], ◌∷◌, ◌++◌, arith, ltb, if◌then◌else◌, Bool-cases, length, drop, length-append, All,
  All-append, IsByte, Bytes, bytes_eq,
}
use juno_miner.Text.{codes}
use native.Mathlib.Nat.{pow-suc}
use juno_miner.Utils.Hex.{hex_digit, hex_of_byte}
use juno_miner.Screen.Layout.{following, Scan, start, scan_byte, counted, visible_from, sequence}
use juno_miner.Screen.Layout.Width.{IsText, scan_all, append-IsText}
use juno_miner.Screen.Status.{
  digits, to_string, two_digits, uptime_text, epoch_display, dot, status_display, mode_display,
}

-- A byte that is a character of its own
abbrev pub IsPlain : ℕ → Type 0
IsPlain c = (c < 128) × (c ≢ 27)

plain_step : (c : ℕ) → IsPlain c → (scan_byte c false 0 ≡ start) × (counted c false 0 ≡ 1)
unfolding scan_byte counted following
plain_step c (small, other) = ground arith

pub plain-IsText : (text : Bytes) → All IsPlain text → IsText text (length text)
unfolding visible_from
plain-IsText [] h = (refl, refl)
plain-IsText (c ∷ cs) (p, ps) =
    let (scanned, one) = plain_step c p in
    let (ends, wide) = plain-IsText cs ps in
    (
      ap (λ (scan : Scan). scan_all scan cs) scanned ∙ ends,
      omega (arith, one, ap (λ (scan : Scan). visible_from scan cs) scanned, wide),
    )

-- A complete text that is at most `limit` wide
abbrev pub IsSized : Bytes → ℕ → Type 0
IsSized text limit = (n : ℕ) × IsText text n × (n ≤ limit)

pub plain-IsSized :
    (text : Bytes) (limit : ℕ) → All IsPlain text → length text ≤ limit → IsSized text limit
plain-IsSized text limit h small = (length text, plain-IsText text h, small)

pub append-IsSized :
    (xs ys : Bytes) (a b : ℕ) → IsSized xs a → IsSized ys b → IsSized (xs ++ ys) (a + b)
append-IsSized xs ys a b (n, t, p) (m, u, q) =
    (n + m, append-IsText xs ys n m t u, omega (arith, p, q))

pub IsSized-le : (xs : Bytes) (a b : ℕ) → IsSized xs a → a ≤ b → IsSized xs b
IsSized-le xs a b (n, t, p) q = (n, t, omega (arith, p, q))

-- A number that is shown with at least one digit, below 10 ^ k, takes k digits at most.
digits-lem :
    (places k n : ℕ)
    → n < 10 ^ suc k
    → All IsPlain (digits places n) × (length (digits places n) ≤ suc k)
unfolding digits
digits-lem zero k n h = (tt, omega arith)
digits-lem (suc places) zero n h = rw (one_digit (omega arith)) ((omega arith, tt), omega arith)
  where
    one_digit : n < 10 → ltb n 10 ≡ true
    one_digit p = ground arith
digits-lem (suc places) (suc k) n h =
    let (plain, short) = digits-lem places k (n / 10) (omega (arith, pow-suc 10 (suc k))) in
    by_test (ltb n 10) plain short
  where
    by_test :
        (b : Bool)
        → All IsPlain (digits places (n / 10))
        → length (digits places (n / 10)) ≤ suc k
        → All IsPlain ((if b then [] else digits places (n / 10)) ++ ((b'0' + n % 10) ∷ []))
          × (length ((if b then [] else digits places (n / 10)) ++ ((b'0' + n % 10) ∷ []))
              ≤ suc (suc k))
    by_test true plain short = ((omega arith, tt), omega arith)
    by_test false plain short = (
      All-append IsPlain (digits places (n / 10)) _ plain (omega arith, tt),
      omega (arith, short, length-append (digits places (n / 10)) ((b'0' + n % 10) ∷ [])),
    )

pub to_string-IsSized : (n : ℕ) → n < 2 ^ 64 → IsSized (to_string n) 20
to_string-IsSized n h =
    let (plain, short) = digits-lem 20 19 n (omega arith) in
    plain-IsSized (to_string n) 20 plain short

two_digits-IsSized : (k n : ℕ) → n < 10 ^ suc (suc k) → IsSized (two_digits n) (suc (suc k))
two_digits-IsSized k n h =
    let (plain, short) = digits-lem 20 (suc k) n h in
    elim (Bool-cases (ltb n 10)) [
      | inl one ↦ rw one (padded (below one))
      | inr more ↦ rw more (plain-IsSized (to_string n) (suc (suc k)) plain short)
    ]
  where
    below : ltb n 10 ≡ true → n < 10 ^ suc zero
    below e = let p : n < 10 = ground (arith, e) in omega arith

    padded : n < 10 ^ suc zero → IsSized (b'0' ∷ to_string n) (suc (suc k))
    padded p =
        let (plain, short) = digits-lem 20 zero n p in
        plain-IsSized (b'0' ∷ to_string n) (suc (suc k))
          ((omega arith, λ e. absurd (omega (arith, e))), plain) (omega arith)

-- An `int` number of seconds
pub uptime_text-IsSized : (seconds : ℕ) → seconds < 2 ^ 31 → IsSized (uptime_text seconds) 20
unfolding uptime_text
uptime_text-IsSized seconds h =
    IsSized-le (uptime_text seconds) _ 20
      (append-IsSized (two_digits (seconds / 3600)) _ 6 _
        (two_digits-IsSized 4 (seconds / 3600) (omega arith))
        (append-IsSized (codes "h ") _ 2 _ (plain-IsSized _ 2 (omega arith) (omega arith)) (
          append-IsSized (two_digits (seconds % 3600 / 60)) _ 2 _
            (two_digits-IsSized 0 (seconds % 3600 / 60) (omega arith))
            (append-IsSized (codes "m ") _ 2 _ (plain-IsSized _ 2 (omega arith) (omega arith)) (
              append-IsSized (two_digits (seconds % 60)) (codes "s") 2 1
                (two_digits-IsSized 0 (seconds % 60) (omega arith))
                (plain-IsSized _ 1 (omega arith) (omega arith)))))))
      (omega arith)

hex_digit-IsPlain : (n : ℕ) → n < 16 → IsPlain (hex_digit n)
hex_digit-IsPlain n h = ground arith

hex_of_byte-IsSized : (b : ℕ) → IsByte b → IsSized (hex_of_byte b) 2
hex_of_byte-IsSized b h =
    plain-IsSized (hex_of_byte b) 2
      (hex_digit-IsPlain (b / 16) (omega arith), (hex_digit-IsPlain (b % 16) (omega arith), tt))
      (omega arith)

All-drop : (n : ℕ) (xs : Bytes) → All IsByte xs → All IsByte (drop n xs)
All-drop zero xs h = h
All-drop (suc n) [] h = tt
All-drop (suc n) (x ∷ xs) (h, hs) = All-drop n xs hs

pub epoch_display-IsSized :
    (seed_height : ℕ) (seed_hash : Bytes)
    → seed_height < 2 ^ 64
    → All IsByte seed_hash
    → IsSized (epoch_display seed_height seed_hash) 50
unfolding epoch_display
epoch_display-IsSized seed_height seed_hash h bytes =
    by_last (to_string-IsSized (seed_height / 2048 + 1) (omega arith))
      (drop (length seed_hash - 4) seed_hash) (All-drop (length seed_hash - 4) seed_hash bytes)
  where
    by_last :
        IsSized (to_string (seed_height / 2048 + 1)) 20
        → (last : Bytes) → All IsByte last
        → IsSized
            (elim last [
              | a ∷ b ∷ c ∷ d ∷ [] ↦
                  to_string (seed_height / 2048 + 1)
                  ++ (codes " ("
                      ++ (hex_of_byte a
                          ++ (hex_of_byte b ++ (hex_of_byte c ++ (hex_of_byte d ++ codes ")")))))
              | _ ↦ to_string (seed_height / 2048 + 1)
            ])
            50
    by_last number [] t = IsSized-le _ 20 50 number (omega arith)
    by_last number (a ∷ []) t = IsSized-le _ 20 50 number (omega arith)
    by_last number (a ∷ b ∷ []) t = IsSized-le _ 20 50 number (omega arith)
    by_last number (a ∷ b ∷ c ∷ []) t = IsSized-le _ 20 50 number (omega arith)
    by_last number (a ∷ b ∷ c ∷ d ∷ []) (p, (q, (r, (u, _)))) =
        IsSized-le _ _ 50
          (append-IsSized (to_string (seed_height / 2048 + 1)) _ 20 _ number (
            append-IsSized (codes " (") _ 2 _ (plain-IsSized _ 2 (omega arith) (omega arith)) (
              append-IsSized (hex_of_byte a) _ 2 _ (hex_of_byte-IsSized a p) (
                append-IsSized (hex_of_byte b) _ 2 _ (hex_of_byte-IsSized b q) (
                  append-IsSized (hex_of_byte c) _ 2 _ (hex_of_byte-IsSized c r) (
                    append-IsSized (hex_of_byte d) (codes ")") 2 1 (hex_of_byte-IsSized d u)
                      (plain-IsSized _ 1 (omega arith) (omega arith))))))))
          (omega arith)
    by_last number (a ∷ b ∷ c ∷ d ∷ e ∷ more) t = IsSized-le _ 20 50 number (omega arith)

pub mode_display-IsSized : (fast_mode : Bool) → IsSized (mode_display fast_mode) 50
unfolding mode_display visible_from scan_byte counted following
mode_display-IsSized true = (4, (refl, refl), omega arith)
mode_display-IsSized false = (5, (refl, refl), omega arith)

other_status-IsSized :
    (status : Bytes)
    → IsSized status 40
    → IsSized
        (sequence (codes "[1;33m") ++ (dot ++ (codes " " ++ (status ++ sequence (codes "[0m")))))
        50
unfolding visible_from scan_byte counted following
other_status-IsSized status sized =
    let reset = sequence (codes "[0m") in
    let named = status ++ reset in
    let spaced = codes " " ++ named in
    IsSized-le (sequence (codes "[1;33m") ++ (dot ++ spaced)) 42 50
      (append-IsSized (sequence (codes "[1;33m")) (dot ++ spaced) 0 42
        (0, (refl, refl), omega arith)
        (append-IsSized dot spaced 1 41 (1, (refl, refl), omega arith)
          (append-IsSized (codes " ") named 1 40 (1, (refl, refl), omega arith)
            (append-IsSized status reset 40 0 sized (0, (refl, refl), omega arith)))))
      (omega arith)

pub status_display-IsSized :
    (status : Bytes) → IsSized status 40 → IsSized (status_display status) 50
unfolding status_display visible_from scan_byte counted following
status_display-IsSized status sized =
    by_tests (bytes_eq status (codes "ACTIVE")) (bytes_eq status (codes "DISCONNECTED"))
  where
    by_tests :
        (active disconnected : Bool)
        → IsSized
            (if active
              then sequence (codes "[1;32m") ++ (dot ++ (codes " ACTIVE" ++ sequence (codes "[0m")))
              else if disconnected
              then sequence (codes "[1;31m")
                ++ (dot ++ (codes " DISCONNECTED" ++ sequence (codes "[0m")))
              else sequence (codes "[1;33m")
                ++ (dot ++ (codes " " ++ (status ++ sequence (codes "[0m")))))
            50
    by_tests true disconnected = (8, (refl, refl), omega arith)
    by_tests false true = (14, (refl, refl), omega arith)
    by_tests false false = other_status-IsSized status sized
