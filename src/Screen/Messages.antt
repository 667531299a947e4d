-- ===== src/Screen/Messages.antt =====
-- src/main.cpp: `update_log` after any number of messages.
use juno_miner.Base.{
  ℕ, zero, suc, ◌+◌, ◌-◌, ◌≤◌, ◌<◌, ◌≡◌, refl, sym, ap, ◌∙◌, inl, inr, List, [], ◌∷◌, ◌++◌, map,
  append_assoc, append-nil, arith, ltb, Bool-cases, length, drop, length-append, length-drop, Bytes,
}
use juno_miner.Screen.{max_update_lines, trim, stamped, add_update_message}

-- The newest `n` of a list
abbrev pub newest {ℓ} : {A : Type ℓ} → ℕ → List A → List A
newest n xs = drop (length xs - n) xs

-- The log after messages with their times, from an empty log
abbrev pub run : List (Bytes × Bytes) → List Bytes → List Bytes
run [] update_log = update_log
run ((timestamp, msg) ∷ messages) update_log =
    run messages (add_update_message timestamp msg update_log)

trim-newest : (lines : List Bytes) → trim lines ≡ newest max_update_lines lines
unfolding trim
trim-newest [] = refl
trim-newest (line ∷ lines) = elim (Bool-cases (ltb 4 (suc (length lines)))) [
  | inl long ↦ rw long (
      trim-newest lines
      ∙ ap (λ k. drop k (line ∷ lines)) (shift (length lines) (ground (arith, long))))
  | inr short ↦
      rw short (ap (λ k. drop k (line ∷ lines)) (none_over (length lines) (ground (arith, short))))
]
  where
    shift : (n : ℕ) → 4 < suc n → suc (n - 4) ≡ suc n - 4
    shift n h = omega arith

    none_over : (n : ℕ) → suc n ≤ 4 → 0 ≡ suc n - 4
    none_over n h = omega arith

drop-append_le :
    {A : Type 0} (k : ℕ) (xs ys : List A) → k ≤ length xs → drop k (xs ++ ys) ≡ drop k xs ++ ys
drop-append_le zero xs ys h = refl
drop-append_le (suc k) [] ys h = absurd (omega arith)
drop-append_le (suc k) (x ∷ xs) ys h = drop-append_le k xs ys (omega arith)

drop-nil : {A : Type 0} (k : ℕ) → drop {A = A} k [] ≡ []
drop-nil zero = refl
drop-nil (suc k) = refl

drop-drop : {A : Type 0} (j k : ℕ) (xs : List A) → drop j (drop k xs) ≡ drop (k + j) xs
drop-drop j zero xs = ap (λ i. drop i xs) (omega arith)
drop-drop j (suc k) [] = drop-nil j ∙ sym (drop-nil (suc k + j))
drop-drop j (suc k) (x ∷ xs) =
    let moved : suc (k + j) ≡ suc k + j = omega arith in
    drop-drop j k xs ∙ ap (λ i. drop i (x ∷ xs)) moved

-- A message more is a step of the window.
newest-append :
    (history : List Bytes) (line : Bytes)
    → trim (newest max_update_lines history ++ (line ∷ []))
      ≡ newest max_update_lines (history ++ (line ∷ []))
newest-append history line =
    trim-newest (drop k history ++ (line ∷ []))
    ∙ ap (newest max_update_lines) (sym (drop-append_le k history (line ∷ []) (omega arith)))
    ∙ drop-drop _ k (history ++ (line ∷ []))
    ∙ ap (λ i. drop i (history ++ (line ∷ []))) counts
  where
    k : ℕ
    k = length history - 4

    counts :
        k + (length (drop k (history ++ (line ∷ []))) - 4) ≡ length (history ++ (line ∷ [])) - 4
    counts =
        omega (arith, length-drop k (history ++ (line ∷ [])), length-append history (line ∷ []))

run-newest :
    (messages : List (Bytes × Bytes)) (history : List Bytes)
    → run messages (newest max_update_lines history)
      ≡ newest max_update_lines (history ++ map (λ m. stamped (m.0) (m.1)) messages)
unfolding add_update_message
run-newest [] history = ap (newest max_update_lines) (sym (append-nil history))
run-newest ((timestamp, msg) ∷ messages) history =
    ap (run messages) (newest-append history (stamped timestamp msg))
    ∙ run-newest messages (history ++ (stamped timestamp msg ∷ []))
    ∙ ap (newest max_update_lines) (append_assoc history (stamped timestamp msg ∷ []) _)

-- After any messages, from an empty log, the log holds the last four of them with their times, or all of them
-- where there are fewer, in the order in which they were added.
pub add_update_message-newest :
    (messages : List (Bytes × Bytes))
    → run messages [] ≡ newest max_update_lines (map (λ m. stamped (m.0) (m.1)) messages)
add_update_message-newest messages = run-newest messages []
