-- ===== src/Mining/Input.antt =====
-- src/main.cpp: `get_thread_count_input`, from the reading of the answer on. What `read` gives is a byte, or
-- `none` for an error or the end of the input.
use juno_miner.Base.{
  ℕ, zero, suc, ◌-◌, ◌^◌, ◌≤◌, ◌<◌, ◌≡◌, ◌↔◌, Bool, false, ◌||◌, Option, none, some, List, [], ◌∷◌,
  arith, ltb, leb, ◌==◌, if◌then◌else◌, Bytes, Outcome, Ensures, Ensures-if, returns, faulted, ok,
  undefined,
}
use juno_miner.Utils.Numbers.{scan_int}

-- The answer: a number of threads, and whether the user is warned that there are not as many cores
pub data Reply : Type 0 where
  read_failed invalid_input too_small : Reply
  entered : ℕ → Bool → Reply

-- The bytes before the end of the line, as far as there is room
unfoldable pub read_line : ℕ → List (Option ℕ) → Option Bytes
read_line zero replies = some []
read_line (suc room) [] = none
read_line (suc room) (none ∷ replies) = none
read_line (suc room) (some c ∷ replies) =
    let rest = read_line room replies in
    if c == 10 then some [] else elim rest [ none ↦ none | some line ↦ some (c ∷ line) ]

-- `static_cast<int>(cpu_cores)` is negative from 2 ^ 31 on.
abbrev pub exceeds : ℕ → ℕ → Bool
exceeds cpu_cores n = leb (2 ^ 31) cpu_cores || ltb cpu_cores n

-- The number that `sscanf` has read; a value outside `int` is undefined.
abbrev pub reply_of : ℕ → Bool → ℕ → Outcome Reply
reply_of cpu_cores negative n =
    if ltb (if negative then 2 ^ 31 else 2 ^ 31 - 1) n
    then undefined
    else if negative || (n == 0)
    then ok too_small
    else ok (entered n (exceeds cpu_cores n))

abbrev pub reply_to : ℕ → Option (Bool × ℕ) → Outcome Reply
reply_to cpu_cores none = ok invalid_input
reply_to cpu_cores (some (negative, n)) = reply_of cpu_cores negative n

unfoldable pub parse_reply : ℕ → Option Bytes → Outcome Reply
unfolding scan_int
parse_reply cpu_cores none = ok read_failed
parse_reply cpu_cores (some line) = reply_to cpu_cores (scan_int line)

unfoldable pub get_thread_count_input : ℕ → List (Option ℕ) → Outcome Reply
unfolding read_line parse_reply
get_thread_count_input cpu_cores replies = parse_reply cpu_cores (read_line 31 replies)

-- What a number of threads that is entered promises
abbrev pub IsCount : ℕ → Reply → Type 0
IsCount cpu_cores (entered n warned) =
    (1 ≤ n) × (n < 2 ^ 31) × ((warned ≡ false) ↔ (n ≤ cpu_cores) × (cpu_cores < 2 ^ 31))
IsCount cpu_cores _ = Unit

reply_of-IsCount :
    (cpu_cores : ℕ) (negative : Bool) (n : ℕ)
    → Ensures (IsCount cpu_cores) (reply_of cpu_cores negative n)
reply_of-IsCount cpu_cores negative n =
    Ensures-if (ltb (if negative then 2 ^ 31 else 2 ^ 31 - 1) n) (λ wide. faulted)
      (λ fits.
        Ensures-if (negative || (n == 0)) (λ small. returns tt)
          (λ large. returns (ground (arith, fits, large))))

reply_to-IsCount :
    (cpu_cores : ℕ) (number : Option (Bool × ℕ))
    → Ensures (IsCount cpu_cores) (reply_to cpu_cores number)
reply_to-IsCount cpu_cores none = returns tt
reply_to-IsCount cpu_cores (some (negative, n)) = reply_of-IsCount cpu_cores negative n

parse_reply-IsCount :
    (cpu_cores : ℕ) (line : Option Bytes) → Ensures (IsCount cpu_cores) (parse_reply cpu_cores line)
unfolding parse_reply
parse_reply-IsCount cpu_cores none = returns tt
parse_reply-IsCount cpu_cores (some line) = reply_to-IsCount cpu_cores (scan_int line)

-- An answer that is read, whatever the user types and wherever the input ends, is a count from 1 to
-- 2 ^ 31 - 1, and the user is warned of it unless there are as many cores, as an `int`.
pub get_thread_count_input-IsCount :
    (cpu_cores : ℕ) (replies : List (Option ℕ))
    → Ensures (IsCount cpu_cores) (get_thread_count_input cpu_cores replies)
unfolding get_thread_count_input
get_thread_count_input-IsCount cpu_cores replies =
    parse_reply-IsCount cpu_cores (read_line 31 replies)
