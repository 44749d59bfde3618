-- ===== src/Backend/Number.antt =====
-- `std::stoull(text)` with its default base 10, which src/libraries/backend/server/server.cpp calls
-- on the id of a task. The messages of its exceptions are those of libstdc++.
use just_queue_it.Base.{
  ℕ, ◌+◌, ◌-◌, ◌*◌, ◌%◌, ◌^◌, ◌≤◌, Bytes, codes, Bool, true, false, ◌&&◌, ◌||◌, ◌≡◌, ◌≢◌, refl, [],
  ◌∷◌, ltb, leb, ◌==◌, if◌then◌else◌, All, arith,
}
use just_queue_it.Base.Exec.{Outcome, returned, thrown}

abbrev ull_max : ℕ
ull_max = 2 ^ 64 - 1

-- `isspace` in the C locale.
abbrev is_space : ℕ → Bool
is_space c = c == b' ' || (leb 9 c && leb c 13)

abbrev is_digit : ℕ → Bool
is_digit c = leb b'0' c && leb c b'9'

abbrev starts_number : Bytes → Bool
starts_number [] = false
starts_number (c ∷ s) = is_digit c

-- The value of the digits at the front of the text; what follows them is not read.
digits_value : ℕ → Bytes → ℕ
digits_value n [] = n
digits_value n (c ∷ s) =
    let more = digits_value (n * 10 + (c - b'0')) s in if is_digit c then more else n

-- `strtoull` behind the sign: no digit is an error, and so is a value out of range. A minus sign
-- negates modulo `2 ^ 64`.
unsigned_value : Bool → Bytes → Outcome ℕ
unfolding digits_value
unsigned_value negative s =
    if starts_number s
    then if ltb ull_max (digits_value 0 s)
      then thrown (codes "stoull")
      else if negative
      then returned ((2 ^ 64 - digits_value 0 s) % 2 ^ 64)
      else returned (digits_value 0 s)
    else thrown (codes "stoull")

signed_value : Bytes → Outcome ℕ
unfolding unsigned_value
signed_value [] = unsigned_value false []
signed_value (c ∷ s) =
    if c == b'-'
    then unsigned_value true s
    else if c == b'+'
    then unsigned_value false s
    else unsigned_value false (c ∷ s)

unfoldable pub stoull : Bytes → Outcome ℕ
unfolding signed_value
stoull [] = signed_value []
stoull (c ∷ s) = let rest = stoull s in if is_space c then rest else signed_value (c ∷ s)

abbrev IsDigits : Bytes → Type 0
IsDigits s = (s ≢ []) × All (λ c. is_digit c ≡ true) s

-- The number that digits write behind `n`, with no bound.
abbrev decimal : ℕ → Bytes → ℕ
decimal n [] = n
decimal n (c ∷ s) = decimal (n * 10 + (c - b'0')) s

digits_value-decimal :
    (n : ℕ) (s : Bytes) → All (λ c. is_digit c ≡ true) s → digits_value n s ≡ decimal n s
unfolding digits_value
digits_value-decimal n [] h = refl
digits_value-decimal n (c ∷ s) h = rw h.0 (digits_value-decimal (n * 10 + (c - b'0')) s h.1)

digit_is_plain :
    (c : ℕ)
    → is_digit c ≡ true
    → (is_space c ≡ false) × ((c == b'-') ≡ false) × ((c == b'+') ≡ false)
digit_is_plain c h = ground arith

-- Digits that write a number below `2 ^ 64` are read as this number.
pub stoull-digits :
    (s : Bytes) → IsDigits s → decimal 0 s ≤ ull_max → stoull s ≡ returned (decimal 0 s)
unfolding stoull
stoull-digits [] (ne, h) fits = absurd (ne refl)
stoull-digits (c ∷ s) (ne, h) fits =
    let (no_space, no_minus, no_plus) = digit_is_plain c h.0 in
    let tail = digits_value-decimal (0 * 10 + (c - b'0')) s h.1 in
    rw (no_space, no_minus, no_plus, h.0) (ground (arith, tail))
