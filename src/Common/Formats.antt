-- ===== src/Common/Formats.antt =====
-- The texts that the messages are put together from: strconv.Quote (`%q`), `%d`, and errors.Join.
-- An error is its message; `none` is a nil error.
use kubedns.Prelude.{
  ltb, nat_beq, if◌then◌else◌, Text, text, ℕ, zero, suc, ◌+◌, ◌-◌, ◌/◌, ◌%◌, ◌≡◌, ◌↔◌, Bool, true,
  false, ◌||◌, Option, none, some, [], ◌∷◌, ◌++◌, arith,
}

abbrev hex_digit : ℕ → ℕ
hex_digit n = if ltb n 10 then b'0' + n else b'a' + (n - 10)

-- One byte in quotes. Bytes from 128 on are taken as parts of printable characters.
abbrev quote_byte : ℕ → Text
quote_byte c =
    if nat_beq c 34 || nat_beq c 92
    then 92 ∷ c ∷ []
    else if nat_beq c 7
    then text "\\a"
    else if nat_beq c 8
    then text "\\b"
    else if nat_beq c 12
    then text "\\f"
    else if nat_beq c 10
    then text "\\n"
    else if nat_beq c 13
    then text "\\r"
    else if nat_beq c 9
    then text "\\t"
    else if nat_beq c 11
    then text "\\v"
    else if ltb c 32 || nat_beq c 127
    then text "\\x" ++ hex_digit (c / 16) ∷ hex_digit (c % 16) ∷ []
    else c ∷ []

unfoldable pub quote_bytes : Text → Text
quote_bytes [] = []
quote_bytes (c ∷ s) = quote_byte c ++ quote_bytes s

-- strconv.Quote
unfoldable pub quoted : Text → Text
unfolding quote_bytes
quoted s = 34 ∷ quote_bytes s ++ 34 ∷ []

unfoldable pub digits : ℕ → ℕ → Text → Text
digits zero n acc = acc
digits (suc fuel) n acc =
    let more = digits fuel (n / 10) ((b'0' + n % 10) ∷ acc) in
    if ltb n 10 then (b'0' + n) ∷ acc else more

-- `%d`: a number has no more digits than its value plus one.
unfoldable pub decimal : ℕ → Text
unfolding digits
decimal n = digits (suc n) n []

-- errors.Join of two errors: nil errors are dropped, the messages stand on lines of their own.
unfoldable pub join_errors : Option Text → Option Text → Option Text
join_errors none none = none
join_errors none (some b) = some b
join_errors (some a) none = some a
join_errors (some a) (some b) = some (a ++ b'\n' ∷ b)

-- if bad { err = errors.Join(err, fmt.Errorf(msg)) }
unfoldable pub report : Option Text → Bool → Text → Option Text
unfolding join_errors
report e bad msg = if bad then join_errors e (some msg) else e

pub join_errors-none : (a b : Option Text) → (join_errors a b ≡ none) ↔ ((a ≡ none) × (b ≡ none))
unfolding join_errors
join_errors-none none none = ground arith
join_errors-none none (some b) = ground arith
join_errors-none (some a) none = ground arith
join_errors-none (some a) (some b) = ground arith

pub report-none :
    (e : Option Text) (bad : Bool) (msg : Text)
    → (report e bad msg ≡ none) ↔ ((e ≡ none) × (bad ≡ false))
unfolding report
report-none e true msg = ground (arith, join_errors-none e (some msg))
report-none e false msg = ground arith
