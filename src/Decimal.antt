-- ===== src/Decimal.antt =====
-- Rust's `to_string` and `parse` on unsigned integers, which the metadata of a transaction goes
-- through. `max` is the largest value of the integer type.
use Prim.Native.Nat.{◌/◌, ◌%◌}
use Prim.Native.Char.{Char, code}
use Prim.Native.String.{[], ◌∷◌}
use roze_dtm.Common.{
  ℕ, zero, suc, ◌+◌, ◌-◌, ◌*◌, ◌≤◌, ◌<◌, ◌≡◌, refl, String, ◌&&◌, Option, none, some, arith, ltb,
  leb, ◌=?◌, if◌then◌else◌, Bool-cases, inl, inr, ◌∙◌, u64_max,
}

digit : ℕ → Char
digit zero = "0"
digit (suc zero) = "1"
digit (suc (suc zero)) = "2"
digit (suc (suc (suc zero))) = "3"
digit (suc (suc (suc (suc zero)))) = "4"
digit (suc (suc (suc (suc (suc zero))))) = "5"
digit (suc (suc (suc (suc (suc (suc zero)))))) = "6"
digit (suc (suc (suc (suc (suc (suc (suc zero))))))) = "7"
digit (suc (suc (suc (suc (suc (suc (suc (suc zero)))))))) = "8"
digit _ = "9"

digits : ℕ → ℕ → String → String
digits zero n acc = acc
digits (suc fuel) n acc =
    let more = digits fuel (n / 10) (digit (n % 10) ∷ acc) in
    if ltb n 10 then digit n ∷ acc else more

-- Dividing by ten as often as the number is large is more than enough.
unfoldable pub to_string : ℕ → String
unfolding digits digit
to_string n = digits (suc n) n []

parse_digits : ℕ → ℕ → String → Option ℕ
parse_digits max acc [] = some acc
parse_digits max acc (c ∷ s) =
    let value = acc * 10 + (code c - 48) in
    let rest = parse_digits max value s in
    if (leb 48 (code c) && leb (code c) 57) && leb value max then rest else none

-- A leading plus sign is accepted before at least one digit.
unfoldable pub parse : ℕ → String → Option ℕ
unfolding parse_digits
parse max [] = none
parse max (c ∷ []) = parse_digits max 0 (c ∷ [])
parse max (c ∷ d ∷ s) =
    if code c =? 43 then parse_digits max 0 (d ∷ s) else parse_digits max 0 (c ∷ d ∷ s)

code-digit : (d : ℕ) → d < 10 → code (digit d) ≡ 48 + d
unfolding digit
code-digit zero h = refl
code-digit (suc zero) h = refl
code-digit (suc (suc zero)) h = refl
code-digit (suc (suc (suc zero))) h = refl
code-digit (suc (suc (suc (suc zero)))) h = refl
code-digit (suc (suc (suc (suc (suc zero))))) h = refl
code-digit (suc (suc (suc (suc (suc (suc zero)))))) h = refl
code-digit (suc (suc (suc (suc (suc (suc (suc zero))))))) h = refl
code-digit (suc (suc (suc (suc (suc (suc (suc (suc zero)))))))) h = refl
code-digit (suc (suc (suc (suc (suc (suc (suc (suc (suc zero))))))))) h = refl
code-digit (suc (suc (suc (suc (suc (suc (suc (suc (suc (suc d)))))))))) h = absurd (omega arith)

parse_digits-digit :
    (max acc d : ℕ) (s : String)
    → d < 10
    → acc * 10 + d ≤ max
    → parse_digits max acc (digit d ∷ s) ≡ parse_digits max (acc * 10 + d) s
unfolding parse_digits
parse_digits-digit max acc d s h b = ground (arith, code-digit d h)

parse_digits-digits :
    (max fuel n : ℕ) (acc : String)
    → n < fuel
    → n ≤ max
    → parse_digits max 0 (digits fuel n acc) ≡ parse_digits max n acc
unfolding digits
parse_digits-digits max zero n acc h b = absurd (omega arith)
parse_digits-digits max (suc fuel) n acc h b = ground (
  arith,
  parse_digits-digit max 0 n acc,
  parse_digits-digits max fuel (n / 10) (digit (n % 10) ∷ acc),
  parse_digits-digit max (n / 10) (n % 10) acc,
)

-- The text of a number does not begin with a plus sign.
digits_head :
    (fuel n : ℕ) (acc : String)
    → n < fuel
    → (c : Char) × (s : String) × (digits fuel n acc ≡ c ∷ s) × (48 ≤ code c)
unfolding digits
digits_head zero n acc h = absurd (omega arith)
digits_head (suc fuel) n acc h = elim (Bool-cases (ltb n 10)) [
  | inl small ↦ (digit n, acc, ground arith, ground (arith, code-digit n))
  | inr large ↦
      let more = digits_head fuel (n / 10) (digit (n % 10) ∷ acc) (ground arith) in
      (more.0, more.1, ground (arith, more.2), more.3)
]

parse_of_digit :
    (max : ℕ) (c : Char) (s : String) → 48 ≤ code c → parse max (c ∷ s) ≡ parse_digits max 0 (c ∷ s)
unfolding parse
parse_of_digit max c [] h = refl
parse_of_digit max c (d ∷ s) h = ground arith

parse-eq-parse_digits :
    (max : ℕ) (text : String) (c : Char) (s : String)
    → text ≡ c ∷ s
    → 48 ≤ code c
    → parse max text ≡ parse_digits max 0 text
parse-eq-parse_digits max text c s e h = rw e (parse_of_digit max c s h)

parse_digits-nil : (max n : ℕ) → parse_digits max n [] ≡ some n
unfolding parse_digits
parse_digits-nil max n = refl

-- A number within the type's range is read back from its text.
pub parse-to_string : (max n : ℕ) → n ≤ max → parse max (to_string n) ≡ some n
unfolding to_string
parse-to_string max n h =
    let (c, s, e, d) = digits_head (suc n) n [] (omega arith) in
    parse-eq-parse_digits max (digits (suc n) n []) c s e d
    ∙ parse_digits-digits max (suc n) n [] (omega arith) h
    ∙ parse_digits-nil max n

parse_digits-le :
    (max acc n : ℕ) (s : String) → acc ≤ max → parse_digits max acc s ≡ some n → n ≤ max
unfolding parse_digits
parse_digits-le max acc n [] b h = ground arith
parse_digits-le max acc n (c ∷ s) b h =
    ground (arith, parse_digits-le max (acc * 10 + (code c - 48)) n s)

-- What is read from any text is within the range.
pub parse-le : (max n : ℕ) (s : String) → parse max s ≡ some n → n ≤ max
unfolding parse
parse-le max n [] h = cc
parse-le max n (c ∷ []) h = parse_digits-le max 0 n (c ∷ []) (omega arith) h
parse-le max n (c ∷ d ∷ s) h =
    ground (arith, parse_digits-le max 0 n (c ∷ d ∷ s), parse_digits-le max 0 n (d ∷ s))

parse_examples :
    (parse u64_max (to_string 1700000000123) ≡ some 1700000000123)
    × (parse 255 "+12" ≡ some 12)
    × (parse 255 "256" ≡ none)
    × (parse 255 "+" ≡ none)
    × (parse 255 "1x" ≡ none)
unfolding parse to_string
parse_examples = (refl, refl, refl, refl, refl)
