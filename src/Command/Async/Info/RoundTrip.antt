-- ===== src/Command/Async/Info/RoundTrip.antt =====
-- An INFO reply as Redis writes it, and what `parse_info_str` and `parse_info_i64` of
-- redisson-rs/src/command/command_async_service.rs read of it.
use redisson_rs.Base.{
  ℕ, zero, suc, ◌+◌, ◌*◌, ◌-◌, ◌/◌, ◌%◌, ◌<◌, Bool, true, false, not, ◌&&◌, Option, none, some,
  List, [], ◌∷◌, ◌++◌, map, is_empty, ltb, nat_beq, if◌then◌else◌, All, any, Bool-cases, inl, inr,
  arith, ◌≡◌, refl, ap, ◌∙◌,
}
use redisson_rs.Base.Int.{pos}
use redisson_rs.Command.Async.Info.{
  Chars, same_chars, trim, strip_prefix, strip_cr, split, lines, field_value, or_else, find_field,
  parse_info_str, parse_digits, i64_limit, positive_i64, parse_i64, or_zero, parse_or_zero,
  parse_info_i64,
}

pub data Line : Type 0 where
  field : (key value : Chars) → Line
  heading : (name : Chars) → Line
  blank : Line

abbrev pub body : Line → Chars
body (field key value) = key ++ b':' ∷ value
body (heading name) = b'#' ∷ b' ' ∷ name
body blank = []

abbrev pub render : List Line → Chars
render [] = []
render (line ∷ lines) = body line ++ b'\r' ∷ b'\n' ∷ render lines

abbrev pub has : ℕ → Chars → Bool
has c s = any (λ d. nat_beq d c) s

-- A line that is one line, whose key ends at the colon and whose value has no space around it.
abbrev pub IsLine : Line → Type 0
IsLine (field key value) =
    (has b'\n' key ≡ false)
    × (has b':' key ≡ false)
    × (has b'\n' value ≡ false)
    × (trim value ≡ value)
IsLine (heading name) = has b'\n' name ≡ false
IsLine blank = Unit

-- A key that no heading begins with.
abbrev pub is_key : Chars → Bool
is_key [] = false
is_key (c ∷ key) = not (nat_beq c b'#') && not (has b':' (c ∷ key))

-- The first field of that key.
abbrev pub first_field : List Line → Chars → Option Chars
first_field [] key = none
first_field (field k value ∷ lines) key =
    if same_chars k key then some value else first_field lines key
first_field (heading name ∷ lines) key = first_field lines key
first_field (blank ∷ lines) key = first_field lines key

has-append : (c : ℕ) (s t : Chars) → has c s ≡ false → has c t ≡ false → has c (s ++ t) ≡ false
has-append c [] t hs ht = ht
has-append c (d ∷ s) t hs ht = ground (arith, has-append c s t)

strip_cr-append : (s : Chars) → strip_cr (s ++ b'\r' ∷ []) ≡ s
strip_cr-append [] = refl
strip_cr-append (c ∷ []) = refl
strip_cr-append (c ∷ d ∷ s) = ap (◌∷◌ c) (strip_cr-append (d ∷ s))

split-line :
    (s rest : Chars)
    → has b'\n' s ≡ false
    → split (s ++ b'\r' ∷ b'\n' ∷ rest) ≡ (s ++ b'\r' ∷ [], (split rest).0 ∷ (split rest).1)
unfolding split
split-line [] rest one = refl
split-line (c ∷ s) rest one =
    let other : nat_beq c b'\n' ≡ false = ground arith in
    let same = split-line s rest (ground arith) in rw (same, other) refl

lines-line :
    (s rest : Chars) → has b'\n' s ≡ false → lines (s ++ b'\r' ∷ b'\n' ∷ rest) ≡ s ∷ lines rest
lines-line s rest one = rw (split-line s rest one) (ap (λ l. l ∷ lines rest) (strip_cr-append s))

body-has : (line : Line) → IsLine line → has b'\n' (body line) ≡ false
body-has (field key value) (one, _, whole, _) =
    has-append b'\n' key (b':' ∷ value) one (ground arith)
body-has (heading name) one = ground arith
body-has blank one = refl

lines-render : (ls : List Line) → All IsLine ls → lines (render ls) ≡ map body ls
unfolding split
lines-render [] ok = refl
lines-render (line ∷ ls) (one, rest) =
    lines-line (body line) (render ls) (body-has line one)
    ∙ ap (◌∷◌ (body line)) (lines-render ls rest)

field_value-field :
    (k key value : Chars)
    → has b':' k ≡ false
    → has b':' key ≡ false
    → field_value (k ++ b':' ∷ value) key ≡ (if same_chars k key then some value else none)
unfolding strip_prefix
field_value-field [] [] value hk hkey = refl
field_value-field [] (d ∷ key) value hk hkey = ground arith
field_value-field (c ∷ k) [] value hk hkey = ground arith
field_value-field (c ∷ k) (d ∷ key) value hk hkey = ground (arith, field_value-field k key value)

field_value-heading :
    (name key : Chars) → is_key key ≡ true → field_value (b'#' ∷ b' ' ∷ name) key ≡ none
unfolding strip_prefix
field_value-heading name [] ok = absurd (ground arith)
field_value-heading name (c ∷ key) ok = ground arith

field_value-blank : (key : Chars) → is_key key ≡ true → field_value [] key ≡ none
unfolding strip_prefix
field_value-blank [] ok = absurd (ground arith)
field_value-blank (c ∷ key) ok = refl

key-has : (key : Chars) → is_key key ≡ true → has b':' key ≡ false
key-has [] ok = refl
key-has (c ∷ key) ok = ground arith

find_field-map :
    (ls : List Line) (key : Chars)
    → is_key key ≡ true
    → All IsLine ls
    → find_field (map body ls) key ≡ first_field ls key
find_field-map [] key ok good = refl
find_field-map (field k value ∷ ls) key ok ((_, ends, _, trimmed), rest) =
    ap (λ o. or_else o (find_field (map body ls) key))
      (field_value-field k key value ends (key-has key ok))
    ∙ (elim (Bool-cases (same_chars k key)) [
      | inl same ↦ rw same (ap some trimmed)
      | inr other ↦ rw other (find_field-map ls key ok rest)
    ])
find_field-map (heading name ∷ ls) key ok (_, rest) =
    ap (λ o. or_else o (find_field (map body ls) key)) (field_value-heading name key ok)
    ∙ find_field-map ls key ok rest
find_field-map (blank ∷ ls) key ok (_, rest) =
    ap (λ o. or_else o (find_field (map body ls) key)) (field_value-blank key ok)
    ∙ find_field-map ls key ok rest

-- In a reply of headings, blank lines, and fields whose keys have no colon and whose values no space
-- around them, none with a line feed, each line ended by "\r\n", the value found for a key is that of
-- the first field of that key; the key has no colon and does not begin with the sign of a heading.
pub parse_info_str-render :
    (ls : List Line) (key : Chars)
    → is_key key ≡ true
    → All IsLine ls
    → parse_info_str (render ls) key ≡ first_field ls key
parse_info_str-render ls key ok good =
    ap (λ l. find_field l key) (lines-render ls good) ∙ find_field-map ls key ok good

-- A number in decimal; `fuel` bounds its digits.
unfoldable pub decimal_from : (fuel : ℕ) → ℕ → Chars
decimal_from zero n = []
decimal_from (suc fuel) n =
    let high = decimal_from fuel (n / 10) in
    if ltb n 10 then (n + 48) ∷ [] else high ++ (n % 10 + 48) ∷ []

abbrev pub decimal : ℕ → Chars
decimal n = decimal_from (suc n) n

parse_digits-append :
    (s : Chars) (m n d : ℕ)
    → d < 10
    → parse_digits m s ≡ some n
    → parse_digits m (s ++ (d + 48) ∷ []) ≡ some (n * 10 + d)
unfolding parse_digits
parse_digits-append [] m n d small found = ground arith
parse_digits-append (c ∷ s) m n d small found =
    ground (arith, parse_digits-append s (m * 10 + (c - 48)) n d small)

parse_digits-decimal : (fuel n : ℕ) → n < fuel → parse_digits 0 (decimal_from fuel n) ≡ some n
unfolding parse_digits decimal_from
parse_digits-decimal zero n enough = absurd (omega arith)
parse_digits-decimal (suc fuel) n enough = elim (Bool-cases (ltb n 10)) [
  | inl small ↦ rw small (ground arith)
  | inr large ↦
      let fewer : n / 10 < fuel = ground arith in
      rw large (
        parse_digits-append (decimal_from fuel (n / 10)) 0 (n / 10) (n % 10) (omega arith)
          (parse_digits-decimal fuel (n / 10) fewer)
        ∙ ap some (omega arith))
]

append-is_empty : (s : Chars) (c : ℕ) → is_empty (s ++ c ∷ []) ≡ false
append-is_empty [] c = refl
append-is_empty (d ∷ s) c = refl

decimal-is_empty : (n : ℕ) → is_empty (decimal n) ≡ false
unfolding decimal_from
decimal-is_empty n = elim (Bool-cases (ltb n 10)) [
  | inl small ↦ rw small refl
  | inr large ↦ rw large (append-is_empty (decimal_from n (n / 10)) (n % 10 + 48))
]

parse_i64-digits :
    (s : Chars) (n : ℕ)
    → is_empty s ≡ false
    → parse_digits 0 s ≡ some n
    → n < i64_limit
    → parse_i64 s ≡ some (pos n)
unfolding parse_i64 parse_digits
parse_i64-digits [] n digits found small = absurd (ground arith)
parse_i64-digits (c ∷ t) n digits found small =
    let in_range : ltb n i64_limit ≡ true = ground arith in
    let plain : parse_i64 (c ∷ t) ≡ positive_i64 (parse_digits 0 (c ∷ t)) = ground (arith, found) in
    plain ∙ ap positive_i64 found ∙ rw in_range refl

-- In such a reply, a number below 2 ^ 63 that the first field of the key gives in decimal is read
-- back as that number.
pub parse_info_i64-render :
    (ls : List Line) (key : Chars) (n : ℕ)
    → is_key key ≡ true
    → All IsLine ls
    → n < i64_limit
    → first_field ls key ≡ some (decimal n)
    → parse_info_i64 (render ls) key ≡ pos n
parse_info_i64-render ls key n ok good small there =
    ap parse_or_zero (parse_info_str-render ls key ok good ∙ there)
    ∙ ap or_zero (
        parse_i64-digits (decimal n) n (decimal-is_empty n)
          (parse_digits-decimal (suc n) n (omega arith)) small)
