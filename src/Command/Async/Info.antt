-- ===== src/Command/Async/Info.antt =====
-- `parse_info_str` and `parse_info_i64` of redisson-rs/src/command/command_async_service.rs, with
-- what they use of `str`. A string is the list of its code points.
pub mod RoundTrip
mod Tests
use redisson_rs.Base.{
  ℕ, zero, suc, ◌+◌, ◌*◌, ◌-◌, ◌^◌, Bool, true, false, not, ◌&&◌, ◌||◌, Option, none, some, List,
  [], ◌∷◌, ◌++◌, any, is_empty, ltb, leb, nat_beq, if◌then◌else◌,
}
use redisson_rs.Base.Int.{ℤ, pos, negsuc}

abbrev pub Chars : Type 0
Chars = List ℕ

abbrev pub same_chars : Chars → Chars → Bool
same_chars [] [] = true
same_chars [] (d ∷ t) = false
same_chars (c ∷ s) [] = false
same_chars (c ∷ s) (d ∷ t) = nat_beq c d && same_chars s t

-- `char::is_whitespace`
abbrev pub is_whitespace : ℕ → Bool
is_whitespace c =
    (leb 9 c && leb c 13)
    || (nat_beq c 32
        || (nat_beq c 133
            || (nat_beq c 160
                || (nat_beq c 5760
                    || ((leb 8192 c && leb c 8202)
                        || (nat_beq c 8232
                            || (nat_beq c 8233
                                || (nat_beq c 8239 || (nat_beq c 8287 || nat_beq c 12288)))))))))

abbrev pub trim_start : Chars → Chars
trim_start [] = []
trim_start (c ∷ t) = if is_whitespace c then trim_start t else c ∷ t

abbrev pub trim_end : Chars → Chars
trim_end [] = []
trim_end (c ∷ t) =
    let rest = trim_end t in if is_empty rest && is_whitespace c then [] else c ∷ rest

-- `str::trim`
abbrev pub trim : Chars → Chars
trim s = trim_end (trim_start s)

-- `str::strip_prefix`
unfoldable pub strip_prefix : Chars → Chars → Option Chars
strip_prefix s [] = some s
strip_prefix [] (d ∷ p) = none
strip_prefix (c ∷ s) (d ∷ p) = let rest = strip_prefix s p in if nat_beq c d then rest else none

-- A line's end may be "\r\n".
abbrev pub strip_cr : Chars → Chars
strip_cr [] = []
strip_cr (c ∷ []) = if nat_beq c b'\r' then [] else c ∷ []
strip_cr (c ∷ d ∷ t) = c ∷ strip_cr (d ∷ t)

-- The piece before the first line feed, and the pieces after it.
unfoldable pub split : Chars → Chars × List Chars
split [] = ([], [])
split (c ∷ t) =
    let (piece, pieces) = split t in
    if nat_beq c b'\n' then ([], piece ∷ pieces) else (c ∷ piece, pieces)

-- Only the last piece has no line feed after it, and it is no line when empty.
abbrev pub to_lines : Chars → List Chars → List Chars
to_lines piece [] = if is_empty piece then [] else piece ∷ []
to_lines piece (next ∷ pieces) = strip_cr piece ∷ to_lines next pieces

-- `str::lines`
abbrev pub lines : Chars → List Chars
lines s = let (piece, pieces) = split s in to_lines piece pieces

-- What follows the key and a colon at the start of the line.
abbrev pub field_value : Chars → Chars → Option Chars
field_value line key = elim (strip_prefix line key) [
  | none ↦ none
  | some rest ↦ strip_prefix rest (b':' ∷ [])
]

abbrev pub or_else : Option Chars → Option Chars → Option Chars
or_else none other = other
or_else (some value) other = some (trim value)

abbrev pub find_field : List Chars → Chars → Option Chars
find_field [] key = none
find_field (line ∷ rest) key = or_else (field_value line key) (find_field rest key)

abbrev pub parse_info_str : Chars → Chars → Option Chars
parse_info_str info key = find_field (lines info) key

unfoldable pub parse_digits : ℕ → Chars → Option ℕ
parse_digits n [] = some n
parse_digits n (c ∷ t) =
    let rest = parse_digits (n * 10 + (c - 48)) t in if leb 48 c && leb c 57 then rest else none

abbrev pub i64_limit : ℕ
i64_limit = 2 ^ 63

abbrev pub positive_i64 : Option ℕ → Option ℤ
positive_i64 none = none
positive_i64 (some n) = if ltb n i64_limit then some (pos n) else none

abbrev pub negate : ℕ → ℤ
negate zero = pos 0
negate (suc n) = negsuc n

abbrev pub negative_i64 : Option ℕ → Option ℤ
negative_i64 none = none
negative_i64 (some n) = if leb n i64_limit then some (negate n) else none

abbrev pub some_digits : Chars → Option ℕ
some_digits [] = none
some_digits (c ∷ t) = parse_digits 0 (c ∷ t)

-- `str::parse::<i64>().ok()`
unfoldable pub parse_i64 : Chars → Option ℤ
parse_i64 [] = none
parse_i64 (c ∷ t) =
    if nat_beq c b'+'
    then positive_i64 (some_digits t)
    else if nat_beq c b'-'
    then negative_i64 (some_digits t)
    else positive_i64 (parse_digits 0 (c ∷ t))

abbrev pub or_zero : Option ℤ → ℤ
or_zero none = pos 0
or_zero (some n) = n

-- `.and_then(|v| v.parse().ok()).unwrap_or(0)`
abbrev pub parse_or_zero : Option Chars → ℤ
parse_or_zero none = pos 0
parse_or_zero (some value) = or_zero (parse_i64 value)

abbrev pub parse_info_i64 : Chars → Chars → ℤ
parse_info_i64 info key = parse_or_zero (parse_info_str info key)
