-- ===== src/Mcs/Text.antt =====
-- What mcs_reader.py uses of Python's texts and numbers: `int(s, 16)`, `'{:02X}'.format(n)` and
-- `str.strip`. Texts are lists of ASCII codes.
pub mod Laws
use m.Common.{
  ℕ, zero, suc, ◌+◌, ◌-◌, ◌*◌, ◌/◌, ◌%◌, Bool, true, false, ◌&&◌, ◌||◌, not, Option, none, some,
  List, [], ◌∷◌, ◌++◌, ltb, leb, ◌==◌, if◌then◌else◌, Result, ok, err, value_error, length,
  replicate,
}
use mathlib.Core.List.{reverse}

pub is_space : ℕ → Bool
is_space c = c == b' ' || (leb 9 c && leb c 13) || (leb 28 c && leb c 31)

strip_left : List ℕ → List ℕ
strip_left [] = []
strip_left (c ∷ s) = if is_space c then strip_left s else c ∷ s

-- `s.strip()`
unfoldable pub strip : List ℕ → List ℕ
unfolding strip_left is_space
strip s = reverse (strip_left (reverse (strip_left s)))

pub hex_value : ℕ → Option ℕ
hex_value c =
    if leb b'0' c && leb c b'9'
    then some (c - b'0')
    else if leb b'A' c && leb c b'F'
    then some (c - b'A' + 10)
    else if leb b'a' c && leb c b'f'
    then some (c - b'a' + 10)
    else none

-- The digits of `int(s, 16)`: at least one, and single underscores between them. `after_digit` says
-- whether an underscore may stand here, and whether the text may end.
parse_digits : Bool → ℕ → List ℕ → Result ℕ
parse_digits true n [] = ok n
parse_digits false n [] = err value_error
parse_digits after_digit n (c ∷ s) =
    let underscore = if after_digit then parse_digits false n s else err value_error in
    let digit : Result ℕ = elim (hex_value c) [
      | none ↦ err value_error
      | some d ↦ parse_digits true (n * 16 + d) s
    ] in
    if c == b'_' then underscore else digit

-- After the prefix `0x` one underscore may stand.
parse_prefixed : List ℕ → Result ℕ
parse_prefixed (z ∷ x ∷ c ∷ s) =
    if z == b'0' && (x == b'x' || x == b'X')
    then parse_digits true 0 (c ∷ s)
    else parse_digits false 0 (z ∷ x ∷ c ∷ s)
parse_prefixed s = parse_digits false 0 s

-- A minus is taken before zero only: every use of a negative number in `from_str` raises
-- `ValueError`, which is raised here at once.
negated : Result ℕ → Result ℕ
negated (ok zero) = ok zero
negated (ok (suc n)) = err value_error
negated (err e) = err e

parse_signed : List ℕ → Result ℕ
parse_signed [] = err value_error
parse_signed (c ∷ s) =
    if c == b'-'
    then negated (parse_prefixed s)
    else if c == b'+'
    then parse_prefixed s
    else parse_prefixed (c ∷ s)

-- `int(s, 16)`
unfoldable pub int_hex : List ℕ → Result ℕ
unfolding strip parse_signed parse_prefixed parse_digits negated hex_value
int_hex s = parse_signed (strip s)

-- An upper case hexadecimal digit.
pub hex_digit : ℕ → ℕ
hex_digit d = if ltb d 10 then b'0' + d else b'A' + (d - 10)

-- The digits of a number, without leading zeros. Of fuel `n` is enough.
hex_digits : ℕ → ℕ → List ℕ → List ℕ
hex_digits zero n acc = hex_digit n ∷ acc
hex_digits (suc fuel) n acc =
    let more = hex_digits fuel (n / 16) (hex_digit (n % 16) ∷ acc) in
    if ltb n 16 then hex_digit n ∷ acc else more

-- `'{:0wX}'.format(n)`
unfoldable pub format_hex : ℕ → ℕ → List ℕ
unfolding hex_digits hex_digit
format_hex width n =
    let digits = hex_digits n n [] in replicate (width - length digits) b'0' ++ digits
