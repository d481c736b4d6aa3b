-- ===== src/Mcs/Text/Laws.antt =====
-- `int(s, 16)` reads what `'{:02X}'` and `'{:04X}'` print.
use m.Common.{
  ℕ, zero, suc, ◌+◌, ◌-◌, ◌*◌, ◌/◌, ◌%◌, ◌≤◌, ◌<◌, Bool, true, false, List, [], ◌∷◌, ok, ◌≡◌, refl,
  ap, ◌∙◌, ◌==◌, some, arith,
}
use native.Mathlib.Decide.{dec_lt}
use m.Mcs.Text.{
  is_space, strip, hex_value, hex_digit, hex_digits, format_hex, int_hex, parse_digits,
  parse_prefixed, parse_signed,
}

hex_digits_small : (fuel n : ℕ) (acc : List ℕ) → n < 16 → hex_digits fuel n acc ≡ hex_digit n ∷ acc
unfolding hex_digits
hex_digits_small zero n acc h = refl
hex_digits_small (suc fuel) n acc h = ground arith

hex_digits_step :
    (fuel n : ℕ) (acc : List ℕ)
    → 16 ≤ n
    → 0 < fuel
    → hex_digits fuel n acc ≡ hex_digits (fuel - 1) (n / 16) (hex_digit (n % 16) ∷ acc)
unfolding hex_digits
hex_digits_step zero n acc h pos = absurd (omega arith)
hex_digits_step (suc fuel) n acc h pos =
    let e : suc fuel - 1 ≡ fuel = omega arith in rw e (ground arith)

hex_digit_zero : hex_digit 0 ≡ b'0'
unfolding hex_digit
hex_digit_zero = refl

pub format_hex_two :
    (n : ℕ) → n < 256 → format_hex 2 n ≡ hex_digit (n / 16) ∷ hex_digit (n % 16) ∷ []
unfolding format_hex
format_hex_two n h = elim (dec_lt n 16) [
  | yes small ↦
      let a : n / 16 ≡ 0 = omega arith in
      let b : n % 16 ≡ n = omega arith in
      rw (hex_digits_small n n [] small, a, b, hex_digit_zero) refl
  | no big ↦
      rw
        (
          hex_digits_step n n [] (omega arith) (omega arith),
          hex_digits_small (n - 1) (n / 16) (hex_digit (n % 16) ∷ []) (omega arith),
        )
        refl
]

digits_two :
    (fuel n : ℕ) (acc : List ℕ)
    → 16 ≤ n
    → n < 256
    → 0 < fuel
    → hex_digits fuel n acc ≡ hex_digit (n / 16) ∷ hex_digit (n % 16) ∷ acc
digits_two fuel n acc h k pos =
    hex_digits_step fuel n acc h pos ∙ hex_digits_small (fuel - 1) (n / 16) _ (omega arith)

digits_three :
    (fuel n : ℕ) (acc : List ℕ)
    → 256 ≤ n
    → n < 4096
    → 1 < fuel
    → hex_digits fuel n acc
      ≡ hex_digit (n / 16 / 16) ∷ hex_digit (n / 16 % 16) ∷ hex_digit (n % 16) ∷ acc
digits_three fuel n acc h k pos =
    hex_digits_step fuel n acc (omega arith) (omega arith)
    ∙ digits_two (fuel - 1) (n / 16) _ (omega arith) (omega arith) (omega arith)

digits_four :
    (fuel n : ℕ) (acc : List ℕ)
    → 4096 ≤ n
    → n < 65536
    → 2 < fuel
    → hex_digits fuel n acc
      ≡ hex_digit (n / 16 / 16 / 16)
        ∷ hex_digit (n / 16 / 16 % 16)
        ∷ hex_digit (n / 16 % 16)
        ∷ hex_digit (n % 16)
        ∷ acc
digits_four fuel n acc h k pos =
    hex_digits_step fuel n acc (omega arith) (omega arith)
    ∙ digits_three (fuel - 1) (n / 16) _ (omega arith) (omega arith) (omega arith)

-- Four digits of an address: the two of its high byte, and the two of its low byte.
abbrev pub four_digits : ℕ → List ℕ
four_digits n =
    hex_digit (n / 16 / 16 / 16)
    ∷ hex_digit (n / 16 / 16 % 16)
    ∷ hex_digit (n / 16 % 16)
    ∷ hex_digit (n % 16)
    ∷ []

pub format_hex_four : (n : ℕ) → n < 65536 → format_hex 4 n ≡ four_digits n
unfolding format_hex
format_hex_four n h = elim (dec_lt n 16) [
  | yes small ↦
      let a : n / 16 / 16 / 16 ≡ 0 = omega arith in
      let b : n / 16 / 16 % 16 ≡ 0 = omega arith in
      let c : n / 16 % 16 ≡ 0 = omega arith in
      let d : n % 16 ≡ n = omega arith in
      rw (hex_digits_small n n [] small, a, b, c, d, hex_digit_zero) refl
  | no one ↦ elim (dec_lt n 256) [
    | yes small ↦
        let a : n / 16 / 16 / 16 ≡ 0 = omega arith in
        let b : n / 16 / 16 % 16 ≡ 0 = omega arith in
        let c : n / 16 % 16 ≡ n / 16 = omega arith in
        rw (digits_two n n [] (omega arith) small (omega arith), a, b, c, hex_digit_zero) refl
    | no two ↦ elim (dec_lt n 4096) [
      | yes small ↦
          let a : n / 16 / 16 / 16 ≡ 0 = omega arith in
          let b : n / 16 / 16 % 16 ≡ n / 16 / 16 = omega arith in
          rw (digits_three n n [] (omega arith) small (omega arith), a, b, hex_digit_zero) refl
      | no three ↦ rw (digits_four n n [] (omega arith) h (omega arith)) refl
    ]
  ]
]

-- What the readers need of a digit.
hex_value-digit : (d : ℕ) → d < 16 → hex_value (hex_digit d) ≡ some d
unfolding hex_value hex_digit
hex_value-digit d h = ground arith

record IsPlain (c : ℕ) : Type 0 where
  space : is_space c ≡ false
  minus : (c == b'-') ≡ false
  plus : (c == b'+') ≡ false
  underscore : (c == b'_') ≡ false
  upper_x : (c == b'X') ≡ false
  lower_x : (c == b'x') ≡ false

hex_digit-IsPlain : (d : ℕ) → d < 16 → IsPlain (hex_digit d)
unfolding hex_digit is_space
hex_digit-IsPlain d h = record {
  space = ground arith;
  minus = ground arith;
  plus = ground arith;
  underscore = ground arith;
  upper_x = ground arith;
  lower_x = ground arith;
}

parse_digits_next :
    (after_digit : Bool) (n c d : ℕ) (s : List ℕ)
    → (c == b'_') ≡ false
    → hex_value c ≡ some d
    → parse_digits after_digit n (c ∷ s) ≡ parse_digits true (n * 16 + d) s
unfolding parse_digits
parse_digits_next after_digit n c d s plain value = rw (plain, value) refl

parse_digit :
    (after_digit : Bool) (n d : ℕ) (s : List ℕ)
    → d < 16
    → parse_digits after_digit n (hex_digit d ∷ s) ≡ parse_digits true (n * 16 + d) s
parse_digit after_digit n d s h =
    parse_digits_next after_digit n (hex_digit d) d s (hex_digit-IsPlain d h).underscore
      (hex_value-digit d h)

parse_prefixed_plain :
    (z x : ℕ) (s : List ℕ)
    → IsPlain x
    → parse_prefixed (z ∷ x ∷ s) ≡ parse_digits false 0 (z ∷ x ∷ s)
unfolding parse_prefixed
parse_prefixed_plain z x [] h = refl
parse_prefixed_plain z x (c ∷ s) h = rw (h.upper_x, h.lower_x) (ground arith)

parse_signed_plain :
    (c : ℕ) (s : List ℕ) → IsPlain c → parse_signed (c ∷ s) ≡ parse_prefixed (c ∷ s)
unfolding parse_signed
parse_signed_plain c s h = rw (h.minus, h.plus) refl

strip_two : (a b : ℕ) → IsPlain a → IsPlain b → strip (a ∷ b ∷ []) ≡ a ∷ b ∷ []
unfolding strip
strip_two a b ha hb = rw (ha.space, hb.space) refl

strip_four : (a b c d : ℕ) → IsPlain a → IsPlain d → strip (a ∷ b ∷ c ∷ d ∷ []) ≡ a ∷ b ∷ c ∷ d ∷ []
unfolding strip
strip_four a b c d ha hd = rw (ha.space, hd.space) refl

int_hex_lem : (s : List ℕ) → int_hex s ≡ parse_signed (strip s)
unfolding int_hex
int_hex_lem s = refl

parse_end : (n : ℕ) → parse_digits true n [] ≡ ok n
unfolding parse_digits
parse_end n = refl

parse_plain :
    (z x : ℕ) (s : List ℕ)
    → IsPlain z
    → IsPlain x
    → parse_signed (z ∷ x ∷ s) ≡ parse_digits false 0 (z ∷ x ∷ s)
parse_plain z x s p q = parse_signed_plain z (x ∷ s) p ∙ parse_prefixed_plain z x s q

-- `int(s, 16)` reads two digits, and four, as their number.
pub int_hex_two :
    (d e : ℕ) → d < 16 → e < 16 → int_hex (hex_digit d ∷ hex_digit e ∷ []) ≡ ok (d * 16 + e)
int_hex_two d e hd he =
    let p = hex_digit-IsPlain d hd in
    let q = hex_digit-IsPlain e he in
    int_hex_lem _
    ∙ ap parse_signed (strip_two (hex_digit d) (hex_digit e) p q)
    ∙ parse_plain (hex_digit d) (hex_digit e) [] p q
    ∙ parse_digit false 0 d (hex_digit e ∷ []) hd
    ∙ parse_digit true (0 * 16 + d) e [] he
    ∙ parse_end ((0 * 16 + d) * 16 + e)
    ∙ ap ok (omega arith)

pub int_hex_four :
    (a b c d : ℕ)
    → a < 16
    → b < 16
    → c < 16
    → d < 16
    → int_hex (hex_digit a ∷ hex_digit b ∷ hex_digit c ∷ hex_digit d ∷ [])
      ≡ ok (((a * 16 + b) * 16 + c) * 16 + d)
int_hex_four a b c d ha hb hc hd =
    let p = hex_digit-IsPlain a ha in
    int_hex_lem _
    ∙ ap parse_signed (
        strip_four (hex_digit a) (hex_digit b) (hex_digit c) (hex_digit d) p
          (hex_digit-IsPlain d hd))
    ∙ parse_plain (hex_digit a) (hex_digit b) (hex_digit c ∷ hex_digit d ∷ []) p
        (hex_digit-IsPlain b hb)
    ∙ parse_digit false 0 a (hex_digit b ∷ hex_digit c ∷ hex_digit d ∷ []) ha
    ∙ parse_digit true (0 * 16 + a) b (hex_digit c ∷ hex_digit d ∷ []) hb
    ∙ parse_digit true ((0 * 16 + a) * 16 + b) c (hex_digit d ∷ []) hc
    ∙ parse_digit true (((0 * 16 + a) * 16 + b) * 16 + c) d [] hd
    ∙ parse_end ((((0 * 16 + a) * 16 + b) * 16 + c) * 16 + d)
    ∙ ap ok (omega arith)

-- Printing and reading a byte, and an address.
pub int_hex-format_two : (n : ℕ) → n < 256 → int_hex (format_hex 2 n) ≡ ok n
int_hex-format_two n h =
    ap int_hex (format_hex_two n h)
    ∙ int_hex_two (n / 16) (n % 16) (omega arith) (omega arith)
    ∙ ap ok (omega arith)

pub int_hex-format_four : (n : ℕ) → n < 65536 → int_hex (format_hex 4 n) ≡ ok n
int_hex-format_four n h =
    ap int_hex (format_hex_four n h)
    ∙ int_hex_four (n / 16 / 16 / 16) (n / 16 / 16 % 16) (n / 16 % 16) (n % 16) (omega arith)
        (omega arith) (omega arith) (omega arith)
    ∙ ap ok (omega arith)
