-- ===== src/Mcs/Record/Laws.antt =====
-- What `HexRecord` of mcs_reader.py guarantees: its checksum, and that its text can be read back.
use m.Common.{
  ℕ, suc, ◌+◌, ◌-◌, ◌*◌, ◌/◌, ◌%◌, ◌≤◌, ◌<◌, ◌≡◌, refl, ap, sym, ◌∙◌, Bool, true, false, Option,
  none, some, List, [], ◌∷◌, ◌++◌, length, length-append, length-map, take, drop, ok, arith, ◌>>=◌,
  ltb,
}
use m.Common.All.{All}
use m.Mcs.Text.{int_hex, hex_digit}
use m.Mcs.Text.Laws.{
  four_digits, format_hex_two, format_hex_four, int_hex-format_two, int_hex-format_four,
}
use m.Mcs.Record.{
  RecordType, data_record, eof, ext_seg_addr, start_seg_addr, ext_lin_addr, start_lin_addr,
  type_value, record_type, HexRecord, mirror_byte, record_sum, check_of, make_record, hex_bytes,
  from_str, format_bytes, to_str,
}

-- Every check of `__post_init__`.
pub record IsChecked (r : HexRecord) : Type 0 where
  pub counted : r.count ≡ length r.bytes
  pub in_segment : r.address ≤ 0xffff
  pub summed : r.checksum ≡ check_of (record_sum r.count r.address r.type r.bytes)

pub make_record-IsChecked :
    (count address : ℕ) (type : RecordType) (bytes : List ℕ) (checksum : Option ℕ) (rev : Bool)
    (r : HexRecord)
    → make_record count address type bytes checksum rev ≡ ok r
    → IsChecked r
unfolding make_record
make_record-IsChecked count address type bytes none true r h = record {
  counted = ground (arith, length-map bytes mirror_byte);
  in_segment = ground arith;
  summed = ground arith;
}
make_record-IsChecked count address type bytes none false r h = record {
  counted = ground arith;
  in_segment = ground arith;
  summed = ground arith;
}
make_record-IsChecked count address type bytes (some given) true r h = record {
  counted = ground (arith, length-map bytes mirror_byte);
  in_segment = ground arith;
  summed = ground arith;
}
make_record-IsChecked count address type bytes (some given) false r h = record {
  counted = ground arith;
  in_segment = ground arith;
  summed = ground arith;
}

-- A record that passes the checks is built again from its parts.
make_record-IsChecked_self :
    (r : HexRecord)
    → IsChecked r
    → make_record r.count r.address r.type r.bytes (some r.checksum) false ≡ ok r
unfolding make_record
make_record-IsChecked_self r h = ground arith

record_type-type_value : (t : RecordType) → record_type (type_value t) ≡ ok t
unfolding record_type
record_type-type_value data_record = refl
record_type-type_value eof = refl
record_type-type_value ext_seg_addr = refl
record_type-type_value start_seg_addr = refl
record_type-type_value ext_lin_addr = refl
record_type-type_value start_lin_addr = refl

-- The bytes and the count of a record that an Intel Hex line can hold.
pub record IsPrintable (r : HexRecord) : Type 0 where
  pub checked : IsChecked r
  pub short : r.count < 256
  pub bytes : All (λ b. b < 256) r.bytes

length-format_bytes :
    (bs : List ℕ) → All (λ b. b < 256) bs → length (format_bytes bs) ≡ 2 * length bs
unfolding format_bytes
length-format_bytes [] h = refl
length-format_bytes (b ∷ bs) h =
    rw (format_hex_two b h.0) (omega (arith, length-format_bytes bs h.1))

hex_bytes-format_bytes :
    (bs rest : List ℕ)
    → All (λ b. b < 256) bs
    → hex_bytes (length bs) (format_bytes bs ++ rest) ≡ ok bs
unfolding hex_bytes format_bytes
hex_bytes-format_bytes [] rest h = refl
hex_bytes-format_bytes (b ∷ bs) rest h =
    let e = int_hex-format_two b h.0 in
    let d = format_hex_two b h.0 in rw d (rw (rw d at e, hex_bytes-format_bytes bs rest h.1) refl)

drop-append : (xs ys : List ℕ) → drop (length xs) (xs ++ ys) ≡ ys
drop-append [] ys = refl
drop-append (x ∷ xs) ys = drop-append xs ys

-- `from_str` once its slices have been read.
from_str_read :
    (s : List ℕ) (count address t : ℕ) (bytes : List ℕ) (checksum : ℕ)
    → 11 ≤ length s
    → int_hex (take 2 (drop 1 s)) ≡ ok count
    → int_hex (take 4 (drop 3 s)) ≡ ok address
    → int_hex (take 2 (drop 7 s)) ≡ ok t
    → hex_bytes ((length s - 11) / 2) (drop 9 s) ≡ ok bytes
    → int_hex (drop (length s - 2) s) ≡ ok checksum
    → from_str s
      ≡ (record_type t >>= λ type. make_record count address type bytes (some checksum) false)
unfolding from_str
from_str_read s count address t bytes checksum h h1 h2 h3 h4 h5 =
    rw (lt_false (length s) 11 h, h1, h2, h3, h4, h5) refl
  where
    lt_false : (a b : ℕ) → b ≤ a → ltb a b ≡ false
    lt_false a b h = ground arith

abbrev two : ℕ → List ℕ
two n = hex_digit (n / 16) ∷ hex_digit (n % 16) ∷ []

int_hex_pair : (n : ℕ) → n < 256 → int_hex (two n) ≡ ok n
int_hex_pair n h = rw (format_hex_two n h) at (int_hex-format_two n h)

int_hex_address : (n : ℕ) → n < 65536 → int_hex (four_digits n) ≡ ok n
int_hex_address n h = rw (format_hex_four n h) at (int_hex-format_four n h)

check_of-lt : (total : ℕ) → check_of total < 256
unfolding check_of
check_of-lt total = omega arith

type_value-lt : (t : RecordType) → type_value t < 256
type_value-lt data_record = omega arith
type_value-lt eof = omega arith
type_value-lt ext_seg_addr = omega arith
type_value-lt start_seg_addr = omega arith
type_value-lt ext_lin_addr = omega arith
type_value-lt start_lin_addr = omega arith

module _ (r : HexRecord) (h : IsPrintable r) where
  checksum-lt : r.checksum < 256
  checksum-lt =
      omega (arith, h.checked.summed, check_of-lt (record_sum r.count r.address r.type r.bytes))

  body : List ℕ
  body = format_bytes r.bytes ++ two r.checksum

  line : List ℕ
  unfolding body
  line = b':' ∷ (two r.count ++ (four_digits r.address ++ (two (type_value r.type) ++ body)))

  to_str-line : to_str r ≡ line
  unfolding to_str line
  to_str-line =
      rw
        (
          format_hex_two r.count h.short,
          format_hex_four r.address (omega (arith, h.checked.in_segment)),
          format_hex_two (type_value r.type) (type_value-lt r.type),
          format_hex_two r.checksum checksum-lt,
        )
        refl

  length-line : length line ≡ 11 + 2 * length r.bytes
  unfolding line
  length-line = omega (
    arith,
    length-append (format_bytes r.bytes) (two r.checksum),
    length-format_bytes r.bytes h.bytes,
  )

  drop-body : drop (2 * length r.bytes) body ≡ two r.checksum
  unfolding body
  drop-body =
      ap (λ (t : ℕ). drop t body) (sym (length-format_bytes r.bytes h.bytes))
      ∙ drop-append (format_bytes r.bytes) (two r.checksum)

  drop-line : drop (length line - 2) line ≡ two r.checksum
  unfolding line
  drop-line =
      let e : length line - 2
          ≡ suc (suc (suc (suc (suc (suc (suc (suc (suc (2 * length r.bytes))))))))) =
        omega (arith, length-line) in
      ap (λ (t : ℕ). drop t line) e ∙ drop-body

  from_str-line : from_str line ≡ ok r
  from_str-line =
      let pairs : (length line - 11) / 2 ≡ length r.bytes = omega (arith, length-line) in
      from_str_read line r.count r.address (type_value r.type) r.bytes r.checksum
        (omega (arith, length-line)) (unfold line in int_hex_pair r.count h.short)
        (unfold line in int_hex_address r.address (omega (arith, h.checked.in_segment)))
        (unfold line in int_hex_pair (type_value r.type) (type_value-lt r.type))
        (rw pairs (unfold line in hex_bytes-format_bytes r.bytes (two r.checksum) h.bytes))
        (rw drop-line (int_hex_pair r.checksum checksum-lt))
      ∙ rw (record_type-type_value r.type) (make_record-IsChecked_self r h.checked)

-- The text of a record that has passed its checks, with fewer than 256 bytes, is read back as the
-- record.
pub from_str-to_str : (r : HexRecord) → IsPrintable r → from_str (to_str r) ≡ ok r
from_str-to_str r h = ap from_str (to_str-line r h) ∙ from_str-line r h
