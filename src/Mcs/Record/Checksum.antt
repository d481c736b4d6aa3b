-- ===== src/Mcs/Record/Checksum.antt =====
-- What the checksum of a `HexRecord` of mcs_reader.py is worth.
use m.Common.{
  ℕ, ◌+◌, ◌/◌, ◌%◌, ◌<◌, ◌≡◌, ◌≢◌, ap, sym, ◌∙◌, false, some, List, [], ◌∷◌, ◌++◌, err, value_error,
  arith,
}
use m.Mcs.Record.{HexRecord, type_value, sum, record_sum, check_of, make_record}
use m.Mcs.Record.Laws.{IsChecked}

-- The bytes of the line of a record that has passed its checks, the two of the address and the
-- checksum included, add up to a multiple of 256.
pub checksum_total :
    (r : HexRecord)
    → IsChecked r
    → (r.count + r.address / 256 + r.address % 256 + type_value r.type + sum r.bytes + r.checksum)
        % 256
      ≡ 0
unfolding record_sum check_of
checksum_total r h = omega (arith, h.summed)

sum-append : (xs ys : List ℕ) → sum (xs ++ ys) ≡ sum xs + sum ys
sum-append [] ys = omega arith
sum-append (x ∷ xs) ys = omega (arith, sum-append xs ys)

check_of_differs :
    (rest b b' : ℕ) → b < 256 → b' < 256 → b ≢ b' → check_of (rest + b) ≢ check_of (rest + b')
unfolding check_of
check_of_differs rest b b' hb hb' ne e = ne (omega arith)

check_differs :
    (r : HexRecord) (before after : List ℕ) (b b' : ℕ)
    → IsChecked r
    → r.bytes ≡ before ++ b ∷ after
    → b < 256
    → b' < 256
    → b ≢ b'
    → r.checksum ≢ check_of (record_sum r.count r.address r.type (before ++ b' ∷ after))
unfolding record_sum
check_differs r before after b b' h e hb hb' ne same =
    let rest = r.count + r.address / 256 + r.address + type_value r.type + sum before + sum after in
    let was : record_sum r.count r.address r.type r.bytes ≡ rest + b =
      omega (arith, ap sum e, sum-append before (b ∷ after)) in
    let is : record_sum r.count r.address r.type (before ++ b' ∷ after) ≡ rest + b' =
      omega (arith, sum-append before (b' ∷ after)) in
    check_of_differs rest b b' hb hb' ne
      (ap check_of (sym was) ∙ sym h.summed ∙ same ∙ ap check_of is)

-- A record that has passed its checks is refused once any one of its bytes is replaced by
-- another.
pub one_byte_detected :
    (r : HexRecord) (before after : List ℕ) (b b' : ℕ)
    → IsChecked r
    → r.bytes ≡ before ++ b ∷ after
    → b < 256
    → b' < 256
    → b ≢ b'
    → make_record r.count r.address r.type (before ++ b' ∷ after) (some r.checksum) false
      ≡ err value_error
unfolding make_record
one_byte_detected r before after b b' h e hb hb' ne =
    ground (arith, check_differs r before after b b' h e hb hb' ne)
