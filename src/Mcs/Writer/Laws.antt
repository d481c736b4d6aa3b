-- ===== src/Mcs/Writer/Laws.antt =====
-- What `write_table` writes is read back as the table.
use m.Common.{
  ℕ, zero, suc, ◌+◌, ◌*◌, ◌/◌, ◌%◌, ◌^◌, ◌<◌, ◌≡◌, refl, sym, ap, ◌∙◌, Bool, true, false, not, none,
  List, [], ◌∷◌, ◌==◌, if◌then◌else◌, map, ok, length, take, drop, arith, length-take, length-drop,
  ltb,
}
use mathlib.Core.Path.{subst, subst₂}
use native.Mathlib.Nat.{suc-mul}
use m.Common.All.{All}
use m.Common.Table.{holds_below, from-holds_below}
use m.Common.{ltb→lt}
use m.Mcs.Record.{
  HexRecord, data_record, make_record, record_sum, check_of, mirror_byte, to_str, from_str,
}
use m.Mcs.Record.Laws.{make_record-IsChecked, from_str-to_str}
use m.Mcs.Writer.{LcmMcsWriter, write_records, write_table}

-- Lines of data records, one after the other from an address, whose bytes are the given ones.
pub record DataLine (line : List ℕ) (address : ℕ) (bytes : List ℕ) : Type 0 where
  pub parsed : HexRecord
  pub reads : from_str line ≡ ok parsed
  pub is_data : parsed.type ≡ data_record
  pub at : parsed.address ≡ address % 2 ^ 16
  pub holds : parsed.bytes ≡ bytes

abbrev pub DataLines : List (List ℕ) → ℕ → ℕ → List ℕ → Type 0
DataLines [] n address bytes = bytes ≡ []
DataLines (line ∷ lines) n address bytes =
    DataLine line address (take n bytes) × DataLines lines n (address + n) (drop n bytes)

-- The bytes as the file has them.
abbrev pub content : Bool → List ℕ → List ℕ
content mirror bytes = if mirror then map mirror_byte bytes else bytes

module _ {A B : Type 0} (f : A → B) where
  take-map : (n : ℕ) (xs : List A) → take n (map f xs) ≡ map f (take n xs)
  take-map zero xs = refl
  take-map (suc n) [] = refl
  take-map (suc n) (x ∷ xs) = ap (λ t. f x ∷ t) (take-map n xs)

  drop-map : (n : ℕ) (xs : List A) → drop n (map f xs) ≡ map f (drop n xs)
  drop-map zero xs = refl
  drop-map (suc n) [] = refl
  drop-map (suc n) (x ∷ xs) = drop-map n xs

take-content : (b : Bool) (n : ℕ) (xs : List ℕ) → take n (content b xs) ≡ content b (take n xs)
take-content true n xs = take-map mirror_byte n xs
take-content false n xs = refl

drop-content : (b : Bool) (n : ℕ) (xs : List ℕ) → drop n (content b xs) ≡ content b (drop n xs)
drop-content true n xs = drop-map mirror_byte n xs
drop-content false n xs = refl

drop-none : (k : ℕ) → drop {A = ℕ} k [] ≡ []
drop-none zero = refl
drop-none (suc k) = refl

drop-drop : (k n : ℕ) (xs : List ℕ) → drop k (drop n xs) ≡ drop (n + k) xs
drop-drop k zero xs = let e : 0 + k ≡ k = omega arith in rw e refl
drop-drop k (suc n) [] = drop-none k ∙ sym (drop-none (suc n + k))
drop-drop k (suc n) (x ∷ xs) =
    let e : suc n + k ≡ suc (n + k) = omega arith in rw e (drop-drop k n xs)

abbrev is_mirrored_byte : ℕ → Bool
is_mirrored_byte b = ltb (mirror_byte b) 256

mirrored_table : holds_below is_mirrored_byte 256 ≡ true
unfolding holds_below mirror_byte
mirrored_table = refl

content-All : (b : Bool) (xs : List ℕ) → All (λ x. x < 256) xs → All (λ x. x < 256) (content b xs)
content-All false xs all = all
content-All true [] all = tt
content-All true (x ∷ xs) all = (
  ltb→lt _ _ (from-holds_below is_mirrored_byte 256 x all.0 mirrored_table),
  content-All true xs all.1,
)

take-All : (n : ℕ) (xs : List ℕ) → All (λ x. x < 256) xs → All (λ x. x < 256) (take n xs)
take-All zero xs all = tt
take-All (suc n) [] all = tt
take-All (suc n) (x ∷ xs) all = (all.0, take-All n xs all.1)

drop-All : (n : ℕ) (xs : List ℕ) → All (λ x. x < 256) xs → All (λ x. x < 256) (drop n xs)
drop-All zero xs all = all
drop-All (suc n) [] all = tt
drop-All (suc n) (x ∷ xs) all = drop-All n xs all.1

-- The record of a line, and its line.
made :
    (address : ℕ) (bytes : List ℕ) (mirror : Bool)
    → length bytes < 256
    → All (λ x. x < 256) bytes
    → (r : HexRecord) × (make_record (length bytes) (address % 2 ^ 16) data_record bytes none mirror
        ≡ ok r)
      × DataLine (to_str r) address (content mirror bytes)
unfolding make_record
made address bytes mirror short all =
    let r : HexRecord = record {
      count = length bytes;
      address = address % 2 ^ 16;
      type = data_record;
      bytes = content mirror bytes;
      checksum =
          check_of
            (record_sum (length bytes) (address % 2 ^ 16) data_record (content mirror bytes));
    } in
    let low : ltb 0xffff (address % 2 ^ 16) ≡ false = ground arith in
    let same : not (length bytes == length bytes) ≡ false = ground arith in
    let e : make_record (length bytes) (address % 2 ^ 16) data_record bytes none mirror ≡ ok r =
      rw (low, same) refl in
    (
      r,
      e,
      record {
        parsed = r;
        reads = from_str-to_str r (record {
          checked =
              make_record-IsChecked (length bytes) (address % 2 ^ 16) data_record bytes none mirror
                r e;
          short = short;
          bytes = content-All mirror bytes all;
        });
        is_data = refl;
        at = refl;
        holds = refl;
      },
    )

plus_zero : (i : ℕ) → i + 0 ≡ i
plus_zero i = omega arith

empty : (xs : List ℕ) → length xs ≡ 0 → xs ≡ []
empty [] h = refl
empty (x ∷ xs) h = absurd (omega arith)

content-none : (b : Bool) → content b [] ≡ []
content-none true = refl
content-none false = refl

write_records-DataLines :
    (w : LcmMcsWriter) (address : ℕ) (table : List ℕ) (n i : ℕ)
    → w.bytes_per_data_record < 256
    → length table ≡ (i + n) * w.bytes_per_data_record
    → All (λ x. x < 256) table
    → (lines : List (List ℕ)) × (write_records w address table n i ≡ ok lines)
      × DataLines lines w.bytes_per_data_record
          (address + i * w.bytes_per_data_record)
          (content w.mirror_user_data (drop (i * w.bytes_per_data_record) table))
unfolding write_records
write_records-DataLines w address table zero i short fits all =
    let none_left : drop (i * w.bytes_per_data_record) table ≡ [] =
      empty (drop (i * w.bytes_per_data_record) table) (
        omega (
          arith,
          length-drop (i * w.bytes_per_data_record) table,
          ap (λ (t : ℕ). t * w.bytes_per_data_record) (plus_zero i),
        )) in
    ([], refl, rw none_left (content-none w.mirror_user_data))
write_records-DataLines w address table (suc n) i short fits all =
    let m = w.bytes_per_data_record in
    let D = drop (i * m) table in
    let (r, e, line) =
      made (address + i * m) (take m D) w.mirror_user_data (omega (arith, length-take m D, short))
        (take-All m D (drop-All (i * m) table all)) in
    let shifted : i + suc n ≡ i + 1 + n = omega arith in
    let (lines, e', rest) =
      write_records-DataLines w address table n (i + 1) short (fits ∙ ap (λ (t : ℕ). t * m) shifted)
        all in
    let next : (i + 1) * m ≡ i * m + m =
      ap (λ (t : ℕ). t * m) {y = suc i} (omega arith) ∙ suc-mul i m in
    (
      to_str r ∷ lines,
      rw (e, e') refl,
      (
        subst (DataLine (to_str r) (address + i * m)) (sym (take-content w.mirror_user_data m D))
            line,
        subst₂ (DataLines lines m) (omega (arith, next))
            (ap (λ (t : ℕ). content w.mirror_user_data (drop t table)) next
              ∙ sym (
                  drop-content w.mirror_user_data m D
                  ∙ ap (content w.mirror_user_data) (drop-drop m (i * m) table)))
            rest,
      ),
    )

-- For a table of the size that the writer asks for, of whole records with 1 to 255 bytes:
-- `write_table` returns lines that are read back as data records, one after the other from the given
-- address within its segment of 64 KiB, whose bytes are those of the table, mirrored where asked.
pub write_table-DataLines :
    (w : LcmMcsWriter) (address : ℕ) (table : List ℕ)
    → length table ≡ w.bytes_per_table
    → w.bytes_per_table / w.bytes_per_data_record * w.bytes_per_data_record ≡ w.bytes_per_table
    → 0 < w.bytes_per_data_record
    → w.bytes_per_data_record < 256
    → All (λ x. x < 256) table
    → (lines : List (List ℕ)) × (write_table w address table ≡ ok lines)
      × DataLines lines w.bytes_per_data_record address (content w.mirror_user_data table)
unfolding write_table
write_table-DataLines w address table sized whole nonempty short all =
    let n = w.bytes_per_table / w.bytes_per_data_record in
    let m = w.bytes_per_data_record in
    let same : not (length table == w.bytes_per_table) ≡ false = ground (arith, sized) in
    let divides : (w.bytes_per_data_record == 0) ≡ false = ground arith in
    let zero_n : 0 + n ≡ n = omega arith in
    let start : address + 0 * m ≡ address = omega arith in
    let zero_m : 0 * m ≡ 0 = omega arith in
    let (lines, e, rest) =
      write_records-DataLines w address table n 0 short
        (sized ∙ sym whole ∙ ap (λ (t : ℕ). t * m) (sym zero_n)) all in
    (
      lines,
      rw (same, divides, e) refl,
      subst₂ (DataLines lines m) start
          (ap (λ (t : ℕ). content w.mirror_user_data (drop t table)) zero_m) rest,
    )
