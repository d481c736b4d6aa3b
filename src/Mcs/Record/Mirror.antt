-- ===== src/Mcs/Record/Mirror.antt =====
-- The two ways in which mcs_reader.py reverses the bits of a byte.
use m.Common.{ℕ, ◌<◌, ◌≡◌, refl, ap₂, Bool, true, ◌&&◌, List, [], ◌∷◌, map, ◌==◌, arith}
use m.Common.All.{All}
use m.Common.Table.{from-holds_below, holds_below}
use m.Mcs.Record.{mirror_byte, reverse_bits}

abbrev is_mirror : ℕ → Bool
is_mirror b = (reverse_bits b == mirror_byte b) && (mirror_byte (mirror_byte b) == b)

mirror_table : holds_below is_mirror 256 ≡ true
unfolding holds_below mirror_byte reverse_bits
mirror_table = refl

pub reverse_bits-eq-mirror_byte : (b : ℕ) → b < 256 → reverse_bits b ≡ mirror_byte b
reverse_bits-eq-mirror_byte b h = ground (arith, from-holds_below is_mirror 256 b h mirror_table)

pub mirror_twice : (b : ℕ) → b < 256 → mirror_byte (mirror_byte b) ≡ b
mirror_twice b h = ground (arith, from-holds_below is_mirror 256 b h mirror_table)

-- On bytes, the table-free `reverse_bits` of the binary reader and the text-based `data_mirrored`
-- of a record give the same, and doing it twice gives the bytes back.
pub reverse_bits-mirrors :
    (bs : List ℕ)
    → All (λ b. b < 256) bs
    → (map reverse_bits bs ≡ map mirror_byte bs) × (map mirror_byte (map mirror_byte bs) ≡ bs)
reverse_bits-mirrors [] h = (refl, refl)
reverse_bits-mirrors (b ∷ bs) h =
    let (same, twice) = reverse_bits-mirrors bs h.1 in
    (ap₂ ◌∷◌ (reverse_bits-eq-mirror_byte b h.0) same, ap₂ ◌∷◌ (mirror_twice b h.0) twice)
