-- ===== src/MemoryMap/Periph/Words.antt =====
-- The word loops of `write_fields` and `read_fields` (memory_map.py) over registers that are plain
-- memory: reading gathers the words little endian first, and writing lays them out the same way.
use m.Common.{
  ℕ, zero, suc, ◌+◌, ◌*◌, ◌/◌, ◌%◌, ◌^◌, ◌≤◌, ◌<◌, bit_and, bit_or, ◌≡◌, ◌≢◌, refl, ap, ap₂, sym,
  ◌∙◌, ◌⊎◌, inl, inr, arith,
}
use m.Common.Bits.{◌<<◌, ◌>>>◌, low_mask, pow-pos, and_mask, or_shifted'}
use m.Common.Fields.{pow-add}
use m.MemoryMap.Bus.{Bus, IsMemory}
use m.MemoryMap.Periph.{Periph, word_bytes, Reading, gather, read_words, write_words}
use native.Mathlib.Nat.{
  mod-lt, mod-eq_of_lt, div-add-mod', div-div-eq-div-mul, mul-add-mod_self_right, mul_comm,
}

module _ {S : Type 0} (bus : Bus S) (p : Periph) where
  pub word_at : ℕ → S → ℕ
  word_at a s = (bus.read a s).0 % 2 ^ p.word_size

  -- The number that `count` words from `a` on hold, the first word lowest.
  pub words_value : ℕ → ℕ → S → ℕ
  words_value zero a s = 0
  words_value (suc count) a s =
      word_at a s + words_value count (a + word_bytes p) s * 2 ^ p.word_size

module _ {S : Type 0} (bus : Bus S) (p : Periph) (mem : IsMemory p.word_size bus) where
  acc-fits :
      (idx acc word : ℕ)
      → acc < 2 ^ (idx * p.word_size)
      → word < 2 ^ p.word_size
      → word * 2 ^ (idx * p.word_size) + acc < 2 ^ ((idx + 1) * p.word_size)
  acc-fits idx acc word h hw =
      let e : (idx + 1) * p.word_size ≡ p.word_size + idx * p.word_size = omega arith in
      omega (
        arith,
        ap (λ (t : ℕ). 2 ^ t) e,
        pow-add p.word_size (idx * p.word_size),
        fits (2 ^ p.word_size) (2 ^ (idx * p.word_size)) word acc hw h,
      )
    where
      fits : (w i x y : ℕ) → x < w → y < i → x * i + y < w * i
      fits w i x y hx hy = grind arith

  pub read_words-keeps :
      (count idx a : ℕ) (acc : Reading) (s : S) → (read_words bus p count idx a acc s).1 ≡ s
  unfolding read_words
  read_words-keeps zero idx a acc s = refl
  read_words-keeps (suc count) idx a acc s =
      read_words-keeps count (idx + 1) (a + word_bytes p) (gather p idx acc (bus.read a s).0)
        (bus.read a s).1
      ∙ mem.read_keeps a s

  gather-eq :
      (idx : ℕ) (acc : Reading) (rstruct : ℕ)
      → acc.bits < 2 ^ (idx * p.word_size)
      → (gather p idx acc rstruct).bits
        ≡ rstruct % 2 ^ p.word_size * 2 ^ (idx * p.word_size) + acc.bits
  unfolding gather
  gather-eq idx acc rstruct h =
      ap (λ (t : ℕ). bit_or acc.bits (t << (idx * p.word_size))) (and_mask p.word_size rstruct)
      ∙ or_shifted' (idx * p.word_size) (rstruct % 2 ^ p.word_size) acc.bits h

  gather-lt :
      (idx : ℕ) (acc : Reading) (rstruct : ℕ)
      → acc.bits < 2 ^ (idx * p.word_size)
      → (gather p idx acc rstruct).bits < 2 ^ ((idx + 1) * p.word_size)
  gather-lt idx acc rstruct h =
      rw (gather-eq idx acc rstruct h)
        (acc-fits idx acc.bits (rstruct % 2 ^ p.word_size) h (mod-lt rstruct (pow-pos p.word_size)))

  pow-next : (idx : ℕ) → 2 ^ ((idx + 1) * p.word_size) ≡ 2 ^ p.word_size * 2 ^ (idx * p.word_size)
  pow-next idx =
      let e : (idx + 1) * p.word_size ≡ p.word_size + idx * p.word_size = omega arith in
      ap (λ (t : ℕ). 2 ^ t) e ∙ pow-add p.word_size (idx * p.word_size)

  pub read_words-value :
      (count idx a : ℕ) (acc : Reading) (s : S)
      → acc.bits < 2 ^ (idx * p.word_size)
      → (read_words bus p count idx a acc s).0.bits
        ≡ acc.bits + words_value bus p count a s * 2 ^ (idx * p.word_size)
  unfolding read_words words_value word_at
  read_words-value zero idx a acc s h = omega arith
  read_words-value (suc count) idx a acc s h =
      let r = (bus.read a s).0 in
      let rest =
        read_words-value count (idx + 1) (a + word_bytes p) (gather p idx acc r) (bus.read a s).1
          (gather-lt idx acc r h) in
      let keeps =
        ap (λ (t : S). words_value bus p count (a + word_bytes p) t) (mem.read_keeps a s) in
      omega (
        arith,
        rest,
        gather-eq idx acc r h,
        ap (λ (t : ℕ). t * 2 ^ ((idx + 1) * p.word_size)) keeps,
        ap (λ (t : ℕ). words_value bus p count (a + word_bytes p) s * t) (pow-next idx),
      )

  -- Writing words from `a` on leaves the words below `a`, and those from their end on.
  pub word_at-write_words :
      (count idx a bits b : ℕ) (s : S)
      → (b < a) ⊎ (a + count * word_bytes p ≤ b)
      → 0 < word_bytes p
      → word_at bus p b (write_words bus p count idx a bits s) ≡ word_at bus p b s
  unfolding write_words
  word_at-write_words zero idx a bits b s out pos = refl
  word_at-write_words (suc count) idx a bits b s out pos =
      let word = bit_and (bits >>> (idx * p.word_size)) (low_mask p.word_size) in
      let apart : a ≢ b = elim out [ inl h ↦ omega arith | inr h ↦ grind arith ] in
      let out' : (b < a + word_bytes p) ⊎ (a + word_bytes p + count * word_bytes p ≤ b) = elim out [
        | inl h ↦ inl (omega arith)
        | inr h ↦ inr (omega arith)
      ] in
      word_at-write_words count (idx + 1) (a + word_bytes p) bits b (bus.write a word s) out' pos
      ∙ unfold word_at in ap (λ (t : ℕ). t % 2 ^ p.word_size) (mem.read-write_ne a b word s apart)

  mod_mul : (x w v : ℕ) → 0 < w → 0 < v → x % w + x / w % v * w ≡ x % (v * w)
  mod_mul x w v hw hv =
      let r = x % w + x / w % v * w in
      let whole : x / w / v * (v * w) + r ≡ x =
        omega (arith, div-add-mod' x w, ap (λ (t : ℕ). t * w) (div-add-mod' (x / w) v)) in
      let small : r < v * w = below w v (x % w) (x / w % v) (mod-lt x hw) (mod-lt (x / w) hv) in
      sym (
        ap (λ (t : ℕ). t % (v * w)) (sym whole)
        ∙ mul-add-mod_self_right (x / w / v) (v * w) r
        ∙ mod-eq_of_lt small)
    where
      below : (w v a b : ℕ) → a < w → b < v → a + b * w < v * w
      below w v a b ha hb = grind arith

  -- The words that were written hold the bits, from the word `idx` on.
  pub words_value-write_words :
      (count idx a bits : ℕ) (s : S)
      → 0 < word_bytes p
      → words_value bus p count a (write_words bus p count idx a bits s)
        ≡ bits / 2 ^ (idx * p.word_size) % 2 ^ (count * p.word_size)
  unfolding words_value write_words
  words_value-write_words zero idx a bits s pos =
      let x = bits / 2 ^ (idx * p.word_size) in
      let none_left : 0 * p.word_size ≡ 0 = omega arith in
      omega (arith, ap (λ (t : ℕ). x % 2 ^ t) none_left)
  words_value-write_words (suc count) idx a bits s pos =
      let x = bits / 2 ^ (idx * p.word_size) in
      let word = bit_and x (low_mask p.word_size) in
      let s' = bus.write a word s in
      let word-eq : word ≡ x % 2 ^ p.word_size = and_mask p.word_size x in
      let here : word_at bus p a (write_words bus p count (idx + 1) (a + word_bytes p) bits s')
          ≡ x % 2 ^ p.word_size =
        word_at-write_words count (idx + 1) (a + word_bytes p) bits a s' (inl (omega arith)) pos
        ∙ unfold word_at in
          ap (λ (t : ℕ). t % 2 ^ p.word_size)
            (mem.read-write_self a word s (rw word-eq (mod-lt x (pow-pos p.word_size))))
          ∙ ap (λ (t : ℕ). t % 2 ^ p.word_size) word-eq
          ∙ mod-eq_of_lt (mod-lt x (pow-pos p.word_size)) in
      let rest = words_value-write_words count (idx + 1) (a + word_bytes p) bits s' pos in
      let shifted : bits / 2 ^ ((idx + 1) * p.word_size) ≡ x / 2 ^ p.word_size =
        ap (λ (t : ℕ). bits / t)
          (pow-next idx ∙ mul_comm (2 ^ p.word_size) (2 ^ (idx * p.word_size)))
        ∙ sym (div-div-eq-div-mul bits (2 ^ (idx * p.word_size)) (2 ^ p.word_size)) in
      let width : 2 ^ (suc count * p.word_size) ≡ 2 ^ (count * p.word_size) * 2 ^ p.word_size =
        let e : suc count * p.word_size ≡ count * p.word_size + p.word_size = omega arith in
        ap (λ (t : ℕ). 2 ^ t) e ∙ pow-add (count * p.word_size) p.word_size in
      omega (
        arith,
        here,
        ap (λ (t : ℕ). t * 2 ^ p.word_size) rest,
        ap (λ (t : ℕ). t % 2 ^ (count * p.word_size) * 2 ^ p.word_size) shifted,
        ap (λ (t : ℕ). x % t) width,
        mod_mul x (2 ^ p.word_size) (2 ^ (count * p.word_size)) (pow-pos p.word_size)
            (pow-pos (count * p.word_size)),
      )

  -- Words that lie outside the ones written keep their value.
  pub words_value-write_words_ne :
      (n b count idx a bits : ℕ) (s : S)
      → (b + n * word_bytes p ≤ a) ⊎ (a + count * word_bytes p ≤ b)
      → 0 < word_bytes p
      → words_value bus p n b (write_words bus p count idx a bits s) ≡ words_value bus p n b s
  unfolding words_value
  words_value-write_words_ne zero b count idx a bits s out pos = refl
  words_value-write_words_ne (suc n) b count idx a bits s out pos =
      let here : (b < a) ⊎ (a + count * word_bytes p ≤ b) = elim out [
        | inl h ↦ inl (omega arith)
        | inr h ↦ inr h
      ] in
      let later : (b + word_bytes p + n * word_bytes p ≤ a)
          ⊎ (a + count * word_bytes p ≤ b + word_bytes p) =
        elim out [ inl h ↦ inl (omega arith) | inr h ↦ inr (omega arith) ] in
      ap₂ (λ (u v : ℕ). u + v * 2 ^ p.word_size) (word_at-write_words count idx a bits b s here pos)
        (words_value-write_words_ne n (b + word_bytes p) count idx a bits s later pos)
