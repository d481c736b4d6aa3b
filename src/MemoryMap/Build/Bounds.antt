-- ===== src/MemoryMap/Build/Bounds.antt =====
-- The peripherals that the constructor returns.
use Prim.Native.String.{String}
use text.Mathlib.Text.{◌==◌ as str_eq}
use m.Common.{
  ℕ, zero, suc, ◌+◌, ◌*◌, ◌%◌, ◌^◌, ◌≤◌, ◌≡◌, refl, Bool, true, false, ◌&&◌, ◌||◌, not, Option,
  List, [], ◌∷◌, ok, >>=-eq-ok, ok-injective, raise_if, Exception, arith, ◌==◌, ltb, Bool-cases,
  inl, inr, if◌then◌else◌, value_error, memory_map_periph_alignment_error,
  memory_map_field_overflow_error, some,
}
use mathlib.Core.Path.{subst}
use m.Common.All.{All}
use m.MemoryMap.Field.{Field, FieldArgs, YamlParams, make_field, ceil_log2, bytes_per_word}
use m.MemoryMap.Field.Laws.{IsWellFormed, make_field-IsWellFormed}
use m.MemoryMap.Periph.{Periph, lookup, get_field_addr}
use m.MemoryMap.Build.{
  ArrayArgs, PeriphArgs, repeated, rounds_of, set_field, make_fields, make_rounds, make_arrays,
  exceeds, make_periph,
}

not_raised : (b : Bool) (e : Exception) {u : Unit {0}} → raise_if b e ≡ ok u → b ≡ false
not_raised true e h = cc
not_raised false e h = refl

both_false : (a b : Bool) → (a || b) ≡ false → (a ≡ false) × (b ≡ false)
both_false true b h = cc
both_false false b h = (refl, h)

-- What is found under a test is the one or the other.
choose :
    (test : Bool) (g f : Field) (o : Option Field) (P : Field → Type 0)
    → (if test then some g else o) ≡ some f
    → P g
    → (o ≡ some f → P f)
    → P f
choose true g f o P h pg later = let e : g ≡ f = cc in subst P e pg
choose false g f o P h pg later = later h

module _ (yp : YamlParams) where
  abbrev AllWellFormed : List (String × Field) → Type 0
  AllWellFormed fields = All (λ kf. IsWellFormed yp kf.1) fields

  set_field-All :
      (name : String) (f : Field) (fields : List (String × Field))
      → IsWellFormed yp f
      → AllWellFormed fields
      → AllWellFormed (set_field name f fields)
  unfolding set_field
  set_field-All name f [] h all = (h, tt)
  set_field-All name f ((k, g) ∷ fields) h all = elim (Bool-cases (str_eq k name)) [
    | inl e ↦ rw e (h, all.1)
    | inr e ↦ rw e (all.0, set_field-All name f fields h all.1)
  ]

  make_fields-All :
      (args : List (String × FieldArgs)) (fields built : List (String × Field))
      → AllWellFormed fields
      → make_fields yp args fields ≡ ok built
      → AllWellFormed built
  unfolding make_fields
  make_fields-All [] fields built all h = subst AllWellFormed (ok-injective h) all
  make_fields-All ((name, a) ∷ rest) fields built all h =
      let (f, h1, k1) = >>=-eq-ok (make_field yp a) _ h in
      make_fields-All rest (set_field name f fields) built
        (set_field-All name f fields (make_field-IsWellFormed yp a f h1) all) k1

  make_rounds-All :
      (arr : ArrayArgs) (n i : ℕ) (fields built : List (String × Field))
      → AllWellFormed fields
      → make_rounds yp arr n i fields ≡ ok built
      → AllWellFormed built
  unfolding make_rounds
  make_rounds-All arr zero i fields built all h = subst AllWellFormed (ok-injective h) all
  make_rounds-All arr (suc n) i fields built all h =
      let (mid, h1, k1) =
        >>=-eq-ok (make_fields yp (repeated i (arr.offset + i * arr.step) arr.fields) fields) _ h in
      make_rounds-All arr n (i + 1) mid built (make_fields-All _ fields mid all h1) k1

  make_arrays-All :
      (limit : Option ℕ) (arrs : List ArrayArgs) (fields built : List (String × Field))
      → AllWellFormed fields
      → make_arrays yp limit arrs fields ≡ ok built
      → AllWellFormed built
  unfolding make_arrays
  make_arrays-All limit [] fields built all h = subst AllWellFormed (ok-injective h) all
  make_arrays-All limit (arr ∷ rest) fields built all h =
      let (mid, h1, k1) = >>=-eq-ok (make_rounds yp arr (rounds_of limit arr) 0 fields) _ h in
      make_arrays-All limit rest mid built
        (make_rounds-All arr (rounds_of limit arr) 0 fields mid all h1) k1

  exceeds-lookup :
      (size : ℕ) (fields : List (String × Field)) (name : String) (f : Field)
      → AllWellFormed fields
      → exceeds yp size fields ≡ false
      → lookup name fields ≡ some f
      → IsWellFormed yp f × (f.offset + f.n_words * bytes_per_word yp ≤ size)
  unfolding lookup
  exceeds-lookup size [] name f all h found = cc
  exceeds-lookup size ((k, g) ∷ fields) name f all h found =
      let (fits, rest) =
        both_false (ltb size (g.offset + g.n_words * bytes_per_word yp)) (exceeds yp size fields)
          h in
      choose (str_eq k name) g f (lookup name fields)
        (λ q. IsWellFormed yp q × (q.offset + q.n_words * bytes_per_word yp ≤ size)) found
        (all.0, ground arith) (exceeds-lookup size fields name f all.1 rest)

-- Every field of a peripheral that the constructor returns is well formed, and its words lie between
-- the peripheral's address and its end. Where errors of alignment are not ignored, the address is a
-- multiple of a power of two that is not below the size.
pub make_periph-InBounds :
    (yp : YamlParams) (args : PeriphArgs) (p : Periph)
    → make_periph yp args ≡ ok p
    → (p.addr_base ≡ args.addr_base)
      × (args.ignore_alignment_error ≡ false
          → p.addr_base % 2 ^ ceil_log2 (args.n_blocks * yp.block_size) ≡ 0)
      × ((name : String) (f : Field)
          → lookup name p.fields ≡ some f
          → IsWellFormed yp f
            × (p.addr_base ≤ get_field_addr p f)
            × (get_field_addr p f + f.n_words * bytes_per_word yp
                ≤ p.addr_base + args.n_blocks * yp.block_size))
unfolding make_periph
make_periph-InBounds yp args p h =
    let size = args.n_blocks * yp.block_size in
    let (own, h1, k1) = >>=-eq-ok (make_fields yp args.fields []) _ h in
    let (fields, h2, k2) = >>=-eq-ok (make_arrays yp args.array_rep_limit args.arrays own) _ k1 in
    let (u3, h3, k3) = >>=-eq-ok (raise_if (size == 0) value_error) _ k2 in
    let (u4, h4, k4) =
      >>=-eq-ok
        (raise_if
          (not (args.addr_base % 2 ^ ceil_log2 size == 0) && not args.ignore_alignment_error)
          memory_map_periph_alignment_error)
        _ k3 in
    let (u5, h5, k5) =
      >>=-eq-ok (raise_if (exceeds yp size fields) memory_map_field_overflow_error) _ k4 in
    let all =
      make_arrays-All yp args.array_rep_limit args.arrays own fields
        (make_fields-All yp args.fields [] own tt h1) h2 in
    subst
      (λ (q : Periph).
        (q.addr_base ≡ args.addr_base)
        × (args.ignore_alignment_error ≡ false → q.addr_base % 2 ^ ceil_log2 size ≡ 0)
        × ((name : String) (f : Field)
            → lookup name q.fields ≡ some f
            → IsWellFormed yp f
              × (q.addr_base ≤ get_field_addr q f)
              × (get_field_addr q f + f.n_words * bytes_per_word yp ≤ q.addr_base + size)))
      (ok-injective k5)
      (
        refl,
        λ strict. ground arith,
        λ name f found.
            let (good, le) =
              exceeds-lookup yp size fields name f all (not_raised (exceeds yp size fields) _ h5)
                found in
            (good, omega arith, omega arith),
      )
