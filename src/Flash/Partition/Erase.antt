-- ===== src/Flash/Partition/Erase.antt =====
-- The commands that erase memory: `erase_partition` of spi_flash.py and `delete_memory` of
-- mcs_updater.py send those of a plan, whatever the device answers.
use m.Common.{
  ℕ, zero, suc, ◌+◌, ◌-◌, ◌*◌, ◌/◌, ◌%◌, ◌≤◌, ◌≡◌, refl, sym, ap, ◌∙◌, true, false, List, [], ◌∷◌,
  ◌++◌, length, length-append, ok-injective, ◌==◌, if◌then◌else◌, Result, ok, err, arith,
  Bool-cases, inl, inr, runtime_error,
}
use mathlib.Core.Path.{subst, subst₂}
use native.Mathlib.Nat.{suc-mul}
use m.Common.Action.{Action, continue, ◌>>=◌, ◌>>◌, return}
use m.Flash.Qspi.{
  Registers, full_block_size, half_block_size, sector_size, block_erase, sector_erase,
}
use m.Flash.Partition.{Partition, erase_blocks, erase_sizes, erase_partition, make_partition}

-- A command for a block at an address.
pub data Erase : Type 0 where
  full half sector : ℕ → Erase

abbrev pub start : Erase → ℕ
start (full a) = a
start (half a) = a
start (sector a) = a

abbrev pub span : Erase → ℕ
span (full a) = full_block_size
span (half a) = half_block_size
span (sector a) = sector_size

-- The blocks of the commands lie one after the other and make up the `size` bytes from `a` on.
abbrev pub Tiles : List Erase → ℕ → ℕ → Type 0
Tiles [] a size = size ≡ 0
Tiles (e ∷ es) a size = (start e ≡ a) × (span e ≤ size) × Tiles es (a + span e) (size - span e)

-- `n` commands from `a` on.
abbrev pub blocks : (ℕ → Erase) → ℕ → ℕ → ℕ → List Erase
blocks kind n zero a = []
blocks kind n (suc k) a = kind a ∷ blocks kind n k (a + n)

suc_times : (k n : ℕ) → suc k * n ≡ n + k * n
suc_times k n = suc-mul k n ∙ omega arith

pub blocks-Tiles :
    (kind : ℕ → Erase) (n k a size : ℕ) (rest : List Erase)
    → ((b : ℕ) → start (kind b) ≡ b)
    → ((b : ℕ) → span (kind b) ≡ n)
    → k * n ≤ size
    → Tiles rest (a + k * n) (size - k * n)
    → Tiles (blocks kind n k a ++ rest) a size
blocks-Tiles kind n zero a size rest h h' fits t = subst₂ (Tiles rest) (omega arith) (omega arith) t
blocks-Tiles kind n (suc k) a size rest h h' fits t =
    let e : suc k * n ≡ n + k * n = suc_times k n in
    (
      h a,
      omega (arith, h' a, e),
      subst (λ (m : ℕ). Tiles (blocks kind n k (a + n) ++ rest) (a + m) (size - m)) (sym (h' a))
          (blocks-Tiles kind n k (a + n) (size - n) rest h h' (omega (arith, e))
            (subst₂ (Tiles rest) (omega (arith, e)) (omega (arith, e)) t)),
    )

module _ {S : Type 0} (r : Registers S) (polls : ℕ) where
  abbrev pub run : Erase → Action S (Unit {0})
  run (full a) = block_erase r polls a true true
  run (half a) = block_erase r polls a false true
  run (sector a) = sector_erase r polls a true

  -- The commands one after the other; one that raises is the last.
  abbrev pub run_all : List Erase → Action S (Unit {0})
  run_all [] = return tt
  run_all (e ∷ es) = run e >> run_all es

  assoc :
      {A B C : Type 0} (x : Result A × S) (f : A → Action S B) (g : B → Action S C)
      → continue g (continue f x) ≡ continue (λ a s. continue g (f a s)) x
  assoc (ok a, s) f g = refl
  assoc (err e, s) f g = refl

  pub continue-ap :
      {A B : Type 0} (f g : A → Action S B) (x : Result A × S)
      → ((a : A) (s : S) → f a s ≡ g a s)
      → continue f x ≡ continue g x
  continue-ap f g (ok a, s) h = h a s
  continue-ap f g (err e, s) h = refl

  run_all-append :
      (es fs : List Erase) (s : S) → run_all (es ++ fs) s ≡ (run_all es >> run_all fs) s
  run_all-append [] fs s = refl
  run_all-append (e ∷ es) fs s =
      continue-ap (λ u. run_all (es ++ fs)) (λ u. run_all es >> run_all fs) (run e s)
        (λ u t. run_all-append es fs t)
      ∙ sym (assoc (run e s) (λ u. run_all es) (λ u. run_all fs))

  -- The rounds of one size, and what follows them.
  erase_blocks-run :
      {B : Type 0} (kind : ℕ → Erase) (n k a : ℕ) (next : ℕ → Action S B) (s : S)
      → (erase_blocks r polls (λ b. run (kind b)) n k a >>= next) s
        ≡ (run_all (blocks kind n k a) >> next (a + k * n)) s
  unfolding erase_blocks
  erase_blocks-run kind n zero a next s =
      let e : a ≡ a + 0 * n = omega arith in ap (λ (t : ℕ). next t s) e
  erase_blocks-run kind n (suc k) a next s =
      let e : a + n + k * n ≡ a + suc k * n = omega (arith, suc_times k n) in
      assoc (run (kind a) s) (λ u. erase_blocks r polls (λ b. run (kind b)) n k (a + n)) next
      ∙ continue-ap _ _ (run (kind a) s) (λ u t. erase_blocks-run kind n k (a + n) next t)
      ∙ sym (
          assoc (run (kind a) s) (λ u. run_all (blocks kind n k (a + n)))
            (λ u. next (a + n + k * n)))
      ∙ ap (λ (t : ℕ). (run_all (blocks kind n (suc k) a) >> next t) s) e

  -- What follows the blocks of a size.
  abbrev after_size : List (ℕ × (ℕ → Action S (Unit {0}))) → ℕ → ℕ → Action S (Unit {0})
  after_size sizes left a = if left == 0 then return tt else erase_sizes r polls sizes a left

  erase_size-run :
      (kind : ℕ → Erase) (n a size : ℕ) (sizes : List (ℕ × (ℕ → Action S (Unit {0}))))
      (es : List Erase) (s : S)
      → ((t : S) → after_size sizes (size - size / n * n) (a + size / n * n) t ≡ run_all es t)
      → erase_sizes r polls ((n, λ b. run (kind b)) ∷ sizes) a size s
        ≡ run_all (blocks kind n (size / n) a ++ es) s
  unfolding erase_sizes
  erase_size-run kind n a size sizes es s h =
      erase_blocks-run kind n (size / n) a (after_size sizes (size - size / n * n)) s
      ∙ continue-ap _ _ (run_all (blocks kind n (size / n) a) s) (λ u t. h t)
      ∙ sym (run_all-append (blocks kind n (size / n) a) es s)

  after_size-run :
      (sizes : List (ℕ × (ℕ → Action S (Unit {0})))) (left a : ℕ) (es : List Erase) (t : S)
      → (left ≡ 0 → es ≡ [])
      → erase_sizes r polls sizes a left t ≡ run_all es t
      → after_size sizes left a t ≡ run_all es t
  after_size-run sizes left a es t none_left h = elim (Bool-cases (left == 0)) [
    | inl z ↦ rw z (ap (λ (fs : List Erase). run_all fs t) (sym (none_left (ground arith))))
    | inr more ↦ rw more h
  ]

-- How many commands of each size a plan has.
record Counts (es : List Erase) (size : ℕ) : Type 0 where
  fulls : ℕ
  halves : ℕ
  sectors : ℕ
  bytes : size ≡ fulls * full_block_size + halves * half_block_size + sectors * sector_size
  count : length es ≡ fulls + halves + sectors

Tiles-Counts : (es : List Erase) (a size : ℕ) → Tiles es a size → Counts es size
Tiles-Counts [] a size t = record {
  fulls = 0;
  halves = 0;
  sectors = 0;
  bytes = omega (arith, t);
  count = refl;
}
Tiles-Counts (full b ∷ es) a size (at, fits, t) =
    let c = Tiles-Counts es (a + full_block_size) (size - full_block_size) t in
    record {
      fulls = suc c.fulls;
      halves = c.halves;
      sectors = c.sectors;
      bytes = omega (arith, fits, c.bytes);
      count = omega (arith, c.count);
    }
Tiles-Counts (half b ∷ es) a size (at, fits, t) =
    let c = Tiles-Counts es (a + half_block_size) (size - half_block_size) t in
    record {
      fulls = c.fulls;
      halves = suc c.halves;
      sectors = c.sectors;
      bytes = omega (arith, fits, c.bytes);
      count = omega (arith, c.count);
    }
Tiles-Counts (sector b ∷ es) a size (at, fits, t) =
    let c = Tiles-Counts es (a + sector_size) (size - sector_size) t in
    record {
      fulls = c.fulls;
      halves = c.halves;
      sectors = suc c.sectors;
      bytes = omega (arith, fits, c.bytes);
      count = omega (arith, c.count);
    }

length-blocks : (kind : ℕ → Erase) (n k a : ℕ) → length (blocks kind n k a) ≡ k
length-blocks kind n zero a = refl
length-blocks kind n (suc k) a = ap suc (length-blocks kind n k (a + n))

no_blocks :
    (kind : ℕ → Erase) (n k a : ℕ) (rest : List Erase) → k ≡ 0 → blocks kind n k a ++ rest ≡ rest
no_blocks kind n zero a rest z = refl
no_blocks kind n (suc k) a rest z = absurd (omega (arith, z))

made_whole :
    (addr size : ℕ) (p : Partition) → make_partition addr size ≡ ok p → p.size % sector_size ≡ 0
unfolding make_partition
made_whole addr size p made = elim (Bool-cases (size % sector_size == 0)) [
  | inl whole ↦
      let same : make_partition addr size ≡ ok (record { addr_base = addr; size = size }) =
        rw whole refl in
      let e : record { addr_base = addr; size = size } ≡ p = ok-injective (sym same ∙ made) in
      let aligned : size % sector_size ≡ 0 = ground arith in
      ap (λ (q : Partition). q.size % sector_size) (sym e) ∙ aligned
  | inr other ↦ let refused : make_partition addr size ≡ err runtime_error = rw other refl in cc
]

-- The blocks of the three sizes, the largest first.
abbrev plan : ℕ → ℕ → List Erase
plan a size =
    let left = size - size / full_block_size * full_block_size in
    let at = a + size / full_block_size * full_block_size in
    let left' = left - left / half_block_size * half_block_size in
    let at' = at + left / half_block_size * half_block_size in
    blocks full full_block_size (size / full_block_size) a
    ++ (blocks half half_block_size (left / half_block_size) at
        ++ (blocks sector sector_size (left' / sector_size) at' ++ []))

plan-Tiles : (a size : ℕ) → size % sector_size ≡ 0 → Tiles (plan a size) a size
plan-Tiles a size whole =
    let left = size - size / full_block_size * full_block_size in
    let at = a + size / full_block_size * full_block_size in
    let left' = left - left / half_block_size * half_block_size in
    let at' = at + left / half_block_size * half_block_size in
    blocks-Tiles full full_block_size (size / full_block_size) a size _ (λ b. refl) (λ b. refl)
      (omega arith)
      (blocks-Tiles half half_block_size (left / half_block_size) at left _ (λ b. refl) (λ b. refl)
        (omega arith)
        (blocks-Tiles sector sector_size (left' / sector_size) at' left' [] (λ b. refl) (λ b. refl)
          (omega arith) (omega arith)))

length-plan :
    (a size : ℕ)
    → length (plan a size)
      ≡ size / full_block_size
        + size % full_block_size / half_block_size
        + size % half_block_size / sector_size
length-plan a size =
    let left = size - size / full_block_size * full_block_size in
    let at = a + size / full_block_size * full_block_size in
    let left' = left - left / half_block_size * half_block_size in
    let at' = at + left / half_block_size * half_block_size in
    let fulls = blocks full full_block_size (size / full_block_size) a in
    let halves = blocks half half_block_size (left / half_block_size) at in
    let sectors = blocks sector sector_size (left' / sector_size) at' in
    let l : left ≡ size % full_block_size = omega arith in
    let l' : left' ≡ size % half_block_size = omega arith in
    omega (
      arith,
      length-append fulls (halves ++ (sectors ++ [])),
      length-append halves (sectors ++ []),
      length-append sectors [],
      length-blocks full full_block_size (size / full_block_size) a,
      length-blocks half half_block_size (left / half_block_size) at,
      length-blocks sector sector_size (left' / sector_size) at',
      ap (λ (t : ℕ). t / half_block_size) l,
      ap (λ (t : ℕ). t / sector_size) l',
    )

-- What erase_partition promises: the commands of a plan are sent, one after the other; their blocks
-- make up the partition; and no plan has fewer commands.
pub record Planned {S : Type 0} (r : Registers S) (polls : ℕ) (p : Partition) : Type 0 where
  pub commands : List Erase
  pub sends : (s : S) → erase_partition r polls p s ≡ run_all r polls commands s
  pub tiles : Tiles commands p.addr_base p.size
  pub fewest : (es : List Erase) → Tiles es p.addr_base p.size → length commands ≤ length es

fewest-plan :
    (a size : ℕ) (es : List Erase)
    → size % sector_size ≡ 0
    → Tiles es a size
    → length (plan a size) ≤ length es
fewest-plan a size es whole t =
    let c = Tiles-Counts es a size t in omega (arith, length-plan a size, c.bytes, c.count, whole)

module _ {S : Type 0} (r : Registers S) (polls : ℕ) where
  erase_partition-run :
      (p : Partition) (s : S)
      → p.size % sector_size ≡ 0
      → erase_partition r polls p s ≡ run_all r polls (plan p.addr_base p.size) s
  unfolding erase_partition
  erase_partition-run p s whole =
      let left = p.size - p.size / full_block_size * full_block_size in
      let at = p.addr_base + p.size / full_block_size * full_block_size in
      let left' = left - left / half_block_size * half_block_size in
      let at' = at + left / half_block_size * half_block_size in
      erase_size-run r polls full full_block_size p.addr_base p.size _ _ s (λ t.
        after_size-run r polls _ left at _ t
          (λ z.
            no_blocks half half_block_size (left / half_block_size) at _ (omega (arith, z))
            ∙ no_blocks sector sector_size (left' / sector_size) at' [] (omega (arith, z)))
          (erase_size-run r polls half half_block_size at left _ _ t (λ t'.
            after_size-run r polls _ left' at' _ t'
              (λ z. no_blocks sector sector_size (left' / sector_size) at' [] (omega (arith, z)))
              (erase_size-run r polls sector sector_size at' left' [] [] t' (λ t''.
                let z : left' - left' / sector_size * sector_size ≡ 0 = omega (arith, whole) in
                rw z refl)))))

  -- For every partition that the constructor accepts, whatever the device answers: erase_partition sends
  -- the commands of a plan, one after the other, and ends with the first one that raises; their blocks lie one
  -- after the other and make up the partition; and no such plan has fewer commands.
  pub erase_partition-Planned :
      (addr size : ℕ) (p : Partition) → make_partition addr size ≡ ok p → Planned r polls p
  erase_partition-Planned addr size p made =
      let whole = made_whole addr size p made in
      record {
        commands = plan p.addr_base p.size;
        sends = λ s. erase_partition-run p s whole;
        tiles = plan-Tiles p.addr_base p.size whole;
        fewest = λ es t. fewest-plan p.addr_base p.size es whole t;
      }
