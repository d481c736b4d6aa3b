-- ===== src/RandomAccess/Flags/Order.antt =====
-- What the tests of `is_valid_normal` and `flag_equalizer` of
-- cobra_system_control/cobra_system_control/random_access_scanning.py say of the flags of a virtual sensor.
use m.Common.{
  ℕ, ◌+◌, ◌%◌, ◌≡◌, ◌≢◌, refl, ap, ◌∙◌, Bool, true, false, ◌&&◌, ◌||◌, not, List, [], ◌∷◌, ◌++◌,
  ◌==◌, length, ok, ok-injective, arith, ==_iff,
}
use m.RandomAccess.Flags.{
  without, drop_of, last_of, all_but_last, inner, is_valid_normal, no_repeats,
}

-- Every number of a list and the next one are related.
abbrev pub Neighbours : (ℕ → ℕ → Type 0) → List ℕ → Type 0
Neighbours R [] = Unit
Neighbours R (x ∷ []) = Unit
Neighbours R (x ∷ y ∷ xs) = R x y × Neighbours R (y ∷ xs)

-- No number is followed by itself.
abbrev pub Changing : List ℕ → Type 0
Changing = Neighbours (λ x y. x ≢ y)

-- The flags begin with a start (1) and end with a stop (2); among those that are not 0, which are of an
-- even number, none is followed by another of its kind; and between the first and the last flag no
-- stop is followed by a 0.
pub record WellOrdered (flags : List ℕ) : Type 0 where
  pub after_start : List ℕ
  pub starts : flags ≡ 1 ∷ after_start
  pub before_stop : List ℕ
  pub stops : flags ≡ before_stop ++ 2 ∷ []
  pub changing : Changing (without 0 flags)
  pub pairs : length (without 0 flags) % 2 ≡ 0
  pub no_gap : Neighbours (λ x y. x ≢ y + 2) (inner flags)

not-true : (b : Bool) → not b ≡ true → b ≡ false
not-true false h = refl
not-true true h = cc

drop_of-Neighbours : (k : ℕ) (xs : List ℕ) → drop_of k xs ≡ false → Neighbours (λ x y. x ≢ y + k) xs
drop_of-Neighbours k [] h = tt
drop_of-Neighbours k (x ∷ []) h = tt
drop_of-Neighbours k (x ∷ y ∷ xs) h =
    let (this, rest) = or_false (x == y + k) (drop_of k (y ∷ xs)) h in
    (differ x (y + k) this, drop_of-Neighbours k (y ∷ xs) rest)
  where
    or_false : (b c : Bool) → (b || c) ≡ false → (b ≡ false) × (c ≡ false)
    or_false true c h = cc
    or_false false c h = (refl, h)

    differ : (x y : ℕ) → (x == y) ≡ false → x ≢ y
    differ x y h = ground arith

no_drop-Changing : (xs : List ℕ) → drop_of 0 xs ≡ false → Changing xs
no_drop-Changing xs h = plus_zero xs (drop_of-Neighbours 0 xs h)
  where
    plus_zero : (xs : List ℕ) → Neighbours (λ x y. x ≢ y + 0) xs → Changing xs
    plus_zero [] h = tt
    plus_zero (x ∷ []) h = tt
    plus_zero (x ∷ y ∷ xs) h = ((λ e. h.0 (omega (arith, e))), plus_zero (y ∷ xs) h.1)

last_of-append : (x : ℕ) (xs : List ℕ) → x ∷ xs ≡ all_but_last (x ∷ xs) ++ last_of x xs ∷ []
last_of-append x [] = refl
last_of-append x (y ∷ ys) = ap (λ (t : List ℕ). x ∷ t) (last_of-append y ys)

-- is_valid_normal accepts well ordered flags only.
pub is_valid_normal-WellOrdered :
    (flags : List ℕ) → is_valid_normal flags ≡ ok true → WellOrdered flags
is_valid_normal-WellOrdered [] h = cc
is_valid_normal-WellOrdered (x ∷ xs) h =
    let repeats = drop_of 0 (without 0 (x ∷ xs)) in
    let gaps = drop_of 2 (all_but_last xs) in
    let (one, two, r, g, even) =
      five (x == 1) (last_of x xs == 2) repeats gaps (length (without 0 (x ∷ xs)) % 2 == 0)
        (ok-injective h) in
    let first : x ≡ 1 = (==_iff x 1).0 one in
    let last : last_of x xs ≡ 2 = (==_iff (last_of x xs) 2).0 two in
    record {
      after_start = xs;
      starts = ap (λ (t : ℕ). t ∷ xs) first;
      before_stop = all_but_last (x ∷ xs);
      stops = last_of-append x xs ∙ ap (λ (t : ℕ). all_but_last (x ∷ xs) ++ t ∷ []) last;
      changing = no_drop-Changing (without 0 (x ∷ xs)) r;
      pairs = (==_iff (length (without 0 (x ∷ xs)) % 2) 0).0 even;
      no_gap = drop_of-Neighbours 2 (all_but_last xs) g;
    }
  where
    five :
        (a b c d e : Bool)
        → (a && b && not c && not d && e) ≡ true
        → (a ≡ true) × (b ≡ true) × (c ≡ false) × (d ≡ false) × (e ≡ true)
    five true true false false true h = (refl, refl, refl, refl, refl)
    five true true false false false h = cc
    five true true false true e h = cc
    five true true true d e h = cc
    five true false c d e h = cc
    five false b c d e h = cc

last_of-snoc : (x : ℕ) (xs : List ℕ) → last_of x (xs ++ 2 ∷ []) ≡ 2
last_of-snoc x [] = refl
last_of-snoc x (y ∷ ys) = last_of-snoc y ys

abbrev last_or : List ℕ → ℕ
last_or [] = 0
last_or (x ∷ xs) = last_of x xs

last_or-snoc : (xs : List ℕ) → last_or (xs ++ 2 ∷ []) ≡ 2
last_or-snoc [] = refl
last_or-snoc (x ∷ xs) = last_of-snoc x xs

abbrev first_or : List ℕ → ℕ
first_or [] = 0
first_or (x ∷ xs) = x

Neighbours-drop_of : (k : ℕ) (xs : List ℕ) → Neighbours (λ x y. x ≢ y + k) xs → drop_of k xs ≡ false
Neighbours-drop_of k [] h = refl
Neighbours-drop_of k (x ∷ []) h = refl
Neighbours-drop_of k (x ∷ y ∷ xs) h =
    let this : (x == y + k) ≡ false = differ x (y + k) h.0 in
    rw (this, Neighbours-drop_of k (y ∷ xs) h.1) refl
  where
    differ : (x y : ℕ) → x ≢ y → (x == y) ≡ false
    differ x y h = ground arith

Changing-no_drop : (xs : List ℕ) → Changing xs → drop_of 0 xs ≡ false
Changing-no_drop xs h = Neighbours-drop_of 0 xs (plus_zero xs h)
  where
    plus_zero : (xs : List ℕ) → Changing xs → Neighbours (λ x y. x ≢ y + 0) xs
    plus_zero [] h = tt
    plus_zero (x ∷ []) h = tt
    plus_zero (x ∷ y ∷ xs) h = (λ e. h.0 (omega (arith, e)), plus_zero (y ∷ xs) h.1)

-- is_valid_normal accepts all well ordered flags.
pub WellOrdered-is_valid_normal :
    (flags : List ℕ) → WellOrdered flags → is_valid_normal flags ≡ ok true
WellOrdered-is_valid_normal [] w = let e = w.starts in cc
WellOrdered-is_valid_normal (x ∷ xs) w =
    let first : x ≡ 1 = ap first_or w.starts in
    let last : last_of x xs ≡ 2 = ap last_or w.stops ∙ last_or-snoc w.before_stop in
    ap ok (
      all_five (x == 1) (last_of x xs == 2) (drop_of 0 (without 0 (x ∷ xs)))
        (drop_of 2 (all_but_last xs)) (length (without 0 (x ∷ xs)) % 2 == 0) ((==_iff x 1).1 first)
        ((==_iff (last_of x xs) 2).1 last) (Changing-no_drop (without 0 (x ∷ xs)) w.changing)
        (Neighbours-drop_of 2 (all_but_last xs) w.no_gap)
        ((==_iff (length (without 0 (x ∷ xs)) % 2) 0).1 w.pairs))
  where
    all_five :
        (a b c d e : Bool)
        → a ≡ true
        → b ≡ true
        → c ≡ false
        → d ≡ false
        → e ≡ true
        → (a && b && not c && not d && e) ≡ true
    all_five a b c d e h h' k k' h'' = rw (h, h', k, k', h'') refl

-- The last test of a round.
pub no_repeats-Changing :
    (flags : List ℕ) → no_repeats flags ≡ true → Changing (without 3 (without 0 flags))
no_repeats-Changing flags h =
    no_drop-Changing (without 3 (without 0 flags))
      (not-true (drop_of 0 (without 3 (without 0 flags))) h)
