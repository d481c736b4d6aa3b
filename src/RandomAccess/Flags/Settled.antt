-- ===== src/RandomAccess/Flags/Settled.antt =====
-- What `flag_equalizer` of cobra_system_control/cobra_system_control/random_access_scanning.py leaves.
use m.Common.{
  ℕ, ◌+◌, ◌^◌, ◌≤◌, ◌<◌, suc, ap, ◌++◌, ◌≡◌, refl, sym, ◌∙◌, ◌⊎◌, inl, inr, Bool, true, false, not,
  List, [], ◌∷◌, if◌then◌else◌, length, get_or, Result, ok, err, ◌>>=◌, >>=-eq-ok, ok-injective,
  if_ok, equal_cases, value_error, arith,
}
use mathlib.Core.Path.{subst}
use m.Common.All.{All, All-append}
use m.RandomAccess.Flags.{
  flag_of, without, pick, pick_before, inner, replace_all, virtual_sensor_flags, is_valid_normal,
  is_almost_valid_reversed, is_almost_valid_threes, all_threes, reversed, no_repeats, check_repeats,
  loc_idx, spread, repair, equalize, equalize_from, flag_equalizer,
}
use m.RandomAccess.Flags.Order.{
  WellOrdered, Changing, WellOrdered-is_valid_normal, is_valid_normal-WellOrdered,
  no_repeats-Changing,
}
use m.RandomAccess.Flags.Replaced.{
  loc_idx-Ascending, replace_from-reads, length-virtual_sensor_flags,
}
use m.RandomAccess.Flags.Laws.{
  Touches-Keeps, Touches, Touches-refl, Touches-trans, replace_all-Touches, replace_at-Touches,
  virtual_sensor_flags-Keeps, Keeps, virtual_sensor_flags-lt,
}

-- What has become of the flags of a virtual sensor: well ordered ones are kept, those that are well
-- ordered from the last to the first are turned round, and they are then well ordered, or, apart from
-- entries of no flag or of both, none is followed by another of its kind.
pub record Repaired (bitmask flags out : List ℕ) (v : ℕ) : Type 0 where
  pub seen : List ℕ
  pub before : virtual_sensor_flags v (loc_idx v bitmask) flags ≡ ok seen
  pub new : List ℕ
  pub now : virtual_sensor_flags v (loc_idx v bitmask) out ≡ ok new
  pub kept : WellOrdered seen → new ≡ seen
  pub turned : ¬ WellOrdered seen → WellOrdered (reversed seen) → new ≡ reversed seen
  pub ordered : WellOrdered new ⊎ Changing (without 3 (without 0 new))

Repaired-Keeps :
    (bitmask : List ℕ) (w : ℕ) {start flags out end : List ℕ}
    → Keeps w start flags
    → Keeps w out end
    → Repaired bitmask flags out w
    → Repaired bitmask start end w
Repaired-Keeps bitmask w k l r = record {
  seen = r.seen;
  before = sym (virtual_sensor_flags-Keeps w (loc_idx w bitmask) k) ∙ r.before;
  new = r.new;
  now = virtual_sensor_flags-Keeps w (loc_idx w bitmask) l ∙ r.now;
  kept = r.kept;
  turned = r.turned;
  ordered = r.ordered;
}

Keeps-refl : (w : ℕ) (flags : List ℕ) → Keeps w flags flags
Keeps-refl w flags = record { count = refl; same = λ i. refl }

length-snoc : (xs : List ℕ) (x : ℕ) → length (xs ++ x ∷ []) ≡ suc (length xs)
length-snoc [] x = refl
length-snoc (y ∷ ys) x = ap suc (length-snoc ys x)

length-reversed : (xs : List ℕ) → length (reversed xs) ≡ length xs
length-reversed [] = refl
length-reversed (x ∷ xs) = length-snoc (reversed xs) x ∙ ap suc (length-reversed xs)

reversed-lt : (xs : List ℕ) → All (λ n. n < 2 ^ 4) xs → All (λ n. n < 2 ^ 4) (reversed xs)
reversed-lt [] h = tt
reversed-lt (x ∷ xs) h =
    All-append (λ n. n < 2 ^ 4) (reversed xs) (x ∷ []) (reversed-lt xs h.1) (h.0, tt)

-- A step that returns, and one that replaces flags of the sensor.
after :
    {X T : Type 0} (r : Result X) (next : X → Result (List ℕ)) {new : List ℕ}
    → (r >>= next) ≡ ok new
    → ((x : X) → next x ≡ ok new → T)
    → T
after (ok x) next e rest = rest x e
after (err raised) next e rest = cc

after_replace :
    (v : ℕ) (idx : List ℕ) (n : ℕ) (flags : List ℕ) (next : List ℕ → Result (List ℕ)) {new : List ℕ}
    → n < 2 ^ 4
    → (replace_all v idx n flags >>= next) ≡ ok new
    → ((mid : List ℕ) → next mid ≡ ok new → Touches v mid new)
    → Touches v flags new
after_replace v idx n flags next h e rest =
    let (mid, replaced, e') = >>=-eq-ok (replace_all v idx n flags) next e in
    Touches-trans v (replace_all-Touches v idx n flags h replaced) (rest mid e')

module _ (linspace_indexes : ℕ → ℕ → List ℕ) where
  spread-Touches :
      (v fr : ℕ) (loc flags : List ℕ) {new : List ℕ}
      → spread linspace_indexes v fr loc flags ≡ ok new
      → Touches v flags new
  spread-Touches v fr loc flags e =
      let subset = inner (linspace_indexes (length loc) fr) in
      after_replace v loc 0 flags _ (omega arith) e (λ cleared e1.
        after (pick loc (0 ∷ [])) _ e1 (λ first e2.
          after_replace v first 1 cleared _ (omega arith) e2 (λ started e3.
            after (pick_before loc subset) _ e3 (λ before e4.
              after_replace v before 2 started _ (omega arith) e4 (λ stops e5.
                after (pick loc subset) _ e5 (λ follow e6.
                  after_replace v follow 1 stops _ (omega arith) e6 (λ starts e7.
                    after (pick_before loc (0 ∷ [])) _ e7
                      (λ end e8. replace_all-Touches v end 2 starts (omega arith) e8))))))))

  repair-Touches :
      (v fr : ℕ) (loc seen flags : List ℕ) (reversed_valid : Bool) {new : List ℕ}
      → All (λ n. n < 2 ^ 4) seen
      → repair linspace_indexes v fr loc seen flags reversed_valid ≡ ok new
      → Touches v flags new
  repair-Touches v fr loc seen flags true small e =
      replace_at-Touches v loc (reversed seen) flags (reversed-lt seen small) e
  repair-Touches v fr loc seen flags false small e =
      by_threes (is_almost_valid_threes seen) (not (all_threes seen)) e
    where
      by_threes :
          (single mixed : Bool) {new : List ℕ}
          → (if single
              then replace_all v loc 3 flags
              else if mixed
              then spread linspace_indexes v fr loc flags
              else ok flags)
            ≡ ok new
          → Touches v flags new
      by_threes true mixed e = replace_all-Touches v loc 3 flags (omega arith) e
      by_threes false true e = spread-Touches v fr loc flags e
      by_threes false false e = subst (Touches v flags) (ok-injective e) (Touches-refl v flags)

  checked :
      (v : ℕ) (loc flags : List ℕ) {new : List ℕ}
      → check_repeats v loc flags ≡ ok new
      → (flags ≡ new)
        × ((seen : List ℕ) × ((virtual_sensor_flags v loc flags ≡ ok seen)
              × (no_repeats seen ≡ true)))
  checked v loc flags {new = new} e =
      let (seen, sees, tested) = >>=-eq-ok (virtual_sensor_flags v loc flags) _ e in
      let (fine, same) = if_ok (no_repeats seen) (ok flags) value_error new tested in
      (ok-injective same, (seen, (sees, fine)))

  module _ (bitmask : List ℕ) (v fr : ℕ) (flags seen : List ℕ)
      (sees : virtual_sensor_flags v (loc_idx v bitmask) flags ≡ ok seen) where
    -- Flags that are turned round are read in that order.
    turned-reads :
        (reversed_valid : Bool) {mid : List ℕ}
        → reversed_valid ≡ true
        → repair linspace_indexes v fr (loc_idx v bitmask) seen flags reversed_valid ≡ ok mid
        → virtual_sensor_flags v (loc_idx v bitmask) mid ≡ ok (reversed seen)
    turned-reads false h e = cc
    turned-reads true h e =
        let loc = loc_idx v bitmask in
        replace_from-reads v flags loc (reversed seen) flags (loc_idx-Ascending v bitmask)
          (reversed-lt seen (virtual_sensor_flags-lt v loc flags sees))
          (length-reversed seen ∙ length-virtual_sensor_flags v loc flags sees) refl e

    Repaired-branch :
        (valid_flags : Bool) (new : List ℕ)
        → is_valid_normal seen ≡ ok valid_flags
        → (if valid_flags
            then ok flags
            else (is_almost_valid_reversed seen >>= λ reversed_valid.
                repair linspace_indexes v fr (loc_idx v bitmask) seen flags reversed_valid
                >>= λ mid. check_repeats v (loc_idx v bitmask) mid))
          ≡ ok new
        → Touches v flags new × Repaired bitmask flags new v
    Repaired-branch true new is_valid e =
        let ordered = is_valid_normal-WellOrdered seen is_valid in
        subst (λ (out : List ℕ). Touches v flags out × Repaired bitmask flags out v)
          (ok-injective e)
          (
            Touches-refl v flags,
            record {
              seen = seen;
              before = sees;
              new = seen;
              now = sees;
              kept = λ w. refl;
              turned = λ other w. absurd (other ordered);
              ordered = inl ordered;
            },
          )
    Repaired-branch false new is_valid e =
        let loc = loc_idx v bitmask in
        let (reversed_valid, r, e1) = >>=-eq-ok (is_almost_valid_reversed seen) _ e in
        let (mid, repaired, e2) =
          >>=-eq-ok (repair linspace_indexes v fr loc seen flags reversed_valid) _ e1 in
        let (same, (seen', (sees', fine))) = checked v loc mid e2 in
        subst (λ (out : List ℕ). Touches v flags out × Repaired bitmask flags out v) same
          (
            repair-Touches v fr loc seen flags reversed_valid
                (virtual_sensor_flags-lt v loc flags sees) repaired,
            record {
              seen = seen;
              before = sees;
              new = seen';
              now = sees';
              kept = λ w. let valid = sym (WellOrdered-is_valid_normal seen w) ∙ is_valid in cc;
              turned = λ other w. ok-injective (
                  sym sees'
                  ∙ turned-reads reversed_valid
                      (sym (ok-injective (sym (WellOrdered-is_valid_normal (reversed seen) w) ∙ r)))
                      repaired);
              ordered = inr (no_repeats-Changing seen' fine);
            },
          )

  -- A round changes the flags of its sensor only, and repairs them.
  equalize-Repaired :
      (bitmask : List ℕ) (v fr : ℕ) (flags : List ℕ) {new : List ℕ}
      → equalize linspace_indexes bitmask v fr flags ≡ ok new
      → Touches v flags new × Repaired bitmask flags new v
  equalize-Repaired bitmask v fr flags {new = new} e =
      let (seen, sees, e1) = >>=-eq-ok (virtual_sensor_flags v (loc_idx v bitmask) flags) _ e in
      let (valid_flags, is_valid, e2) = >>=-eq-ok (is_valid_normal seen) _ e1 in
      Repaired-branch bitmask v fr flags seen sees valid_flags new is_valid e2

  -- What the rounds for `n` sensors from `v` on leave.
  pub record Equalized (bitmask : List ℕ) (v n : ℕ) (flags out : List ℕ) : Type 0 where
    pub count : length out ≡ length flags
    pub repaired : (w : ℕ) → v ≤ w → w < v + n → Repaired bitmask flags out w
    pub others :
        (w i : ℕ)
        → (w < v) ⊎ (v + n ≤ w)
        → flag_of w (get_or out i 0) ≡ flag_of w (get_or flags i 0)

  equalize_from-Equalized :
      (bitmask : List ℕ) (v : ℕ) (fps flags : List ℕ) {out : List ℕ}
      → equalize_from linspace_indexes bitmask v fps flags ≡ ok out
      → Equalized bitmask v (length fps) flags out
  equalize_from-Equalized bitmask v [] flags e =
      subst (Equalized bitmask v 0 flags) (ok-injective e) (record {
        count = refl;
        repaired = λ w above below. absurd (omega arith);
        others = λ w i out. refl;
      })
  equalize_from-Equalized bitmask v (fr ∷ fps) flags {out = out} e =
      let (new, this, rest) = >>=-eq-ok (equalize linspace_indexes bitmask v fr flags) _ e in
      let (touches, fixed) = equalize-Repaired bitmask v fr flags this in
      let r = equalize_from-Equalized bitmask (v + 1) fps new rest in
      record {
        count = r.count ∙ touches.count;
        repaired = λ w above below. elim (equal_cases w v) [
          | inl e ↦ subst (Repaired bitmask flags out) (sym e) (
              Repaired-Keeps bitmask v (Keeps-refl v flags)
                (record { count = r.count; same = λ i. r.others v i (omega arith) }) fixed)
          | inr later ↦
              Repaired-Keeps bitmask w (Touches-Keeps v w later touches) (Keeps-refl w out)
                (r.repaired w (omega (arith, above, later)) (omega (arith, below)))
        ];
        others = λ w i outside.
            r.others w i (omega (arith, outside)) ∙ touches.others w i (omega (arith, outside));
      }

  -- Where flag_equalizer returns, for each of the virtual sensors whose multiples it is given:
  -- flags at the sensor's entries that begin with a start, end with a stop and are well ordered
  -- between are kept, those that are so from the last to the first are turned round, and in any
  -- case they are so at the end, or, apart from entries of no flag or of both, none is followed by
  -- another of its kind. The flags of other sensors, and the number of entries, are as they were.
  pub flag_equalizer-Equalized :
      (flags bitmask fps : List ℕ) (out : List ℕ)
      → flag_equalizer linspace_indexes flags bitmask fps ≡ ok out
      → Equalized bitmask 0 (length fps) flags out
  unfolding flag_equalizer
  flag_equalizer-Equalized flags bitmask fps out e = equalize_from-Equalized bitmask 0 fps flags e
