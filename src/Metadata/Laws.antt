-- ===== src/Metadata/Laws.antt =====
-- Writing a word of the metadata of one field of view.
use m.Common.{
  ℕ, zero, suc, ◌+◌, ◌*◌, ◌%◌, ◌^◌, ◌<◌, ◌≡◌, ◌≢◌, refl, sym, ap, ◌∙◌, Option, none, some, List, [],
  ◌∷◌, Result, ok, err, ◌>>=◌, get_elem?, set, take, drop, length, get_elem?-set_self,
  get_elem?-set_ne, arith,
}
use mathlib.Core.Path.{subst}
use m.Common.{>>=-eq-ok, ok-injective, index_error}
use m.Metadata.{item, get_per_fov_metadata, fov_word, update_word}

get_elem?-take-drop :
    (xs : List ℕ) (k n i : ℕ) → i < n → get_elem? (take n (drop k xs)) i ≡ get_elem? xs (k + i)
get_elem?-take-drop [] zero (suc n) i h = refl
get_elem?-take-drop [] (suc k) (suc n) i h = refl
get_elem?-take-drop [] k zero i h = absurd (omega arith)
get_elem?-take-drop (x ∷ xs) zero zero i h = absurd (omega arith)
get_elem?-take-drop (x ∷ xs) zero (suc n) zero h = refl
get_elem?-take-drop (x ∷ xs) zero (suc n) (suc i) h =
    let e : 0 + suc i ≡ suc i = omega arith in
    let e' : 0 + i ≡ i = omega arith in
    get_elem?-take-drop xs zero n i (omega arith)
    ∙ ap (get_elem? xs) e'
    ∙ sym (ap (get_elem? (x ∷ xs)) e)
get_elem?-take-drop (x ∷ xs) (suc k) n i h =
    let e : suc k + i ≡ suc (k + i) = omega arith in
    get_elem?-take-drop xs k n i h ∙ sym (ap (get_elem? (x ∷ xs)) e)

abbrev pub as_item : Option ℕ → Result ℕ
as_item o = elim o [ none ↦ err index_error | some w ↦ ok w ]

pub fov_word-item :
    (md : List ℕ) (fov idx : ℕ) → idx < 32 → fov_word md fov idx ≡ item md (200 + fov * 32 + idx)
unfolding fov_word get_per_fov_metadata
fov_word-item md fov idx h = ap as_item (get_elem?-take-drop md (200 + fov * 32) 32 idx h)

item-length : (md : List ℕ) (i w : ℕ) → item md i ≡ ok w → i < length md
item-length [] i w h = cc
item-length (x ∷ md) zero w h = omega arith
item-length (x ∷ md) (suc i) w h = omega (arith, item-length md i w h)

-- Where writing a word of one field of view returns, the word is then what the change makes of it in 16 bits, and
-- no other word of any field of view has changed.
pub fov_word-update_word :
    (md md' : List ℕ) (fov idx : ℕ) (change : ℕ → ℕ)
    → idx < 32
    → update_word md fov idx change ≡ ok md'
    → (fov_word md' fov idx ≡ (fov_word md fov idx >>= λ w. ok (change w % 2 ^ 16)))
      × ((fov' idx' : ℕ)
          → idx' < 32
          → fov' * 32 + idx' ≢ fov * 32 + idx
          → fov_word md' fov' idx' ≡ fov_word md fov' idx')
unfolding update_word
fov_word-update_word md md' fov idx change small h =
    let (w, h1, k1) = >>=-eq-ok (fov_word md fov idx) _ h in
    let place = 200 + fov * 32 + idx in
    let at = sym (fov_word-item md fov idx small) ∙ h1 in
    let e : set md place (change w % 2 ^ 16) ≡ md' = ok-injective k1 in
    subst
      (λ (q : List ℕ).
        (fov_word q fov idx ≡ (fov_word md fov idx >>= λ w. ok (change w % 2 ^ 16)))
        × ((fov' idx' : ℕ)
            → idx' < 32
            → fov' * 32 + idx' ≢ fov * 32 + idx
            → fov_word q fov' idx' ≡ fov_word md fov' idx'))
      e
      (
        fov_word-item (set md place (change w % 2 ^ 16)) fov idx small
            ∙ ap as_item
                (get_elem?-set_self md place (change w % 2 ^ 16) (item-length md place w at))
            ∙ sym (ap (λ (r : Result ℕ). r >>= λ v. ok (change v % 2 ^ 16)) h1),
        λ fov' idx' small' other.
            fov_word-item (set md place (change w % 2 ^ 16)) fov' idx' small'
            ∙ ap as_item (get_elem?-set_ne md (change w % 2 ^ 16) (λ same. other (omega arith)))
            ∙ sym (fov_word-item md fov' idx' small'),
      )
