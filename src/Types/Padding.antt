-- ===== src/Types/Padding.antt =====
-- Space-padded fields of src/common/types.hpp and what their views read back.
use nasdaq_matching_engine.Common.{
  ℕ, zero, suc, ◌≤◌, ◌<◌, ◌≡◌, refl, sym, ap, List, [], ◌∷◌, ◌==◌, Bool-cases, inl, inr, length,
  take, get_or, arith, ==→eq,
}
use nasdaq_matching_engine.Types.{fill_field, view_length, make_symbol, symbol_view}

-- The text does not end in a space.
abbrev pub IsTrimmed : List ℕ → Type 0
IsTrimmed sv = view_length sv (length sv) ≡ length sv

pub length-fill_field : (n : ℕ) (sv : List ℕ) → length (fill_field n sv) ≡ n
unfolding fill_field
length-fill_field zero sv = refl
length-fill_field (suc n) [] = ap suc (length-fill_field n [])
length-fill_field (suc n) (c ∷ cs) = ap suc (length-fill_field n cs)

-- Within the text the field has the text's chars, and behind it spaces.
get_or-fill_field :
    (n i : ℕ) (sv : List ℕ)
    → length sv ≤ n
    → i < length sv
    → get_or (fill_field n sv) i 0 ≡ get_or sv i 0
unfolding fill_field
get_or-fill_field n i [] h k = absurd (omega arith)
get_or-fill_field zero i (c ∷ cs) h k = absurd (omega arith)
get_or-fill_field (suc n) zero (c ∷ cs) h k = refl
get_or-fill_field (suc n) (suc i) (c ∷ cs) h k =
    get_or-fill_field n i cs (omega arith) (omega arith)

fill_field_spaces :
    (n i : ℕ) (sv : List ℕ) → length sv ≤ i → i < n → get_or (fill_field n sv) i 0 ≡ b' '
unfolding fill_field
fill_field_spaces zero i sv h k = absurd (omega arith)
fill_field_spaces (suc n) zero [] h k = refl
fill_field_spaces (suc n) (suc i) [] h k = fill_field_spaces n i [] (omega arith) (omega arith)
fill_field_spaces (suc n) zero (c ∷ cs) h k = absurd (omega arith)
fill_field_spaces (suc n) (suc i) (c ∷ cs) h k =
    fill_field_spaces n i cs (omega arith) (omega arith)

-- A view skips the spaces behind the text.
view_length_spaces :
    (n i : ℕ) (sv : List ℕ)
    → length sv ≤ i
    → i ≤ n
    → view_length (fill_field n sv) i ≡ view_length (fill_field n sv) (length sv)
unfolding view_length
view_length_spaces n zero sv h k =
    let e : zero ≡ length sv = omega arith in ap (view_length (fill_field n sv)) e
view_length_spaces n (suc i) sv h k = elim (Bool-cases (length sv == suc i)) [
  | inl e ↦ ap (view_length (fill_field n sv)) (sym (==→eq (length sv) (suc i) e))
  | inr e ↦
      rw (fill_field_spaces n i sv (ground arith) k)
        (view_length_spaces n i sv (ground arith) (omega arith))
]

-- Within the text the view is the text's.
view_length-fill_field :
    (n i : ℕ) (sv : List ℕ)
    → length sv ≤ n
    → i ≤ length sv
    → view_length (fill_field n sv) i ≡ view_length sv i
unfolding view_length
view_length-fill_field n zero sv h k = refl
view_length-fill_field n (suc i) sv h k =
    rw (get_or-fill_field n i sv h k, view_length-fill_field n i sv h (omega arith)) refl

take-fill_field : (n : ℕ) (sv : List ℕ) → length sv ≤ n → take (length sv) (fill_field n sv) ≡ sv
unfolding fill_field
take-fill_field n [] h = refl
take-fill_field zero (c ∷ cs) h = absurd (omega arith)
take-fill_field (suc n) (c ∷ cs) h = ap (◌∷◌ c) (take-fill_field n cs (omega arith))

-- The view of a padded field, of any width that the text fits in, is the text.
pub view-fill_field :
    (n : ℕ) (sv : List ℕ)
    → length sv ≤ n
    → IsTrimmed sv
    → take (view_length (fill_field n sv) n) (fill_field n sv) ≡ sv
view-fill_field n sv h w =
    rw
      (
        view_length_spaces n n sv h (omega arith),
        view_length-fill_field n (length sv) sv h (omega arith),
        w,
      )
      (take-fill_field n sv h)

-- `symbol_view` gives back the text of at most 8 chars that `make_symbol` padded, if it does not end
-- in a space.
pub symbol_view-make_symbol :
    (sv : List ℕ) → length sv ≤ 8 → IsTrimmed sv → symbol_view (make_symbol sv) ≡ sv
unfolding symbol_view make_symbol
symbol_view-make_symbol sv h w = view-fill_field 8 sv h w
