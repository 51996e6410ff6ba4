-- ===== src/Endian/Layout.antt =====
-- Messages of src/ouch/ouch.hpp and src/itch/itch.hpp as layouts: a list of fields, each with its
-- size. A field that is written behind others is read at the sum of their sizes.
use mathlib.Core.List.{append_assoc}
use nasdaq_matching_engine.Common.{
  ℕ, zero, suc, ◌+◌, ◌-◌, ◌^◌, ◌%◌, ◌<◌, ◌≡◌, refl, List, [], ◌∷◌, ◌++◌, arith, length, drop,
  length-append, get_or, ◌∙◌, ap, sym,
}
use nasdaq_matching_engine.Common.Int.{ℤ, pos, negsuc}
use nasdaq_matching_engine.Endian.{put_be32, get_be32}
use nasdaq_matching_engine.Endian.RoundTrip.{length-put_be32, get_be32-put_be32}

abbrev pub concat : List (List ℕ) → List ℕ
concat [] = []
concat (f ∷ fs) = f ++ concat fs

pub concat-append : (fs gs : List (List ℕ)) → concat (fs ++ gs) ≡ concat fs ++ concat gs
concat-append [] gs = refl
concat-append (f ∷ fs) gs =
    ap (λ r. f ++ r) (concat-append fs gs) ∙ sym (append_assoc f (concat fs) (concat gs))

abbrev pub Sized : List ℕ → List (List ℕ) → Type 0
Sized [] [] = Unit {0}
Sized [] (f ∷ fs) = ⊥
Sized (n ∷ ns) [] = ⊥
Sized (n ∷ ns) (f ∷ fs) = (length f ≡ n) × Sized ns fs

-- The place of the field number `k`.
abbrev pub offset : ℕ → List ℕ → ℕ
offset zero ns = 0
offset (suc k) [] = 0
offset (suc k) (n ∷ ns) = n + offset k ns

abbrev pub sum : List ℕ → ℕ
sum [] = 0
sum (n ∷ ns) = n + sum ns

drop-add : (f r : List ℕ) (n k : ℕ) → length f ≡ n → drop (n + k) (f ++ r) ≡ drop k r
drop-add [] r zero k h = let e : zero + k ≡ k = omega arith in ap (λ j. drop j r) e
drop-add [] r (suc n) k h = absurd (omega arith)
drop-add (x ∷ xs) r zero k h = absurd (omega arith)
drop-add (x ∷ xs) r (suc n) k h =
    let e : suc n + k ≡ suc (n + k) = omega arith in
    ap (λ j. drop j (x ∷ xs ++ r)) e ∙ drop-add xs r n k (omega arith)

drop_all : (k : ℕ) → drop {A = ℕ} k [] ≡ []
drop_all zero = refl
drop_all (suc k) = refl

drop-concat_at :
    (k : ℕ) (ns : List ℕ) (fs : List (List ℕ))
    → Sized ns fs
    → drop (offset k ns) (concat fs) ≡ concat (drop k fs)
drop-concat_at zero ns fs s = refl
drop-concat_at (suc k) [] [] s = refl
drop-concat_at (suc k) [] (f ∷ fs) s = absurd s
drop-concat_at (suc k) (n ∷ ns) [] s = absurd s
drop-concat_at (suc k) (n ∷ ns) (f ∷ fs) (h, s) =
    drop-add f (concat fs) n (offset k ns) h ∙ drop-concat_at k ns fs s

pub drop-concat :
    (ns : List ℕ) (fs : List (List ℕ))
    → Sized ns fs
    → (k : ℕ) → drop (offset k ns) (concat fs) ≡ concat (drop k fs)
drop-concat ns fs s k = drop-concat_at k ns fs s

pub length-concat : (ns : List ℕ) (fs : List (List ℕ)) → Sized ns fs → length (concat fs) ≡ sum ns
length-concat [] [] s = refl
length-concat [] (f ∷ fs) s = absurd s
length-concat (n ∷ ns) [] s = absurd s
length-concat (n ∷ ns) (f ∷ fs) (h, s) =
    omega (arith, length-append f (concat fs), length-concat ns fs s)

-- `p[k]`.
unfoldable pub char_at : ℕ → List ℕ → ℕ
char_at k p = get_or (drop k p) 0 0

-- The cast of an int64_t to uint32_t: the low 32 bits of its two's complement.
abbrev pub low32 : ℤ → ℕ
low32 (pos n) = n % 2 ^ 32
low32 (negsuc n) = 2 ^ 32 - 1 - n % 2 ^ 32

unfoldable pub put_price : ℤ → List ℕ
put_price v = put_be32 (low32 v)

unfoldable pub get_price : List ℕ → ℤ
get_price p = pos (get_be32 p)

-- A price that four unsigned bytes hold.
abbrev pub IsWirePrice : ℤ → Type 0
IsWirePrice (pos n) = n < 2 ^ 32
IsWirePrice (negsuc n) = ⊥

pub length-put_price : (v : ℤ) → length (put_price v) ≡ 4
unfolding put_price
length-put_price v = length-put_be32 (low32 v)

pub get_price-put_price :
    (v : ℤ) (rest : List ℕ) → IsWirePrice v → get_price (put_price v ++ rest) ≡ v
unfolding get_price put_price
get_price-put_price (pos n) rest h =
    ap pos (get_be32-put_be32 (n % 2 ^ 32) rest (omega arith) ∙ omega arith)
get_price-put_price (negsuc n) rest h = absurd h

pub byte_lem : (v : ℕ) → v < 2 ^ 8 → v % 2 ^ 8 ≡ v
byte_lem v h = omega arith
