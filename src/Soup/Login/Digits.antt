-- ===== src/Soup/Login/Digits.antt =====
-- The sequence number of a login request of src/soup/soup.cpp: digits written and read.
use nasdaq_matching_engine.Common.{
  ℕ, zero, suc, ◌+◌, ◌-◌, ◌*◌, ◌/◌, ◌%◌, ◌^◌, ◌≤◌, ◌<◌, ◌≡◌, refl, ap, ◌∙◌, List, [], ◌∷◌, ◌++◌,
  false, ltb, Bool-cases, inl, inr, length, get_or, All, All-append, arith, replicate,
  length-append,
}
use nasdaq_matching_engine.Types.{view_length}
use nasdaq_matching_engine.Soup.Login.{digits_upto, trim_left, read_seq}
use mathlib.Core.List.{append_assoc}

pub IsDigit : ℕ → Type 0
IsDigit c = (b'0' ≤ c) × (c ≤ b'9')

pub digits_upto-IsDigit : (k n : ℕ) → All IsDigit (digits_upto k n)
unfolding digits_upto IsDigit
digits_upto-IsDigit zero n = tt
digits_upto-IsDigit (suc k) n = elim (Bool-cases (ltb n 10)) [
  | inl h ↦ rw h ((omega arith, ground arith), tt)
  | inr h ↦ rw h (
      All-append IsDigit (digits_upto k (n / 10)) ((b'0' + n % 10) ∷ [])
        (digits_upto-IsDigit k (n / 10)) ((omega arith, omega arith), tt))
]

pub length-digits_upto : (k n : ℕ) → length (digits_upto k n) ≤ k
unfolding digits_upto
length-digits_upto zero n = omega arith
length-digits_upto (suc k) n = elim (Bool-cases (ltb n 10)) [
  | inl h ↦ rw h (omega arith)
  | inr h ↦ rw h (
      omega (
        arith,
        length-digits_upto k (n / 10),
        length-append (digits_upto k (n / 10)) ((b'0' + n % 10) ∷ []),
      ))
]

-- One digit more.
read_seq-digit :
    (d acc n : ℕ) (rest : List ℕ)
    → d < 10
    → (acc * 10 + d) % 2 ^ 64 ≡ n
    → read_seq ((b'0' + d) ∷ rest) acc ≡ read_seq rest n
unfolding read_seq
read_seq-digit d acc n rest h e =
    let back : b'0' + d - b'0' ≡ d = omega arith in
    let low : ltb (b'0' + d) b'0' ≡ false = ground arith in
    let high : ltb b'9' (b'0' + d) ≡ false = ground arith in rw (low, high, back, e) refl

-- Reading the digits of a 64-bit number, for which the fuel is enough.
pub read_seq-digits_upto :
    (k n : ℕ) (rest : List ℕ)
    → n < 10 ^ k
    → n < 2 ^ 64
    → read_seq (digits_upto k n ++ rest) 0 ≡ read_seq rest n
unfolding digits_upto read_seq
read_seq-digits_upto zero n rest h b = let e : 0 ≡ n = omega arith in ap (read_seq rest) e
read_seq-digits_upto (suc k) n rest h b = elim (Bool-cases (ltb n 10)) [
  | inl e ↦ rw e (read_seq-digit n 0 n rest (ground arith) (omega arith))
  | inr e ↦
      rw (e, append_assoc (digits_upto k (n / 10)) ((b'0' + n % 10) ∷ []) rest)
        (read_seq-digits_upto k (n / 10) ((b'0' + n % 10) ∷ rest) (omega arith) (omega arith)
          ∙ read_seq-digit (n % 10) (n / 10) n rest (omega arith) (omega arith))
]

-- Digits have no space at either end.
pub trim_left-digits : (s : List ℕ) → All IsDigit s → trim_left s ≡ s
unfolding trim_left IsDigit
trim_left-digits [] v = refl
trim_left-digits (c ∷ cs) v = ground (arith, v.0)

pub trim_left-spaces : (k : ℕ) (s : List ℕ) → trim_left (replicate k b' ' ++ s) ≡ trim_left s
unfolding trim_left
trim_left-spaces zero s = refl
trim_left-spaces (suc k) s = trim_left-spaces k s

get_or-IsDigit : (s : List ℕ) (i : ℕ) → All IsDigit s → i < length s → IsDigit (get_or s i 0)
get_or-IsDigit [] i v h = absurd (omega arith)
get_or-IsDigit (c ∷ cs) zero v h = v.0
get_or-IsDigit (c ∷ cs) (suc i) v h = get_or-IsDigit cs i v.1 (omega arith)

pub view_length-digits : (s : List ℕ) (i : ℕ) → All IsDigit s → i ≤ length s → view_length s i ≡ i
unfolding view_length IsDigit
view_length-digits s zero v h = refl
view_length-digits s (suc i) v h = ground (arith, get_or-IsDigit s i v h)
