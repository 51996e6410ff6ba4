-- ===== src/Soup/Login/Requests.antt =====
-- The login request of src/soup/soup.cpp: its payload written and decoded.
use mathlib.Core.List.{append_assoc, append-nil}
use nasdaq_matching_engine.Common.{
  length-replicate, ℕ, zero, suc, ◌-◌, ◌^◌, ◌≤◌, ◌<◌, ◌≡◌, ◌⊎◌, refl, sym, ap, ◌∙◌, List, [], ◌∷◌,
  ◌++◌, some, All, arith, length, take, replicate, length-append, take-append, ◌==◌, Bool-cases,
  inl, inr,
}
use nasdaq_matching_engine.Endian.Layout.{concat, Sized, drop-concat, length-concat}
use nasdaq_matching_engine.Types.{fill_field, view_length}
use nasdaq_matching_engine.Types.Padding.{IsTrimmed, length-fill_field, view-fill_field}
use nasdaq_matching_engine.Soup.Login.{
  append_alpha, append_seq, to_string, trim_left, trim_field, login_payload, login_request,
  read_seq, decode_login_request,
}
use nasdaq_matching_engine.Soup.Login.Digits.{
  IsDigit, digits_upto-IsDigit, length-digits_upto, read_seq-digits_upto, trim_left-digits,
  trim_left-spaces, view_length-digits,
}

-- The text fits in a field of `width` chars and has no space at its ends.
pub record IsField (width : ℕ) (sv : List ℕ) : Type 0 where
  pub fits : length sv ≤ width
  pub trimmed : IsTrimmed sv
  pub starts : trim_left sv ≡ sv

take-whole : (xs : List ℕ) → take (length xs) xs ≡ xs
take-whole [] = refl
take-whole (x ∷ xs) = ap (◌∷◌ x) (take-whole xs)

length-trim_left : (s : List ℕ) → length (trim_left s) ≤ length s
unfolding trim_left
length-trim_left [] = omega arith
length-trim_left (c ∷ cs) = ground (arith, length-trim_left cs)

trim_left-fill_field :
    (n : ℕ) (sv : List ℕ)
    → trim_left sv ≡ sv
    → (trim_left (fill_field n sv) ≡ fill_field n sv) ⊎ (sv ≡ [])
unfolding trim_left fill_field
trim_left-fill_field n [] h = inr refl
trim_left-fill_field zero (c ∷ cs) h = inl refl
trim_left-fill_field (suc n) (c ∷ cs) h = elim (Bool-cases (c == b' ')) [
  | inl e ↦
      let k : trim_left cs ≡ c ∷ cs = rw e at h in
      absurd (omega (arith, length-trim_left cs, ap length k))
  | inr e ↦ inl (rw e refl)
]

trim_left-blank : (n : ℕ) → trim_left (fill_field n []) ≡ []
unfolding trim_left fill_field
trim_left-blank zero = refl
trim_left-blank (suc n) = trim_left-blank n

trim_field-fill_field :
    (n : ℕ) (sv rest : List ℕ) → IsField n sv → trim_field (fill_field n sv ++ rest) n ≡ sv
unfolding trim_field view_length
trim_field-fill_field n sv rest w =
    let whole : take n (fill_field n sv ++ rest) ≡ fill_field n sv =
      take-append (fill_field n sv) rest n (length-fill_field n sv) in
    elim (trim_left-fill_field n sv w.starts) [
      | inl k ↦ rw (whole, k, length-fill_field n sv) (view-fill_field n sv w.fits w.trimmed)
      | inr e ↦ rw (whole, e, trim_left-blank n) refl
    ]

module _ (seq : ℕ) (h : seq < 2 ^ 64) where
  abbrev seq_field : List ℕ
  seq_field = replicate (20 - length (to_string seq)) b' ' ++ to_string seq

  length-seq_field : length seq_field ≡ 20
  unfolding to_string
  length-seq_field = omega (
    arith,
    length-digits_upto 20 seq,
    length-append (replicate (20 - length (to_string seq)) b' ') (to_string seq),
    length-replicate {A = ℕ} (20 - length (to_string seq)) b' ',
  )

  trim_field-seq_field : trim_field seq_field 20 ≡ to_string seq
  unfolding trim_field to_string
  trim_field-seq_field =
      let d = to_string seq in
      let v : All IsDigit d = digits_upto-IsDigit 20 seq in
      let whole : take 20 seq_field ≡ seq_field =
        ap (λ n. take n seq_field) (sym length-seq_field) ∙ take-whole seq_field in
      let trimmed : trim_left seq_field ≡ d =
        trim_left-spaces (20 - length d) d ∙ trim_left-digits d v in
      rw (whole, trimmed, view_length-digits d (length d) v (omega arith)) (take-whole d)

read_seq-to_string : (seq : ℕ) → seq < 2 ^ 64 → read_seq (to_string seq) 0 ≡ some seq
unfolding to_string read_seq
read_seq-to_string seq h =
    ap (λ x. read_seq x 0) (sym (append-nil (to_string seq)))
    ∙ read_seq-digits_upto 20 seq [] (omega arith) h

-- `decode_login_request` gives back the fields that `append_login_request` put into the payload, if
-- the texts fit in 6, 10 and 10 chars and have no spaces at their ends and the sequence number is
-- below 2 ^ 64.
pub decode_login_request-login_payload :
    (username password session : List ℕ) (seq : ℕ)
    → IsField 6 username
    → IsField 10 password
    → IsField 10 session
    → seq < 2 ^ 64
    → decode_login_request (login_payload username password session seq)
      ≡ some (record {
        username = username;
        password = password;
        requested_session = session;
        requested_seq = seq;
      })
unfolding login_payload append_alpha append_seq decode_login_request login_request
decode_login_request-login_payload username password session seq u p s h =
    let a = fill_field 6 username in
    let b = fill_field 10 password in
    let c = fill_field 10 session in
    let d = seq_field seq h in
    let fields : List (List ℕ) = a ∷ b ∷ c ∷ d ∷ [] in
    let sizes : List ℕ = 6 ∷ 10 ∷ 10 ∷ 20 ∷ [] in
    let sized : Sized sizes fields = (
      length-fill_field 6 username,
      (length-fill_field 10 password, (length-fill_field 10 session, (length-seq_field seq h, tt))),
    ) in
    let laid : a ++ b ++ c ++ d ≡ concat fields =
      append_assoc (a ++ b) c d
      ∙ append_assoc a b (c ++ d)
      ∙ ap (λ x. a ++ (b ++ (c ++ x))) (sym (append-nil d)) in
    let name : trim_field (concat fields) 6 ≡ username =
      trim_field-fill_field 6 username (concat (b ∷ c ∷ d ∷ [])) u in
    let word : trim_field (concat (b ∷ c ∷ d ∷ [])) 10 ≡ password =
      trim_field-fill_field 10 password (concat (c ∷ d ∷ [])) p in
    let chosen : trim_field (concat (c ∷ d ∷ [])) 10 ≡ session =
      trim_field-fill_field 10 session (concat (d ∷ [])) s in
    let digits : trim_field (concat (d ∷ [])) 20 ≡ to_string seq =
      ap (λ x. trim_field x 20) (append-nil d) ∙ trim_field-seq_field seq h in
    let number : read_seq (to_string seq) 0 ≡ some seq = read_seq-to_string seq h in
    rw
      (
        laid,
        length-concat sizes fields sized,
        drop-concat sizes fields sized 3,
        digits,
        number,
        name,
        drop-concat sizes fields sized 1,
        word,
        drop-concat sizes fields sized 2,
        chosen,
      )
      refl
