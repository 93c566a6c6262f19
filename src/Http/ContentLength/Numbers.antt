-- ===== src/Http/ContentLength/Numbers.antt =====
-- Numbers in the headers of http/http_conn.h.
use conv_event.Base.{
  ℕ, zero, suc, ◌+◌, ◌-◌, ◌*◌, ◌/◌, ◌%◌, ◌^◌, ◌≤◌, ◌<◌, ◌≡◌, ap, ◌∙◌, Bool, true, false, [], ◌∷◌,
  arith, Bytes, ltb, leb, ◌==◌, if◌then◌else◌, Bool-cases, inl, inr,
}
use conv_event.Http.ContentLength.{
  read_digits, strtoll, signed_number, is_white, skip_white, at_most,
}
use conv_event.Http.Response.{digits, decimal}

digit_step :
    (q d : ℕ) (text : Bytes)
    → d < 10
    → read_digits q ((48 + d) ∷ text) ≡ read_digits (q * 10 + d) text
unfolding read_digits
digit_step q d text h =
    let low : leb 48 (48 + d) ≡ true = ground arith in
    let high : leb (48 + d) 57 ≡ true = ground arith in
    let same : 48 + d - 48 ≡ d = omega arith in rw (low, high, same)

read_digits-digits :
    (fuel n : ℕ) (text : Bytes) → n < fuel → read_digits 0 (digits fuel n text) ≡ read_digits n text
unfolding digits
read_digits-digits zero n text h = absurd (omega arith)
read_digits-digits (suc fuel) n text h = elim (Bool-cases (ltb n 10)) [
  | inl small ↦ rw small (
      let below : n < 10 = ground arith in
      let same : 0 * 10 + n ≡ n = omega arith in
      digit_step 0 n text below ∙ ap (λ k. read_digits k text) same)
  | inr big ↦ rw big (
      let above : 10 ≤ n = ground arith in
      let same : n / 10 * 10 + n % 10 ≡ n = omega arith in
      read_digits-digits fuel (n / 10) ((48 + n % 10) ∷ text) (omega arith)
      ∙ digit_step (n / 10) (n % 10) text (omega arith)
      ∙ ap (λ k. read_digits k text) same)
]

-- The text of a number begins with a digit.
Begins : Bytes → Type 0
Begins [] = ⊥
Begins (c ∷ text) = (48 ≤ c) × (c ≤ 57)

digits-Begins : (fuel n c : ℕ) (text : Bytes) → 48 ≤ c → c ≤ 57 → Begins (digits fuel n (c ∷ text))
unfolding digits Begins
digits-Begins zero n c text h h' = (h, h')
digits-Begins (suc fuel) n c text h h' = elim (Bool-cases (ltb n 10)) [
  | inl small ↦ rw small (omega arith, ground arith)
  | inr big ↦
      rw big (digits-Begins fuel (n / 10) (48 + n % 10) (c ∷ text) (omega arith) (omega arith))
]

decimal-Begins : (n : ℕ) → Begins (decimal n)
unfolding decimal digits Begins
decimal-Begins n = elim (Bool-cases (ltb n 10)) [
  | inl small ↦ rw small (omega arith, ground arith)
  | inr big ↦ rw big (digits-Begins n (n / 10) (48 + n % 10) [] (omega arith) (omega arith))
]

strtoll-Begins :
    (text : Bytes) → Begins text → strtoll text ≡ at_most (2 ^ 63 - 1) (read_digits 0 text)
unfolding strtoll signed_number Begins
strtoll-Begins [] h = absurd h
strtoll-Begins (c ∷ text) h =
    let white : is_white c ≡ false = ground (arith, h.0) in
    let minus : (c == 45) ≡ false = ground (arith, h.0) in
    let plus : (c == 43) ≡ false = ground (arith, h.0) in
    ap (λ (b : Bool). signed_number (if b then skip_white text else c ∷ text)) white
    ∙ rw (minus, plus)

-- A number that is written into a header, as the length of a body is, is read back as itself if it is
-- below 2^63.
pub strtoll-decimal : (n : ℕ) → n < 2 ^ 63 → strtoll (decimal n) ≡ n
unfolding decimal read_digits
strtoll-decimal n h =
    strtoll-Begins (decimal n) (decimal-Begins n)
    ∙ ap (at_most (2 ^ 63 - 1)) (read_digits-digits (suc n) n [] (omega arith))
    ∙ ground arith
