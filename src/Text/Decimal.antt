-- ===== src/Text/Decimal.antt =====
-- `u64::from_str` on the output of `Display`.
use rust_gameserver.Base.{
  ℕ, zero, suc, ◌+◌, ◌-◌, ◌*◌, ◌/◌, ◌%◌, ◌≤◌, ◌<◌, ◌≡◌, ◌≢◌, refl, [], ◌∷◌, ◌++◌, append_assoc,
  some, Bytes, All, All-append, arith, inl, inr, Bool-cases, ltb, ltb→lt, append-nil, ◌∙◌,
}
use mathlib.Core.List.{concat-ne-nil}
use rust_gameserver.Text.{max_u64, digits, display, scan, parse_u64}

abbrev pub IsDigit : ℕ → Type 0
IsDigit c = (b'0' ≤ c) × (c ≤ b'9')

scan_digit :
    (n : ℕ) (rest : Bytes) → n ≤ max_u64 → scan ((b'0' + n % 10) ∷ rest) (n / 10) ≡ scan rest n
unfolding scan
scan_digit n rest h = ground arith

scan_small : (n : ℕ) (rest : Bytes) → n < 10 → scan ((b'0' + n) ∷ rest) 0 ≡ scan rest n
unfolding scan
scan_small n rest h = ground arith

digits_step :
    (fuel n : ℕ) → 10 ≤ n → digits (suc fuel) n ≡ digits fuel (n / 10) ++ (b'0' + n % 10) ∷ []
unfolding digits
digits_step fuel n h = ground arith

digits_last : (fuel n : ℕ) → n < 10 → digits (suc fuel) n ≡ (b'0' + n) ∷ []
unfolding digits
digits_last fuel n h = ground arith

pub scan-digits :
    (fuel n : ℕ) (rest : Bytes)
    → n < fuel
    → n ≤ max_u64
    → scan (digits fuel n ++ rest) 0 ≡ scan rest n
scan-digits zero n rest lt le = absurd (omega arith)
scan-digits (suc fuel) n rest lt le = elim (Bool-cases (ltb n 10)) [
  | inl small ↦ rw (digits_last fuel n (ground arith)) (scan_small n rest (ground arith))
  | inr big ↦
      rw (digits_step fuel n (ground arith), append_assoc)
        (scan-digits fuel (n / 10) ((b'0' + n % 10) ∷ rest) (ground arith) (omega arith)
          ∙ scan_digit n rest le)
]

pub digits-IsDigit : (fuel n : ℕ) → All IsDigit (digits fuel n)
digits-IsDigit zero n = unfold digits in tt
digits-IsDigit (suc fuel) n = elim (Bool-cases (ltb n 10)) [
  | inl small ↦ rw (digits_last fuel n (ground arith)) (omega (arith, ltb→lt n 10 small))
  | inr big ↦ rw (digits_step fuel n (ground arith)) (
      All-append IsDigit (digits fuel (n / 10)) ((b'0' + n % 10) ∷ [])
        (digits-IsDigit fuel (n / 10)) (omega arith))
]

pub digits-ne-nil : (fuel n : ℕ) → digits (suc fuel) n ≢ []
digits-ne-nil fuel n = elim (Bool-cases (ltb n 10)) [
  | inl small ↦ rw (digits_last fuel n (ground arith)) (λ e. cc)
  | inr big ↦
      rw (digits_step fuel n (ground arith)) (concat-ne-nil (b'0' + n % 10) (digits fuel (n / 10)))
]

pub parse_u64-scan : (s : Bytes) → s ≢ [] → All IsDigit s → parse_u64 s ≡ scan s 0
unfolding parse_u64
parse_u64-scan [] h d = absurd (h refl)
parse_u64-scan (c ∷ s) h d = ground arith

pub scan-nil : (n : ℕ) → scan [] n ≡ some n
unfolding scan
scan-nil n = refl

-- Every `u64` is read back from its decimal text.
pub parse_u64-display : (n : ℕ) → n ≤ max_u64 → parse_u64 (display n) ≡ some n
unfolding display
parse_u64-display n h =
    parse_u64-scan (digits (suc n) n) (digits-ne-nil n n) (digits-IsDigit (suc n) n)
    ∙ rw append-nil at (scan-digits (suc n) n [] (omega arith) h)
    ∙ scan-nil n

-- What is read is a `u64`.
pub scan_bound : (s : Bytes) (n r : ℕ) → n ≤ max_u64 → scan s n ≡ some r → r ≤ max_u64
unfolding scan
scan_bound [] n r le h = ground arith
scan_bound (c ∷ s) n r le h = ground (arith, scan_bound s (n * 10 + (c - b'0')) r)

pub parse_u64_bound : (s : Bytes) (r : ℕ) → parse_u64 s ≡ some r → r ≤ max_u64
unfolding parse_u64
parse_u64_bound [] r h = cc
parse_u64_bound (c ∷ s) r h = ground (arith, scan_bound s 0 r, scan_bound (c ∷ s) 0 r)
