-- ===== src/Text/Decimal.antt =====
-- `int` reads back what `str` writes, and `str` writes no two numbers alike.
use kafka_flink_click_house.Base.{
  ℕ, zero, suc, ◌+◌, ◌-◌, ◌*◌, ◌/◌, ◌%◌, ◌≤◌, ◌<◌, ◌≡◌, ◌≢◌, refl, sym, ap, ◌∙◌, subst, Bool, true,
  false, inl, inr, Bool-cases, some, [], ◌∷◌, Text, arith, All, length, ltb, ℤ, pos, negsuc, neg_ℤ,
  le→ltb,
}
use kafka_flink_click_house.Text.{
  digit_value, count_digits, scan_digits, unsigned, signed, int, decimal_onto, str_nat, str,
  max_str_digits, is_space, is_int_space, strip,
}
use kafka_flink_click_house.Text.Separated.{Free}
use kafka_flink_click_house.Text.Strip.{strip_by_none, strip_none}

-- A character that `str` writes for a digit.
abbrev pub IsDigit : ℕ → Type 0
IsDigit c = (b'0' ≤ c) × (c ≤ b'9')

digit_value_lem : (c : ℕ) → IsDigit c → digit_value c ≡ some (c - b'0')
unfolding digit_value
digit_value_lem c h = ground arith

decimal_onto-IsDigit :
    (fuel n : ℕ) (out : Text) → All IsDigit out → All IsDigit (decimal_onto fuel n out)
unfolding decimal_onto
decimal_onto-IsDigit zero n out h = h
decimal_onto-IsDigit (suc fuel) n out h = elim (Bool-cases (ltb n 10)) [
  | inl e ↦ rw e ((ground arith, ground arith), h)
  | inr e ↦
      rw e
        (decimal_onto-IsDigit fuel (n / 10) ((b'0' + n % 10) ∷ out) ((omega arith, omega arith), h))
]

pub str_nat-IsDigit : (n : ℕ) → All IsDigit (str_nat n)
unfolding str_nat
str_nat-IsDigit n = decimal_onto-IsDigit (suc n) n [] tt

scan_digit :
    (fresh : Bool) (n c : ℕ) (s : Text)
    → IsDigit c
    → scan_digits fresh n (c ∷ s) ≡ scan_digits false (n * 10 + (c - b'0')) s
unfolding scan_digits
scan_digit true n c s h = rw (digit_value_lem c h, scan_digits)
scan_digit false n c s h = rw (digit_value_lem c h, scan_digits)

scan-decimal_onto :
    (fuel n : ℕ) (out : Text)
    → n < fuel
    → scan_digits true 0 (decimal_onto fuel n out) ≡ scan_digits false n out
unfolding decimal_onto
scan-decimal_onto zero n out h = absurd (omega arith)
scan-decimal_onto (suc fuel) n out h = elim (Bool-cases (ltb n 10)) [
  | inl e ↦ rw e (
      scan_digit true 0 (b'0' + n) out (ground arith, ground arith)
      ∙ ap (λ k. scan_digits false k out) (omega arith))
  | inr e ↦ rw e (
      scan-decimal_onto fuel (n / 10) ((b'0' + n % 10) ∷ out) (ground arith)
      ∙ scan_digit false (n / 10) (b'0' + n % 10) out (omega arith, omega arith)
      ∙ ap (λ k. scan_digits false k out) (omega arith))
]

-- Reading the digits of a number gives the number.
pub scan-str_nat : (n : ℕ) → scan_digits true 0 (str_nat n) ≡ some n
unfolding str_nat scan_digits
scan-str_nat n = scan-decimal_onto (suc n) n [] (omega arith)

count_digits-length : (s : Text) → All IsDigit s → count_digits s ≡ length s
unfolding count_digits
count_digits-length [] h = refl
count_digits-length (c ∷ s) h =
    rw (digit_value_lem c h.0, count_digits) (ap suc (count_digits-length s h.1))

unsigned-str_nat : (n : ℕ) → length (str_nat n) ≤ max_str_digits → unsigned (str_nat n) ≡ some n
unfolding unsigned
unsigned-str_nat n h =
    rw (count_digits-length (str_nat n) (str_nat-IsDigit n), le→ltb max_str_digits _ h)
      (scan-str_nat n)

signed_digits : (s : Text) {n : ℕ} → All IsDigit s → unsigned s ≡ some n → signed s ≡ some (pos n)
unfolding signed
signed_digits [] h e = unfold unsigned in cc
signed_digits (c ∷ s) h e = ground arith

IsDigit-not_space : (s : Text) → All IsDigit s → All (λ c. is_space c ≡ false) s
IsDigit-not_space [] h = tt
IsDigit-not_space (c ∷ s) h = (ground arith, IsDigit-not_space s h.1)

str-not_space : (z : ℤ) → All (λ c. is_space c ≡ false) (str z)
unfolding str
str-not_space (pos n) = IsDigit-not_space (str_nat n) (str_nat-IsDigit n)
str-not_space (negsuc n) = (refl, IsDigit-not_space (str_nat (suc n)) (str_nat-IsDigit (suc n)))

-- A number that was written is not changed by `strip`.
pub strip-str : (z : ℤ) → strip (str z) ≡ str z
strip-str z = strip_none (str z) (str-not_space z)

-- How many digits `str` writes.
abbrev pub digits : ℤ → ℕ
digits (pos n) = length (str_nat n)
digits (negsuc n) = length (str_nat (suc n))

signed-str : (z : ℤ) → digits z ≤ max_str_digits → signed (str z) ≡ some z
unfolding str
signed-str (pos n) h = signed_digits (str_nat n) (str_nat-IsDigit n) (unsigned-str_nat n h)
signed-str (negsuc n) h = unfold signed neg_ℤ in rw (unsigned-str_nat (suc n) h) (ground arith)

not_int_space : (s : Text) → All (λ c. is_space c ≡ false) s → All (λ c. is_int_space c ≡ false) s
not_int_space [] h = tt
not_int_space (c ∷ s) h = (rw h.0, not_int_space s h.1)

pub int-str : (z : ℤ) → digits z ≤ max_str_digits → int (str z) ≡ some z
unfolding int
int-str z h =
    ap signed (strip_by_none is_int_space (str z) (not_int_space (str z) (str-not_space z)))
    ∙ signed-str z h

some-scan : (m n : ℕ) → str_nat m ≡ str_nat n → m ≡ n
some-scan m n h = let e = sym (scan-str_nat m) ∙ ap (scan_digits true 0) h ∙ scan-str_nat n in cc

abbrev MinusFree : Text → Type 0
MinusFree [] = Unit
MinusFree (c ∷ s) = b'0' ≤ c

IsDigit-MinusFree : (s : Text) → All IsDigit s → MinusFree s
IsDigit-MinusFree [] h = tt
IsDigit-MinusFree (c ∷ s) h = h.0.0

no_minus : (m n : ℕ) → str_nat m ≡ b'-' ∷ str_nat n → ⊥
no_minus m n h =
    let d = subst MinusFree h (IsDigit-MinusFree (str_nat m) (str_nat-IsDigit m)) in
    absurd (omega arith)

pub str-injective : (y z : ℤ) → str y ≡ str z → y ≡ z
unfolding str
str-injective (pos m) (pos n) h = ap pos (some-scan m n h)
str-injective (pos m) (negsuc n) h = absurd (no_minus m (suc n) h)
str-injective (negsuc m) (pos n) h = absurd (no_minus n (suc m) (sym h))
str-injective (negsuc m) (negsuc n) h =
    let e = some-scan (suc m) (suc n) (cc) in ap negsuc (omega arith)

-- A separator that is neither a digit nor the sign.
abbrev pub IsApart : ℕ → Type 0
IsApart sep = ((c : ℕ) → IsDigit c → c ≢ sep) × (b'-' ≢ sep)

IsDigit-Free : (sep : ℕ) (s : Text) → IsApart sep → All IsDigit s → Free sep s
IsDigit-Free sep [] apart h = tt
IsDigit-Free sep (c ∷ s) apart h = (apart.0 c h.0, IsDigit-Free sep s apart h.1)

pub str-Free : (sep : ℕ) (z : ℤ) → IsApart sep → Free sep (str z)
unfolding str
str-Free sep (pos n) apart = IsDigit-Free sep (str_nat n) apart (str_nat-IsDigit n)
str-Free sep (negsuc n) apart =
    (apart.1, IsDigit-Free sep (str_nat (suc n)) apart (str_nat-IsDigit (suc n)))
