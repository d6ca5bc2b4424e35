-- ===== src/Text.antt =====
-- The operations of Python's `str` and `int` that the program calls: `strip`, `split`, `join`,
-- `int(text)` and `str(number)`. Text is the list of its code points. The laws are in the modules
-- below.
pub mod Strip
pub mod Decimal
pub mod Separated
use kafka_flink_click_house.Base.{
  ℕ, zero, suc, ◌+◌, ◌-◌, ◌*◌, ◌/◌, ◌%◌, ◌≡◌, refl, Bool, true, false, not, ◌&&◌, ◌||◌, Option,
  none, some, List, [], ◌∷◌, ◌++◌, Text, codes, ◌==◌, nat_eq, list_eq, ltb, leb, if◌then◌else◌, ℤ,
  pos, negsuc, neg_ℤ,
}

-- `str.isspace` of one character.
abbrev pub is_space : ℕ → Bool
is_space c =
    (leb 9 c && leb c 13)
    || (leb 28 c && leb c 32)
    || c == 0x85
    || c == 0xa0
    || c == 0x1680
    || (leb 0x2000 c && leb c 0x200a)
    || c == 0x2028
    || c == 0x2029
    || c == 0x202f
    || c == 0x205f
    || c == 0x3000

module _ (p : ℕ → Bool) where
  -- `str.lstrip` and `str.rstrip` of the characters that `p` tells.
  unfoldable pub lstrip_by : Text → Text
  lstrip_by [] = []
  lstrip_by (c ∷ s) = if p c then lstrip_by s else c ∷ s

  -- The character in front of what is left behind it.
  abbrev pub before : ℕ → Text → Text
  before c [] = if p c then [] else c ∷ []
  before c (d ∷ s) = c ∷ d ∷ s

  unfoldable pub rstrip_by : Text → Text
  rstrip_by [] = []
  rstrip_by (c ∷ s) = before c (rstrip_by s)

  unfoldable pub strip_by : Text → Text
  unfolding lstrip_by rstrip_by
  strip_by s = rstrip_by (lstrip_by s)

-- `text.strip()`
unfoldable pub strip : Text → Text
unfolding strip_by
strip = strip_by is_space

-- `not text.strip()`
unfoldable pub is_blank : Text → Bool
unfolding strip
is_blank s = strip s == []

-- The first character of each block of ten decimal digits (Unicode 14.0, as in Python 3.11).
abbrev digit_blocks : List ℕ
digit_blocks =
    0x30 ∷ 0x660 ∷ 0x6f0 ∷ 0x7c0 ∷ 0x966 ∷ 0x9e6 ∷ 0xa66 ∷ 0xae6 ∷ 0xb66 ∷ 0xbe6 ∷ 0xc66 ∷ 0xce6
    ∷ 0xd66 ∷ 0xde6 ∷ 0xe50 ∷ 0xed0 ∷ 0xf20 ∷ 0x1040 ∷ 0x1090 ∷ 0x17e0 ∷ 0x1810 ∷ 0x1946 ∷ 0x19d0
    ∷ 0x1a80 ∷ 0x1a90 ∷ 0x1b50 ∷ 0x1bb0 ∷ 0x1c40 ∷ 0x1c50 ∷ 0xa620 ∷ 0xa8d0 ∷ 0xa900 ∷ 0xa9d0
    ∷ 0xa9f0 ∷ 0xaa50 ∷ 0xabf0 ∷ 0xff10 ∷ 0x104a0 ∷ 0x10d30 ∷ 0x11066 ∷ 0x110f0 ∷ 0x11136 ∷ 0x111d0
    ∷ 0x112f0 ∷ 0x11450 ∷ 0x114d0 ∷ 0x11650 ∷ 0x116c0 ∷ 0x11730 ∷ 0x118e0 ∷ 0x11950 ∷ 0x11c50
    ∷ 0x11d50 ∷ 0x11da0 ∷ 0x16a60 ∷ 0x16ac0 ∷ 0x16b50 ∷ 0x1d7ce ∷ 0x1d7d8 ∷ 0x1d7e2 ∷ 0x1d7ec
    ∷ 0x1d7f6 ∷ 0x1e140 ∷ 0x1e2f0 ∷ 0x1e950 ∷ 0x1fbf0 ∷ []

digit_in : List ℕ → ℕ → Option ℕ
digit_in [] c = none
digit_in (b ∷ bs) c =
    let rest = digit_in bs c in if leb b c && leb c (b + 9) then some (c - b) else rest

-- The value of a decimal digit, of any script.
digit_value : ℕ → Option ℕ
unfolding digit_in
digit_value c = digit_in digit_blocks c

count_digits : Text → ℕ
count_digits [] = 0
count_digits (c ∷ s) = elim (digit_value c) [
  | none ↦ count_digits s
  | some d ↦ suc (count_digits s)
]

-- Digits with single underscores between them. The flag says that a digit must come next.
unfoldable pub scan_digits : Bool → ℕ → Text → Option ℕ
unfolding digit_value
scan_digits true n [] = none
scan_digits false n [] = some n
scan_digits fresh n (c ∷ s) = elim (digit_value c) [
  | some d ↦ scan_digits false (n * 10 + d) s
  | none ↦ let rest = scan_digits true n s in if c == b'_' && not fresh then rest else none
]

-- Python refuses to read a number of more digits (`sys.int_info.default_max_str_digits`).
abbrev pub max_str_digits : ℕ
max_str_digits = 4300

unsigned : Text → Option ℕ
unfolding count_digits scan_digits digit_value
unsigned s = if ltb max_str_digits (count_digits s) then none else scan_digits true 0 s

signed : Text → Option ℤ
unfolding unsigned
signed [] = none
signed (c ∷ s) =
    if c == b'-'
    then elim (unsigned s) [ none ↦ none | some n ↦ some (neg_ℤ (pos n)) ]
    else if c == b'+'
    then elim (unsigned s) [ none ↦ none | some n ↦ some (pos n) ]
    else elim (unsigned (c ∷ s)) [ none ↦ none | some n ↦ some (pos n) ]

-- The space that `int` ignores round a number: not the four separators 0x1c to 0x1f.
abbrev is_int_space : ℕ → Bool
is_int_space c = is_space c && not (leb 28 c && leb c 31)

-- `int(text)`, where `none` is its `ValueError`.
unfoldable pub int : Text → Option ℤ
unfolding signed strip_by neg_ℤ
int s = signed (strip_by is_int_space s)

-- The digits of `n`, from the last to the first, in front of `out`.
decimal_onto : ℕ → ℕ → Text → Text
decimal_onto zero n out = out
decimal_onto (suc fuel) n out =
    let rest = decimal_onto fuel (n / 10) ((b'0' + n % 10) ∷ out) in
    if ltb n 10 then (b'0' + n) ∷ out else rest

-- `str(n)` of a number that is not negative. It has no more digits than `n + 1`.
unfoldable pub str_nat : ℕ → Text
unfolding decimal_onto
str_nat n = decimal_onto (suc n) n []

-- `str(n)`
unfoldable pub str : ℤ → Text
unfolding str_nat
str (pos n) = str_nat n
str (negsuc n) = b'-' ∷ str_nat (suc n)

-- `sep.join(parts)`
unfoldable pub join : ℕ → List Text → Text
join sep [] = []
join sep (p ∷ []) = p
join sep (p ∷ q ∷ ps) = p ++ (sep ∷ join sep (q ∷ ps))

abbrev onto_head : ℕ → List Text → List Text
onto_head c [] = (c ∷ []) ∷ []
onto_head c (p ∷ ps) = (c ∷ p) ∷ ps

-- `text.split(sep)` at a separator of one character.
unfoldable pub split : ℕ → Text → List Text
split sep [] = [] ∷ []
split sep (c ∷ s) = let rest = split sep s in if c == sep then [] ∷ rest else onto_head c rest

strip_test : strip (codes " \t a b\n") ≡ codes "a b"
unfolding strip
strip_test = refl

int_test : int (codes " -1_204 ") ≡ some (negsuc 1203)
unfolding int
int_test = refl

str_test : str (negsuc 1203) ≡ codes "-1204"
unfolding str
str_test = refl

split_test : split b'|' (codes "a||b") ≡ codes "a" ∷ [] ∷ codes "b" ∷ []
unfolding split
split_test = refl
