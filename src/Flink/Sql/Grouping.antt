-- ===== src/Flink/Sql/Grouping.antt =====
-- sql.py: how the loop of `split_statements` groups the lines, by its own tests of a line.
use kafka_flink_click_house.Base.{
  ◌≡◌, refl, sym, ap, ◌∙◌, true, false, Bool-cases, inl, inr, Option, none, some, List, [], ◌∷◌,
  ◌++◌, append_assoc, append-nil, map, Text, All, arith, if◌then◌else◌,
}
use kafka_flink_click_house.Text.{strip, join}
use kafka_flink_click_house.Flink.Sql.{
  is_comment, is_end, any_text, newline, put_first, statements_from, split_statements,
}

-- Lines of which the last one ends a statement and no other does, as the code tests it.
abbrev pub IsStatement : List Text → Type 0
IsStatement [] = ⊥
IsStatement (line ∷ []) = is_end line ≡ true
IsStatement (line ∷ next ∷ lines) = (is_end line ≡ false) × IsStatement (next ∷ lines)

IsOpen : Text → Type 0
IsOpen line = is_end line ≡ false

-- The lines that are not comments.
abbrev pub kept : List Text → List Text
kept [] = []
kept (line ∷ lines) = if is_comment line then kept lines else line ∷ kept lines

abbrev pub concat : List (List Text) → List Text
concat [] = []
concat (g ∷ gs) = g ++ concat gs

abbrev pub text_of : List Text → Text
text_of lines = strip (join newline lines)

pub record IsGrouped (lines : List Text) (statements : List Text) : Type 0 where
  pub groups : List (List Text)
  pub tail : List Text
  pub whole : lines ≡ concat groups ++ tail
  pub texts : map text_of groups ≡ statements
  pub ended : All IsStatement groups
  pub blank : any_text tail ≡ false

IsStatement-append :
    (buffer : List Text) (line : Text)
    → All IsOpen buffer
    → is_end line ≡ true
    → IsStatement (buffer ++ (line ∷ []))
unfolding IsOpen
IsStatement-append [] line h e = e
IsStatement-append (a ∷ []) line h e = (h.0, e)
IsStatement-append (a ∷ b ∷ buffer) line h e = (h.0, IsStatement-append (b ∷ buffer) line h.1 e)

All-IsOpen :
    (buffer : List Text) (line : Text)
    → All IsOpen buffer
    → is_end line ≡ false
    → All IsOpen (buffer ++ (line ∷ []))
unfolding IsOpen
All-IsOpen [] line h e = (e, tt)
All-IsOpen (a ∷ buffer) line h e = (h.0, All-IsOpen buffer line h.1 e)

put_first-eq :
    (s : Text) (r : Option (List Text)) (ss : List Text)
    → put_first s r ≡ some ss
    → (rest : List Text) × (r ≡ some rest) × (s ∷ rest ≡ ss)
put_first-eq s none ss h = cc
put_first-eq s (some rest) ss h = (rest, refl, cc)

IsGrouped-blank :
    (buffer ss : List Text) → statements_from buffer [] ≡ some ss → IsGrouped buffer ss
unfolding statements_from
IsGrouped-blank buffer ss h = record {
  groups = [];
  tail = buffer;
  whole = refl;
  texts = ground arith;
  ended = tt;
  blank = ground arith;
}

statements_from_comment :
    (buffer lines : List Text) (line : Text)
    → is_comment line ≡ true
    → statements_from buffer (line ∷ lines) ≡ statements_from buffer lines
unfolding statements_from
statements_from_comment buffer lines line c = rw c refl

statements_from_end :
    (buffer lines : List Text) (line : Text)
    → is_comment line ≡ false
    → is_end line ≡ true
    → statements_from buffer (line ∷ lines)
      ≡ put_first (text_of (buffer ++ (line ∷ []))) (statements_from [] lines)
unfolding statements_from
statements_from_end buffer lines line c e = rw (c, e) refl

statements_from_more :
    (buffer lines : List Text) (line : Text)
    → is_comment line ≡ false
    → is_end line ≡ false
    → statements_from buffer (line ∷ lines) ≡ statements_from (buffer ++ (line ∷ [])) lines
unfolding statements_from
statements_from_more buffer lines line c e = rw (c, e) refl

IsGrouped-ended :
    (buffer lines ss rest : List Text) (line : Text)
    → All IsOpen buffer
    → is_end line ≡ true
    → text_of (buffer ++ (line ∷ [])) ∷ rest ≡ ss
    → IsGrouped (kept lines) rest
    → IsGrouped (buffer ++ (line ∷ kept lines)) ss
IsGrouped-ended buffer lines ss rest line unended e eq h = record {
  groups = (buffer ++ (line ∷ [])) ∷ h.groups;
  tail = h.tail;
  whole =
      sym (append_assoc buffer (line ∷ []) (kept lines))
      ∙ ap (λ l. (buffer ++ (line ∷ [])) ++ l) h.whole
      ∙ sym (append_assoc (buffer ++ (line ∷ [])) (concat h.groups) h.tail);
  texts = ap (λ l. text_of (buffer ++ (line ∷ [])) ∷ l) h.texts ∙ eq;
  ended = (IsStatement-append buffer line unended e, h.ended);
  blank = h.blank;
}

statements_from-IsGrouped :
    (lines buffer ss : List Text)
    → All IsOpen buffer
    → statements_from buffer lines ≡ some ss
    → IsGrouped (buffer ++ kept lines) ss
statements_from-IsGrouped [] buffer ss unended h =
    rw (append-nil buffer) (IsGrouped-blank buffer ss h)
statements_from-IsGrouped (line ∷ lines) buffer ss unended h = elim (Bool-cases (is_comment line)) [
  | inl c ↦ rw c (
      statements_from-IsGrouped lines buffer ss unended
        (sym (statements_from_comment buffer lines line c) ∙ h))
  | inr c ↦ elim (Bool-cases (is_end line)) [
    | inl e ↦
        let (rest, r, eq) =
          put_first-eq (text_of (buffer ++ (line ∷ []))) (statements_from [] lines) ss
            (sym (statements_from_end buffer lines line c e) ∙ h) in
        rw c (
          IsGrouped-ended buffer lines ss rest line unended e eq
            (statements_from-IsGrouped lines [] rest tt r))
    | inr e ↦
        rw (c, sym (append_assoc buffer (line ∷ []) (kept lines)))
          (statements_from-IsGrouped lines (buffer ++ (line ∷ [])) ss
            (All-IsOpen buffer line unended e)
            (sym (statements_from_more buffer lines line c e) ∙ h))
  ]
]

pub split_statements-IsGrouped :
    (lines statements : List Text)
    → split_statements lines ≡ some statements
    → IsGrouped (kept lines) statements
unfolding split_statements
split_statements-IsGrouped lines statements h = statements_from-IsGrouped lines [] statements tt h
