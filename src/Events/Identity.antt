-- ===== src/Events/Identity.antt =====
-- The identity of an event: the hashed text tells all of its source, and nothing of the replay.
use kafka_flink_click_house.Base.{
  ℕ, ◌≡◌, ◌≢◌, ◌⊎◌, inl, inr, ◌∷◌, ◌++◌, append_assoc, ne_of_beq, Text, arith, list_eq, nat_eq,
  ◌==◌, Bool-cases, eq-of-beq, ℤ,
}
use kafka_flink_click_house.Text.{str, join}
use kafka_flink_click_house.Text.Decimal.{IsApart, str-Free, str-injective}
use kafka_flink_click_house.Text.Separated.{Free, cut_first, cut_last}
use kafka_flink_click_house.Events.{Source, canonical, unit_separator, deterministic_event_id}

separator-IsApart : IsApart unit_separator
separator-IsApart = (λ c h e. omega arith, λ e. omega arith)

separator_str-Free : (z : ℤ) → Free unit_separator (str z)
separator_str-Free z = str-Free unit_separator z separator-IsApart

-- No two sources are hashed as the same text, whatever stands in `behavior_type`.
pub canonical-injective : (a b : Source) → canonical a ≡ canonical b → a ≡ b
unfolding canonical join
canonical-injective a b h =
    let sep : ℕ = unit_separator in
    let (users, h₁) =
      cut_first sep (str a.user_id) (str b.user_id) (separator_str-Free _) (separator_str-Free _)
        h in
    let (items, h₂) =
      cut_first sep (str a.item_id) (str b.item_id) (separator_str-Free _) (separator_str-Free _)
        h₁ in
    let (categories, h₃) =
      cut_first sep (str a.category_id) (str b.category_id) (separator_str-Free _)
        (separator_str-Free _) h₂ in
    let (times, sequences) =
      cut_last sep (a.behavior_type ++ (sep ∷ str a.timestamp))
        (b.behavior_type ++ (sep ∷ str b.timestamp)) (separator_str-Free a.source_sequence)
        (separator_str-Free b.source_sequence) (simp append_assoc h₃) in
    let (behaviors, stamps) =
      cut_last sep a.behavior_type b.behavior_type (separator_str-Free _) (separator_str-Free _)
        times in
    λ i. record {
      user_id = str-injective a.user_id b.user_id users i;
      item_id = str-injective a.item_id b.item_id items i;
      category_id = str-injective a.category_id b.category_id categories i;
      behavior_type = behaviors i;
      timestamp = str-injective a.timestamp b.timestamp stamps i;
      source_sequence = str-injective a.source_sequence b.source_sequence sequences i;
    }

-- Two texts with one hash.
abbrev pub Collision : (Text → Text) → Type 0
Collision sha256 = (x : Text) × (y : Text) × (x ≢ y) × (sha256 x ≡ sha256 y)

-- Two sources have one identity only if they agree in all six fields, or if their texts collide
-- under the hash.
pub deterministic_event_id-eq :
    (sha256 : Text → Text) (a b : Source)
    → deterministic_event_id sha256 a ≡ deterministic_event_id sha256 b
    → (a ≡ b) ⊎ Collision sha256
unfolding deterministic_event_id
deterministic_event_id-eq sha256 a b h = elim (Bool-cases (canonical a == canonical b)) [
  | inl same ↦ inl (canonical-injective a b (eq-of-beq (canonical a) (canonical b) same))
  | inr differ ↦ inr (canonical a, canonical b, ne_of_beq (canonical a) (canonical b) differ, h)
]
