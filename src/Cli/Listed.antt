-- ===== src/Cli/Listed.antt =====
-- cli.py: what `_validate_outputs` tells of the list of the outputs that are files.
use kafka_flink_click_house.Base.{
  Bool, true, false, Bool-cases, ◌||◌, ◌≡◌, ◌≢◌, ◌↔◌, refl, inl, inr, Option, List, [], ◌∷◌, map,
  Text, ◌==◌, nat_eq, list_eq, contains, ne_of_beq, beq_of_ne, ok, raise_if-ok, All,
}
use kafka_flink_click_house.Replay.Player.{Floats}
use kafka_flink_click_house.Cli.Disk.{Names, World, exists}
use kafka_flink_click_house.Cli.Errors.{overwrites_input, same_outputs}
use kafka_flink_click_house.Cli.Paths.{
  requested, has_duplicate, first_existing, refuse_existing, validate_outputs,
}

or_false : (a b : Bool) → ((a || b) ≡ false) ↔ ((a ≡ false) × (b ≡ false))
or_false true b = (λ h. cc, λ h. cc (h.0))
or_false false b = (λ h. (refl, h), λ h. h.1)

-- Each two of them differ.
abbrev pub Distinct : List Text → Type 0
Distinct [] = Unit
Distinct (x ∷ xs) = All (λ y. x ≢ y) xs × Distinct xs

pub contains-false : (xs : List Text) (x : Text) → (contains xs x ≡ false) ↔ All (λ y. x ≢ y) xs
contains-false [] x = (λ h. tt, λ h. refl)
contains-false (y ∷ xs) x =
    let rest = contains-false xs x in
    let split = or_false (x == y) (contains xs x) in
    (
      λ h. let (a, b) = split.0 h in (ne_of_beq x y a, rest.0 b),
      λ (a, b). split.1 (beq_of_ne x y a, rest.1 b),
    )

has_duplicate-false : (xs : List Text) → (has_duplicate xs ≡ false) ↔ Distinct xs
unfolding has_duplicate
has_duplicate-false [] = (λ h. tt, λ h. refl)
has_duplicate-false (x ∷ xs) =
    let first = contains-false xs x in
    let rest = has_duplicate-false xs in
    let split = or_false (contains xs x) (has_duplicate xs) in
    (λ h. let (a, b) = split.0 h in (first.0 a, rest.0 b), λ (a, b). split.1 (first.1 a, rest.1 b))

module _ (F : Floats) (names : Names) where
  first_existing-none :
      (paths : List Text) (w : World F)
      → (refuse_existing F names (first_existing F names paths w) ≡ ok tt)
        ↔ All (λ path. exists F names path w ≡ false) paths
  unfolding first_existing
  first_existing-none [] w = (λ h. tt, λ h. refl)
  first_existing-none (path ∷ paths) w =
      let rest = first_existing-none paths w in
      elim (Bool-cases (exists F names path w)) [
        | inl there ↦ rw there (λ h. cc, λ h. cc (h.0))
        | inr absent ↦ rw absent (λ h. (refl, rest.0 h), λ h. rest.1 (h.1))
      ]

  -- None of the listed outputs is the input, they differ, and without `--force` none of them exists.
  pub record IsListed (input output : Text) (invalid : Option Text) (force : Bool) (w : World F)
      : Type 0 where
    pub apart :
        All (λ key. names.resolve input ≢ key) (map names.resolve (requested output invalid))
    pub distinct : Distinct (map names.resolve (requested output invalid))
    pub fresh :
        force ≡ false → All (λ path. exists F names path w ≡ false) (requested output invalid)

  forced :
      (force : Bool) (paths : List Text) (w : World F)
      → (elim force [
        | true ↦ ok tt
        | false ↦ refuse_existing F names (first_existing F names paths w)
      ]
          ≡ ok tt)
        ↔ (force ≡ false → All (λ path. exists F names path w ≡ false) paths)
  forced true paths w = (λ h f. cc, λ h. refl)
  forced false paths w =
      let law = first_existing-none paths w in (λ h f. law.0 h, λ h. law.1 (h refl))

  pub validate_outputs-IsListed :
      (input output : Text) (invalid : Option Text) (force : Bool) (w : World F)
      → (validate_outputs F names input output invalid force w ≡ ok tt)
        ↔ IsListed input output invalid force w
  unfolding validate_outputs
  validate_outputs-IsListed input output invalid force w =
      let paths = requested output invalid in
      let resolved = map names.resolve paths in
      let first = raise_if-ok (contains resolved (names.resolve input)) overwrites_input _ in
      let second = raise_if-ok (has_duplicate resolved) same_outputs _ in
      let apart = contains-false resolved (names.resolve input) in
      let distinct = has_duplicate-false resolved in
      let fresh = forced force paths w in
      (
        λ h.
            let (a, rest) = first.0 h in
            let (d, f) = second.0 rest in
            record { apart = apart.0 a; distinct = distinct.0 d; fresh = fresh.0 f },
        λ r. first.1 (apart.1 r.apart, second.1 (distinct.1 r.distinct, fresh.1 r.fresh)),
      )
