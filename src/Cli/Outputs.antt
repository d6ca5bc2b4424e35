-- ===== src/Cli/Outputs.antt =====
-- cli.py: which output paths `_validate_outputs` lets pass.
use kafka_flink_click_house.Base.{
  Bool, true, false, not, ◌≡◌, ◌≢◌, ◌↔◌, refl, subst, sym, Option, none, some, List, [], ◌∷◌, map,
  Text, codes, ◌==◌, nat_eq, list_eq, beq_of_ne, ne_of_beq, not-true, and_iff, All, ok,
  if◌then◌else◌,
}
use kafka_flink_click_house.Replay.Player.{Floats}
use kafka_flink_click_house.Cli.Disk.{Names, World, exists}
use kafka_flink_click_house.Cli.Paths.{names_file, requested_one, requested, validate_outputs}
use kafka_flink_click_house.Cli.Handles.{All-requested, All-map}
use kafka_flink_click_house.Cli.Listed.{Distinct, validate_outputs-IsListed}

-- A path that is given and is not the standard output.
abbrev pub IsNamed : Text → Type 0
IsNamed path = (path ≢ []) × (path ≢ codes "-")

pub names_file_iff : (path : Text) → (names_file path ≡ true) ↔ IsNamed path
names_file_iff [] = (λ h. cc, λ (h, _). absurd (h refl))
names_file_iff (c ∷ s) =
    let both = and_iff true (not ((c ∷ s) == codes "-")) in
    (
      λ h. (λ e. cc, ne_of_beq (c ∷ s) (codes "-") (not-true _ (both.0 h).1)),
      λ (_, h). rw (beq_of_ne (c ∷ s) (codes "-") h) refl,
    )

if-All :
    (P : Text → Type 0) (b : Bool) (path : Text) (rest : List Text)
    → (b ≡ true → P path)
    → All P rest
    → All P (if b then path ∷ rest else rest)
if-All P true path rest h k = (h refl, k)
if-All P false path rest h k = k

-- What is true of both outputs, as far as they are files.
abbrev Both : (Text → Type 0) → Text → Option Text → Type 0
Both P output invalid =
    (IsNamed output → P output) × ((p : Text) → invalid ≡ some p → IsNamed p → P p)

requested_iff :
    (P : Text → Type 0) (output : Text) (invalid : Option Text)
    → All P (requested output invalid) ↔ Both P output invalid
unfolding requested
requested_iff P output invalid = (
  λ h.
      let (first, second) = All-requested P output invalid h in
      (λ n. first ((names_file_iff output).1 n), λ p e n. second p e ((names_file_iff p).1 n)),
  back invalid,
)
  where
    back : (invalid : Option Text) → Both P output invalid → All P (requested output invalid)
    back none (h, k) =
        if-All P (names_file output) output [] (λ n. h ((names_file_iff output).0 n)) tt
    back (some p) (h, k) =
        if-All P (names_file output) output (requested_one p [])
          (λ n. h ((names_file_iff output).0 n))
          (if-All P (names_file p) p [] (λ n. k p refl ((names_file_iff p).0 n)) tt)

map-All :
    {A B : Type 0} (P : B → Type 0) (f : A → B) (xs : List A)
    → All (λ x. P (f x)) xs
    → All P (map f xs)
map-All P f [] h = tt
map-All P f (x ∷ xs) (p, h) = (p, map-All P f xs h)

two-Distinct :
    (f : Text → Text) (a b : Bool) (x y : Text)
    → Distinct (map f (let rest = if b then y ∷ [] else [] in if a then x ∷ rest else rest))
      ↔ (a ≡ true → b ≡ true → f x ≢ f y)
two-Distinct f true true x y = (λ h _ _. h.0.0, λ h. ((h refl refl, tt), (tt, tt)))
two-Distinct f true false x y = (λ h _ e. cc, λ h. (tt, tt))
two-Distinct f false true x y = (λ h e _. cc, λ h. (tt, tt))
two-Distinct f false false x y = (λ h e _. cc, λ h. tt)

one-Distinct : (f : Text → Text) (a : Bool) (x : Text) → Distinct (map f (if a then x ∷ [] else []))
one-Distinct f true x = (tt, tt)
one-Distinct f false x = tt

-- Both outputs are different files, if they are files.
abbrev Differ : (Text → Text) → Text → Option Text → Type 0
Differ resolve output invalid =
    (p : Text) → invalid ≡ some p → IsNamed output → IsNamed p → resolve output ≢ resolve p

requested-Distinct :
    (resolve : Text → Text) (output : Text) (invalid : Option Text)
    → Distinct (map resolve (requested output invalid)) ↔ Differ resolve output invalid
unfolding requested
requested-Distinct resolve output none =
    (λ h p e. cc, λ h. one-Distinct resolve (names_file output) output)
requested-Distinct resolve output (some p) =
    let law = two-Distinct resolve (names_file output) (names_file p) output p in
    (
      λ h q e n m.
          let same : p ≡ q = cc in
          subst (λ x. resolve output ≢ resolve x) same
            (law.0 h ((names_file_iff output).1 n)
              ((names_file_iff p).1 (subst IsNamed (sym same) m))),
      λ h. law.1 (λ n m. h p refl ((names_file_iff output).0 n) ((names_file_iff p).0 m)),
    )

module _ (F : Floats) (names : Names) where
  -- Neither output is the input, the outputs are different files, and without `--force` neither
  -- exists, as far as each is a file.
  pub record IsAcceptable (input output : Text) (invalid : Option Text) (force : Bool) (w : World F)
      : Type 0 where
    pub output_apart : IsNamed output → names.resolve input ≢ names.resolve output
    pub invalid_apart :
        (p : Text) → invalid ≡ some p → IsNamed p → names.resolve input ≢ names.resolve p
    pub distinct :
        (p : Text)
        → invalid ≡ some p
        → IsNamed output
        → IsNamed p
        → names.resolve output ≢ names.resolve p
    pub output_fresh : force ≡ false → IsNamed output → exists F names output w ≡ false
    pub invalid_fresh :
        (p : Text) → force ≡ false → invalid ≡ some p → IsNamed p → exists F names p w ≡ false

  -- `_validate_outputs` returns exactly if, of the accepted and the invalid output that are neither
  -- missing nor "-", neither resolves to the path of the input, they resolve to different paths, and
  -- with no `--force` neither exists. Files are told apart by their resolved paths: two hard links
  -- are two files here, as they are for `_validate_outputs`.
  pub validate_outputs_iff :
      (input output : Text) (invalid : Option Text) (force : Bool) (w : World F)
      → (validate_outputs F names input output invalid force w ≡ ok tt)
        ↔ IsAcceptable input output invalid force w
  validate_outputs_iff input output invalid force w =
      let listed = validate_outputs-IsListed F names input output invalid force w in
      let keys = requested output invalid in
      let apart = requested_iff (λ p. names.resolve input ≢ names.resolve p) output invalid in
      let differ = requested-Distinct names.resolve output invalid in
      let fresh = requested_iff (λ p. exists F names p w ≡ false) output invalid in
      (
        λ h.
            let l = listed.0 h in
            let (a, b) =
              apart.0 (All-map (λ k. names.resolve input ≢ k) names.resolve keys l.apart) in
            record {
              output_apart = a;
              invalid_apart = b;
              distinct = differ.0 l.distinct;
              output_fresh = λ off. (fresh.0 (l.fresh off)).0;
              invalid_fresh = λ p off. (fresh.0 (l.fresh off)).1 p;
            },
        λ r. listed.1 (record {
          apart =
              map-All (λ k. names.resolve input ≢ k) names.resolve keys
                (apart.1 (r.output_apart, r.invalid_apart));
          distinct = differ.1 r.distinct;
          fresh = λ off. fresh.1 (r.output_fresh off, λ p. r.invalid_fresh p off);
        }),
      )
