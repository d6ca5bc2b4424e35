-- ===== src/Cli/Handles.antt =====
-- cli.py: opening and writing one file leaves the others as they were.
use kafka_flink_click_house.Base.{
  Bool, true, false, Bool-cases, not, ◌&&◌, ◌≡◌, ◌≢◌, refl, subst, sym, ◌∙◌, inl, inr, Option, none,
  some, List, [], ◌∷◌, map, Text, codes, ◌==◌, nat_eq, list_eq, beq_of_ne, Result, ok, All,
  if◌then◌else◌,
}
use kafka_flink_click_house.Base.Dict.{get, put, get-put}
use kafka_flink_click_house.Replay.Player.{Floats}
use kafka_flink_click_house.Cli.Disk.{
  OpenError, Line, Names, World, Handle, standard_output, file, open_output, write, exists,
}
use kafka_flink_click_house.Cli.Paths.{requested, requested_one, names_file}

-- The file of a handle is not this one.
abbrev pub Apart : Text → Handle → Type 0
Apart key standard_output = Unit
Apart key (file k) = key ≢ k

-- What is true of each requested path is true of a path that names a file.
All-requested_one :
    (P : Text → Type 0) (path : Text) (rest : List Text)
    → All P (requested_one path rest)
    → (names_file path ≡ true → P path) × All P rest
All-requested_one P path rest = go (names_file path)
  where
    go : (b : Bool) → All P (if b then path ∷ rest else rest) → (b ≡ true → P path) × All P rest
    go true (p, ps) = (λ _. p, ps)
    go false ps = (λ h. cc, ps)

-- What is true of the one path that is given.
pub of_some :
    (P : Text → Type 0) (given : Text)
    → (names_file given ≡ true → P given)
    → (path : Text) → some given ≡ some path
    → names_file path ≡ true
    → P path
of_some P given holds path e named =
    let same : given ≡ path = cc in
    subst P same (holds (subst (λ x. names_file x ≡ true) (sym same) named))

pub All-requested :
    (P : Text → Type 0) (output : Text) (invalid : Option Text)
    → All P (requested output invalid)
    → (names_file output ≡ true → P output)
      × ((path : Text) → invalid ≡ some path → names_file path ≡ true → P path)
unfolding requested
All-requested P output none h = ((All-requested_one P output [] h).0, λ p g. cc)
All-requested P output (some invalid) h =
    let (first, rest) = All-requested_one P output (requested_one invalid []) h in
    let (second, _) = All-requested_one P invalid [] rest in (first, of_some P invalid second)

pub All-map :
    {A B : Type 0} (P : B → Type 0) (f : A → B) (xs : List A)
    → All P (map f xs)
    → All (λ x. P (f x)) xs
All-map P f [] h = tt
All-map P f (x ∷ xs) (p, h) = (p, All-map P f xs h)

-- The empty path is the working directory, which cannot be opened for writing.
writable-names_file :
    (names : Names) (path : Text)
    → names.is_writable [] ≡ false
    → names.is_writable path ≡ true
    → (path == codes "-") ≡ false
    → names_file path ≡ true
writable-names_file names [] cwd writable h = cc
writable-names_file names (c ∷ s) cwd writable h = rw h refl

module _ (F : Floats) (names : Names) (key : Text) where
  pub write-Apart :
      (handle : Handle) (line : Line) (w : World F)
      → Apart key handle
      → get (write F names handle line w).files key ≡ get w.files key
  unfolding write
  write-Apart standard_output line w apart = refl
  write-Apart (file k) line w apart = get-put w.files k key _ ∙ rw (beq_of_ne key k apart) refl

  pub put_apart :
      (k : Text) (lines : List Line) (w : World F)
      → key ≢ k
      → get (put w.files k lines) key ≡ get w.files key
  put_apart k lines w apart = get-put w.files k key lines ∙ rw (beq_of_ne key k apart) refl

  opened-Apart :
      (g h : Handle) → ◌≡◌ {A = Result OpenError Handle} (ok g) (ok h) → Apart key g → Apart key h
  opened-Apart g h e apart = let same : g ≡ h = cc in subst (Apart key) same apart

  -- A path that, if it names a file, names another one.
  abbrev pub IsApart : Text → Type 0
  IsApart path = names_file path ≡ true → key ≢ names.resolve path

  pub open_output-Apart :
      (path : Text) (force : Bool) (w : World F)
      → names.is_writable [] ≡ false
      → IsApart path
      → let (opened, w') = open_output F names path force w in
        (get w'.files key ≡ get w.files key) × ((h : Handle) → opened ≡ ok h → Apart key h)
  unfolding open_output
  open_output-Apart path force w cwd apart = elim (Bool-cases (path == codes "-")) [
    | inl std ↦ rw std (refl, λ h e. opened-Apart standard_output h e tt)
    | inr other ↦ elim (Bool-cases (not force && exists F names path w)) [
      | inl taken ↦ rw (other, taken) (refl, λ h e. cc)
      | inr free ↦ elim (Bool-cases (names.is_writable path)) [
        | inr closed ↦ rw (other, free, closed) (refl, λ h e. cc)
        | inl writable ↦
            let away = apart (writable-names_file names path cwd writable other) in
            rw (other, free, writable)
              (
                put_apart (names.resolve path) [] w away,
                λ h e. opened-Apart (file (names.resolve path)) h e away,
              )
      ]
    ]
  ]
