-- ===== src/Cli/Disk.antt =====
-- The files and the standard output that the command line reads and writes.
use kafka_flink_click_house.Base.{
  ℕ, Bool, true, false, ◌&&◌, ◌||◌, not, Option, none, some, List, [], ◌∷◌, ◌++◌, Text, codes, ◌==◌,
  nat_eq, list_eq, if◌then◌else◌, ok, err,
}
use kafka_flink_click_house.Base.Dict.{Dict, get, put}
use kafka_flink_click_house.Base.Exec.{Exec}
use kafka_flink_click_house.Events.{UserBehaviorEvent}
use kafka_flink_click_house.Replay.Reader.{ParseIssue}
use kafka_flink_click_house.Replay.Player.{Floats}

-- A line of a file. The JSON text of an event or an issue is not written out.
pub data Line : Type 0 where
  raw : Text → Line
  accepted_line : UserBehaviorEvent → Line
  rejected_line : ParseIssue → Line

-- The names of the file system. Two paths that resolve to the same text name the same file.
pub record Names : Type 0 where
  pub resolve : Text → Text
  pub is_directory : Text → Bool
  -- A file of this name may be opened for writing.
  pub is_writable : Text → Bool

-- The files by resolved path, and what the process leaves elsewhere: its standard output, how often
-- it has read the clock, and how long it has slept.
pub record World (F : Floats) : Type 0 where
  pub files : Dict Text (List Line)
  pub stdout : List Line
  pub readings : ℕ
  pub slept : List F.Float

pub data Handle : Type 0 where
  standard_output : Handle
  file : Text → Handle

-- The `OSError`s of `open`.
pub data OpenError : Type 0 where
  cannot_open file_exists : Text → OpenError

abbrev pub is_there : Option (List Line) → Bool
is_there none = false
is_there (some lines) = true

abbrev pub content_of : Option (List Line) → List Line
content_of none = []
content_of (some lines) = lines

module _ (F : Floats) (names : Names) where
  unfoldable pub is_file : Text → World F → Bool
  is_file path w = is_there (get w.files (names.resolve path))

  unfoldable pub exists : Text → World F → Bool
  unfolding is_file
  exists path w = is_file path w || names.is_directory path

  -- `_open_output`: mode "w" with `force`, and mode "x" without.
  unfoldable pub open_output : Text → Bool → Exec OpenError (World F) Handle
  unfolding exists
  open_output path force w =
      let key = names.resolve path in
      if path == codes "-"
      then (ok standard_output, w)
      else if not force && exists path w
      then (err (file_exists path), w)
      else if not (names.is_writable path)
      then (err (cannot_open path), w)
      else (ok (file key), record w { files = put w.files key [] })

  -- `handle.write(line + "\n")`
  unfoldable pub write : Handle → Line → World F → World F
  write standard_output line w = record w { stdout = w.stdout ++ (line ∷ []) }
  write (file key) line w = record w {
    files = put w.files key (content_of (get w.files key) ++ (line ∷ []));
  }
