-- ===== src/Cli/Paths.antt =====
-- cli.py: `_validate_input` and `_validate_outputs`.
use kafka_flink_click_house.Base.{
  Bool, true, false, not, ◌&&◌, ◌||◌, Option, none, some, List, [], ◌∷◌, map, Text, codes, ◌==◌,
  nat_eq, if◌then◌else◌, list_eq, contains, Result, ok, err, raise_if, ◌>>◌,
}
use kafka_flink_click_house.Kafka.Settings.{truthy}
use kafka_flink_click_house.Replay.Player.{Floats}
use kafka_flink_click_house.Cli.Disk.{Names, World, is_file, exists}
use kafka_flink_click_house.Cli.Errors.{
  CliError, no_input, overwrites_input, same_outputs, output_exists,
}

-- `path and path != "-"`, for a path that may be missing.
abbrev pub names_file : Text → Bool
names_file path = truthy path && not (path == codes "-")

abbrev pub requested_one : Text → List Text → List Text
requested_one path rest = if names_file path then path ∷ rest else rest

unfoldable pub requested : Text → Option Text → List Text
requested output none = requested_one output []
requested output (some invalid) = requested_one output (requested_one invalid [])

-- `len(resolved) != len(set(resolved))`
unfoldable pub has_duplicate : List Text → Bool
has_duplicate [] = false
has_duplicate (path ∷ paths) = contains paths path || has_duplicate paths

module _ (F : Floats) (names : Names) where
  -- `next((path for path in requested if path.exists()), None)`
  unfoldable pub first_existing : List Text → World F → Option Text
  first_existing [] w = none
  first_existing (path ∷ paths) w =
      let rest = first_existing paths w in if exists F names path w then some path else rest

  abbrev pub refuse_existing : Option Text → Result CliError (Unit {0})
  refuse_existing none = ok tt
  refuse_existing (some path) = err (output_exists path)

  unfoldable pub validate_outputs :
      Text → Text → Option Text → Bool → World F → Result CliError (Unit {0})
  unfolding requested has_duplicate first_existing
  validate_outputs input output invalid force w =
      let paths = requested output invalid in
      let resolved = map names.resolve paths in
      do
        raise_if (contains resolved (names.resolve input)) overwrites_input
        raise_if (has_duplicate resolved) same_outputs
        elim force [ true ↦ ok tt | false ↦ refuse_existing (first_existing paths w) ]

  unfoldable pub validate_input : Text → World F → Result CliError (Unit {0})
  validate_input path w = raise_if (not (is_file F names path w)) no_input
