-- ===== src/Tests/Commands.antt =====
-- The three commands on a file of a header, two good rows and a bad one.
use kafka_flink_click_house.Base.{
  true, some, ℕ, ◌≡◌, ◌↔◌, refl, true, false, not, Option, none, some, List, [], ◌∷◌, ◌++◌, map,
  Text, codes, ◌==◌, nat_eq, list_eq, pos, ok, err,
}
use kafka_flink_click_house.Base.Dict.{Dict, get, put}
use kafka_flink_click_house.Json.{null}
use kafka_flink_click_house.Text.{strip, int, is_blank}
use kafka_flink_click_house.Events.{parse_event}
use kafka_flink_click_house.Kafka.Publisher.{Producer}
use kafka_flink_click_house.Kafka.Building.{ClientLibrary, Setting, build_schema_registry_producer}
use kafka_flink_click_house.Kafka.Building.Config.{IsDurable, build-IsDurable}
use kafka_flink_click_house.Replay.Player.{Floats, ReplayStats}
use kafka_flink_click_house.Cli.{Arguments, KafkaOptions, Command, http}
use kafka_flink_click_house.Cli.Http.{Service, responded}
use kafka_flink_click_house.Cli.Disk.{Line, raw, World, exists}
use kafka_flink_click_house.Cli.Errors.{overwrites_input, same_outputs}
use kafka_flink_click_house.Cli.Paths.{validate_outputs}
use kafka_flink_click_house.Cli.Outputs.{IsAcceptable, validate_outputs_iff}
use kafka_flink_click_house.Cli.Host.{Host}
use kafka_flink_click_house.Cli.Commands.{reject, publish_command, http_command, main}
use kafka_flink_click_house.Cli.Inputs.{main-input}
use kafka_flink_click_house.Cli.Delivered.{
  Message, Journal, IsDelivered, input_events, publish_command-IsDelivered,
}
use kafka_flink_click_house.Cli.Posted
use kafka_flink_click_house.Cli.Posted.{Post, IsEndpoint, accepted_post, http_command-posts}

-- Numbers in place of floating-point ones. No speed is negative, and none paces the replay.
abbrev unpaced : Floats
unpaced = record {
  Float = ℕ;
  zero = 0;
  seconds = λ ms. some 0;
  add = λ a b. a;
  sub = λ a b. a;
  div = λ a b. a;
  is_negative = λ a. false;
  is_positive = λ a. false;
}

abbrev rows : List (List Text)
rows =
    (codes "user_id"
      ∷ codes "item_id"
      ∷ codes "category_id"
      ∷ codes "behavior_type"
      ∷ codes "timestamp"
      ∷ [])
    ∷ (codes "1" ∷ codes "2" ∷ codes "3" ∷ codes "pv" ∷ codes "10" ∷ [])
    ∷ (codes "1" ∷ [])
    ∷ (codes "4" ∷ codes "5" ∷ codes "6" ∷ codes "buy" ∷ codes "12" ∷ [])
    ∷ []

-- The rows of any file that is not empty.
abbrev read_csv : List Line → List (List Text)
read_csv [] = []
read_csv (line ∷ lines) = rows

abbrev host : Host unpaced
host = record {
  names = record {
    resolve = λ path. path;
    is_directory = λ path. path == [];
    is_writable = λ path. not (path == []);
  };
  now = λ n. n;
  can_sleep = λ delay. true;
  csv = read_csv;
  sha256 = λ s. codes "id";
  upper = λ s. s;
  environment = λ name. none;
  read_schema = λ path. ok null;
}

abbrev disk : World unpaced
disk = record {
  files = (codes "in.csv", raw (codes "…") ∷ []) ∷ [];
  stdout = [];
  readings = 0;
  slept = [];
}

abbrev arguments : Command → Arguments unpaced
arguments command = record {
  command = command;
  input = codes "in.csv";
  run_id = codes "run";
  batch_size = pos 2;
  speed = 0;
  invalid_output = some (codes "bad.jsonl");
  force = false;
}

abbrev to_file : Arguments unpaced
to_file = arguments (Command.replay (codes "out.jsonl"))

to_file_valid :
    validate_outputs unpaced host.names
      (codes "in.csv")
      (codes "out.jsonl")
      (some (codes "bad.jsonl"))
      false
      disk
    ≡ ok tt
unfolding validate_outputs get exists
to_file_valid = refl

-- The same file under both names, and the input as an output.
refused :
    (validate_outputs unpaced host.names (codes "in.csv") (codes "a") (some (codes "a")) true disk
      ≡ err same_outputs)
    × (validate_outputs unpaced host.names (codes "in.csv") (codes "in.csv") none true disk
        ≡ err overwrites_input)
unfolding validate_outputs get
refused = (refl, refl)

validate_outputs_iff_example :
    (validate_outputs unpaced host.names
        (codes "in.csv")
        (codes "out.jsonl")
        (some (codes "bad.jsonl"))
        false
        disk
      ≡ ok tt)
    ↔ IsAcceptable unpaced host.names
        (codes "in.csv")
        (codes "out.jsonl")
        (some (codes "bad.jsonl"))
        false
        disk
validate_outputs_iff_example =
    validate_outputs_iff unpaced host.names (codes "in.csv") (codes "out.jsonl")
      (some (codes "bad.jsonl")) false disk

-- A producer that takes every message and delivers it, and a service that accepts every event.
abbrev kafka : Producer
kafka = record {
  State = List Message;
  produce = λ topic key event taken. (ok tt, taken ++ (record { key = key; event = event } ∷ []));
  poll = λ taken. ([], taken);
  flush = λ taken. (0, [], taken);
}

abbrev journal : Journal kafka
journal = record { taken = λ q. q; took = λ topic key event q h. refl; polled = λ q. refl }

abbrev library : Option (ClientLibrary kafka.State)
library = some (record {
  Registry = Unit;
  Serializer = Unit;
  registry_type = λ config. ok tt;
  avro_serializer_type = λ registry schema config. ok tt;
  string_serializer_type = λ encoding. ok tt;
  producer_type = λ config. ok [];
})

abbrev options : KafkaOptions
options = record {
  bootstrap_servers = codes "kafka:9092";
  schema_registry_url = codes "http://registry";
  topic = codes "behavior";
  schema = codes "schema.avsc";
}

built :
    build_schema_registry_producer library host.upper host.environment
      (codes "kafka:9092")
      (codes "http://registry")
      (ok null)
    ≡ ok []
unfolding build_schema_registry_producer is_blank
built = refl

build-IsDurable_example :
    (L : ClientLibrary kafka.State) × (config : Dict Text (Setting L.Serializer)) × (library
      ≡ some L)
    × (L.producer_type config ≡ ok [])
    × (is_blank (codes "kafka:9092") ≡ false)
    × IsDurable (codes "kafka:9092") config
build-IsDurable_example =
    build-IsDurable library host.upper host.environment (codes "kafka:9092")
      (codes "http://registry") (ok null) [] built

abbrev stats : ReplayStats
stats = record { source_rows = 3; emitted_events = 2; invalid_rows = 1; batches = 2 }

abbrev to_kafka : Arguments unpaced
to_kafka = arguments (Command.publish options)

published : (publish_command unpaced host kafka library options to_kafka disk).0 ≡ ok stats
unfolding publish_command is_blank get parse_event int reject
published = refl

publish_command-IsDelivered_example :
    IsDelivered kafka journal unpaced host library options to_kafka disk
      (publish_command unpaced host kafka library options to_kafka disk).1.0
publish_command-IsDelivered_example =
    publish_command-IsDelivered kafka journal unpaced host library options to_kafka disk stats refl
      published

abbrev api : Service
api = record {
  State = List Post;
  post = λ url event posts.
      (responded 202, posts ++ (record { url = url; event = event; answer = responded 202 } ∷ []));
}

abbrev api_journal : Posted.Journal api
api_journal = record { posts = λ s. s; posted = λ url event s. refl }

abbrev endpoint : Text
endpoint = codes "http://api/v1/events"

abbrev to_api : Arguments unpaced
to_api = arguments (http endpoint)

posted : (http_command unpaced host api endpoint to_api ([], disk)).0 ≡ ok stats
unfolding http_command get put strip parse_event is_blank int reject
posted = refl

http_command-posts_example :
    IsEndpoint endpoint
    × ((http_command unpaced host api endpoint to_api ([], disk)).1.0
        ≡ []
          ++ map (accepted_post api api_journal endpoint) (input_events unpaced host to_api disk))
http_command-posts_example =
    http_command-posts api api_journal unpaced host endpoint to_api [] disk stats refl posted

main-input_example :
    get (main unpaced host api kafka library to_api [] disk).1.files (codes "in.csv")
    ≡ get disk.files (codes "in.csv")
main-input_example = main-input unpaced host api kafka library to_api [] disk refl
