-- ===== src/Lib.antt =====
-- The Taobao behavior pipeline: replay client and HTTP ingress publish events to Kafka, Flink derives
-- features and carts from them, and materializers and an API serve those from Redis. This library
-- models the Python parts around Flink.
--
-- Parts, with the code of each:
--   Events       libs/taobao_events/contracts.py: `parse_event`, `deterministic_event_id`
--   Ingestion    services/taobao_api/ingestion.py: `BehaviorEventRequest.validated_event`
--   Kafka        libs/taobao_events/kafka.py: `kafka_security_options` (Kafka/Settings) and
--                `KafkaEventPublisher` (Kafka/Publisher), and `build_schema_registry_producer`
--                (Kafka/Building)
--   App          services/taobao_api/app.py: the route `POST /v1/events`
--   Replay       clients/taobao_replay: reader.py (Replay/Reader) and replay.py (Replay/Player)
--   Cli          clients/taobao_replay: cli.py, with http.py (Cli/Http)
--   Connect      scripts/register_connector.py
--   Features     services/taobao_serving/redis_features.py: `apply_feature_snapshot` and its script
--   Cart         services/taobao_serving/redis_cart.py: `apply_mutation`
--   Consumer     `main` of redis_cart.py and redis_features.py: the start (Consumer/Startup), and the
--                loops, with restarts
--   Serving      services/taobao_api/serving.py: `cart` and `features`, and their routes in app.py
--   Catalog      tools/taobao_catalog/generator.py: the counting and the choice of the category, and
--                the catalog file with its manifest (Catalog/Files)
--   Accounting   scripts/verify.py: `reconcile_accounting`
--   Verify       the rest of scripts/verify.py: what it asks (Verify/Services, Verify/Gathering) and its
--                checks
--   Flink        flink-python-pipeline/taobao_flink: config.py (Flink/Config), sql.py (Flink/Sql)
--                and job.py (Flink/Job)
--   Json         values that `json.load` returns, as the scripts take them apart and compare them
--   Redis, Text  the commands of Redis and the operations of Python's text that the parts call
--   Base         shared types, tests, dictionaries, results, and calls that change a state
--   Tests        runs that can be followed in the source, and the theorems at concrete inputs
--
-- How they interact: a row becomes an event (Events) in the reader, whose batches the player hands to
-- a callback. The command line (Cli) gives it a callback that writes files, posts to the API or
-- publishes to Kafka; the API makes the same event of a request (Ingestion) and gives it to the publisher
-- (App, Kafka). The materializers (Features, Cart) write what Flink derives to Redis, in the loop of
-- Consumer, and the API reads it (Serving). A fallible function returns a `Result` with the
-- exception; a method that changes its object returns the new object beside its result.
--
-- Bounds and fuel: every loop of the program is structural recursion on its input, or on the attempts
-- that are left, of which the two loops of register_connector.py have 60 each. Only `str` has
-- fuel, one more than the number, for the divisions by ten that write its digits. Python's integers
-- are ℤ, without bounds, and so are the integers of SQLite. `int` refuses texts of more than 4300
-- digits, as CPython does. Lua compares doubles, so the versions in Redis are taken below 2^53.
--
-- Parameters: `sha256` of a text, with no hypothesis; `json.loads`; the producer of the Kafka
-- client with the reports it gives; Redis with the documented effect of its commands (`IsLawful`,
-- which the server in Redis/Memory has); Lua's comparison of numbers; floating-point numbers, and
-- which of them `time.sleep` takes; `str.upper`, `str.lower` and `str.splitlines`; `urlencode` and
-- base64; the classes of the Kafka client; the calls of PyFlink; the answers of HTTP services and
-- of the commands that verify.py runs; the equality of two numbers of JSON; the names of the file
-- system, where the empty path is taken as one that cannot be opened for writing; the clock.
--
-- Not modelled: hard links (two resolved paths are two files), calls of Redis that fail or whose
-- reply is lost, an EXPIRE that is refused behind its HSET, the SQL that Flink and ClickHouse
-- execute, the expiry of Redis keys between commands, csv.reader, JSON and Avro encoding, argparse,
-- writes to a file that fail, the start of the API and its route of trending products, threads (the
-- publisher's lock makes `publish_confirmed` one step), and the wording of error messages.
pub mod Base
pub mod Text
pub mod Json
pub mod Connect
pub mod Events
pub mod Ingestion
pub mod Kafka
pub mod App
pub mod Redis
pub mod Features
pub mod Replay
pub mod Cli
pub mod Consumer
pub mod Cart
pub mod Serving
pub mod Catalog
pub mod Flink
pub mod Accounting
pub mod Verify
mod Tests
