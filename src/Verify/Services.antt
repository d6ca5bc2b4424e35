-- ===== src/Verify/Services.antt =====
-- verify.py: `clickhouse` and `redis_hash_key`, over services that answer anything.
use kafka_flink_click_house.Base.{
  Option, List, [], ◌∷◌, ◌++◌, Text, codes, nat_eq, ℤ, Result, ok, err, or_raise,
}
use kafka_flink_click_house.Base.Exec.{Exec, ◌>>=◌, pure}
use kafka_flink_click_house.Text.{int, strip}
use kafka_flink_click_house.Kafka.Settings.{get_or}
use kafka_flink_click_house.Json.{Json, Members}
use kafka_flink_click_house.Verify.Rows.{
  RunError, service, value_error, HashReply, data_of, hash_of_reply,
}

-- A POST to ClickHouse.
pub record Query : Type 0 where
  pub url : Text
  pub body : Text
  pub authorization : Text

-- What a computation returned or raised.
abbrev pub given : {E S A : Type 0} → Result E A → Exec E S A
given result s = (result, s)

-- The services, and the functions of the standard library that are not written out.
pub record Services (X S : Type 0) : Type 0 where
  pub fetch : Query → Exec (RunError X) S Json
  pub run_process : List Text → Exec (RunError X) S Text
  pub hash_reply : Text → Result X HashReply
  pub urlencode : Text → Text → Text
  pub base64 : Text → Text
  pub truncated : Text → Option ℤ

module _ {X S : Type 0} (services : Services X S) (environment : Text → Option Text) where
  unfoldable pub query_of : Text → Query
  query_of sql = record {
    url =
        get_or environment (codes "CLICKHOUSE_ENDPOINT") (codes "http://localhost:8123")
        ++ (b'?'
            ∷ services.urlencode (codes "database")
                (get_or environment (codes "CLICKHOUSE_DATABASE") (codes "taobao_behavior")));
    body = sql ++ codes "\nFORMAT JSON";
    authorization =
        codes "Basic "
        ++ services.base64 (
            get_or environment (codes "CLICKHOUSE_USER") (codes "default")
            ++ (b':'
                ∷ get_or environment (codes "CLICKHOUSE_PASSWORD") (codes "local-clickhouse")));
  }

  unfoldable pub clickhouse : Text → Exec (RunError X) S Json
  unfolding query_of data_of
  clickhouse sql = do reply ← services.fetch (query_of sql); given (data_of reply)

abbrev pub of_service : {X A : Type 0} → Result X A → Result (RunError X) A
of_service (ok a) = ok a
of_service (err e) = err (service e)

module _ {X S : Type 0} (services : Services X S) where
  -- `docker compose … exec -T redis redis-cli`
  abbrev pub redis_cli : List Text
  redis_cli =
      codes "docker"
      ∷ codes "compose"
      ∷ codes "-f"
      ∷ codes "infra/docker-compose.yml"
      ∷ codes "exec"
      ∷ codes "-T"
      ∷ codes "redis"
      ∷ codes "redis-cli"
      ∷ []

  unfoldable pub redis_hash_key : Text → Exec (RunError X) S (Members × ℤ)
  unfolding hash_of_reply
  redis_hash_key key = do
    output ← services.run_process (redis_cli ++ (codes "--json" ∷ codes "HGETALL" ∷ key ∷ []))
    reply ← given (of_service (services.hash_reply output))
    fields ← given (hash_of_reply reply)
    ttl ← services.run_process (redis_cli ++ (codes "TTL" ∷ key ∷ []))
    seconds ← given (or_raise (int (strip ttl)) value_error)
    pure (fields, seconds)
