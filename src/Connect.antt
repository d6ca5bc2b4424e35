-- ===== src/Connect.antt =====
-- scripts/register_connector.py: the connector of the product catalog is put to Kafka Connect and
-- awaited. Over any service: what `urlopen` answers, and what passes while the script sleeps.
pub mod Polling
pub mod Running
pub mod Registration
pub mod Bounds
use kafka_flink_click_house.Base.{
  ℕ, zero, suc, Bool, true, false, not, ◌&&◌, ◌||◌, Option, none, some, List, [], ◌∷◌, ◌++◌, Text,
  codes, ◌==◌, nat_eq, if◌then◌else◌, Result, ok, err, all_of,
}
use kafka_flink_click_house.Base.Exec.{Exec, continue, ◌>>=◌, ◌>>◌, pure, raise}
use kafka_flink_click_house.Text.{rstrip_by}
use kafka_flink_click_house.Kafka.Settings.{get_or}
use kafka_flink_click_house.Json.{
  Json, string, null, object, array, no_members, no_elements, TypeMismatch, type_error, set_member,
  get_member, iterate, is_string, boolean, number,
}

pub data Request : Type 0 where
  get : Text → Request
  -- With its JSON payload.
  put : Text → Json → Request

-- What reading a body as JSON raises: an `OSError` with its text, or a `ValueError`.
pub data BodyError : Type 0 where
  read_error : Text → BodyError
  not_json : BodyError

pub record Response : Type 0 where
  pub status : ℕ
  pub body : Result BodyError Json

-- `status.get("connector", {}).get("state")`, and the states of the tasks.
pub record Status : Type 0 where
  pub connector_state : Json
  pub task_states : List Json

-- What the last attempt left: the text of an `OSError`, or the status.
pub data Last : Type 0 where
  unreachable : Text → Last
  reported : Status → Last

pub data ConnectError : Type 0 where
  -- The file of the configuration: an `OSError` or a `ValueError`.
  no_config : BodyError → ConnectError
  -- `KeyError` for POSTGRES_PASSWORD.
  no_password : ConnectError
  mismatch : TypeMismatch → ConnectError
  -- "Kafka Connect did not become ready: …", a `RuntimeError`; `none` is "not ready".
  not_ready : Option Last → ConnectError
  -- The `OSError` of the PUT request.
  put_failed : Text → ConnectError
  -- "Kafka Connect returned HTTP …", a `RuntimeError`.
  put_refused : ℕ → ConnectError
  -- `ValueError` for a status that is no JSON.
  bad_status : ConnectError
  -- "product-catalog connector did not reach RUNNING: …", a `RuntimeError`.
  not_running : Option Last → ConnectError

-- How the body of a loop ends: it returns, it raises, or it sleeps and goes on. What it notes of a
-- failed attempt replaces the last note.
pub data Verdict : Type 0 where
  done : Verdict
  failed : ConnectError → Verdict
  again : Option Last → Verdict

-- The body of the loop of `_wait_for_connect`.
unfoldable pub judge_ready : Result Text Response → Verdict
judge_ready (err error) = again (some (unreachable error))
judge_ready (ok response) = if response.status == 200 then done else again none

-- `[task.get("state") for task in tasks]`
unfoldable pub states_of : List Json → Result TypeMismatch (List Json)
states_of [] = ok []
states_of (task ∷ tasks) = elim (get_member task (codes "state") null) [
  | err e ↦ err e
  | ok state ↦ elim (states_of tasks) [ err e ↦ err e | ok states ↦ ok (state ∷ states) ]
]

unfoldable pub read_tasks : Json → Result TypeMismatch (List Json)
unfolding states_of
read_tasks status = elim (get_member status (codes "tasks") (array no_elements)) [
  | err e ↦ err e
  | ok tasks ↦ elim (iterate tasks) [ err e ↦ err e | ok elements ↦ states_of elements ]
]

unfoldable pub read_connector : Json → Result TypeMismatch Json
read_connector status = elim (get_member status (codes "connector") (object no_members)) [
  | err e ↦ err e
  | ok connector ↦ get_member connector (codes "state") null
]

unfoldable pub read_status : Json → Result TypeMismatch Status
unfolding read_connector read_tasks
read_status status = elim (read_connector status) [
  | err e ↦ err e
  | ok state ↦ elim (read_tasks status) [
    | err e ↦ err e
    | ok states ↦ ok (record { connector_state = state; task_states = states })
  ]
]

abbrev pub any_state : List Json → Bool
any_state [] = false
any_state (state ∷ states) = true

unfoldable pub is_running : Status → Bool
is_running status =
    is_string status.connector_state (codes "RUNNING")
    && any_state status.task_states
    && all_of (λ state. is_string state (codes "RUNNING")) status.task_states

unfoldable pub judge_status : Result TypeMismatch Status → Verdict
judge_status (err e) = failed (mismatch e)
judge_status (ok status) = if is_running status then done else again (some (reported status))

unfoldable pub judge_body : Result BodyError Json → Verdict
unfolding judge_status
judge_body (err (read_error error)) = again (some (unreachable error))
judge_body (err not_json) = failed bad_status
judge_body (ok body) = judge_status (read_status body)

-- The body of the second loop of `main`.
unfoldable pub judge_running : Result Text Response → Verdict
unfolding judge_body
judge_running (err error) = again (some (unreachable error))
judge_running (ok response) = judge_body response.body

abbrev pub note : Option Last → Option Last → Option Last
note last none = last
note last (some noted) = some noted

-- The configuration with the password: `config["database.password"] = os.environ[…]`.
unfoldable pub with_password : Option Text → Json → Result ConnectError Json
with_password none config = err no_password
with_password (some password) (object members) =
    ok (object (set_member members (codes "database.password") (string password)))
with_password (some password) null = err (mismatch type_error)
with_password (some password) (boolean b) = err (mismatch type_error)
with_password (some password) (number n) = err (mismatch type_error)
with_password (some password) (string s) = err (mismatch type_error)
with_password (some password) (array _) = err (mismatch type_error)

unfoldable pub payload_of : Option Text → Result BodyError Json → Result ConnectError Json
unfolding with_password
payload_of password (err e) = err (no_config e)
payload_of password (ok config) = with_password password config

unfoldable pub endpoint_of : (Text → Option Text) → Text
unfolding rstrip_by
endpoint_of environment =
    rstrip_by (λ c. c == b'/')
      (get_or environment (codes "KAFKA_CONNECT_URL") (codes "http://localhost:8083"))

-- `response.status not in {200, 201}`
unfoldable pub accept_put : Result Text Response → Result ConnectError (Unit {0})
accept_put (err error) = err (put_failed error)
accept_put (ok response) =
    if response.status == 200 || response.status == 201
    then ok tt
    else err (put_refused response.status)

module _ (S : Type 0) (urlopen : Request → S → Result Text Response × S) (sleep : ℕ → S → S) where
  -- `for _ in range(attempts)`, with what is raised behind it.
  unfoldable pub poll :
      Request
      → (Result Text Response → Verdict)
      → (Option Last → ConnectError)
      → ℕ
      → Option Last
      → Exec ConnectError S (Unit {0})
  poll request judge give_up zero last s = (err (give_up last), s)
  poll request judge give_up (suc attempts) last s =
      let (answer, s') = urlopen request s in
      elim (judge answer) [
        | done ↦ (ok tt, s')
        | failed e ↦ (err e, s')
        | again noted ↦ poll request judge give_up attempts (note last noted) (sleep 2 s')
      ]

  unfoldable pub wait_for_connect : Text → ℕ → Exec ConnectError S (Unit {0})
  unfolding poll judge_ready
  wait_for_connect endpoint attempts = poll (get endpoint) judge_ready not_ready attempts none

  unfoldable pub put_config : Text → Json → Exec ConnectError S (Unit {0})
  unfolding accept_put
  put_config endpoint payload s =
      let (answer, s') =
        urlopen (put (endpoint ++ codes "/connectors/product-catalog/config") payload) s in
      (accept_put answer, s')

  unfoldable pub await_running : Text → Exec ConnectError S (Unit {0})
  unfolding poll judge_running
  await_running endpoint =
      poll (get (endpoint ++ codes "/connectors/product-catalog/status")) judge_running not_running
        60 none

  -- The calls of `main` behind the reading of the configuration.
  unfoldable pub register : Text → Result ConnectError Json → Exec ConnectError S (Unit {0})
  unfolding wait_for_connect put_config await_running
  register endpoint (err e) = raise e
  register endpoint (ok payload) = do
    wait_for_connect endpoint 60
    put_config endpoint payload
    await_running endpoint

  unfoldable pub main :
      (Text → Option Text) → Result BodyError Json → Exec ConnectError S (Unit {0})
  unfolding register payload_of endpoint_of
  main environment config =
      register (endpoint_of environment)
        (payload_of (environment (codes "POSTGRES_PASSWORD")) config)
