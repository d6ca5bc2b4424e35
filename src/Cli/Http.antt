-- ===== src/Cli/Http.antt =====
-- http.py: `HttpEventPublisher`, over a service that answers its requests.
use kafka_flink_click_house.Base.{
  ℕ, Bool, true, false, ◌&&◌, ◌||◌, not, Option, none, some, [], ◌∷◌, Text, codes, ◌==◌, nat_eq,
  if◌then◌else◌, Result, ok, err,
}
use kafka_flink_click_house.Base.Exec.{Exec}
use kafka_flink_click_house.Events.{UserBehaviorEvent}

-- What `urlopen` does: a response with its status, `HTTPError` with its code, `URLError`, or another
-- `OSError`.
pub data Answer : Type 0 where
  responded : ℕ → Answer
  http_error : ℕ → Answer
  url_error : Answer
  broken : Answer

-- A POST of the event's JSON to a URL.
pub record Service : Type 1 where
  pub State : Type 0
  pub post : Text → UserBehaviorEvent → State → Answer × State

pub data HttpError : Type 0 where
  -- "event API returned HTTP …" and "event API rejected the event: HTTP …", `RuntimeError`s.
  not_accepted rejected_by_api : ℕ → HttpError
  -- "event API is unavailable: …", a `RuntimeError`.
  api_unavailable : HttpError
  -- The `OSError`.
  connection_broken : HttpError

-- `text.startswith(prefix)`
unfoldable pub starts_with : Text → Text → Bool
starts_with text [] = true
starts_with [] (p ∷ prefix) = false
starts_with (c ∷ text) (p ∷ prefix) = c == p && starts_with text prefix

-- `__init__`: the endpoint, where `none` is the `ValueError`.
unfoldable pub create_http : Text → Option Text
unfolding starts_with
create_http endpoint =
    if not (starts_with endpoint (codes "http://") || starts_with endpoint (codes "https://"))
    then none
    else some endpoint

unfoldable pub judge_answer : Answer → Result HttpError (Unit {0})
judge_answer (responded status) = if not (status == 202) then err (not_accepted status) else ok tt
judge_answer (http_error code) = err (rejected_by_api code)
judge_answer url_error = err api_unavailable
judge_answer broken = err connection_broken

module _ (H : Service) (endpoint : Text) where
  unfoldable pub publish_http : UserBehaviorEvent → Exec HttpError H.State (Unit {0})
  unfolding judge_answer
  publish_http event s = let (answer, s') = H.post endpoint event s in (judge_answer answer, s')

  unfoldable pub close_http : Exec HttpError H.State (Unit {0})
  close_http s = (ok tt, s)
