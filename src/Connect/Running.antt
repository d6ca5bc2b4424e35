-- ===== src/Connect/Running.antt =====
-- Which answers tell register_connector.py that the connector runs.
use kafka_flink_click_house.Base.{
  and_iff, ◌≡◌, ◌↔◌, refl, ap, subst, true, List, [], ◌∷◌, Text, codes, eq_self, eq-of-beq, nat_eq,
  list_eq, Result, ok, err, arith, All, all_of, ◌≢◌,
}
use kafka_flink_click_house.Json.{Json, TypeMismatch, string, is_string}
use kafka_flink_click_house.Connect.{
  Response, BodyError, read_error, not_json, Status, done, judge_running, judge_body, judge_status,
  is_running, read_status, any_state,
}
use kafka_flink_click_house.Connect.Polling.{answer}

-- The connector and each of its tasks are in the state RUNNING, and it has a task.
pub record IsRunning (status : Status) : Type 0 where
  pub connector : status.connector_state ≡ string (codes "RUNNING")
  pub has_task : status.task_states ≢ []
  pub tasks : All (λ state. state ≡ string (codes "RUNNING")) status.task_states

is_string-true :
    (value : Json) (text : Text) → (is_string value text ≡ true) ↔ (value ≡ string text)
is_string-true (string s) text =
    (λ h. ap string (eq-of-beq s text h), λ h. let p : s ≡ text = cc in rw p (eq_self text))
is_string-true _ text = (λ h. cc, λ h. cc)

all_of-All :
    (states : List Json)
    → (all_of (λ state. is_string state (codes "RUNNING")) states ≡ true)
      ↔ All (λ state. state ≡ string (codes "RUNNING")) states
all_of-All [] = (λ h. tt, λ h. refl)
all_of-All (state ∷ states) =
    let first = is_string-true state (codes "RUNNING") in
    let rest = all_of-All states in
    (
      λ h. let (a, b) = (and_iff _ _).0 h in (first.0 a, rest.0 b),
      λ (a, b). (and_iff _ _).1 (first.1 a, rest.1 b),
    )

any_state-true : (states : List Json) → (any_state states ≡ true) ↔ (states ≢ [])
any_state-true [] = (λ h. cc, λ h. absurd (h refl))
any_state-true (state ∷ states) = (λ h p. cc, λ h. refl)

is_running-true : (status : Status) → (is_running status ≡ true) ↔ IsRunning status
unfolding is_running
is_running-true status =
    let connector = is_string-true status.connector_state (codes "RUNNING") in
    let some_task = any_state-true status.task_states in
    let each = all_of-All status.task_states in
    (
      λ h.
          let (ab, c) = (and_iff _ _).0 h in
          let (a, b) = (and_iff _ _).0 ab in
          record { connector = connector.0 a; has_task = some_task.0 b; tasks = each.0 c },
      λ r.
          (and_iff _ _).1
            ((and_iff _ _).1 (connector.1 r.connector, some_task.1 r.has_task), each.1 r.tasks),
    )

-- An answer with a status that says so.
abbrev pub SaysRunning : Result Text Response → Type 0
SaysRunning answer =
    (response : Response) × (body : Json) × (status : Status) × (answer ≡ ok response)
    × (response.body ≡ ok body)
    × (read_status body ≡ ok status)
    × IsRunning status

judge_status-done :
    (read : Result TypeMismatch Status)
    → (judge_status read ≡ done) ↔ ((status : Status) × (read ≡ ok status) × IsRunning status)
unfolding judge_status
judge_status-done (err e) = (λ h. cc, λ (s, h, _). cc)
judge_status-done (ok status) =
    let law = is_running-true status in
    (
      λ h. (status, refl, law.0 (ground (arith, h))),
      λ (s, h, running). let p : s ≡ status = cc in rw (law.1 (subst IsRunning p running)) refl,
    )

judge_body-done :
    (read : Result BodyError Json)
    → (judge_body read ≡ done) ↔ (
        (body : Json) × (status : Status) × (read ≡ ok body)
        × (read_status body ≡ ok status)
        × IsRunning status)
unfolding judge_body
judge_body-done (err (read_error e)) = (λ h. cc, λ (b, s, h, _, _). cc)
judge_body-done (err not_json) = (λ h. cc, λ (b, s, h, _, _). cc)
judge_body-done (ok body) =
    let law = judge_status-done (read_status body) in
    (
      λ h. let (s, r, running) = law.0 h in (body, s, refl, r, running),
      λ (b, s, h, r, running).
          let p : b ≡ body = cc in law.1 (s, subst (λ x. read_status x ≡ ok s) p r, running),
    )

pub judge_running-done : (a : Result Text Response) → (judge_running a ≡ done) ↔ SaysRunning a
unfolding judge_running
judge_running-done (err e) = (λ h. cc, λ (r, b, s, h, _, _, _). cc)
judge_running-done (ok response) =
    let law = judge_body-done response.body in
    (
      λ h. let (b, s, r, d, running) = law.0 h in (response, b, s, refl, r, d, running),
      λ (q, b, s, h, r, d, running).
          let p : q ≡ response = cc in law.1 (b, s, subst (λ x. x.body ≡ ok b) p r, d, running),
    )
