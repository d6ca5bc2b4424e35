-- ===== src/Tests/Registering.antt =====
-- Kafka Connect that refuses the connection once, takes the configuration, and reports the connector
-- as running the second time it is asked.
use kafka_flink_click_house.Base.{
  ℕ, ◌≤◌, ◌<◌, ◌≡◌, ◌↔◌, refl, Option, none, some, List, [], ◌∷◌, Text, codes, ◌==◌, nat_eq,
  list_eq, Result, ok, err, if◌then◌else◌,
}
use kafka_flink_click_house.Json.{
  Json, string, array, object, element, no_elements, member, no_members, get_member, iterate,
}
use kafka_flink_click_house.Connect.{
  Request, read_status, is_running, Response, BodyError, not_json, bad_status, main,
  wait_for_connect,
}
use kafka_flink_click_house.Connect.Polling.{IsReady, wait_for_connect_iff}
use kafka_flink_click_house.Connect.Registration.{IsRegistered, main_iff}
use kafka_flink_click_house.Connect.Bounds.{
  Usage, unused, counted_urlopen, counted_sleep, main-Bounded,
}

-- The service answers what stands first in a list, and refuses when it is empty.
abbrev Answers : Type 0
Answers = List (Result Text Response)

abbrev urlopen : Request → Answers → Result Text Response × Answers
urlopen request [] = (err (codes "refused"), [])
urlopen request (a ∷ answers) = (a, answers)

abbrev sleep : ℕ → Answers → Answers
sleep seconds answers = answers

abbrev environment : Text → Option Text
environment name = if name == codes "POSTGRES_PASSWORD" then some (codes "secret") else none

abbrev config : Result BodyError Json
config = ok (object (member (codes "name") (string (codes "product-catalog")) no_members))

abbrev status_report : Text → Json
status_report state = object (
    member (codes "connector")
      (object (member (codes "state") (string (codes "RUNNING")) no_members))
      (member (codes "tasks")
        (array (element (object (member (codes "state") (string state) no_members)) no_elements))
        no_members))

abbrev answered : ℕ → Result BodyError Json → Result Text Response
answered status body = ok (record { status = status; body = body })

abbrev answers : Answers
answers =
    err (codes "refused")
    ∷ answered 200 (err not_json)
    ∷ answered 201 (err not_json)
    ∷ answered 200 (ok (status_report (codes "UNASSIGNED")))
    ∷ answered 200 (ok (status_report (codes "RUNNING")))
    ∷ []

registered : main Answers urlopen sleep environment config answers ≡ (ok tt, [])
unfolding main read_status get_member iterate is_running
registered = refl

-- A status that is no JSON ends the script.
malformed :
    main Answers urlopen sleep environment config
      (answered 200 (err not_json) ∷ answered 200 (err not_json) ∷ answered 200 (err not_json) ∷ [])
    ≡ (err bad_status, [])
unfolding main read_status get_member iterate is_running
malformed = refl

-- Five requests, and two sleeps of two seconds.
used :
    (main
      (Answers × Usage)
      (counted_urlopen Answers urlopen sleep)
      (counted_sleep Answers urlopen sleep)
      environment
      config
      (answers, unused)).1.1
    ≡ record { requests = 5; seconds = 4 }
unfolding main read_status get_member iterate is_running
used = refl

waited_for_connect :
    ((wait_for_connect Answers urlopen sleep (codes "http://connect") 2 answers).0 ≡ ok tt)
    ↔ ((n : ℕ) × (n < 2) × IsReady Answers urlopen sleep (codes "http://connect") n answers)
waited_for_connect = wait_for_connect_iff Answers urlopen sleep (codes "http://connect") 2 answers

main_iff_example :
    ((main Answers urlopen sleep environment config answers).0 ≡ ok tt)
    ↔ IsRegistered Answers urlopen sleep environment config answers
main_iff_example = main_iff Answers urlopen sleep environment config answers

main-Bounded_example :
    let run =
      main
        (Answers × Usage)
        (counted_urlopen Answers urlopen sleep)
        (counted_sleep Answers urlopen sleep)
        environment
        config
        (answers, unused) in
    (run.1.1.requests ≤ 121) × (run.1.1.seconds ≤ 240)
main-Bounded_example = main-Bounded Answers urlopen sleep environment config answers
