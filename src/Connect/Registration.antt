-- ===== src/Connect/Registration.antt =====
-- What a run of register_connector.py that returns has done.
use kafka_flink_click_house.Base.{
  ℕ, ◌<◌, ◌≡◌, ◌↔◌, ◌⊎◌, refl, subst, Option, none, some, ◌++◌, Text, codes, nat_eq, list_eq,
  Result, ok, err, arith,
}
use kafka_flink_click_house.Base.Exec.{◌>>◌, >>_iff}
use kafka_flink_click_house.Json.{Json, string, object, Members, set_member}
use kafka_flink_click_house.Connect.{
  Request, get, put, Response, BodyError, not_running, ConnectError, again, Last, judge_running,
  accept_put, register, main, endpoint_of, payload_of, with_password, wait_for_connect, put_config,
  await_running,
}
use kafka_flink_click_house.Connect.Polling.{answer, IsReady, poll_iff, wait_for_connect_iff}
use kafka_flink_click_house.Connect.Running.{SaysRunning, judge_running-done}

accept_put-ok :
    (a : Result Text Response)
    → (accept_put a ≡ ok tt) ↔ ((r : Response) × (a ≡ ok r) × ((r.status ≡ 200) ⊎ (r.status ≡ 201)))
unfolding accept_put
accept_put-ok (err e) = (λ h. cc, λ (r, h, _). cc)
accept_put-ok (ok r) = (λ h. (r, refl, ground arith), λ h. ground arith)

-- The configuration is an object and the password is set: what is put is the object with it.
abbrev pub IsPayload : Option Text → Result BodyError Json → Json → Type 0
IsPayload variable config payload =
    (password : Text) × (fields : Members) × (variable ≡ some password)
    × (config ≡ ok (object fields))
    × (payload ≡ object (set_member fields (codes "database.password") (string password)))

payload_of-ok :
    (variable : Option Text) (config : Result BodyError Json) (payload : Json)
    → (payload_of variable config ≡ ok payload) ↔ IsPayload variable config payload
unfolding payload_of with_password
payload_of-ok variable (err e) payload = (λ h. cc, λ (p, f, _, h, _). cc)
payload_of-ok none (ok config) payload = (λ h. cc, λ (p, f, h, _, _). cc)
payload_of-ok (some password) (ok (object fields)) payload =
    (λ h. (password, fields, refl, refl, cc), λ (p, f, h, k, e). cc (h, k, e))
payload_of-ok (some password) (ok _) payload = (λ h. cc, λ (p, f, _, h, _). cc)

module _ (S : Type 0) (urlopen : Request → S → Result Text Response × S) (sleep : ℕ → S → S) where
  await_running_iff :
      (endpoint : Text) (s : S)
      → let report : ℕ → Result Text Response = λ n.
        answer S urlopen sleep (get (endpoint ++ codes "/connectors/product-catalog/status")) n s in
        ((await_running S urlopen sleep endpoint s).0 ≡ ok tt) ↔ (
          (n : ℕ) × (n < 60)
          × SaysRunning (report n)
          × ((k : ℕ) → k < n → (noted : Option Last) × (judge_running (report k) ≡ again noted)))
  unfolding await_running
  await_running_iff endpoint s =
      let status_url = endpoint ++ codes "/connectors/product-catalog/status" in
      let law = poll_iff S urlopen sleep (get status_url) judge_running not_running 60 none s in
      (
        λ h. let (n, lt, d, earlier) = law.0 h in (n, lt, (judge_running-done _).0 d, earlier),
        λ (n, lt, d, earlier). law.1 (n, lt, (judge_running-done _).1 d, earlier),
      )

  register-ok :
      (endpoint : Text) (prepared : Result ConnectError Json) (s : S)
      → let s' = (wait_for_connect S urlopen sleep endpoint 60 s).1 in
        ((register S urlopen sleep endpoint prepared s).0 ≡ ok tt) ↔ (
          (payload : Json) × (prepared ≡ ok payload)
          × ((wait_for_connect S urlopen sleep endpoint 60 s).0 ≡ ok tt)
          × ((put_config S urlopen sleep endpoint payload s').0 ≡ ok tt)
          × ((await_running S urlopen sleep endpoint
                (put_config S urlopen sleep endpoint payload s').1).0
              ≡ ok tt))
  unfolding register
  register-ok endpoint (err e) s = (λ h. cc, λ (p, h, _, _, _). cc)
  register-ok endpoint (ok payload) s =
      let wait = wait_for_connect S urlopen sleep endpoint 60 in
      let put_it = put_config S urlopen sleep endpoint payload in
      let await = await_running S urlopen sleep endpoint in
      let first = >>_iff wait (put_it >> await) s tt in
      let second = >>_iff put_it await (wait s).1 tt in
      (
        λ h. let (w, rest) = first.0 h in let (p, a) = second.0 rest in (payload, refl, w, p, a),
        λ (q, e, w, p, a).
            let same : q ≡ payload = cc in
            first.1 (
              w,
              second.1 (
                subst (λ x. (put_config S urlopen sleep endpoint x (wait s).1).0 ≡ ok tt) same p,
                subst (λ x. (await (put_config S urlopen sleep endpoint x (wait s).1).1).0 ≡ ok tt)
                    same a,
              ),
            ),
      )

  module _ (environment : Text → Option Text) (config : Result BodyError Json) (s : S) where
    abbrev endpoint : Text
    endpoint = endpoint_of environment

    -- The state behind the wait for Kafka Connect, and the one behind the PUT request.
    abbrev pub waited : S
    waited = (wait_for_connect S urlopen sleep endpoint 60 s).1

    abbrev pub put_request : Json → Request
    put_request payload = put (endpoint ++ codes "/connectors/product-catalog/config") payload

    abbrev pub configured : Json → S
    configured payload = (urlopen (put_request payload) waited).1

    abbrev pub status_answer : Json → ℕ → Result Text Response
    status_answer payload n =
        answer S urlopen sleep (get (endpoint ++ codes "/connectors/product-catalog/status")) n
          (configured payload)

    -- The connector is registered: with the password of the environment, at a Kafka Connect that
    -- was ready, took the configuration, and then reported that the connector runs.
    pub record IsRegistered : Type 0 where
      pub payload : Json
      pub is_payload : IsPayload (environment (codes "POSTGRES_PASSWORD")) config payload
      pub ready : (n : ℕ) × (n < 60) × IsReady S urlopen sleep endpoint n s
      pub accepted :
          (r : Response) × ((urlopen (put_request payload) waited).0 ≡ ok r)
          × ((r.status ≡ 200) ⊎ (r.status ≡ 201))
      pub running :
          (n : ℕ) × (n < 60)
          × SaysRunning (status_answer payload n)
          × ((k : ℕ)
              → k < n
              → (noted : Option Last) × (judge_running (status_answer payload k) ≡ again noted))

    -- The script returns exactly if the configuration is an object and the password is set, Kafka
    -- Connect answers one of sixty attempts with the status 200, then answers the configuration
    -- with that password with 200 or 201, and then one of sixty status reports says that the
    -- connector and its tasks are RUNNING, no report before it being malformed.
    pub main_iff : ((main S urlopen sleep environment config s).0 ≡ ok tt) ↔ IsRegistered
    unfolding main register
    main_iff =
        let prepared = payload_of (environment (codes "POSTGRES_PASSWORD")) config in
        let law = register-ok endpoint prepared s in
        (
          λ h.
              let (payload, p, w, c, r) = law.0 h in
              record {
                payload = payload;
                is_payload = (payload_of-ok _ config payload).0 p;
                ready = (wait_for_connect_iff S urlopen sleep endpoint 60 s).0 w;
                accepted = (accept_put-ok _).0 c;
                running = (await_running_iff endpoint (configured payload)).0 r;
              },
          λ g. law.1 (
            g.payload,
            (payload_of-ok _ config g.payload).1 g.is_payload,
            (wait_for_connect_iff S urlopen sleep endpoint 60 s).1 g.ready,
            (accept_put-ok _).1 g.accepted,
            (await_running_iff endpoint (configured g.payload)).1 g.running,
          ),
        )
