-- ===== src/Connect/Bounds.antt =====
-- How long register_connector.py takes: the requests that it sends and the seconds that it sleeps.
use kafka_flink_click_house.Base.{
  ℕ, zero, suc, ◌+◌, ◌*◌, ◌≤◌, inl, inr, Option, none, Text, codes, ◌++◌, Result, ok, err, arith,
}
use kafka_flink_click_house.Base.Exec.{Exec, continue}
use kafka_flink_click_house.Json.{Json}
use kafka_flink_click_house.Connect.{
  Request, get, judge_ready, judge_running, not_ready, not_running, Response, BodyError, Last,
  ConnectError, Verdict, note, poll, wait_for_connect, put_config, await_running, register, main,
  endpoint_of, payload_of,
}
use kafka_flink_click_house.Connect.Polling.{Verdict-cases, poll-done, poll-failed, poll-again}

pub record Usage : Type 0 where
  pub requests : ℕ
  pub seconds : ℕ

abbrev pub unused : Usage
unused = record { requests = 0; seconds = 0 }

module _ (S : Type 0) (urlopen : Request → S → Result Text Response × S) (sleep : ℕ → S → S) where
  -- The same service and the same sleep, with the usage beside the state.
  abbrev pub counted_urlopen : Request → S × Usage → Result Text Response × (S × Usage)
  counted_urlopen request (s, u) =
      let (answer, s') = urlopen request s in (answer, (s', record u { requests = u.requests + 1 }))

  abbrev pub counted_sleep : ℕ → S × Usage → S × Usage
  counted_sleep n (s, u) = (sleep n s, record u { seconds = u.seconds + n })

  -- A call that adds at most so many requests and seconds.
  abbrev Within : ℕ → ℕ → (S × Usage) → (S × Usage) → Type 0
  Within requests seconds before after =
      (after.1.requests ≤ before.1.requests + requests)
      × (after.1.seconds ≤ before.1.seconds + seconds)

  module _ (request : Request) (judge : Result Text Response → Verdict)
      (give_up : Option Last → ConnectError) where
    poll-Within :
        (m : ℕ) (last : Option Last) (s : S × Usage)
        → Within m
            (2 * m)
            s
            (poll (S × Usage) counted_urlopen counted_sleep request judge give_up m last s).1
    unfolding poll
    poll-Within zero last s = (omega arith, omega arith)
    poll-Within (suc m) last s =
        let verdict = judge (counted_urlopen request s).0 in
        elim (Verdict-cases verdict) [
          | inl d ↦
              rw
                (poll-done (S × Usage) counted_urlopen counted_sleep request judge give_up m last s
                  d)
                (omega arith, omega arith)
          | inr (inl (e, f)) ↦
              rw
                (poll-failed (S × Usage) counted_urlopen counted_sleep request judge give_up m last
                  s e f)
                (omega arith, omega arith)
          | inr (inr (o, a)) ↦
              let s' = counted_sleep 2 (counted_urlopen request s).1 in
              let (requests, seconds) = poll-Within m (note last o) s' in
              rw
                (poll-again (S × Usage) counted_urlopen counted_sleep request judge give_up m last s
                  o a)
                (omega arith, omega arith)
        ]

  continue-Within :
      {A B : Type 0} (r : Result ConnectError A) (s t : S × Usage)
      (f : A → Exec ConnectError (S × Usage) B) (n m n' m' : ℕ)
      → Within n m s t
      → ((a : A) → Within n' m' t (f a t).1)
      → Within (n + n') (m + m') s (continue r t f).1
  continue-Within (err e) s t f n m n' m' (h, k) rest = (omega arith, omega arith)
  continue-Within (ok a) s t f n m n' m' (h, k) rest =
      let (h', k') = rest a in (omega arith, omega arith)

  register-Within :
      (endpoint : Text) (payload : Result ConnectError Json) (s : S × Usage)
      → Within 121 240 s (register (S × Usage) counted_urlopen counted_sleep endpoint payload s).1
  unfolding register wait_for_connect put_config await_running
  register-Within endpoint (err e) s = (omega arith, omega arith)
  register-Within endpoint (ok payload) s =
      let (waited, s₁) = wait_for_connect (S × Usage) counted_urlopen counted_sleep endpoint 60 s in
      let (put_answer, s₂) =
        put_config (S × Usage) counted_urlopen counted_sleep endpoint payload s₁ in
      continue-Within waited s s₁ _ 60 120 61 120
        (poll-Within (get endpoint) judge_ready not_ready 60 none s)
        λ _.
          continue-Within put_answer s₁ s₂ _ 1 0 60 120 (omega arith, omega arith)
            λ _.
              poll-Within (get (endpoint ++ codes "/connectors/product-catalog/status"))
                judge_running not_running 60 none s₂

  -- Whatever Kafka Connect answers and whatever the environment and the file hold, the script ends:
  -- it sends at most 121 requests, and sleeps at most 240 seconds.
  pub main-Bounded :
      (environment : Text → Option Text) (config : Result BodyError Json) (s : S)
      → let used =
          (main (S × Usage) counted_urlopen counted_sleep environment config (s, unused)).1.1 in
        (used.requests ≤ 121) × (used.seconds ≤ 240)
  unfolding main
  main-Bounded environment config s =
      register-Within (endpoint_of environment)
        (payload_of (environment (codes "POSTGRES_PASSWORD")) config) (s, unused)
