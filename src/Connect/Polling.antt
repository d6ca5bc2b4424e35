-- ===== src/Connect/Polling.antt =====
-- The two loops of register_connector.py: when they return.
use kafka_flink_click_house.Base.{
  ℕ, zero, suc, ◌<◌, ◌≡◌, ◌↔◌, ◌⊎◌, refl, sym, ap, ◌∙◌, inl, inr, Option, none, Text, Bool-cases,
  ◌==◌, nat_eq, Result, ok, err, arith,
}
use kafka_flink_click_house.Connect.{
  Request, get, not_ready, Response, Last, ConnectError, Verdict, done, failed, again, note,
  judge_ready, poll, wait_for_connect,
}

pub Verdict-cases :
    (v : Verdict)
    → (v ≡ done)
      ⊎ ((e : ConnectError) × (v ≡ failed e))
      ⊎ ((noted : Option Last) × (v ≡ again noted))
Verdict-cases done = inl refl
Verdict-cases (failed e) = inr (inl (e, refl))
Verdict-cases (again noted) = inr (inr (noted, refl))

module _ (S : Type 0) (urlopen : Request → S → Result Text Response × S) (sleep : ℕ → S → S) where
  module _ (request : Request) where
    -- The state in front of an attempt, if none before it ended the loop.
    abbrev pub before : ℕ → S → S
    before zero s = s
    before (suc n) s = before n (sleep 2 (urlopen request s).1)

    -- What an attempt is answered.
    abbrev pub answer : ℕ → S → Result Text Response
    answer n s = (urlopen request (before n s)).0

    module _ (judge : Result Text Response → Verdict) where
      -- One of the first attempts ends the loop, and each before it lets the loop go on.
      abbrev pub Succeeds : ℕ → S → Type 0
      Succeeds attempts s =
          (n : ℕ) × (n < attempts)
          × (judge (answer n s) ≡ done)
          × ((k : ℕ) → k < n → (noted : Option Last) × (judge (answer k s) ≡ again noted))

      module _ (give_up : Option Last → ConnectError) (m : ℕ) (last : Option Last) (s : S) where
        pub poll-done :
            judge (urlopen request s).0 ≡ done
            → poll S urlopen sleep request judge give_up (suc m) last s
              ≡ (ok tt, (urlopen request s).1)
        unfolding poll
        poll-done h = rw (h, poll) refl

        pub poll-failed :
            (e : ConnectError)
            → judge (urlopen request s).0 ≡ failed e
            → poll S urlopen sleep request judge give_up (suc m) last s
              ≡ (err e, (urlopen request s).1)
        unfolding poll
        poll-failed e h = rw (h, poll) refl

        pub poll-again :
            (noted : Option Last)
            → judge (urlopen request s).0 ≡ again noted
            → poll S urlopen sleep request judge give_up (suc m) last s
              ≡ poll S urlopen sleep request judge give_up m
                  (note last noted)
                  (sleep 2 (urlopen request s).1)
        unfolding poll
        poll-again noted h = rw (h, poll) refl

      module _ (give_up : Option Last → ConnectError) where
        Succeeds-suc :
            (m : ℕ) (s : S) (noted : Option Last)
            → judge (urlopen request s).0 ≡ again noted
            → Succeeds m (sleep 2 (urlopen request s).1)
            → Succeeds (suc m) s
        Succeeds-suc m s noted first (n, lt, d, earlier) = (suc n, omega arith, d, earlier')
          where
            earlier' : (k : ℕ) → k < suc n → (o : Option Last) × (judge (answer k s) ≡ again o)
            earlier' zero lt = (noted, first)
            earlier' (suc k) lt = earlier k (omega arith)

        poll-Succeeds :
            (m : ℕ) (last : Option Last) (s : S)
            → (poll S urlopen sleep request judge give_up m last s).0 ≡ ok tt
            → Succeeds m s
        unfolding poll
        poll-Succeeds zero last s h = cc
        poll-Succeeds (suc m) last s h = elim (Verdict-cases (judge (urlopen request s).0)) [
          | inl d ↦ (0, omega arith, d, λ k lt. absurd (omega arith))
          | inr (inl (e, f)) ↦ cc (sym (ap (λ x. x.0) (poll-failed give_up m last s e f)) ∙ h)
          | inr (inr (o, a)) ↦ Succeeds-suc m s o a (
              poll-Succeeds m (note last o) (sleep 2 (urlopen request s).1)
                (sym (ap (λ x. x.0) (poll-again give_up m last s o a)) ∙ h))
        ]

        Succeeds-poll :
            (m : ℕ) (last : Option Last) (s : S)
            → Succeeds m s
            → (poll S urlopen sleep request judge give_up m last s).0 ≡ ok tt
        Succeeds-poll zero last s (n, lt, _, _) = absurd (omega arith)
        Succeeds-poll (suc m) last s (zero, lt, d, _) = ap (λ x. x.0) (poll-done give_up m last s d)
        Succeeds-poll (suc m) last s (suc n, lt, d, earlier) =
            let (o, a) = earlier 0 (omega arith) in
            ap (λ x. x.0) (poll-again give_up m last s o a)
            ∙ Succeeds-poll m (note last o) (sleep 2 (urlopen request s).1)
                (n, omega arith, d, λ k l. earlier (suc k) (omega arith))

        pub poll_iff :
            (m : ℕ) (last : Option Last) (s : S)
            → ((poll S urlopen sleep request judge give_up m last s).0 ≡ ok tt) ↔ Succeeds m s
        poll_iff m last s = (poll-Succeeds m last s, Succeeds-poll m last s)

  module _ (endpoint : Text) where
    -- Kafka Connect answers an attempt with the status 200.
    abbrev pub IsReady : ℕ → S → Type 0
    IsReady n s = (r : Response) × (answer (get endpoint) n s ≡ ok r) × (r.status ≡ 200)

    judge_ready-done :
        (a : Result Text Response)
        → (judge_ready a ≡ done) ↔ ((r : Response) × (a ≡ ok r) × (r.status ≡ 200))
    unfolding judge_ready
    judge_ready-done (err e) = (λ h. cc, λ (r, h, _). cc)
    judge_ready-done (ok r) = (λ h. (r, refl, ground arith), λ h. ground arith)

    judge_ready-continues :
        (a : Result Text Response)
        → (judge_ready a ≡ done) ⊎ ((noted : Option Last) × (judge_ready a ≡ again noted))
    unfolding judge_ready
    judge_ready-continues (err e) = inr (_, refl)
    judge_ready-continues (ok r) = elim (Bool-cases (r.status == 200)) [
      | inl yes_it_is ↦ inl (rw yes_it_is refl)
      | inr other ↦ inr (none, rw other refl)
    ]

    first_ready :
        (m : ℕ) (s : S) (n : ℕ) → n < m → IsReady n s → Succeeds (get endpoint) judge_ready m s
    first_ready zero s n lt h = absurd (omega arith)
    first_ready (suc m) s zero lt h =
        (0, omega arith, (judge_ready-done _).1 h, λ k l. absurd (omega arith))
    first_ready (suc m) s (suc n) lt h = elim (judge_ready-continues (answer (get endpoint) 0 s)) [
      | inl d ↦ (0, omega arith, d, λ k l. absurd (omega arith))
      | inr (o, a) ↦
          Succeeds-suc (get endpoint) judge_ready not_ready m s o a
            (first_ready m (sleep 2 (urlopen (get endpoint) s).1) n (omega arith) h)
    ]

    -- `_wait_for_connect` returns exactly if Kafka Connect answers one of that many attempts, each
    -- two seconds of sleep behind the one before it, with the status 200.
    pub wait_for_connect_iff :
        (attempts : ℕ) (s : S)
        → ((wait_for_connect S urlopen sleep endpoint attempts s).0 ≡ ok tt)
          ↔ ((n : ℕ) × (n < attempts) × IsReady n s)
    unfolding wait_for_connect
    wait_for_connect_iff attempts s =
        let law = poll_iff (get endpoint) judge_ready not_ready attempts none s in
        (
          λ h. let (n, lt, d, _) = law.0 h in (n, lt, (judge_ready-done _).0 d),
          λ (n, lt, ready). law.1 (first_ready attempts s n lt ready),
        )
