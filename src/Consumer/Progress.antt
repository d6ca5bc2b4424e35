-- ===== src/Consumer/Progress.antt =====
-- What holds of every run, whatever the messages write: no message is passed over, and the offset
-- that is committed is one that the consumer has reached.
use kafka_flink_click_house.Base.{
  ℕ, ◌+◌, ◌≤◌, ◌≡◌, refl, sym, ap, ◌∙◌, true, false, Bool, Option, none, some, List, [], ◌∷◌, ◌++◌,
  append_assoc, Text, Result, ok, err, length, length-append, arith, if◌then◌else◌,
}
use kafka_flink_click_house.Base.Dict.{Dict}
use kafka_flink_click_house.Redis.{Json}
use kafka_flink_click_house.Consumer.{
  Process, ConsumerError, commit, then_commit, iterate, received, write,
}
use kafka_flink_click_house.Consumer.Runs.{
  System, Step, waits, handles, stops, restarts, Reach, starts, goes_on,
}

module _ (E S A : Type 0) (loads : Text → Option (Dict Text Json))
    (apply : Dict Text Json → S → Result E A × S) (commits_tombstones : Bool) where
  abbrev turned : ℕ → Option Text → Process S → Result (ConsumerError E) (Unit {0}) × Process S
  turned offset message p = iterate E S A loads apply commits_tombstones (received offset message) p

  then_commit-committed :
      (offset : ℕ) (r : Result (ConsumerError E) (Unit {0}) × S) (p : Process S) (n : ℕ)
      → p.committed ≤ n
      → offset + 1 ≤ n
      → (then_commit E S A loads apply offset r p).1.committed ≤ n
  unfolding commit
  then_commit-committed offset (ok _, s) p n h k = omega arith
  then_commit-committed offset (err e, s) p n h k = h

  turned-committed :
      (offset : ℕ) (message : Option Text) (p : Process S) (n : ℕ)
      → p.committed ≤ n
      → offset + 1 ≤ n
      → (turned offset message p).1.committed ≤ n
  unfolding iterate commit
  turned-committed offset none p n h k = tombstone commits_tombstones
    where
      tombstone : (b : Bool) → (if b then commit offset p else p).committed ≤ n
      tombstone true = omega arith
      tombstone false = h
  turned-committed offset (some value) p n h k =
      then_commit-committed offset (write E S A loads apply value p.store) p n h k

  pub record IsOn (topic : List (Option Text)) (t : System S) : Type 0 where
    pub whole : t.seen ++ t.rest ≡ topic
    pub reached : t.process.committed ≤ length t.seen

  Step-IsOn :
      (topic : List (Option Text)) (s t : System S)
      → Step E S A loads apply commits_tombstones s t
      → IsOn topic s
      → IsOn topic t
  unfolding iterate
  Step-IsOn topic s t waits h = record { whole = h.whole; reached = h.reached }
  Step-IsOn topic s t (handles message rest e fine) h = record {
    whole = append_assoc s.seen (message ∷ []) rest ∙ sym (ap (λ l. s.seen ++ l) e) ∙ h.whole;
    reached =
        turned-committed (length s.seen) message s.process _
          (omega (arith, h.reached, length-append s.seen (message ∷ [])))
          (omega (arith, length-append s.seen (message ∷ [])));
  }
  Step-IsOn topic s t (stops value rest e fine) h = record { whole = h.whole; reached = h.reached }
  Step-IsOn topic s t (restarts seen again e k) h = record {
    whole = sym (append_assoc seen again s.rest) ∙ sym (ap (λ l. l ++ s.rest) e) ∙ h.whole;
    reached = omega (arith, k);
  }

  -- In every reachable state the messages seen and those still to come are the topic, in order, and
  -- the committed offset is not ahead of the consumer.
  pub Reach-IsOn :
      (store : S) (topic : List (Option Text)) (t : System S)
      → Reach E S A loads apply commits_tombstones store topic t
      → IsOn topic t
  Reach-IsOn store topic t starts = record { whole = refl; reached = omega arith }
  Reach-IsOn store topic t (goes_on {s} r step) =
      Step-IsOn topic s t step (Reach-IsOn store topic s r)
