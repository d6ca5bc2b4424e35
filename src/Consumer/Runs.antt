-- ===== src/Consumer/Runs.antt =====
-- A materializer that may stop at any point and be started again: then it reads on from the offset
-- that it has committed, so messages come again.
use kafka_flink_click_house.Base.{
  ◌≡◌, Bool, Option, some, List, [], ◌∷◌, ◌++◌, Text, Result, ok, length,
}
use kafka_flink_click_house.Base.Dict.{Dict}
use kafka_flink_click_house.Redis.{Json}
use kafka_flink_click_house.Consumer.{Process, idle, received, write, iterate}

-- The process, and the topic's messages in front of the position of its consumer and behind it. A
-- message is its value, `none` for a tombstone, and its offset is the number of those in front.
pub record System (S : Type 0) : Type 0 where
  pub process : Process S
  pub seen : List (Option Text)
  pub rest : List (Option Text)

module _ (E S A : Type 0) (loads : Text → Option (Dict Text Json))
    (apply : Dict Text Json → S → Result E A × S) (commits_tombstones : Bool) where
  pub data Step (s : System S) : System S → Type 0 where
    -- A turn of the loop that finds nothing.
    waits :
        Step s
          (record s { process = (iterate E S A loads apply commits_tombstones idle s.process).1 })
    -- A turn that handles the next message and raises nothing.
    handles :
        (message : Option Text) (rest : List (Option Text))
        → s.rest ≡ message ∷ rest
        → (iterate E S A loads apply commits_tombstones
            (received (length s.seen) message)
            s.process).0
          ≡ ok tt
        → Step s (record {
          process =
              (iterate E S A loads apply commits_tombstones
                (received (length s.seen) message)
                s.process).1;
          seen = s.seen ++ (message ∷ []);
          rest = rest;
        })
    -- The process ends between the writes of the next message and its commit.
    stops :
        (value : Text) (rest : List (Option Text))
        → s.rest ≡ some value ∷ rest
        → (write E S A loads apply value s.process.store).0 ≡ ok tt
        → Step s (record s {
          process = record (s.process) {
            store = (write E S A loads apply value s.process.store).1;
          };
        })
    -- The process is started again, and reads on from the committed offset.
    restarts :
        (seen again : List (Option Text))
        → s.seen ≡ seen ++ again
        → length seen ≡ s.process.committed
        → Step s (record s { seen = seen; rest = again ++ s.rest })

  -- The process starts at the beginning of the topic, with nothing committed.
  pub data Reach (store : S) (topic : List (Option Text)) : System S → Type 0 where
    starts :
        Reach store topic
          (record { process = record { store = store; committed = 0 }; seen = []; rest = topic })
    goes_on : {s t : System S} → Reach store topic s → Step s t → Reach store topic t
