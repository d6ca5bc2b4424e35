-- ===== src/Cart/Restarts.antt =====
-- The cart materializer with restarts: the messages that come again do no harm.
use kafka_flink_click_house.Base.{
  ◌≡◌, refl, sym, ap, ◌∙◌, subst, false, Option, some, List, [], ◌∷◌, ◌++◌, append_assoc,
  append-nil, inl, inr, Text, ℤ, pos, ◌≤ℤ◌, length,
}
use kafka_flink_click_house.Base.Dict.{Dict}
use kafka_flink_click_house.Redis.{Redis, IsLawful, Json}
use kafka_flink_click_house.Consumer.{iterate}
use kafka_flink_click_house.Consumer.Runs.{
  System, Step, waits, handles, stops, restarts, Reach, starts, goes_on,
}
use kafka_flink_click_house.Consumer.Progress.{Reach-IsOn}
use kafka_flink_click_house.Cart.{CartError, apply_mutation}
use kafka_flink_click_house.Cart.Latest.{
  mutation_of, last_value, last_value-append, updated, updated-cases, write-updated,
  iterate-updated,
}

module _ (loads : Text → Option (Dict Text Json)) (j g : Text) (start : Option Text) where
  -- A value is the one behind some messages of the topic, those seen and perhaps some of the rest.
  pub record IsAhead (seen rest : List (Option Text)) (v : Option Text) : Type 0 where
    pub ahead : List (Option Text)
    pub others : List (Option Text)
    pub split : rest ≡ ahead ++ others
    pub value : v ≡ last_value loads (seen ++ ahead) j g start

  -- The next message, applied to such a value.
  IsAhead-advance :
      (seen l rest : List (Option Text)) (message : Option Text) (v : Option Text)
      → l ≡ message ∷ rest
      → IsAhead seen l v
      → IsAhead (seen ++ (message ∷ [])) rest (updated (mutation_of loads message) j g v)
  IsAhead-advance seen l rest message v next h = by_ahead h.ahead (sym next ∙ h.split) h.value
    where
      -- The message decides the value.
      decided :
          ((a b : Option Text)
            → updated (mutation_of loads message) j g a ≡ updated (mutation_of loads message) j g b)
          → IsAhead (seen ++ (message ∷ [])) rest (updated (mutation_of loads message) j g v)
      decided const = record {
        ahead = [];
        others = rest;
        split = refl;
        value =
            const v (last_value loads seen j g start)
            ∙ sym (last_value-append loads seen (message ∷ []) j g start)
            ∙ ap (λ l. last_value loads l j g start) (sym (append-nil (seen ++ (message ∷ []))));
      }

      by_ahead :
          (ahead : List (Option Text))
          → message ∷ rest ≡ ahead ++ h.others
          → v ≡ last_value loads (seen ++ ahead) j g start
          → IsAhead (seen ++ (message ∷ [])) rest (updated (mutation_of loads message) j g v)
      by_ahead [] e k = record {
        ahead = [];
        others = rest;
        split = refl;
        value =
            ap (updated (mutation_of loads message) j g)
              (k ∙ ap (λ l. last_value loads l j g start) (append-nil seen))
            ∙ sym (last_value-append loads seen (message ∷ []) j g start)
            ∙ ap (λ l. last_value loads l j g start) (sym (append-nil (seen ++ (message ∷ []))));
      }
      by_ahead (n ∷ ahead) e k = elim (updated-cases (mutation_of loads message) j g) [
        | inl same ↦ record {
          ahead = ahead;
          others = h.others;
          split = cc e;
          value =
              same v
              ∙ k
              ∙ ap (λ l. last_value loads l j g start)
                  (ap (λ m. seen ++ (m ∷ ahead)) (cc e)
                    ∙ sym (append_assoc seen (message ∷ []) ahead));
        }
        | inr const ↦ decided const
      ]

  IsAhead-stop :
      (seen l rest : List (Option Text)) (message : Option Text) (v : Option Text)
      → l ≡ message ∷ rest
      → IsAhead (seen ++ (message ∷ [])) rest v
      → IsAhead seen l v
  IsAhead-stop seen l rest message v next h = record {
    ahead = message ∷ h.ahead;
    others = h.others;
    split = next ∙ ap (λ l. message ∷ l) h.split;
    value =
        h.value ∙ ap (λ l. last_value loads l j g start) (append_assoc seen (message ∷ []) h.ahead);
  }

  IsAhead-restart :
      (seen again rest : List (Option Text)) (v : Option Text)
      → IsAhead (seen ++ again) rest v
      → IsAhead seen (again ++ rest) v
  IsAhead-restart seen again rest v h = record {
    ahead = again ++ h.ahead;
    others = h.others;
    split = ap (λ l. again ++ l) h.split ∙ sym (append_assoc again h.ahead h.others);
    value = h.value ∙ ap (λ l. last_value loads l j g start) (append_assoc seen again h.ahead);
  }

module _ (R : Redis) (laws : IsLawful R) (ttl_seconds : ℤ) (lives : pos 1 ≤ℤ ttl_seconds)
    (loads : Text → Option (Dict Text Json)) (store : R.State) (j g : Text) where
  -- The states of the materializer of a topic, `main` with its restarts.
  abbrev Moves : System R.State → System R.State → Type 0
  Moves = Step CartError R.State (Unit {0}) loads (apply_mutation R ttl_seconds) false

  abbrev pub Reaches : List (Option Text) → System R.State → Type 0
  Reaches = Reach CartError R.State (Unit {0}) loads (apply_mutation R ttl_seconds) false store

  abbrev IsOnWay : System R.State → Type 0
  IsOnWay t = IsAhead loads j g (R.hget store j g) t.seen t.rest (R.hget t.process.store j g)

  Moves-IsOnWay : (s t : System R.State) → Moves s t → IsOnWay s → IsOnWay t
  unfolding iterate
  Moves-IsOnWay s t waits h = h
  Moves-IsOnWay s t (handles message rest e fine) h =
      subst (IsAhead loads j g (R.hget store j g) (s.seen ++ (message ∷ [])) rest)
        (sym (iterate-updated R laws ttl_seconds lives loads (length s.seen) message s.process j g))
        (IsAhead-advance loads j g _ s.seen s.rest rest message _ e h)
  Moves-IsOnWay s t (stops value rest e fine) h =
      subst (IsAhead loads j g (R.hget store j g) s.seen s.rest)
        (sym (write-updated R laws ttl_seconds lives loads value s.process.store j g))
        (IsAhead-stop loads j g _ s.seen s.rest rest (some value) _ e
          (IsAhead-advance loads j g _ s.seen s.rest rest (some value) _ e h))
  Moves-IsOnWay s t (restarts seen again e k) h =
      IsAhead-restart loads j g _ seen again s.rest _ (
        subst (λ l. IsAhead loads j g (R.hget store j g) l s.rest (R.hget s.process.store j g)) e h)

  Reaches-IsOnWay : (topic : List (Option Text)) (t : System R.State) → Reaches topic t → IsOnWay t
  Reaches-IsOnWay topic t starts = record { ahead = []; others = topic; split = refl; value = refl }
  Reaches-IsOnWay topic t (goes_on {s} r step) = Moves-IsOnWay s t step (Reaches-IsOnWay topic s r)

  nothing_ahead : (xs ys : List (Option Text)) → [] ≡ xs ++ ys → xs ≡ []
  nothing_ahead [] ys e = refl
  nothing_ahead (x ∷ xs) ys e = cc

  -- Whenever the materializer has caught up with its topic, however often it stopped between a write
  -- and its commit and was started again at an offset it had committed, every field of every cart
  -- holds what the messages make of it, each applied once and in order. The time to live is positive,
  -- and no key expires on the way.
  pub Reaches-last_value :
      (topic : List (Option Text)) (t : System R.State)
      → Reaches topic t
      → t.rest ≡ []
      → R.hget t.process.store j g ≡ last_value loads topic j g (R.hget store j g)
  Reaches-last_value topic t r caught_up =
      let h = Reaches-IsOnWay topic t r in
      let on =
        Reach-IsOn CartError R.State (Unit {0}) loads (apply_mutation R ttl_seconds) false store
          topic t r in
      h.value
      ∙ ap (λ l. last_value loads l j g (R.hget store j g))
          (ap (λ l. t.seen ++ l)
              (nothing_ahead h.ahead h.others (sym caught_up ∙ h.split) ∙ sym caught_up)
            ∙ on.whole)
