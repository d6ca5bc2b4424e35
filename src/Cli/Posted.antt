-- ===== src/Cli/Posted.antt =====
-- cli.py with http.py: what was posted when the command `http` returns.
use kafka_flink_click_house.Base.{
  true, false, ◌||◌, ◌≡◌, refl, ap, ◌∙◌, none, List, [], ◌∷◌, ◌++◌, map, Text, codes, nat_eq,
  list_eq, ok, arith,
}
use kafka_flink_click_house.Base.Exec.{continue_returns}
use kafka_flink_click_house.Events.{UserBehaviorEvent}
use kafka_flink_click_house.Replay.Player.{Floats, ReplayStats}
use kafka_flink_click_house.Cli.{Arguments}
use kafka_flink_click_house.Cli.Http.{
  Service, Answer, responded, http_error, url_error, broken, starts_with, create_http, publish_http,
  close_http, judge_answer,
}
use kafka_flink_click_house.Cli.Disk.{World}
use kafka_flink_click_house.Cli.Errors.{posting, bad_endpoint, present, raise_as-ok}
use kafka_flink_click_house.Cli.Host.{Host}
use kafka_flink_click_house.Cli.Checks.{validate}
use kafka_flink_click_house.Cli.Commands.{on_publisher, http_command}
use kafka_flink_click_house.Cli.Kept.{open_invalid-Apart, validate-IsApart}
use kafka_flink_click_house.Cli.Delivered.{input_events, deliver-published}

-- A request that a service was sent, and its answer.
pub record Post : Type 0 where
  pub url : Text
  pub event : UserBehaviorEvent
  pub answer : Answer

-- A service that keeps the requests, in order.
pub record Journal (H : Service) : Type 0 where
  pub posts : H.State → List Post
  pub posted :
      (url : Text) (event : UserBehaviorEvent) (s : H.State)
      → posts (H.post url event s).1
        ≡ posts s ++ (record { url = url; event = event; answer = (H.post url event s).0 } ∷ [])

-- The endpoint is of one of the two schemes.
abbrev pub IsEndpoint : Text → Type 0
IsEndpoint url = (starts_with url (codes "http://") || starts_with url (codes "https://")) ≡ true

create_http-ok :
    (endpoint url : Text)
    → present bad_endpoint (create_http endpoint) ≡ ok url
    → (url ≡ endpoint) × IsEndpoint endpoint
unfolding create_http
create_http-ok endpoint url h = ground (arith, h)

judge_answer-ok : (a : Answer) → judge_answer a ≡ ok tt → a ≡ responded 202
unfolding judge_answer
judge_answer-ok (responded n) h = ground (arith, h)
judge_answer-ok (http_error n) h = cc
judge_answer-ok url_error h = cc
judge_answer-ok broken h = cc

module _ (H : Service) (J : Journal H) where
  -- A request that was answered as the client wants it.
  abbrev pub accepted_post : Text → UserBehaviorEvent → Post
  accepted_post url event = record { url = url; event = event; answer = responded 202 }

  publish_http-posted :
      (url : Text) (event : UserBehaviorEvent) (s : H.State)
      → (publish_http H url event s).0 ≡ ok tt
      → J.posts (publish_http H url event s).1 ≡ J.posts s ++ (accepted_post url event ∷ [])
  unfolding publish_http
  publish_http-posted url event s h =
      J.posted url event s
      ∙ ap (λ a. J.posts s ++ (record { url = url; event = event; answer = a } ∷ []))
          (judge_answer-ok (H.post url event s).0 h)

  -- If the command `http` returns, the endpoint is of HTTP or HTTPS, and it was sent each event that
  -- `parse_event` makes of the rows of the input file, in the order of the file and once, and
  -- answered each with 202. The empty path must not be one that can be opened for writing.
  pub http_command-posts :
      (F : Floats) (host : Host F) (endpoint : Text) (args : Arguments F) (q : H.State)
      (w : World F) (stats : ReplayStats)
      → host.names.is_writable [] ≡ false
      → (http_command F host H endpoint args (q, w)).0 ≡ ok stats
      → IsEndpoint endpoint
        × (J.posts (http_command F host H endpoint args (q, w)).1.0
            ≡ J.posts q ++ map (accepted_post endpoint) (input_events F host args w))
  unfolding http_command close_http
  http_command-posts F host endpoint args q w stats cwd h =
      let checked = validate F host args (codes "-") w in
      let (_, valid, h₁, e₁) = continue_returns checked (q, w) _ stats h in
      let (url, made, h₂, e₂) =
        continue_returns (present bad_endpoint (create_http endpoint)) (q, w) _ stats h₁ in
      let (same, scheme) = create_http-ok endpoint url made in
      let apart =
        (validate-IsApart F host cwd (host.names.resolve args.input) none args (codes "-") w refl
          valid).1 in
      let (t, posts, _, end) =
        deliver-published F host (λ event. on_publisher F host posting (publish_http H url event))
          J.posts (accepted_post url)
          (λ event s e. publish_http-posted url event s.0 (raise_as-ok posting _ tt e))
          (on_publisher F host posting (close_http H url)) args (q, w) stats
          (open_invalid-Apart F host cwd (host.names.resolve args.input) none args.invalid_output
            args.force w apart).0
          h₂ in
      (
        scheme,
        ap (λ x. J.posts x.1.0) (e₁ ∙ e₂)
            ∙ ap (λ s. J.posts s.0) end
            ∙ posts
            ∙ ap (λ u. J.posts q ++ map (accepted_post u) (input_events F host args w)) same,
      )
