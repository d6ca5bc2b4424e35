-- ===== src/Tests/Verifying.antt =====
-- The verification of an empty fixture, of one user's cart and one user's features.
use kafka_flink_click_house.Base.{
  ◌-ℤ◌, ◌↔◌, ◌≡◌, refl, true, false, none, Option, [], ◌∷◌, Text, codes, ◌==◌, nat_eq, list_eq,
  Bool, if◌then◌else◌, contains, ok, err,
}
use kafka_flink_click_house.Base.Dict.{put}
use kafka_flink_click_house.Text.{int, str, strip}
use kafka_flink_click_house.Json.{
  Json, null, number, string, array, object, no_elements, element, Members, no_members, member,
  find, set_member, iterate,
}
use kafka_flink_click_house.Json.Equality.{json_eq}
use kafka_flink_click_house.Replay.Reader.{iter_event_batches}
use kafka_flink_click_house.Accounting.{reconcile_accounting}
use kafka_flink_click_house.Verify.{
  Expected, Gathered, mismatch, accounting_of, sections, sort_rows, insert_row, text_ltb, judge,
  require_all,
}
use kafka_flink_click_house.Verify.Verdict.{IsVerified, judge_iff}
use kafka_flink_click_house.Verify.Rows.{
  flat, failed, integerize, integerize_rows, integerize_row, account, quality_types, hash_of_reply,
  zip_pairs, data_of,
}
use kafka_flink_click_house.Verify.Services.{Services, clickhouse, redis_hash_key, query_of}
use kafka_flink_click_house.Verify.Gathering.{main, gather, rows_of, read_hashes, read_catalog}
use kafka_flink_click_house.Verify.Gathering.Passing.{IsGathered, main-IsVerified}

-- Each query finds no row. The reply of `HGETALL` is a list, and a key has 60 seconds left.
abbrev services : Services Text (Unit {0})
services = record {
  fetch = λ query s. (ok (object (member (codes "data") (array no_elements) no_members)), s);
  run_process =
      λ command s. (ok (if contains command (codes "TTL") then codes "60\n" else codes "reply"), s);
  hash_reply = λ output. ok (flat (codes "8" ∷ codes "9|10|11" ∷ []));
  urlencode = λ name value. value;
  base64 = λ t. t;
  truncated = int;
}

abbrev hash : Json
hash = object (member (codes "8") (string (codes "9|10|11")) no_members)

abbrev zero_of : Text → Members → Members
zero_of name fields = member name (number (codes "0")) fields

-- In another order than that of `reconcile_accounting`.
abbrev expected : Expected
expected = record {
  accounting = object (
      zero_of (codes "source_rows") (
        member (codes "replay_attempts") (number (codes "2")) (
          zero_of (codes "decoded") (
            zero_of (codes "invalid") (
              zero_of (codes "valid") (
                zero_of (codes "duplicate") (
                  zero_of (codes "accepted_unique") (
                    zero_of (codes "on_time") (
                      zero_of (codes "late_for_aggregation") (
                        zero_of (codes "canonical_raw") (
                          zero_of (codes "metrics_input")
                            (zero_of (codes "producer_rejected") no_members))))))))))));
  canonical_raw = array no_elements;
  metrics = array no_elements;
  user_features = array no_elements;
  quality = [];
  redis_active_carts = member (codes "7") hash no_members;
  redis_user_features = member (codes "7") hash no_members;
}

abbrev no_setting : Text → Option Text
no_setting name = none

abbrev constant : Text → Text
constant t = codes "id"

abbrev same_number : Text → Text → Bool
same_number s t = s == t

verified :
    (a : Gathered) × ((main services no_setting constant [] same_number true false
        (array no_elements)
        expected
        tt).0
      ≡ ok a)
unfolding main gather rows_of read_hashes read_catalog account quality_types clickhouse
    redis_hash_key query_of data_of hash_of_reply zip_pairs set_member integerize integerize_rows
    integerize_row iterate find put int str strip json_eq judge require_all sections accounting_of
    sort_rows reconcile_accounting iter_event_batches ◌-ℤ◌
verified = (_, refl)

main-IsVerified_example :
    IsGathered services no_setting constant [] verified.0
    × IsVerified same_number no_setting false (array no_elements) expected verified.0
main-IsVerified_example =
    main-IsVerified services no_setting constant [] same_number true false (array no_elements)
      expected tt verified.0 verified.1

judge_iff_example :
    (judge same_number no_setting false (array no_elements) expected verified.0 ≡ ok tt)
    ↔ IsVerified same_number no_setting false (array no_elements) expected verified.0
judge_iff_example = judge_iff same_number no_setting false (array no_elements) expected verified.0

-- A catalog is expected that ClickHouse does not have.
no_catalog :
    (main services no_setting constant [] same_number true false
      (array (element null no_elements))
      expected
      tt).0
    ≡ err (failed (mismatch (codes "product_catalog")))
unfolding main gather rows_of read_hashes read_catalog account quality_types clickhouse
    redis_hash_key query_of data_of hash_of_reply zip_pairs set_member integerize integerize_rows
    integerize_row iterate find put int str strip json_eq judge require_all sections accounting_of
    sort_rows reconcile_accounting iter_event_batches ◌-ℤ◌
no_catalog = refl

sorted_rows :
    sort_rows ((codes "b", null) ∷ (codes "ab", null) ∷ (codes "a", null) ∷ [])
    ≡ (codes "a", null) ∷ (codes "ab", null) ∷ (codes "b", null) ∷ []
unfolding sort_rows insert_row text_ltb
sorted_rows = refl
