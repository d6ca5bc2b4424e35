-- ===== src/Redis/Memory.antt =====
-- A server in memory: the fields of every hash, and the time to live of the keys that have one.
use mathlib.Core.Path.{ap₂}
use kafka_flink_click_house.Base.{
  ◌≡◌, refl, Bool, true, false, Option, none, some, ℕ, [], Text, ◌==◌, nat_eq, list_eq,
  list_beq_iff, eq_self, arith, leb, if◌then◌else◌, ℤ, pos, negsuc, ◌≤ℤ◌, ltb_ℤ,
}
use kafka_flink_click_house.Base.Dict
use kafka_flink_click_house.Base.Dict.{Dict, get-put, get-remove, get-nil}
use kafka_flink_click_house.Text.{scan_digits, str_nat}
use kafka_flink_click_house.Text.Decimal.{scan-str_nat}
use kafka_flink_click_house.Redis.{Redis, IsLawful, Lua}

pub record Server : Type 0 where
  pub hashes : Dict Text (Dict Text Text)
  pub times : Dict Text ℤ

abbrev fields_of : Option (Dict Text Text) → Dict Text Text
fields_of none = []
fields_of (some d) = d

-- The fields of a key, if there is one.
unfoldable pub fields : Server → Text → Dict Text Text
fields s k = fields_of (Dict.get s.hashes k)

-- The time to live: -2 of a key that is not there, and -1 of one that never expires.
unfoldable pub time_of : Server → Text → ℤ
time_of s k = elim (Dict.get s.times k) [
  | some t ↦ t
  | none ↦ elim (Dict.get s.hashes k) [ none ↦ negsuc 1 | some d ↦ negsuc 0 ]
]

unfoldable pub write : Server → Text → Dict Text Text → Server
write s k d = record s { hashes = Dict.put s.hashes k d }

unfoldable pub expire_at : Server → Text → ℤ → Server
expire_at s k t =
    if ltb_ℤ t (pos 1)
    then record { hashes = Dict.remove s.hashes k; times = Dict.remove s.times k }
    else record s { times = Dict.put s.times k t }

abbrev pub memory : Redis
memory = record {
  State = Server;
  hget = λ s k f. Dict.get (fields s k) f;
  hgetall = fields;
  ttl = time_of;
  hset = λ s k f v. write s k (Dict.put (fields s k) f v);
  hdel = λ s k f. write s k (Dict.remove (fields s k) f);
  expire = expire_at;
}

abbrev pub empty : Server
empty = record { hashes = []; times = [] }

-- What a test unfolds to run the server.
unfoldable pub run_memory : Unit {0}
unfolding fields time_of write expire_at Dict.get Dict.put Dict.remove
run_memory = tt

fields-write :
    (s : Server) (k j : Text) (d : Dict Text Text)
    → fields (write s k d) j ≡ (if j == k then d else fields s j)
unfolding fields write
fields-write s k j d = rw get-put (branch (j == k))
  where
    branch :
        (b : Bool)
        → fields_of (if b then some d else Dict.get s.hashes j)
          ≡ (if b then d else fields_of (Dict.get s.hashes j))
    branch true = refl
    branch false = refl

hget-write :
    (s : Server) (k j g : Text) (d : Dict Text Text)
    → Dict.get (fields (write s k d) j) g
      ≡ (if j == k then Dict.get d g else Dict.get (fields s j) g)
hget-write s k j g d = rw fields-write (branch (j == k))
  where
    branch :
        (b : Bool)
        → Dict.get (if b then d else fields s j) g
          ≡ (if b then Dict.get d g else Dict.get (fields s j) g)
    branch true = refl
    branch false = refl

fields-expire_at :
    (s : Server) (k : Text) (t : ℤ) (j : Text)
    → pos 1 ≤ℤ t
    → fields (expire_at s k t) j ≡ fields s j
unfolding fields expire_at
fields-expire_at s k t j h = ground arith

time_of-expire_at : (s : Server) (k : Text) (t : ℤ) → pos 1 ≤ℤ t → time_of (expire_at s k t) k ≡ t
unfolding time_of expire_at
time_of-expire_at s k t h = ground (arith, get-put s.times k k t, eq_self k)

pub memory-IsLawful : IsLawful memory
memory-IsLawful = record {
  hget-hset = λ s k f v j g. rw (hget-write, get-put) (ground (arith, list_beq_iff j k));
  hget-hdel = λ s k f j g. rw (hget-write, get-remove) (ground (arith, list_beq_iff j k));
  hget-expire = λ s k t j g h. rw (fields-expire_at s k t j h);
  ttl-expire = λ s k t f h held. time_of-expire_at s k t h;
  get-hgetall = λ s k f. refl;
}

-- The comparison of the whole numbers that two texts spell, with no rounding.
abbrev pub compare_read : Option ℕ → Option ℕ → Option Bool
compare_read (some m) (some n) = some (leb n m)
compare_read _ _ = none

unfoldable pub exact_ge : Text → Text → Option Bool
unfolding scan_digits
exact_ge a b = compare_read (scan_digits true 0 a) (scan_digits true 0 b)

pub exact_ge-str_nat : (m n : ℕ) → exact_ge (str_nat m) (str_nat n) ≡ some (leb n m)
unfolding exact_ge
exact_ge-str_nat m n = ap₂ compare_read (scan-str_nat m) (scan-str_nat n)

abbrev pub exact : Lua
exact = record { number_ge = exact_ge; number_ge-str_nat = λ m n hm hn. exact_ge-str_nat m n }
