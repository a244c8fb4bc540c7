-- ===== src/Tools/RedisFacade/Fields.antt =====
-- Which fields of a hash are written.
use cpp_client_rabbit_mq.Common.{◌≡◌, refl, true, false, Bytes, List, [], ◌∷◌, ◌++◌}
use cpp_client_rabbit_mq.Tools.Step.{State, returned}
use cpp_client_rabbit_mq.Tools.RedisFacade.{Call, Redis, hset_range}

-- The calls that write all fields, in order.
abbrev pub writes : Bytes → List (Bytes × Bytes) → List Call → List Call
writes key [] calls = calls
writes key ((field, value) ∷ rest) calls = writes key rest (Call.hset key field value ∷ calls)

module _ (redis : Redis) where
  -- Each of the fields is new when it is written.
  abbrev pub AreNew : Bytes → List (Bytes × Bytes) → List Call → Type 0
  AreNew key [] calls = Unit {0}
  AreNew key ((field, value) ∷ rest) calls =
      (redis.is_new_of (Call.hset key field value ∷ calls) ≡ true)
      × AreNew key rest (Call.hset key field value ∷ calls)

  hset_range-false :
      (key : Bytes) (fields : List (Bytes × Bytes)) (s : State (Unit {0}) Call)
      → hset_range redis key fields false s ≡ (returned false, s)
  unfolding hset_range
  hset_range-false key [] s = refl
  hset_range-false key (f ∷ fs) s = hset_range-false key fs s

  -- Writing the fields of a hash stops behind the first one that is there already, which is itself
  -- written: the fields behind it are not, and the result is `false`.
  pub hset_range_stops :
      (key field value : Bytes) (before after : List (Bytes × Bytes)) (s : State (Unit {0}) Call)
      → AreNew key before s.calls
      → redis.is_new_of (Call.hset key field value ∷ writes key before s.calls) ≡ false
      → hset_range redis key (before ++ (field, value) ∷ after) true s ≡ (
        returned false,
        record s { calls = Call.hset key field value ∷ writes key before s.calls },
      )
  unfolding hset_range
  hset_range_stops key field value [] after s h k = rw (k, hset_range-false key after) refl
  hset_range_stops key field value ((f, v) ∷ before) after s (h, hs) k = rw h (
      hset_range_stops key field value before after
        (record s { calls = Call.hset key f v ∷ s.calls }) hs k)
