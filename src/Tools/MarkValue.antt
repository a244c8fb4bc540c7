-- ===== src/Tools/MarkValue.antt =====
-- A value with a mark. (include/Tools/MarkValue.h)
use cpp_client_rabbit_mq.Common.{Bool, true, false}

pub record MarkValue {ℓ} (T : Type ℓ) : Type ℓ where
  pub value : T
  pub marked : Bool

module _ {ℓ} {T : Type ℓ} where
  -- MarkValue(const T& v)
  abbrev pub of_value : T → MarkValue T
  of_value v = record { value = v; marked = false }

  abbrev pub mark : MarkValue T → MarkValue T
  mark m = record m { marked = true }

  abbrev pub unmark : MarkValue T → MarkValue T
  unmark m = record m { marked = false }
