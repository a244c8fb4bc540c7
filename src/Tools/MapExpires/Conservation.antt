-- ===== src/Tools/MapExpires/Conservation.antt =====
-- No value without a mark is lost.
use cpp_client_rabbit_mq.Common.{
  ℕ, ◌+◌, ◌≡◌, Bool, true, [], ◌∷◌, ◌++◌, if◌then◌else◌, arith, is_empty,
}
use cpp_client_rabbit_mq.Tools.MarkValue.{MarkValue}
use cpp_client_rabbit_mq.Tools.MapExpires.{
  MapType, Timed, Container, unmarked, shrink_to_fit, scan, review, reduce_element, reduce_all,
  erase_front, reduce,
}

module _ {K V : Type 0} (test : ℕ → K → V → Bool) where
  -- How many entries without a mark pass a test of their time, key and value.
  abbrev pub pending_in : ℕ → MapType K V → ℕ
  pending_in t [] = 0
  pending_in t ((k, v) ∷ m) =
      if v.marked
      then pending_in t m
      else if test t k v.value
      then pending_in t m + 1
      else pending_in t m

  abbrev pub pending : Container K V → ℕ
  pending [] = 0
  pending (t ∷ c) = pending_in t.time t.entries.value + pending c

  pending_in_empty : (t : ℕ) (m : MapType K V) → is_empty m ≡ true → pending_in t m ≡ 0
  pending_in_empty t [] h = omega arith
  pending_in_empty t (x ∷ m) h = cc

  pending-append : (c d : Container K V) → pending (c ++ d) ≡ pending c + pending d
  pending-append [] d = omega arith
  pending-append (t ∷ c) d = omega (arith, pending-append c d)

  pending_in-unmarked : (t : ℕ) (m : MapType K V) → pending_in t (unmarked m) ≡ pending_in t m
  unfolding unmarked
  pending_in-unmarked t [] = omega arith
  pending_in-unmarked t ((k, v) ∷ m) = ground (arith, pending_in-unmarked t m)

  pending_in-shrink_to_fit :
      (t : ℕ) (e : MarkValue (MapType K V))
      → pending_in t (shrink_to_fit e).value ≡ pending_in t e.value
  unfolding shrink_to_fit
  pending_in-shrink_to_fit t e = ground (arith, pending_in-unmarked t e.value)

  pending_in_all_marked :
      (t : ℕ) (m : MapType K V) (b : Bool) → (scan m b).0 ≡ true → pending_in t m ≡ 0
  unfolding scan
  pending_in_all_marked t [] b h = omega arith
  pending_in_all_marked t ((k, v) ∷ m) b h = ground (arith, pending_in_all_marked t m true)

  pending_in-review :
      (t : ℕ) (e : MarkValue (MapType K V)) → pending_in t (review e).value ≡ pending_in t e.value
  unfolding review
  pending_in-review t e = ground (arith, pending_in_all_marked t e.value e.marked)

  pending-reduce_element :
      (purge : ℕ) (t : Timed K V)
      → pending ((reduce_element purge t).0 ∷ (reduce_element purge t).1)
        ≡ pending_in t.time t.entries.value
  unfolding reduce_element
  pending-reduce_element purge t =
      let e = shrink_to_fit t.entries in
      ground (
        arith,
        pending_in-shrink_to_fit t.time t.entries,
        pending_in-shrink_to_fit t.time e,
        pending_in-review t.time t.entries,
        pending_in-review t.time e,
        pending_in_empty t.time t.entries.value,
        pending_in_empty t.time e.value,
      )

  pending-reduce_all :
      (purge : ℕ) (c : Container K V)
      → pending (reduce_all purge c).0 + pending (reduce_all purge c).1 ≡ pending c
  unfolding reduce_all
  pending-reduce_all purge [] = omega arith
  pending-reduce_all purge (t ∷ c) = omega (
    arith,
    pending-reduce_element purge t,
    pending-reduce_all purge c,
    pending-append (reduce_element purge t).1 (reduce_all purge c).1,
  )

  pending-erase_front : (c : Container K V) → pending (erase_front c) ≡ pending c
  unfolding erase_front
  pending-erase_front [] = omega arith
  pending-erase_front (t ∷ c) = ground (arith, pending-erase_front c)

  -- `reduce` moves the entries without a mark and loses and invents none: of any kind, told by
  -- time, key and value, there are as many in the container and in the result together as there
  -- were in the container before.
  pub pending-reduce :
      (purge : ℕ) (c : Container K V)
      → pending (reduce purge c).0 + pending (reduce purge c).1 ≡ pending c
  unfolding reduce
  pending-reduce purge c =
      omega (arith, pending-reduce_all purge c, pending-erase_front (reduce_all purge c).0)
