-- ===== src/Tools/MapExpires/Purge.antt =====
-- Which lists `reduce` returns, and which it leaves.
use cpp_client_rabbit_mq.Common.{
  ℕ, ◌≤◌, ◌<◌, ◌≡◌, ◌⊎◌, Bool, true, false, not, ◌&&◌, ◌||◌, [], ◌∷◌, ◌++◌, arith, is_empty,
}
use cpp_client_rabbit_mq.Tools.MarkValue.{MarkValue}
use cpp_client_rabbit_mq.Tools.MapExpires.{
  MapType, Timed, Container, unmarked, shrink_to_fit, scan, review, reduce_element, reduce_all,
  erase_front, reduce,
}

module _ {K V : Type 0} where
  abbrev pub none_marked : MapType K V → Bool
  none_marked [] = true
  none_marked ((k, v) ∷ m) = not v.marked && none_marked m

  abbrev pub some_unmarked : MapType K V → Bool
  some_unmarked [] = false
  some_unmarked ((k, v) ∷ m) = not v.marked || some_unmarked m

  module _ (purge : ℕ) where
    -- An old list with no marked entry.
    abbrev pub AreCollected : Container K V → Type 0
    AreCollected [] = Unit {0}
    AreCollected (t ∷ c) = (t.time < purge) × (none_marked t.entries.value ≡ true) × AreCollected c

    -- A list that is not old and still has an entry with no mark.
    abbrev pub IsKept : Timed K V → Type 0
    IsKept t = (purge ≤ t.time) × (some_unmarked t.entries.value ≡ true)

    -- Empty lists, and lists that are to be kept.
    abbrev pub AreKept : Container K V → Type 0
    AreKept [] = Unit {0}
    AreKept (t ∷ c) = ((is_empty t.entries.value ≡ true) ⊎ IsKept t) × AreKept c

    -- The same, and the first list is not empty.
    abbrev pub AreKeptFrom : Container K V → Type 0
    AreKeptFrom [] = Unit {0}
    AreKeptFrom (t ∷ c) = IsKept t × AreKept c

    none_marked-unmarked : (m : MapType K V) → none_marked (unmarked m) ≡ true
    unfolding unmarked
    none_marked-unmarked [] = ground arith
    none_marked-unmarked ((k, v) ∷ m) = ground (arith, none_marked-unmarked m)

    none_marked-shrink : (e : MarkValue (MapType K V)) → none_marked (shrink_to_fit e).value ≡ true
    unfolding shrink_to_fit
    none_marked-shrink e = ground (arith, none_marked-unmarked e.value)

    AreCollected-append :
        (c d : Container K V) → AreCollected c → AreCollected d → AreCollected (c ++ d)
    AreCollected-append [] d h k = k
    AreCollected-append (t ∷ c) d (h1, h2, h) k = (h1, h2, AreCollected-append c d h k)

    reduce_element-AreCollected : (t : Timed K V) → AreCollected (reduce_element purge t).1
    unfolding reduce_element
    reduce_element-AreCollected t =
        ground (arith, none_marked-shrink t.entries, none_marked-shrink (shrink_to_fit t.entries))

    scan-some_unmarked :
        (m : MapType K V) (b : Bool) → (scan m b).0 ≡ false → some_unmarked m ≡ true
    unfolding scan
    scan-some_unmarked [] b h = cc
    scan-some_unmarked ((k, v) ∷ m) b h = ground (arith, scan-some_unmarked m true)

    review_kept :
        (e : MarkValue (MapType K V))
        → (is_empty (review e).value ≡ true) ⊎ (some_unmarked (review e).value ≡ true)
    unfolding review
    review_kept e = ground (arith, scan-some_unmarked e.value e.marked)

    reduce_element-IsKept :
        (t : Timed K V)
        → (is_empty (reduce_element purge t).0.entries.value ≡ true)
          ⊎ IsKept (reduce_element purge t).0
    unfolding reduce_element
    reduce_element-IsKept t =
        ground (arith, review_kept t.entries, review_kept (shrink_to_fit t.entries))

    reduce_all_lem :
        (c : Container K V) → AreKept (reduce_all purge c).0 × AreCollected (reduce_all purge c).1
    unfolding reduce_all
    reduce_all_lem [] = (tt, tt)
    reduce_all_lem (t ∷ c) =
        let (h, k) = reduce_all_lem c in
        ((reduce_element-IsKept t, h), AreCollected-append _ _ (reduce_element-AreCollected t) k)

    erase_front_lem : (c : Container K V) → AreKept c → AreKeptFrom (erase_front c)
    unfolding erase_front
    erase_front_lem [] h = tt
    erase_front_lem (t ∷ c) (h, hs) = ground (arith, erase_front_lem c hs, h)

  -- What `reduce` returns are lists older than the limit, and no entry in them has a mark. What it
  -- leaves are lists that are not older and hold an entry with no mark, or empty lists, and the
  -- first one is not empty.
  pub reduce_parts :
      (purge : ℕ) (c : Container K V)
      → AreCollected purge (reduce purge c).1 × AreKeptFrom purge (reduce purge c).0
  unfolding reduce
  reduce_parts purge c =
      let (h, k) = reduce_all_lem purge c in (k, erase_front_lem purge (reduce_all purge c).0 h)
