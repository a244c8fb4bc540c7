-- ===== src/Tools/MapExpires.antt =====
-- Lists of marked values in the order of their arrival, and what is kept of them.
-- (include/Tools/MapExpires.h)
pub mod Conservation
pub mod Purge
pub mod Refinement
pub mod Finding
use cpp_client_rabbit_mq.Common.{
  ℕ, Bool, true, false, Option, none, some, List, [], ◌∷◌, ◌++◌, length, is_empty, ltb, not,
  if◌then◌else◌, ◌&&◌,
}
use cpp_client_rabbit_mq.Tools.MarkValue.{MarkValue, of_value}

-- `MAP_TYPE`: the entries of a `std::map`, in the order of their keys.
abbrev pub MapType : Type 0 → Type 0 → Type 0
MapType K V = List (K × MarkValue V)

-- One element of the vector.
pub record Timed (K V : Type 0) : Type 0 where
  pub time : ℕ
  pub entries : MarkValue (MapType K V)

abbrev pub Container : Type 0 → Type 0 → Type 0
Container K V = List (Timed K V)

module _ {K V : Type 0} where
  abbrev pub size : Container K V → ℕ
  size c = length c

  -- `now` is the time of the clock at the call.
  unfoldable pub emplace_back : (now : ℕ) → MapType K V → Container K V → Container K V
  emplace_back now value c = c ++ record { time = now; entries = of_value value } ∷ []

  -- `std::map::find`
  unfoldable pub map_find : (K → K → Bool) → K → MapType K V → Option (MarkValue V)
  map_find eq key [] = none
  map_find eq key ((k, v) ∷ m) = if eq k key then some v else map_find eq key m

  -- The first element whose map has the key, and the value there.
  unfoldable pub find : (K → K → Bool) → K → Container K V → Option (Timed K V × MarkValue V)
  unfolding map_find
  find eq key [] = none
  find eq key (t ∷ c) = elim (map_find eq key t.entries.value) [
    | some v ↦ some (t, v)
    | none ↦ find eq key c
  ]

  -- The entries with no mark.
  unfoldable pub unmarked : MapType K V → MapType K V
  unmarked [] = []
  unmarked ((k, v) ∷ m) = if v.marked then unmarked m else (k, v) ∷ unmarked m

  -- `shrink_to_fit`: the new list has no mark of its own.
  shrink_to_fit : MarkValue (MapType K V) → MarkValue (MapType K V)
  shrink_to_fit e = if is_empty e.value then e else of_value (unmarked e.value)

  -- The loop over the entries of a list that is not old: whether all entries are marked, and
  -- whether the list gets a mark, which the entries in front of the first without one give it.
  scan : MapType K V → Bool → Bool × Bool
  scan [] marked = (true, marked)
  scan ((k, v) ∷ m) marked = if v.marked then scan m true else (false, marked)

  -- A list that is not old: if all its entries are marked they are dropped.
  review : MarkValue (MapType K V) → MarkValue (MapType K V)
  review e =
      let (all_marked, marked) = scan e.value e.marked in
      record {
        value = if all_marked && not (is_empty e.value) then [] else e.value;
        marked = marked;
      }

  -- What is left of one element, and what is collected of it.
  reduce_element : ℕ → Timed K V → Timed K V × Container K V
  reduce_element purge t =
      let e = if t.entries.marked then shrink_to_fit t.entries else t.entries in
      if is_empty e.value
      then (record t { entries = e }, [])
      else if ltb t.time purge
      then (
        record t { entries = record { value = []; marked = (shrink_to_fit e).marked } },
        record t { entries = shrink_to_fit e } ∷ [],
      )
      else (record t { entries = review e }, [])

  -- The loop over the container.
  reduce_all : ℕ → Container K V → Container K V × Container K V
  reduce_all purge [] = ([], [])
  reduce_all purge (t ∷ c) =
      let (kept, collected) = reduce_element purge t in
      let (kept', collected') = reduce_all purge c in (kept ∷ kept', collected ++ collected')

  -- The empty lists at the front are erased.
  erase_front : Container K V → Container K V
  erase_front [] = []
  erase_front (t ∷ c) = if is_empty t.entries.value then erase_front c else t ∷ c

  -- The container after the call, and what is returned.
  unfoldable pub reduce : (purge : ℕ) → Container K V → Container K V × Container K V
  unfolding reduce_element shrink_to_fit review scan reduce_all erase_front
  reduce purge c = let (kept, collected) = reduce_all purge c in (erase_front kept, collected)
