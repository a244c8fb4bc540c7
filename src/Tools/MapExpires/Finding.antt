-- ===== src/Tools/MapExpires/Finding.antt =====
-- What `find` gives after an insertion.
use cpp_client_rabbit_mq.Common.{ℕ, ◌≡◌, Bool, Option, some, none, [], ◌∷◌, ◌++◌, arith}
use cpp_client_rabbit_mq.Tools.MarkValue.{MarkValue, of_value}
use cpp_client_rabbit_mq.Tools.MapExpires.{MapType, Timed, Container, emplace_back, map_find, find}

module _ {K V : Type 0} (eq : K → K → Bool) (key : K) where
  -- The entry of a map, with the list that the map stands in.
  abbrev pub found_in : Timed K V → Option (Timed K V × MarkValue V)
  found_in t = elim (map_find eq key t.entries.value) [ none ↦ none | some v ↦ some (t, v) ]

  find-append :
      (c d : Container K V)
      → find eq key (c ++ d) ≡ elim (find eq key c) [ none ↦ find eq key d | some r ↦ some r ]
  unfolding find
  find-append [] d = ground arith
  find-append (t ∷ c) d = ground (arith, find-append c d)

  -- The list that was inserted last is the last to be searched: its entry for a key is found
  -- exactly when no list that is still there has one, and else an entry of an older list is.
  pub find-emplace_back :
      (now : ℕ) (m : MapType K V) (c : Container K V)
      → let inserted : Timed K V = record { time = now; entries = of_value m } in
        find eq key (emplace_back now m c)
        ≡ elim (find eq key c) [ none ↦ found_in inserted | some r ↦ some r ]
  unfolding emplace_back find
  find-emplace_back now m c =
      ground (arith, find-append c (record { time = now; entries = of_value m } ∷ []))
