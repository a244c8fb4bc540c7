-- ===== src/Tools/MapExpires/Refinement.antt =====
-- The container as a list of entries that wait to be read.
use cpp_client_rabbit_mq.Common.{
  sym, ℕ, ◌≡◌, refl, ap, ◌∙◌, Bool, true, not, List, [], ◌∷◌, ◌++◌, append_assoc, append-nil, ltb,
  is_empty, if◌then◌else◌, arith,
}
use cpp_client_rabbit_mq.Tools.MarkValue.{MarkValue, of_value}
use cpp_client_rabbit_mq.Tools.MapExpires.{
  MapType, Timed, Container, emplace_back, unmarked, shrink_to_fit, scan, review, reduce_element,
  reduce_all, erase_front, reduce,
}

-- An entry with the time of its list.
pub record Entry (K V : Type 0) : Type 0 where
  pub time : ℕ
  pub key : K
  pub value : V

-- What a client does with a container.
pub data Operation (K V : Type 0) : Type 0 where
  insert : (now : ℕ) → MapType K V → Operation K V
  expire : (purge : ℕ) → Operation K V

module _ {K V : Type 0} where
  -- The entries with no mark, in order.
  abbrev pub unread_in : ℕ → MapType K V → List (Entry K V)
  unread_in t [] = []
  unread_in t ((k, v) ∷ m) =
      if v.marked
      then unread_in t m
      else record { time = t; key = k; value = v.value } ∷ unread_in t m

  abbrev pub unread : Container K V → List (Entry K V)
  unread [] = []
  unread (t ∷ c) = unread_in t.time t.entries.value ++ unread c

  abbrev pub keep : (Entry K V → Bool) → List (Entry K V) → List (Entry K V)
  keep p [] = []
  keep p (e ∷ es) = if p e then e ∷ keep p es else keep p es

  abbrev pub is_old : ℕ → Entry K V → Bool
  is_old purge e = ltb e.time purge

  abbrev pub is_recent : ℕ → Entry K V → Bool
  is_recent purge e = not (ltb e.time purge)

  keep-append :
      (p : Entry K V → Bool) (xs ys : List (Entry K V)) → keep p (xs ++ ys) ≡ keep p xs ++ keep p ys
  keep-append p [] ys = refl
  keep-append p (x ∷ xs) ys = ground (arith, keep-append p xs ys)

  unread-append : (c d : Container K V) → unread (c ++ d) ≡ unread c ++ unread d
  unread-append [] d = refl
  unread-append (t ∷ c) d =
      ap (λ u. unread_in t.time t.entries.value ++ u) (unread-append c d)
      ∙ sym (append_assoc (unread_in t.time t.entries.value) (unread c) (unread d))

  unread_in_empty : (t : ℕ) (m : MapType K V) → is_empty m ≡ true → unread_in t m ≡ []
  unread_in_empty t [] h = refl
  unread_in_empty t (x ∷ m) h = cc

  unread_in-unmarked : (t : ℕ) (m : MapType K V) → unread_in t (unmarked m) ≡ unread_in t m
  unfolding unmarked
  unread_in-unmarked t [] = refl
  unread_in-unmarked t ((k, v) ∷ m) = ground (arith, unread_in-unmarked t m)

  unread_in-shrink_to_fit :
      (t : ℕ) (e : MarkValue (MapType K V))
      → unread_in t (shrink_to_fit e).value ≡ unread_in t e.value
  unfolding shrink_to_fit
  unread_in-shrink_to_fit t e = ground (arith, unread_in-unmarked t e.value)

  unread_in_all_marked :
      (t : ℕ) (m : MapType K V) (b : Bool) → (scan m b).0 ≡ true → unread_in t m ≡ []
  unfolding scan
  unread_in_all_marked t [] b h = refl
  unread_in_all_marked t ((k, v) ∷ m) b h = ground (arith, unread_in_all_marked t m true)

  unread_in-review :
      (t : ℕ) (e : MarkValue (MapType K V)) → unread_in t (review e).value ≡ unread_in t e.value
  unfolding review
  unread_in-review t e = ground (arith, unread_in_all_marked t e.value e.marked)

  module _ (purge : ℕ) where
    -- The entries of one list are all old, or none is.
    keep_old_in :
        (t : ℕ) (m : MapType K V)
        → keep (is_old purge) (unread_in t m) ≡ (if ltb t purge then unread_in t m else [])
    keep_old_in t [] = ground arith
    keep_old_in t ((k, v) ∷ m) = ground (arith, keep_old_in t m)

    keep_recent_in :
        (t : ℕ) (m : MapType K V)
        → keep (is_recent purge) (unread_in t m) ≡ (if ltb t purge then [] else unread_in t m)
    keep_recent_in t [] = ground arith
    keep_recent_in t ((k, v) ∷ m) = ground (arith, keep_recent_in t m)

    reduce_element-unread :
        (t : Timed K V)
        → (unread_in (reduce_element purge t).0.time (reduce_element purge t).0.entries.value
            ≡ keep (is_recent purge) (unread_in t.time t.entries.value))
          × (unread (reduce_element purge t).1
              ≡ keep (is_old purge) (unread_in t.time t.entries.value))
    unfolding reduce_element
    reduce_element-unread t =
        let e = shrink_to_fit t.entries in
        ground (
          arith,
          keep_old_in t.time t.entries.value,
          keep_recent_in t.time t.entries.value,
          unread_in-shrink_to_fit t.time t.entries,
          unread_in-shrink_to_fit t.time e,
          unread_in-review t.time t.entries,
          unread_in-review t.time e,
          unread_in_empty t.time t.entries.value,
          unread_in_empty t.time e.value,
          append-nil (unread_in t.time (shrink_to_fit t.entries).value),
          append-nil (unread_in t.time (shrink_to_fit e).value),
        )

    reduce_all-unread :
        (c : Container K V)
        → (unread (reduce_all purge c).0 ≡ keep (is_recent purge) (unread c))
          × (unread (reduce_all purge c).1 ≡ keep (is_old purge) (unread c))
    unfolding reduce_all
    reduce_all-unread [] = (refl, refl)
    reduce_all-unread (t ∷ c) =
        let (h, k) = reduce_element-unread t in
        let (hs, ks) = reduce_all-unread c in
        let es = unread_in t.time t.entries.value in
        (
          rw (h, hs) (sym (keep-append (is_recent purge) es (unread c))),
          unread-append (reduce_element purge t).1 (reduce_all purge c).1
              ∙ rw (k, ks) (sym (keep-append (is_old purge) es (unread c))),
        )

    unread-erase_front : (c : Container K V) → unread (erase_front c) ≡ unread c
    unfolding erase_front
    unread-erase_front [] = refl
    unread-erase_front (t ∷ c) =
        ground (arith, unread-erase_front c, unread_in_empty t.time t.entries.value)

    reduce-unread :
        (c : Container K V)
        → (unread (reduce purge c).0 ≡ keep (is_recent purge) (unread c))
          × (unread (reduce purge c).1 ≡ keep (is_old purge) (unread c))
    unfolding reduce
    reduce-unread c =
        let (h, k) = reduce_all-unread c in (unread-erase_front (reduce_all purge c).0 ∙ h, k)

  emplace_back-unread :
      (now : ℕ) (m : MapType K V) (c : Container K V)
      → unread (emplace_back now m c) ≡ unread c ++ unread_in now m
  unfolding emplace_back
  emplace_back-unread now m c =
      unread-append c (record { time = now; entries = of_value m } ∷ [])
      ∙ ap (λ u. unread c ++ u) (append-nil (unread_in now m))

  -- The operations on the container, with all that `reduce` has returned so far.
  abbrev pub run :
      List (Operation K V) → Container K V × Container K V → Container K V × Container K V
  run [] s = s
  run (insert now m ∷ ops) (c, collected) = run ops (emplace_back now m c, collected)
  run (expire purge ∷ ops) (c, collected) =
      run ops ((reduce purge c).0, collected ++ (reduce purge c).1)

  -- The specification: a list of entries, to which some are added, and which is parted by time.
  abbrev pub run_entries :
      List (Operation K V)
      → List (Entry K V) × List (Entry K V)
      → List (Entry K V) × List (Entry K V)
  run_entries [] s = s
  run_entries (insert now m ∷ ops) (es, collected) =
      run_entries ops (es ++ unread_in now m, collected)
  run_entries (expire purge ∷ ops) (es, collected) =
      run_entries ops (keep (is_recent purge) es, collected ++ keep (is_old purge) es)

  -- Whatever a client inserts, and whenever it reduces the container, the entries with no mark
  -- are those of a plain list: what is inserted stands at its end, and `reduce` takes out of it, in
  -- order, exactly the entries that are older than the limit, and returns them. So each entry is
  -- returned once, by the first call that finds it old, and none is lost.
  pub run-unread :
      (ops : List (Operation K V)) (c collected : Container K V)
      → let (c', collected') = run ops (c, collected) in
        (unread c', unread collected') ≡ run_entries ops (unread c, unread collected)
  run-unread [] c collected = refl
  run-unread (insert now m ∷ ops) c collected =
      rw (← emplace_back-unread now m c) (run-unread ops (emplace_back now m c) collected)
  run-unread (expire purge ∷ ops) c collected =
      let (h, k) = reduce-unread purge c in
      rw (← h, ← k, ← unread-append collected (reduce purge c).1)
        (run-unread ops (reduce purge c).0 (collected ++ (reduce purge c).1))
