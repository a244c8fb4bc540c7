-- ===== src/Examples/Containers.antt =====
-- Cutting, percent encoding and the lists of marked values.
use cpp_client_rabbit_mq.Common.{List, ℕ, ◌≡◌, refl, true, some, none, [], ◌∷◌, codes, ◌==◌}
use cpp_client_rabbit_mq.Tools.Split.{split, cut}
use cpp_client_rabbit_mq.Tools.UrlEncode.{url_encode, encode_char}
use cpp_client_rabbit_mq.Tools.UrlEncode.Laws.{url_decode}
use cpp_client_rabbit_mq.Tools.UrlEncode.Exact.{is_encoded, url_encode_iff}
use cpp_client_rabbit_mq.Tools.MarkValue.{mark, of_value}
use cpp_client_rabbit_mq.Tools.MapExpires.{Container, Timed, emplace_back, find, reduce, unmarked}
use cpp_client_rabbit_mq.Tools.MapExpires.Refinement.{
  Operation, insert, expire, unread, run, run_entries, run-unread,
}
use cpp_client_rabbit_mq.Tools.MapExpires.Finding.{found_in, find-emplace_back}
use cpp_client_rabbit_mq.Tools.MapExpires.Purge.{reduce_parts, AreCollected, AreKeptFrom}

split_commas : split (codes "a,,b,") b',' ≡ codes "a" ∷ [] ∷ codes "b" ∷ [] ∷ []
unfolding split cut
split_commas = refl

encoded : url_encode (codes "a b") ≡ some (codes "a%20b")
unfolding url_encode encode_char
encoded = refl

url_encode_iff_example :
    (url_encode (codes "a b") ≡ some (codes "a%20b")
      → (is_encoded none (codes "a%20b") ≡ true) × (url_decode none (codes "a%20b") ≡ codes "a b"))
    × ((is_encoded none (codes "a%20b") ≡ true) × (url_decode none (codes "a%20b") ≡ codes "a b")
        → url_encode (codes "a b") ≡ some (codes "a%20b"))
url_encode_iff_example = url_encode_iff (codes "a b") (codes "a%20b")

abbrev lists : Container ℕ ℕ
lists =
    record { time = 1; entries = of_value ((1, mark (of_value 10)) ∷ (2, of_value 20) ∷ []) }
    ∷ record { time = 5; entries = of_value ((1, mark (of_value 11)) ∷ []) }
    ∷ record { time = 6; entries = of_value ((3, mark (of_value 30)) ∷ (4, of_value 40) ∷ []) }
    ∷ []

-- The old list is returned without its marked entry, and the one that is marked throughout goes.
reduce-lists : reduce 3 lists ≡ (
  record {
    time = 6;
    entries = record { value = (3, mark (of_value 30)) ∷ (4, of_value 40) ∷ []; marked = true };
  }
      ∷ [],
  record { time = 1; entries = of_value ((2, of_value 20) ∷ []) } ∷ [],
)
unfolding reduce unmarked
reduce-lists = refl

-- Something is inserted and the container is reduced twice.
abbrev script : List (Operation ℕ ℕ)
script = insert 7 ((5, of_value 50) ∷ []) ∷ expire 3 ∷ expire 7 ∷ []

run-unread_example :
    let (c', collected') = run script (lists, []) in
    (unread c', unread collected') ≡ run_entries script (unread lists, unread [])
run-unread_example = run-unread script lists []

find-emplace_back_example :
    let inserted : Timed ℕ ℕ = record { time = 7; entries = of_value ((9, of_value 90) ∷ []) } in
    find (λ a b. a == b) 9 (emplace_back 7 ((9, of_value 90) ∷ []) lists)
    ≡ elim (find (λ a b. a == b) 9 lists) [
      | none ↦ found_in (λ a b. a == b) 9 inserted
      | some r ↦ some r
    ]
find-emplace_back_example = find-emplace_back (λ a b. a == b) 9 7 ((9, of_value 90) ∷ []) lists

reduce_parts_example : AreCollected 3 (reduce 3 lists).1 × AreKeptFrom 3 (reduce 3 lists).0
reduce_parts_example = reduce_parts 3 lists
