-- ===== src/Tools/RedisClient/Parsing.antt =====
-- What is read from a line of `client list` that has the usual form.
use cpp_client_rabbit_mq.Common.{
  ℕ, ◌≡◌, ◌==◌, refl, Bool, true, false, ◌&&◌, not, Bytes, List, [], ◌∷◌, ◌++◌, map, c_string,
  is_empty, some, arith, ◌∙◌, if◌then◌else◌,
}
use cpp_client_rabbit_mq.Tools.Step.{returned, aborted}
use cpp_client_rabbit_mq.Tools.Split.{split}
use cpp_client_rabbit_mq.Tools.Split.Laws.{join, lacks, all_lack, split-join}
use cpp_client_rabbit_mq.Tools.RedisClient.Client.{
  ClientSt, cleared, assign, set_field, set_fields, read_client,
}

-- A field of a line: a name, `=` and a value.
abbrev pub field : Bytes × Bytes → Bytes
field (key, value) = key ++ b'=' ∷ value

abbrev pub is_clean : Bytes → Bool
is_clean s = lacks b' ' s && lacks b'=' s && lacks 0 s

abbrev pub all_clean : List (Bytes × Bytes) → Bool
all_clean [] = true
all_clean ((key, value) ∷ ps) = is_clean key && is_clean value && all_clean ps

-- One assignment after the other.
abbrev pub assign_all : List (Bytes × Bytes) → ClientSt → ClientSt
assign_all [] cl = cl
assign_all ((key, value) ∷ ps) cl = assign_all ps (assign key value cl)

lacks-++ : (d : ℕ) (s t : Bytes) → lacks d (s ++ t) ≡ (lacks d s && lacks d t)
lacks-++ d [] t = refl
lacks-++ d (c ∷ s) t = ground (arith, lacks-++ d s t)

c_string-lacks : (s : Bytes) → lacks 0 s ≡ true → c_string s ≡ s
unfolding c_string
c_string-lacks [] h = refl
c_string-lacks (c ∷ s) h = ground (arith, c_string-lacks s)

lacks-field :
    (d : ℕ) (key value : Bytes)
    → lacks d key ≡ true
    → lacks d value ≡ true
    → (b'=' == d) ≡ false
    → lacks d (field (key, value)) ≡ true
lacks-field d key value h k n = ground (arith, lacks-++ d key (b'=' ∷ value))

set_field-field :
    (key value : Bytes) (cl : ClientSt)
    → is_clean key ≡ true
    → is_clean value ≡ true
    → set_field (split (field (key, value)) b'=') cl ≡ some (assign key value cl)
unfolding set_field
set_field-field key value cl h k =
    let apart =
      split-join b'=' key (value ∷ []) (ground arith)
        (c_string-lacks _ (lacks-field 0 key value (ground arith) (ground arith) refl)) in
    rw apart refl

set_fields_nil : (cl : ClientSt) → set_fields [] cl ≡ some cl
unfolding set_fields
set_fields_nil cl = refl

set_fields_cons :
    (f : Bytes) (fs : List Bytes) (cl cl' : ClientSt)
    → set_field (split f b'=') cl ≡ some cl'
    → set_fields (f ∷ fs) cl ≡ set_fields fs cl'
unfolding set_fields
set_fields_cons f fs cl cl' h = rw (h, set_fields) refl

set_fields-map :
    (ps : List (Bytes × Bytes)) (cl : ClientSt)
    → all_clean ps ≡ true
    → set_fields (map field ps) cl ≡ some (assign_all ps cl)
set_fields-map [] cl h = set_fields_nil cl
set_fields-map ((key, value) ∷ ps) cl h =
    set_fields_cons (field (key, value)) (map field ps) cl (assign key value cl)
      (set_field-field key value cl (ground arith) (ground arith))
    ∙ set_fields-map ps (assign key value cl) (ground arith)

all_lack-map :
    (ps : List (Bytes × Bytes)) → all_clean ps ≡ true → all_lack b' ' (map field ps) ≡ true
all_lack-map [] h = refl
all_lack-map ((key, value) ∷ ps) h = ground (arith, lacks-field b' ' key value, all_lack-map ps)

lacks-join :
    (ps : List (Bytes × Bytes)) → all_clean ps ≡ true → lacks 0 (join b' ' (map field ps)) ≡ true
lacks-join [] h = refl
lacks-join ((key, value) ∷ []) h = ground (arith, lacks-field 0 key value)
lacks-join ((key, value) ∷ q ∷ ps) h = ground (
  arith,
  lacks-field 0 key value,
  lacks-join (q ∷ ps),
  lacks-++ 0 (field (key, value)) (b' ' ∷ join b' ' (map field (q ∷ ps))),
)

read_client_fields :
    (line : Bytes) (fs : List Bytes) (cl : ClientSt)
    → split line b' ' ≡ fs
    → set_fields fs cleared ≡ some cl
    → read_client line
      ≡ (if not (cl.id == 0) && not (is_empty cl.addr) then returned cl else aborted)
unfolding read_client
read_client_fields line fs cl h k = rw (h, k, read_client) refl

-- A line of fields whose names and values hold no blank, no `=` and no NUL is read as their
-- assignments, one after the other, to a new structure; fields with a name that is not known are
-- passed over. The structure is returned if it then has an id and an address, and else an
-- assertion fails.
pub read_client-join :
    (p : Bytes × Bytes) (ps : List (Bytes × Bytes))
    → all_clean (p ∷ ps) ≡ true
    → let cl = assign_all (p ∷ ps) cleared in
      read_client (join b' ' (map field (p ∷ ps)))
      ≡ (if not (cl.id == 0) && not (is_empty cl.addr) then returned cl else aborted)
read_client-join p ps h =
    let apart =
      split-join b' ' (field p) (map field ps) (all_lack-map (p ∷ ps) h)
        (c_string-lacks _ (lacks-join (p ∷ ps) h)) in
    read_client_fields _ _ _ apart (set_fields-map (p ∷ ps) cleared h)
