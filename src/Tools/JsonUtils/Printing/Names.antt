-- ===== src/Tools/JsonUtils/Printing/Names.antt =====
-- Every member of a document is written to the log.
use cpp_client_rabbit_mq.Common.{ℕ, ◌+◌, ◌≡◌, refl, ap, ◌∙◌, Bytes, List, [], ◌∷◌, ◌++◌, codes}
use cpp_client_rabbit_mq.Tools.JsonUtils.Printing.{
  Elements, no_elements, element, Members, no_members, member, null_value, bool_value, int_value,
  double_value, string_value, array_value, object_value, LogLine, element_line, item_line,
  array_line, object_line, type_line, print_array, print_object,
}

-- The names of the members outside of arrays, at every depth, in their order.
abbrev pub names_of : Members → List Bytes
names_of no_members = []
names_of (member name (object_value o) ms) = name ∷ (names_of o ++ names_of ms)
names_of (member name null_value ms) = name ∷ names_of ms
names_of (member name (bool_value b) ms) = name ∷ names_of ms
names_of (member name (int_value n) ms) = name ∷ names_of ms
names_of (member name (double_value d) ms) = name ∷ names_of ms
names_of (member name (string_value s) ms) = name ∷ names_of ms
names_of (member name (array_value a) ms) = name ∷ names_of ms

-- The names that a log shows.
abbrev pub logged_names : List LogLine → List Bytes
logged_names [] = []
logged_names (element_line space idx v ∷ ls) = logged_names ls
logged_names (item_line space name v ∷ ls) = name ∷ logged_names ls
logged_names (array_line space name ∷ ls) = name ∷ logged_names ls
logged_names (object_line space name ∷ ls) = name ∷ logged_names ls
logged_names (type_line space name type size ∷ ls) = name ∷ logged_names ls

logged_names-append :
    (k l : List LogLine) → logged_names (k ++ l) ≡ logged_names k ++ logged_names l
logged_names-append [] l = refl
logged_names-append (element_line space idx v ∷ ls) l = logged_names-append ls l
logged_names-append (item_line space name v ∷ ls) l =
    ap (λ ns. name ∷ ns) (logged_names-append ls l)
logged_names-append (array_line space name ∷ ls) l = ap (λ ns. name ∷ ns) (logged_names-append ls l)
logged_names-append (object_line space name ∷ ls) l =
    ap (λ ns. name ∷ ns) (logged_names-append ls l)
logged_names-append (type_line space name type size ∷ ls) l =
    ap (λ ns. name ∷ ns) (logged_names-append ls l)

-- The lines of an array show no names.
print_array-nameless :
    (es : Elements) (space : Bytes) (idx : ℕ) → logged_names (print_array es space idx) ≡ []
unfolding print_array
print_array-nameless no_elements space idx = refl
print_array-nameless (element (string_value s) es) space idx =
    print_array-nameless es space (idx + 1)
print_array-nameless (element (int_value n) es) space idx = print_array-nameless es space (idx + 1)
print_array-nameless (element (double_value d) es) space idx =
    print_array-nameless es space (idx + 1)
print_array-nameless (element (bool_value b) es) space idx = print_array-nameless es space (idx + 1)
print_array-nameless (element (array_value a) es) space idx =
    rw (logged_names-append, print_array-nameless a, print_array-nameless es) refl
print_array-nameless (element null_value es) space idx = print_array-nameless es space idx
print_array-nameless (element (object_value o) es) space idx = print_array-nameless es space idx

-- The log of a document shows the name of each member outside of arrays once, whatever its type and
-- however deep it stands, in the order of the document.
pub print_object-names :
    (ms : Members) (space : Bytes) → logged_names (print_object ms space) ≡ names_of ms
unfolding print_object
print_object-names no_members space = refl
print_object-names (member name (string_value s) ms) space =
    ap (λ ns. name ∷ ns) (print_object-names ms space)
print_object-names (member name (int_value n) ms) space =
    ap (λ ns. name ∷ ns) (print_object-names ms space)
print_object-names (member name (double_value d) ms) space =
    ap (λ ns. name ∷ ns) (print_object-names ms space)
print_object-names (member name (bool_value b) ms) space =
    ap (λ ns. name ∷ ns) (print_object-names ms space)
print_object-names (member name null_value ms) space =
    ap (λ ns. name ∷ ns) (print_object-names ms space)
print_object-names (member name (array_value a) ms) space =
    ap (λ ns. name ∷ ns)
      (logged_names-append (print_array a [] 0) (print_object ms space)
        ∙ rw (print_array-nameless a [] 0) (print_object-names ms space))
print_object-names (member name (object_value o) ms) space =
    ap (λ ns. name ∷ ns)
      (logged_names-append (print_object o (space ++ codes "  ")) (print_object ms space)
        ∙ rw (print_object-names o (space ++ codes "  "), print_object-names ms space) refl)
