-- ===== src/Tools/JsonUtils/Printing.antt =====
-- A JSON document written to the log, line by line. (Modules/Tools/JSonUtils.cpp)
pub mod Names
use cpp_client_rabbit_mq.Common.{ℕ, ◌+◌, Bool, Bytes, List, [], ◌∷◌, ◌++◌, codes, ℤ}
use cpp_client_rabbit_mq.Tools.Decimal.{decimal}

-- A document as the library holds it: a number is an `int`, or another one, shown as a double.
mutual
  pub data Document : Type 0 where
    null_value : Document
    bool_value : Bool → Document
    int_value : ℤ → Document
    double_value : (shown : Bytes) → Document
    string_value : Bytes → Document
    array_value : Elements → Document
    object_value : Members → Document

  pub data Elements : Type 0 where
    no_elements : Elements
    element : Document → Elements → Elements

  pub data Members : Type 0 where
    no_members : Members
    member : (name : Bytes) → Document → Members → Members

-- The value of a line.
pub data Shown : Type 0 where
  string_shown double_shown : Bytes → Shown
  int_shown : ℤ → Shown
  bool_shown : Bool → Shown

-- The lines, by their formats; `space` is spaceIterator.
pub data LogLine : Type 0 where
  element_line : (space : Bytes) (idx : ℕ) → Shown → LogLine
  item_line : (space name : Bytes) → Shown → LogLine
  array_line object_line : (space name : Bytes) → LogLine
  type_line : (space name : Bytes) (type size : ℕ) → LogLine

-- fmt::format("{}  [{}]", spaceIterator, idx)
abbrev nested_space : Bytes → ℕ → Bytes
nested_space space idx = space ++ codes "  [" ++ decimal idx ++ codes "]"

-- The overload for arrays: an object or a null in it is passed over, and takes no number.
unfoldable pub print_array : Elements → (space : Bytes) (idx : ℕ) → List LogLine
print_array no_elements space idx = []
print_array (element (string_value s) es) space idx =
    element_line space idx (string_shown s) ∷ print_array es space (idx + 1)
print_array (element (int_value n) es) space idx =
    element_line space idx (int_shown n) ∷ print_array es space (idx + 1)
print_array (element (double_value d) es) space idx =
    element_line space idx (double_shown d) ∷ print_array es space (idx + 1)
print_array (element (bool_value b) es) space idx =
    element_line space idx (bool_shown b) ∷ print_array es space (idx + 1)
print_array (element (array_value a) es) space idx =
    print_array a (nested_space space idx) 0 ++ print_array es space (idx + 1)
print_array (element null_value es) space idx = print_array es space idx
print_array (element (object_value o) es) space idx = print_array es space idx

-- The overload for objects; the elements of an array in it start with no space.
unfoldable pub print_object : Members → (space : Bytes) → List LogLine
unfolding print_array
print_object no_members space = []
print_object (member name (string_value s) ms) space =
    item_line space name (string_shown s) ∷ print_object ms space
print_object (member name (int_value n) ms) space =
    item_line space name (int_shown n) ∷ print_object ms space
print_object (member name (double_value d) ms) space =
    item_line space name (double_shown d) ∷ print_object ms space
print_object (member name (bool_value b) ms) space =
    item_line space name (bool_shown b) ∷ print_object ms space
print_object (member name (array_value a) ms) space =
    array_line space name ∷ (print_array a [] 0 ++ print_object ms space)
print_object (member name (object_value o) ms) space =
    object_line space name ∷ (print_object o (space ++ codes "  ") ++ print_object ms space)
print_object (member name null_value ms) space = type_line space name 0 0 ∷ print_object ms space
