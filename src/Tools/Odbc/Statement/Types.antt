-- ===== src/Tools/Odbc/Statement/Types.antt =====
-- The names of the SQL types. (Modules/Tools/OdbcStatement.cpp, `DESC_SQL_TYPES`)
use cpp_client_rabbit_mq.Common.{
  ℕ, ◌==◌, Bool, false, Bytes, List, [], ◌∷◌, String, codes, ℤ, pos, negsuc, if◌then◌else◌,
}

-- The entries whose constant is not negative.
abbrev desc_sql_types : List (ℕ × String)
desc_sql_types =
    (0, "SQL_UNKNOWN_TYPE")
    ∷ (1, "SQL_CHAR")
    ∷ (2, "SQL_NUMERIC")
    ∷ (3, "SQL_DECIMAL")
    ∷ (4, "SQL_INTEGER")
    ∷ (5, "SQL_SMALLINT")
    ∷ (6, "SQL_FLOAT")
    ∷ (7, "SQL_REAL")
    ∷ (8, "SQL_DOUBLE")
    ∷ (9, "SQL_DATETIME")
    ∷ (12, "SQL_VARCHAR")
    ∷ (91, "SQL_TYPE_DATE")
    ∷ (92, "SQL_TYPE_TIME")
    ∷ (93, "SQL_TYPE_TIMESTAMP")
    ∷ []

find_type : ℕ → List (ℕ × String) → Bytes
find_type n [] = []
find_type n ((m, name) ∷ ts) = if n == m then codes name else find_type n ts

-- `SQL_BIGINT` is -5.
unfoldable pub fn_desc_sql_types : ℤ → Bytes
unfolding find_type
fn_desc_sql_types (pos n) = find_type n desc_sql_types
fn_desc_sql_types (negsuc n) = if n == 4 then codes "SQL_BIGINT" else []

abbrev pub sql_unknown_type : ℤ
sql_unknown_type = pos 0

abbrev pub sql_numeric : ℤ
sql_numeric = pos 2

abbrev pub sql_decimal : ℤ
sql_decimal = pos 3

abbrev pub sql_integer : ℤ
sql_integer = pos 4

abbrev pub sql_float : ℤ
sql_float = pos 6

abbrev pub sql_double : ℤ
sql_double = pos 8

abbrev pub sql_varchar : ℤ
sql_varchar = pos 12

-- `==` of two `SQLSMALLINT`
abbrev pub same_type : ℤ → ℤ → Bool
same_type (pos n) (pos m) = n == m
same_type (pos n) (negsuc m) = false
same_type (negsuc n) (pos m) = false
same_type (negsuc n) (negsuc m) = n == m
