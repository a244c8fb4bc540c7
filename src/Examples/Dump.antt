-- ===== src/Examples/Dump.antt =====
-- The print of a buffer at concrete buffers. (Modules/Broker/utils.cpp)
use cpp_client_rabbit_mq.Common.{◌≡◌, refl, Bytes, [], ◌∷◌, ◌++◌, codes, bytes_eq}
use cpp_client_rabbit_mq.Broker.Dump.{
  row_at, dots, total, replicate, amqp_dump, line_text, upper_hex, upper_hex_digits,
  upper_hex_digit, cells, blanks, colon, printable, take_bytes, take_byte, flush, finish_dump,
}
use cpp_client_rabbit_mq.Broker.Dump.Restoring.{restore, amqp_dump-restore}

-- Three rows of zeros, four rows of ones, and two bytes.
abbrev rows : Bytes
rows = replicate 48 0 ++ (replicate 64 1 ++ 65 ∷ 127 ∷ [])

rows_dumped :
    amqp_dump rows
    ≡ total 114 ∷ row_at 112 (65 ∷ 127 ∷ []) ∷ dots ∷ row_at 48 (replicate 16 1) ∷ dots ∷ []
unfolding amqp_dump take_bytes take_byte flush finish_dump bytes_eq
rows_dumped = refl

row_text :
    line_text (row_at 112 (65 ∷ 127 ∷ []))
    ≡ codes "00000070: 41 7F                   :                          A." ++ 10 ∷ []
unfolding line_text upper_hex upper_hex_digits upper_hex_digit cells blanks colon printable
row_text = refl

amqp_dump-restore_example : (restore (amqp_dump rows)).0 ≡ rows
amqp_dump-restore_example = amqp_dump-restore rows
