-- ===== src/Tools/RedisClient/Print.antt =====
-- The print of a connection. (`RedisClientStorage::client_st::toString` and `toStringResume`)
use cpp_client_rabbit_mq.Common.{Bytes, is_empty, codes, Option, if◌then◌else◌}
use cpp_client_rabbit_mq.Tools.Json.{
  Any, null, int, uint64, text, Fields, end, field, to_string_json,
}
use cpp_client_rabbit_mq.Tools.RedisClient.Client.{ClientSt}

-- A connection without a name has null there.
abbrev pub name_value : ClientSt → Any
name_value cl = if is_empty cl.name then null else text cl.name

abbrev pub client_fields : ClientSt → Fields
client_fields cl = field (codes "id") (uint64 cl.id) (
    field (codes "addr") (text cl.addr) (
      field (codes "name") (name_value cl) (
        field (codes "age") (uint64 cl.age) (
          field (codes "idle") (uint64 cl.idle) (
            field (codes "flags") (text cl.flags) (
              field (codes "db") (text cl.db) (
                field (codes "sub") (int cl.sub) (
                  field (codes "psub") (int cl.psub) (
                    field (codes "multi") (int cl.multi) (
                      field (codes "qbuf") (int cl.qbuf) (
                        field (codes "qbuf_free") (int cl.qbuf_free) (
                          field (codes "argv_mem") (int cl.argv_mem) (
                            field (codes "obl") (int cl.obl) (
                              field (codes "oll") (int cl.oll) (
                                field (codes "omem") (int cl.omem) (
                                  field (codes "tot_mem") (int cl.tot_mem) (
                                    field (codes "events") (text cl.events) (
                                      field (codes "cmd") (text cl.cmd)
                                        (field (codes "user") (text cl.user) end)))))))))))))))))))

abbrev pub resume_fields : ClientSt → Fields
resume_fields cl = field (codes "id") (uint64 cl.id) (
    field (codes "addr") (text cl.addr) (
      field (codes "name") (name_value cl) (
        field (codes "age") (uint64 cl.age)
          (field (codes "idle") (uint64 cl.idle) (field (codes "user") (text cl.user) end)))))

unfoldable pub client_to_string : ClientSt → Option Bytes
client_to_string cl = to_string_json (client_fields cl)

unfoldable pub client_to_string_resume : ClientSt → Option Bytes
client_to_string_resume cl = to_string_json (resume_fields cl)
