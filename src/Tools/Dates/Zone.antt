-- ===== src/Tools/Dates/Zone.antt =====
-- What the time zone of the process does to `make_time_gmt`.
use cpp_client_rabbit_mq.Common.{◌≡◌, Bytes, codes, ℤ, ◌+ℤ◌, ◌-ℤ◌, int_laws}
use cpp_client_rabbit_mq.Tools.Dates.{Calendar, make_time_gmt}

-- Let `seconds` count what a broken-down time shows, as if it were one of GMT, let `standard` be the
-- offset of the zone without daylight saving, which `mktime` uses for a time that was read, and
-- `offset` the one that it uses where it has to find out itself. The result is the time that was
-- read, and on top of it by how much the offset at that hour differs from the standard one: it is
-- right in a zone with one offset, whichever that is, and an hour late in summer elsewhere.
pub make_time_gmt_lem :
    (calendar : Calendar) (value : Bytes) (seconds offset : calendar.Tm → ℤ) (standard : ℤ)
    → let t = calendar.get_time (codes "%Y-%m-%dT%H:%M:%S") value in
      let base = seconds t -ℤ standard in
      (calendar.mktime t ≡ base)
      → ((u : calendar.Tm) → calendar.mktime (calendar.with_isdst u) ≡ seconds u -ℤ offset u)
      → seconds (calendar.localtime base) ≡ base +ℤ offset (calendar.localtime base)
      → seconds (calendar.gmtime base) ≡ base
      → make_time_gmt calendar value ≡ seconds t +ℤ (offset (calendar.gmtime base) -ℤ standard)
unfolding make_time_gmt
make_time_gmt_lem calendar value seconds offset standard read find local gm =
    let t = calendar.get_time (codes "%Y-%m-%dT%H:%M:%S") value in
    let base = seconds t -ℤ standard in
    rw (read, find (calendar.localtime base), local, find (calendar.gmtime base), gm)
      (omega int_laws)
