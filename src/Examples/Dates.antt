-- ===== src/Examples/Dates.antt =====
-- A zone in summer.
use cpp_client_rabbit_mq.Common.{◌≡◌, refl, Bool, true, false, [], codes, ℤ, pos, ◌+ℤ◌, ◌-ℤ◌}
use cpp_client_rabbit_mq.Tools.Dates.{Calendar, make_time_gmt}
use cpp_client_rabbit_mq.Tools.Dates.Zone.{make_time_gmt_lem}

-- One hour ahead of GMT, and two in summer. The flag tells that `tm_isdst` is -1.
abbrev pub standard : ℤ
standard = pos 3600

abbrev pub summer : ℤ
summer = pos 7200

abbrev pub mktime : ℤ × Bool → ℤ
mktime (t, false) = t -ℤ standard
mktime (t, true) = t -ℤ summer

abbrev pub july : Calendar
july = record {
  Tm = ℤ × Bool;
  get_time = λ format value. (pos 1000000, false);
  put_time = λ format t. [];
  with_isdst = λ t. (t.0, true);
  mktime = mktime;
  localtime = λ s. (s +ℤ summer, true);
  gmtime = λ s. (s, true);
}

late : make_time_gmt july (codes "1970-01-12T13:46:40") ≡ pos 1003600
unfolding make_time_gmt ◌+ℤ◌ ◌-ℤ◌
late = refl

make_time_gmt_lem_example :
    make_time_gmt july (codes "1970-01-12T13:46:40") ≡ pos 1000000 +ℤ (summer -ℤ standard)
make_time_gmt_lem_example =
    make_time_gmt_lem july (codes "1970-01-12T13:46:40") (λ t. t.0) (λ t. summer) standard refl
      (λ u. refl) refl refl
