-- ===== src/Tests/Clock.antt =====
-- packages/mirage-platform/runtime/kernel/clock_stubs.c on the last day of February 2000.
use mirage_kfreebsd.Base.{◌≡◌, ok, ◌/◌}
use mirage_kfreebsd.Base.Int.{pos}
use mirage_kfreebsd.Clock.{gmtime}
use mirage_kfreebsd.Clock.Calendar.{Date, IsDate, seconds_of, tm_of}
use mirage_kfreebsd.Clock.Laws.{gmtime_date}

gmtime_date_example :
    (d : Date) × (gmtime (pos 951782399500000) ≡ ok (tm_of d))
    × IsDate d
    × (seconds_of d ≡ 951782399500000 / 1000000)
gmtime_date_example = gmtime_date 951782399500000
