-- ===== src/Time/Date/Tests.antt =====
-- Points of time.
use deprecated_tdk.Prelude.{◌≡◌, arith}
use deprecated_tdk.Time.Span.{TimeSpan}
use deprecated_tdk.Time.Date.{DateTime, of_fields, year, month, day, hour, minute, second}
use deprecated_tdk.Time.Date.Fields.{of_fields-fields}

abbrev leap_day : DateTime
leap_day = record { time = 951_827_696_000_123 }

abbrev new_year : DateTime
new_year = record { time = 946_684_800_000_000 }

abbrev a_day : TimeSpan
a_day = record { delta = 86_400_000_000 }

of_fields-fields_example :
    (of_fields
      (year leap_day)
      (month leap_day)
      (day leap_day)
      (hour leap_day)
      (minute leap_day)
      (second leap_day)).time
    ≡ 951_827_696_000_000
of_fields-fields_example = of_fields-fields leap_day (omega arith)
