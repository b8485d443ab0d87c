-- ===== src/Time/Span/Tests.antt =====
-- Spans.
use deprecated_tdk.Prelude.{◌-◌, ◌^◌}
use deprecated_tdk.Time.Span.{TimeSpan}

-- 1 day, 2 hours, 3 minutes, 4.5 seconds, and as much less than nothing
abbrev some_span : TimeSpan
some_span = record { delta = 93_784_500_000 }

abbrev no_span : TimeSpan
no_span = record { delta = 2 ^ 64 - 93_784_500_000 }
