-- ===== src/Time/Span/Order.antt =====
-- Spans as numbers with a sign: order, sum and difference.
use deprecated_tdk.Prelude.{◌^◌, ◌<◌, ◌≡◌, arith}
use deprecated_tdk.Time.Span.{TimeSpan, less_than, add, subtract, is_negative, magnitude}

-- `-` undoes `+`, and `+` undoes `-`, with any wrap.
pub subtract-add :
    (s t : TimeSpan)
    → s.delta < 2 ^ 64
    → t.delta < 2 ^ 64
    → ((subtract (add s t) t).delta ≡ s.delta) × ((add (subtract s t) t).delta ≡ s.delta)
unfolding add subtract
subtract-add s t hs ht = ground arith

-- One span is less than another if and only if the difference is negative, as long as both are
-- less than 2 ^ 62 in absolute value.
pub less_than-subtract :
    (s t : TimeSpan)
    → s.delta < 2 ^ 64
    → t.delta < 2 ^ 64
    → magnitude s.delta < 2 ^ 62
    → magnitude t.delta < 2 ^ 62
    → less_than s t ≡ is_negative (subtract s t).delta
unfolding less_than subtract
less_than-subtract s t hs ht ms mt = ground arith
