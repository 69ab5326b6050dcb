-- ===== src/Definitions/Tests.antt =====
-- The conversions of lrng_definitions.h at concrete rates.
use lrng.Common.{◌+◌, ◌≤◌, ◌≡◌, refl, arith}
use lrng.Definitions.{entropy_to_data, data_to_entropy}
use lrng.Definitions.Convert.{entropy_to_data-round_trip}

-- 256 bits at a rate of 300 events take 300 events.
events_300 : entropy_to_data 256 300 ≡ 300
unfolding entropy_to_data
events_300 = refl

-- A product that wraps: 2 ^ 24 bits at a rate of 256 count as no events at all.
events_wrapped : entropy_to_data 16777216 256 ≡ 0
unfolding entropy_to_data
events_wrapped = refl

entropy_to_data-round_trip_example :
    (data_to_entropy (entropy_to_data 255 300) 300 ≤ 255)
    × (255 ≤ data_to_entropy (entropy_to_data 255 300) 300 + 1)
entropy_to_data-round_trip_example = entropy_to_data-round_trip 255 300 (omega arith) (omega arith)
