-- ===== src/Booking/Interval.antt =====
-- Booked intervals: the test of `checkAvailability`
-- (infrastructure/database/prisma/appointment.prisma-repository.ts), and what it means.
use api_neutra_v.Prelude.{Bool, true, ◌≡◌, ◌↔◌, ◌&&◌, ◌||◌, arith}
use api_neutra_v.Prelude.Int.{ℤ, ◌+ℤ◌, scale, ◌<ℤ◌, ltb_ℤ, leb_ℤ}
use api_neutra_v.Runtime.{Time}

-- The three alternatives under `OR`, for a booking from `s` to `e` and a wish from `start` to `end`.
abbrev pub conflicts : Time → Time → Time → Time → Bool
conflicts start end s e =
    leb_ℤ s start && ltb_ℤ start e || ltb_ℤ s end && leb_ℤ end e || leb_ℤ start s && leb_ℤ e end

-- The half-open intervals have a common instant.
abbrev pub Overlaps : Time → Time → Time → Time → Type 0
Overlaps start end s e = (s <ℤ end) × (start <ℤ e)

-- `endTime.setMinutes(endTime.getMinutes() + duration)`, where the time zone of the process has no
-- change of its offset in between.
unfoldable pub plus_minutes : Time → ℤ → Time
plus_minutes t minutes = t +ℤ scale 60000 minutes

-- The three alternatives together mean that two nonempty intervals overlap.
pub conflicts_iff :
    (start end s e : Time)
    → start <ℤ end
    → s <ℤ e
    → (conflicts start end s e ≡ true) ↔ Overlaps start end s e
conflicts_iff start end s e p q = (λ h. ground arith, λ h. ground arith)
