-- ===== src/Booking/Availability/Laws.antt =====
-- Which slots are offered.
use api_neutra_v.Prelude.{
  ℕ, zero, suc, ◌+◌, ◌*◌, ◌≤◌, ◌<◌, true, false, ◌≡◌, ◌↔◌, refl, List, [], ◌∷◌, map, filter, any,
  All, arith, Bool-cases, inl, inr,
}
use api_neutra_v.Prelude.Int.{◌≤ℤ◌}
use api_neutra_v.Runtime.{Time}
use api_neutra_v.Booking.Entity.{Appointment}
use api_neutra_v.Booking.Interval.{Overlaps}
use api_neutra_v.Booking.Availability.{
  Day, label, slot_start, slot_end, local_end, end_of_work, overlap, offered, slots_from, rounds,
  work_start, work_end, interval,
}

-- The half hours from `m`, as many as are left before the end of work.
abbrev pub half_hours : ℕ → ℕ → List ℕ
half_hours zero m = []
half_hours (suc n) m = m ∷ half_hours n (m + interval)

module _ {N : Type 0} (day : Day N) where
  -- A slot is free: it does not begin before the present instant, it ends by the end of work, and no
  -- booking overlaps it.
  pub record IsOffered (m : ℕ) : Type 0 where
    pub not_past : day.now ≤ℤ slot_start day m
    pub ends : local_end day m ≤ℤ end_of_work day
    pub free :
        All
          (λ a. ¬ (Overlaps (slot_start day m) (slot_end day m) a.start_time a.end_time))
          day.bookings

  no_overlap_iff :
      (start end : Time) (xs : List (Appointment N))
      → (any (overlap start end) xs ≡ false)
        ↔ All (λ a. ¬ (Overlaps start end a.start_time a.end_time)) xs
  no_overlap_iff start end [] = (λ _. tt, λ _. refl)
  no_overlap_iff start end (a ∷ xs) =
      let (to, from) = no_overlap_iff start end xs in
      (
        λ h. (λ o. ground arith, to (ground arith)),
        λ (n, f). elim (Bool-cases (overlap start end a)) [
          | inl e ↦ absurd (n (ground arith))
          | inr e ↦ rw (e, from f)
        ],
      )

  pub offered_iff : (m : ℕ) → (offered day m ≡ true) ↔ IsOffered m
  unfolding offered
  offered_iff m =
      let (to, from) = no_overlap_iff (slot_start day m) (slot_end day m) day.bookings in
      (
        λ h. record { not_past = ground arith; ends = ground arith; free = to (ground arith) },
        λ o. ground (arith, from o.free, o.not_past, o.ends),
      )

  slots_from-step :
      (fuel m n : ℕ)
      → m + n * interval ≡ work_end
      → n < fuel
      → slots_from fuel day m ≡ map label (filter (offered day) (half_hours n m))
  unfolding slots_from
  slots_from-step zero m n e h = elim h [ ]
  slots_from-step (suc fuel) m zero e h = ground arith
  slots_from-step (suc fuel) m (suc n) e h =
      let ih = slots_from-step fuel (m + interval) n (omega arith) (omega arith) in
      elim (Bool-cases (offered day m)) [
        | inl o ↦ rw (o, ih) (ground arith)
        | inr o ↦ rw (o, ih) (ground arith)
      ]

-- Seventeen rounds end the loop by its test, and the slots offered are the labels of those of the
-- sixteen half hours from 9:00 to 16:30, in order, that are free.
pub slots_from_lem :
    {N : Type 0} (day : Day N) (fuel : ℕ)
    → rounds ≤ fuel
    → slots_from fuel day work_start ≡ map label (filter (offered day) (half_hours 16 work_start))
slots_from_lem day fuel h = slots_from-step day fuel work_start 16 refl h
