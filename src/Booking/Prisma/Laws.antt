-- ===== src/Booking/Prisma/Laws.antt =====
-- What the repository's operations do to the rows, over a client that behaves as documented.
use api_neutra_v.Prelude.{
  true, false, ◌≡◌, ◌↔◌, ◌∙◌, String, none, List, [], ◌∷◌, ap, All, All-imp, All-each,
  is_empty-filter, arith, Bool-cases, str_eq_iff, inl, inr,
}
use api_neutra_v.Prelude.Int.{◌<ℤ◌}
use api_neutra_v.Runtime.{Time, ok, ok-injective}
use api_neutra_v.Runtime.Number.{Number}
use api_neutra_v.Booking.Interval.{conflicts_iff, Overlaps}
use api_neutra_v.Booking.Prisma.{is_active, is_conflicting, check_availability}
use api_neutra_v.Booking.Prisma.Database.{AppointmentRow, RowCreate, Client, IsCreated, IsClient}

-- A row that takes the staff member's time.
abbrev pub Occupies : {N : Type 0} → String → String → AppointmentRow N → Type 0
Occupies tenant staff r =
    (r.tenant_id ≡ tenant) × (r.staff_id ≡ staff) × (is_active r.status ≡ true)

-- Every booking has a positive length.
abbrev pub IsNonempty : {N : Type 0} → AppointmentRow N → Type 0
IsNonempty r = r.start_time <ℤ r.end_time

module _ {N : Type 0} (tenant staff : String) (start end : Time) where
  -- The row stands in the way of a booking from `start` to `end`.
  abbrev pub IsFree : AppointmentRow N → Type 0
  IsFree r = Occupies tenant staff r → ¬ (Overlaps start end r.start_time r.end_time)

  not_conflicting_iff :
      (r : AppointmentRow N)
      → start <ℤ end
      → IsNonempty r
      → (is_conflicting tenant staff start end none r ≡ false) ↔ IsFree r
  not_conflicting_iff r p q =
      let (to, from) = conflicts_iff start end r.start_time r.end_time p q in
      (
        λ h occ ov.
            ground (arith, str_eq_iff r.tenant_id tenant, str_eq_iff r.staff_id staff, from ov),
        λ f. elim (Bool-cases (is_conflicting tenant staff start end none r)) [
          | inr e ↦ e
          | inl e ↦ absurd (
              f
                (
                  (str_eq_iff r.tenant_id tenant).0 (ground arith),
                  (str_eq_iff r.staff_id staff).0 (ground arith),
                  ground arith,
                )
                (to (ground arith)))
        ],
      )

module _ {DB N : Type 0} (client : Client DB N) (rows : DB → List (AppointmentRow N))
    (laws : IsClient client rows) where
  -- A slot of positive length is available exactly when no active row of the tenant's staff member
  -- overlaps it, provided that the rows have a positive length.
  pub check_availability_iff :
      (num : Number N) (tenant staff : String) (start end : Time) (db : DB)
      → start <ℤ end
      → All IsNonempty (rows db)
      → (check_availability num client tenant staff start end none db ≡ ok true)
        ↔ All (IsFree tenant staff start end) (rows db)
  unfolding check_availability
  check_availability_iff num tenant staff start end db p nonempty =
      let test = is_conflicting tenant staff start end none in
      let (to, from) = is_empty-filter test (rows db) in
      rw (laws.find_many_lem test db) (
        λ h.
            All-imp (λ r. test r ≡ false) IsNonempty (IsFree tenant staff start end)
              (λ r e q. (not_conflicting_iff tenant staff start end r p q).0 e) (rows db)
              (to (ok-injective h)) nonempty,
        λ f. ap ok (
            from (
              All-imp (IsFree tenant staff start end) IsNonempty (λ r. test r ≡ false)
                (λ r e q. (not_conflicting_iff tenant staff start end r p q).1 e) (rows db) f
                nonempty)),
      )

-- Two rows do not take one staff member's time at once.
abbrev pub AreApart : {N : Type 0} → AppointmentRow N → AppointmentRow N → Type 0
AreApart r x =
    is_active r.status ≡ true
    → Occupies r.tenant_id r.staff_id x
    → ¬ (Overlaps r.start_time r.end_time x.start_time x.end_time)

abbrev pub AreDisjoint : {N : Type 0} → List (AppointmentRow N) → Type 0
AreDisjoint [] = Unit
AreDisjoint (r ∷ rs) = All (AreApart r) rs × AreDisjoint rs

-- A schedule with no double booking.
abbrev pub IsSchedule : {N : Type 0} → List (AppointmentRow N) → Type 0
IsSchedule rs = All IsNonempty rs × AreDisjoint rs

module _ {N : Type 0} where
  free-AreApart :
      (d : RowCreate N) (r x : AppointmentRow N)
      → IsCreated d r
      → IsFree d.tenant_id d.staff_id d.start_time d.end_time x
      → AreApart r x
  free-AreApart d r x c f a (t, w, act) o =
      f (t ∙ c.tenant, w ∙ c.staff, act) (rw (← c.start, ← c.finish) o)

  pub IsSchedule-cons :
      (d : RowCreate N) (r : AppointmentRow N) (rs : List (AppointmentRow N))
      → IsCreated d r
      → d.start_time <ℤ d.end_time
      → All (IsFree d.tenant_id d.staff_id d.start_time d.end_time) rs
      → IsSchedule rs
      → IsSchedule (r ∷ rs)
  IsSchedule-cons d r rs c p f (n, s) = (
    (rw (c.start, c.finish) p, n),
    (
      All-each (IsFree d.tenant_id d.staff_id d.start_time d.end_time) (AreApart r)
          (λ x h. free-AreApart d r x c h) rs f,
      s,
    ),
  )
