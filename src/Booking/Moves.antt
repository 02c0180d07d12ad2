-- ===== src/Booking/Moves.antt =====
-- The statuses of the rows of infrastructure/database/prisma/appointment.prisma-repository.ts, and
-- what the write of one row does to them.
use mathlib.Core.Option
use api_neutra_v.Prelude.{
  true, false, ◌≡◌, refl, ◌⊎◌, inl, inr, ap, sym, ◌∙◌, ◌&&◌, String, Option, some, List, map, find,
  find_holds, find_kept, found_after, str_eq, str_eq_iff, if◌then◌else◌, Bool-cases, arith,
}
use api_neutra_v.Booking.Entity.{AppointmentStatus}
use api_neutra_v.Booking.Lifecycle.{Step}
use api_neutra_v.Booking.Prisma.Database.{AppointmentRow, is_at}

-- The status of an appointment of a tenant, if there is one.
abbrev pub status_of :
    {N : Type 0} → String → String → List (AppointmentRow N) → Option AppointmentStatus
status_of tenant id rows = Option.map (λ r. r.status) (find (is_at id tenant) rows)

-- No status changes, or one by a step.
abbrev pub Moves :
    {N : Type 0} → String → String → List (AppointmentRow N) → List (AppointmentRow N) → Type 0
Moves tenant id xs ys =
    (status_of tenant id ys ≡ status_of tenant id xs)
    ⊎ ((from to : AppointmentStatus) × (status_of tenant id xs ≡ some from)
        × (status_of tenant id ys ≡ some to)
        × Step from to)

str_eq_refl : (s : String) → str_eq s s ≡ true
str_eq_refl s = (str_eq_iff s s).1 refl

is_at-of :
    {N : Type 0} (tenant id : String) (r old : AppointmentRow N)
    → r.id ≡ old.id
    → r.tenant_id ≡ old.tenant_id
    → is_at id tenant old ≡ true
    → is_at id tenant r ≡ true
is_at-of tenant id r old h k e = rw (h, k) e

-- A row is at one place.
is_at-keys :
    {N : Type 0} (tenant id : String) (r : AppointmentRow N)
    → is_at id tenant r ≡ true
    → (r.id ≡ id) × (r.tenant_id ≡ tenant)
is_at-keys tenant id r h = (
  (str_eq_iff r.id id).0 (ground (arith, h)),
  (str_eq_iff r.tenant_id tenant).0 (ground (arith, h)),
)

is_at-apart :
    {N : Type 0} (tenant id t k : String) (r : AppointmentRow N)
    → (str_eq id k && str_eq tenant t) ≡ false
    → is_at id tenant r ≡ true
    → is_at k t r ≡ false
is_at-apart tenant id t k r apart h = let (i, o) = is_at-keys tenant id r h in rw (i, o) apart

-- Writing a status that the old one may step to.
pub replaced-Moves :
    {N : Type 0} (tenant id t k : String) (old r : AppointmentRow N) (xs : List (AppointmentRow N))
    → find (is_at id tenant) xs ≡ some old
    → r.id ≡ old.id
    → r.tenant_id ≡ old.tenant_id
    → Step old.status r.status
    → Moves t k xs (map (λ x. if is_at id tenant x then r else x) xs)
replaced-Moves tenant id t k old r xs there same_id same_tenant step =
    let at_old = find_holds (is_at id tenant) xs old there in
    let at_r = is_at-of tenant id r old same_id same_tenant at_old in
    elim (Bool-cases (str_eq id k && str_eq tenant t)) [
      | inl here ↦
          let i : id ≡ k = (str_eq_iff id k).0 (ground (arith, here)) in
          let o : tenant ≡ t = (str_eq_iff tenant t).0 (ground (arith, here)) in
          let found : find (is_at k t) xs ≡ some old =
            ap (λ z. find (is_at z t) xs) (sym i)
            ∙ ap (λ z. find (is_at id z) xs) (sym o)
            ∙ there in
          let now : find (is_at k t) (map (λ x. if is_at id tenant x then r else x) xs) ≡ some r =
            found_after (is_at k t) (is_at id tenant) r old xs (rw (sym i, sym o) at_r) at_old
              found in
          inr (
            old.status,
            r.status,
            ap (Option.map (λ x. x.status)) found,
            ap (Option.map (λ x. x.status)) now,
            step,
          )
      | inr apart ↦ inl (
          ap (Option.map (λ x. x.status)) (
            find_kept (is_at id tenant) (is_at k t) r xs (is_at-apart tenant id t k r apart at_r)
              (λ x h. is_at-apart tenant id t k x apart h)))
    ]
