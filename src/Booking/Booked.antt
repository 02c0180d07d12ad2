-- ===== src/Booking/Booked.antt =====
-- What a successful `create_appointment` has written.
use api_neutra_v.Prelude.{◌≡◌, String, none, some, List, ◌∷◌}
use api_neutra_v.Runtime.{Time, UseCaseResult}
use api_neutra_v.Runtime.Number.{Number}
use api_neutra_v.Booking.Entity.{Appointment, Service, pending}
use api_neutra_v.Booking.Create.{CreateAppointmentData}
use api_neutra_v.Booking.Interval.{plus_minutes}
use api_neutra_v.Booking.Prisma.{map_to_entity}
use api_neutra_v.Booking.Prisma.Database.{AppointmentRow, IsCreated}

-- One row more, and what it holds; it starts when the request says.
pub record IsBooked {DB N : Type 0} (num : Number N) (rows : DB → List (AppointmentRow N))
    (tenant : String) (d : CreateAppointmentData) (db db' : DB) (sv : Service N) (start : Time)
    (res : UseCaseResult (Appointment N)) : Type 0 where
  pub requested : d.start_time ≡ some start
  pub row : AppointmentRow N
  pub added : rows db' ≡ row ∷ rows db
  pub result : res.value ≡ some (map_to_entity row)
  pub created :
      IsCreated
        (record {
          tenant_id = tenant;
          user_id = d.user_id;
          service_id = d.service_id;
          staff_id = d.staff_id;
          start_time = start;
          end_time = plus_minutes start sv.duration;
          notes = d.notes;
          status = pending;
          coupon_id = none;
          discount_amount = num.nought;
          subtotal = num.nought;
          total = num.nought;
        })
        row
