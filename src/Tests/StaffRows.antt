-- ===== src/Tests/StaffRows.antt =====
-- The staff repository over a table with room for one staff member: runs, and the theorems at
-- inputs.
use api_neutra_v.Prelude.{
  ◌≡◌, refl, ap, sym, ◌∙◌, Bool, true, String, Option, none, some, List, [], ◌∷◌, ◌++◌, map, find,
  or_default, or_else, str_eq_iff, if◌then◌else◌, arith,
}
use api_neutra_v.Errors.{prisma}
use api_neutra_v.Runtime.{ok, err, Action, ok-injective, success_of}
use api_neutra_v.Team.{UpdateStaffData}
use api_neutra_v.Team.Assigned.{HasStaff}
use api_neutra_v.Team.Prisma.{
  StaffRow, StaffColumns, StaffClient, is_staff, get_services, replace_links, sync_services,
  sync_staff_services, staff_repository,
}
use api_neutra_v.Team.Prisma.Laws.{
  IsStaffClient, member, staff_repository-HasStaff, sync_staff_services_lem,
}

-- The staff member, and the services.
abbrev Table : Type 0
Table = Option StaffRow × List String

abbrev rows : Table → List StaffRow
rows (none, ids) = []
rows (some r, ids) = r ∷ []

abbrev row_of : StaffColumns → StaffRow
row_of d = record {
  id = "w1";
  user_id = d.user_id;
  name = d.name;
  email = d.email;
  phone = none;
  avatar = none;
  bio = none;
  active = d.active;
  working_hours = none;
  service_ids = [];
  tenant_id = d.tenant_id;
}

abbrev changed : UpdateStaffData → StaffRow → StaffRow
changed d r = record r {
  user_id = or_else d.user_id r.user_id;
  active = or_default d.active r.active;
}

abbrev insert : StaffColumns → Action Table StaffRow
insert d (none, ids) = (ok (row_of d), (some (row_of d), ids))
insert d (some r, ids) = (err (prisma "P2002" none "unique constraint failed"), (some r, ids))

abbrev write : String → String → UpdateStaffData → Action Table StaffRow
write id tenant d (none, ids) = (err (prisma "P2025" none "no record"), (none, ids))
write id tenant d (some r, ids) =
    if is_staff tenant id r
    then (ok (changed d r), (some (changed d r), ids))
    else (err (prisma "P2025" none "no record"), (some r, ids))

abbrev client : StaffClient Table
client = record {
  find_first = λ p db. ok (find p (rows db));
  find_many = λ p db. ok (rows db);
  create = insert;
  update = write;
  delete = λ id tenant db. (err (prisma "P2025" none "no record"), db);
  find_links = λ tenant staff db. ok db.1;
  create_link = λ tenant staff service db. (ok tt, (db.0, service ∷ db.1));
  delete_link = λ staff service db. (ok tt, (db.0, []));
  delete_links = λ tenant staff db. (ok tt, (db.0, []));
  create_links = λ tenant staff ids db. (ok tt, (db.0, ids));
  transaction = λ m. m;
}

made :
    (d : StaffColumns) (r : StaffRow) (db db' : Table)
    → insert d db ≡ (ok r, db')
    → (r.tenant_id ≡ d.tenant_id)
      × (r.user_id ≡ d.user_id)
      × (r.active ≡ d.active)
      × (rows db' ≡ rows db ++ (r ∷ []))
made d r (some q, ids) db' h = absurd (ground (arith, h))
made d r (none, ids) db' h =
    let same : row_of d ≡ r = ok-injective (ap (λ x. x.0) h) in
    (
      ap (λ (x : StaffRow). x.tenant_id) (sym same),
      ap (λ (x : StaffRow). x.user_id) (sym same),
      ap (λ (x : StaffRow). x.active) (sym same),
      ap (λ x. rows x.1) (sym h) ∙ ap (λ x. x ∷ []) same,
    )

wrote :
    (p : StaffRow → Bool) (tenant id : String) (d : UpdateStaffData) (old r : StaffRow)
    (db db' : Table)
    → find p (rows db) ≡ some old
    → is_staff tenant id old ≡ true
    → write id tenant d db ≡ (ok r, db')
    → (r.tenant_id ≡ tenant)
      × (r.user_id ≡ or_else d.user_id old.user_id)
      × (r.active ≡ or_default d.active old.active)
      × (rows db' ≡ map (λ x. if is_staff tenant id x then r else x) (rows db))
wrote p tenant id d old r (none, ids) db' there mine h = absurd (ground (arith, there))
wrote p tenant id d old r (some q, ids) db' there mine h =
    let same : q ≡ old = ground (arith, there) in
    let it : is_staff tenant id q ≡ true = ap (is_staff tenant id) same ∙ mine in
    let is : changed d q ≡ r = ground (arith, it, h) in
    let here : (some (changed d q), ids) ≡ db' = ground (arith, it, h) in
    (
      ap (λ (x : StaffRow). x.tenant_id) (sym is)
          ∙ (str_eq_iff q.tenant_id tenant).0 (ground (arith, it)),
      ap (λ (x : StaffRow). x.user_id) (sym is)
          ∙ ap (λ (x : StaffRow). or_else d.user_id x.user_id) same,
      ap (λ (x : StaffRow). x.active) (sym is)
          ∙ ap (λ (x : StaffRow). or_default d.active x.active) same,
      ap rows (sym here) ∙ rw it (ap (λ x. x ∷ []) is),
    )

client-IsStaffClient : IsStaffClient client rows (λ tenant staff db. db.1)
client-IsStaffClient = record {
  find_lem = λ p db. refl;
  create_lem = made;
  update_lem = wrote;
  links_lem = λ tenant staff db. refl;
  delete_links_lem = λ tenant staff db. refl;
  create_links_lem = λ tenant staff ids db db' bare h. ap (λ x. x.1.1) (sym h);
  transaction_lem = λ m db db' h. h;
}

staff_repository-HasStaff_example :
    HasStaff
      (staff_repository client)
      "t1"
      (member client rows (λ tenant staff db. db.1) client-IsStaffClient "t1")
staff_repository-HasStaff_example =
    staff_repository-HasStaff client rows (λ tenant staff db. db.1) client-IsStaffClient "t1"

synced :
    sync_staff_services client "t1" "w1" (some ("s1" ∷ "s2" ∷ [])) (none, "s9" ∷ [])
    ≡ (ok (success_of none "Staff services synchronized successfully"), (none, "s1" ∷ "s2" ∷ []))
unfolding sync_staff_services sync_services replace_links
synced = refl

sync_staff_services_lem_example :
    (ids : List String) × (some ("s1" ∷ "s2" ∷ []) ≡ some ids)
    × (get_services client "t1" "w1" (none, "s1" ∷ "s2" ∷ []) ≡ ok ids)
sync_staff_services_lem_example =
    sync_staff_services_lem client rows (λ tenant staff db. db.1) client-IsStaffClient "t1" "w1"
      (some ("s1" ∷ "s2" ∷ [])) (none, "s9" ∷ []) (none, "s1" ∷ "s2" ∷ [])
      (success_of none "Staff services synchronized successfully") synced
