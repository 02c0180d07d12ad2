-- ===== src/Account/Prisma/Resets.antt =====
-- Which passwords a reset sets: core/application/auth/reset-password.use-case.ts over
-- infrastructure/database/prisma/user.prisma-repository.ts.
use api_neutra_v.Prelude.{
  ◌≡◌, ◌≢◌, ◌⊎◌, inl, inr, refl, ap, sym, ◌∙◌, true, false, Bool, String, Option, none, some,
  truthy, Bool-cases, arith,
}
use api_neutra_v.Prelude.Int.{ℤ, ◌<ℤ◌}
use api_neutra_v.Errors.{Thrown, domain, validation_error, business_rule_violation_error}
use api_neutra_v.Runtime.{ok, err, Time, answer}
use api_neutra_v.Access.{PasswordHasher}
use api_neutra_v.Account.{AccountRepository}
use api_neutra_v.Account.Password.{reset_password, new_password, password_changed}
use api_neutra_v.Account.Prisma.{
  UserRow, UserClient, opened_by, update_columns, user_repository, find_by_reset_token, update,
}
use api_neutra_v.Account.Prisma.Database.{IsUserClient}
use api_neutra_v.Account.Prisma.Laws.{opened_by_iff}

module _ {DB : Type 0} (client : UserClient DB) (compare : String → String → ℤ)
    (rows : Bool → String → DB → Option UserRow) (is : IsUserClient client rows) where
  abbrev users : AccountRepository DB
  users = user_repository client compare

  -- The row has the token, which ends later than now; afterwards it has the hash of the password and
  -- is otherwise as before, and so is every other row.
  pub record IsRenewed (hasher : PasswordHasher) (token password : String) (now : Time)
      (db db' : DB) : Type 0 where
    pub row : UserRow
    pub stored : rows false row.id db ≡ some row
    pub token_is : row.reset_password_token ≡ some token
    pub end : Time
    pub ends : row.reset_password_expires ≡ some end
    pub in_time : now <ℤ end
    pub hash : String
    pub hashed : hasher.hash password ≡ ok hash
    pub changed : rows false row.id db' ≡ some (record row { password = hash })
    pub others : (k : String) → k ≢ row.id → rows false k db' ≡ rows false k db

  reset_found :
      (hasher : PasswordHasher) (token password hash : String) (now : Time) (db : DB) (q : UserRow)
      → truthy token ≡ true
      → truthy password ≡ true
      → client.find_user false (opened_by token now) db ≡ ok (some q)
      → hasher.hash password ≡ ok hash
      → (db' : DB) × (reset_password users hasher now token password db
          ≡ (ok password_changed, db'))
        × IsRenewed hasher token password now db db'
  unfolding reset_password find_by_reset_token update
  reset_found hasher token password hash now db q written filled read hashed =
      let (stored, holds) = is.row_lem false (opened_by token now) db q read in
      let (token_is, end, ends, in_time) = (opened_by_iff token now q).1 holds in
      let columns = update_columns (new_password hash) in
      let (w, db', wrote) = is.update_works q.id columns db q stored refl in
      (
        db',
        ground (arith, written, filled, read, hashed, wrote),
        record {
          row = q;
          stored = stored;
          token_is = token_is;
          end = end;
          ends = ends;
          in_time = in_time;
          hash = hash;
          hashed = hashed;
          changed = is.update_lem false q.id columns db db' q w stored wrote;
          others = λ k apart.
              ap (λ x. rows false k x.1) (sym wrote)
              ∙ is.update_others false q.id k columns db apart;
        },
      )

  -- A reset either is refused and writes nothing, or the token is the one of a stored user and ends
  -- later than now: then that user's password is the hash of the new one, and nothing else of the
  -- users has changed.
  pub reset_needs_token :
      (hasher : PasswordHasher) (token password : String) (now : Time) (db : DB)
      → ((e : Thrown) × (reset_password users hasher now token password db ≡ (err e, db)))
        ⊎ ((db' : DB) × (reset_password users hasher now token password db
              ≡ (ok password_changed, db'))
            × IsRenewed hasher token password now db db')
  unfolding reset_password find_by_reset_token
  reset_needs_token hasher token password now db = elim (Bool-cases (truthy token)) [
    | inr bare ↦
        inl (domain (validation_error "Token and new password are required"), ground (arith, bare))
    | inl written ↦ elim (Bool-cases (truthy password)) [
      | inr bare ↦ inl (
        domain (validation_error "Token and new password are required"),
        ground (arith, written, bare),
      )
      | inl filled ↦ elim (answer (client.find_user false (opened_by token now) db)) [
        | inr (e, failed) ↦ inl (e, ground (arith, written, filled, failed))
        | inl (none, nobody) ↦ inl (
          domain (business_rule_violation_error "Password reset token is invalid or has expired"),
          ground (arith, written, filled, nobody),
        )
        | inl (some q, read) ↦ elim (answer (hasher.hash password)) [
          | inr (e, failed) ↦ inl (e, ground (arith, written, filled, read, failed))
          | inl (hash, hashed) ↦
              inr (reset_found hasher token password hash now db q written filled read hashed)
        ]
      ]
    ]
  ]
