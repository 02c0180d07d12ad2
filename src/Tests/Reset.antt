-- ===== src/Tests/Reset.antt =====
-- A forgotten password, and registration, over the database of one user.
use api_neutra_v.Prelude.{
  ℕ, ◌<◌, ◌≡◌, ◌⊎◌, refl, sym, inl, inr, true, false, String, none, some, [], str_eq, str_eq_iff,
  if◌then◌else◌, Bool-cases, arith,
}
use api_neutra_v.Prelude.Int.{pos, ◌<ℤ◌, ◌+ℤ◌}
use api_neutra_v.Runtime.{ok, err}
use api_neutra_v.Access.{User, PasswordHasher}
use api_neutra_v.Account.{AccountQueue}
use api_neutra_v.Account.Password.{
  expiry, forgot_password, reset_password, link_sent, password_changed,
}
use api_neutra_v.Account.Prisma.{UserRow, find_by_email, find_by_reset_token, update, map_to_user}
use api_neutra_v.Account.Prisma.Laws.{user_repository-IsAccounts}
use api_neutra_v.Account.Reset.{IsFresh, IsOnly, IsMailing, forgot_then_reset, reset_twice}
use api_neutra_v.Account.Prisma.Resets.{IsRenewed, reset_needs_token}
use api_neutra_v.Errors.{Thrown}
use api_neutra_v.Account.Stored.{Opens}
use api_neutra_v.Tests.Accounts.{Db, rows, client, store, accounts, client-IsUserClient}

abbrev eva_row : UserRow
eva_row = record {
  id = "u1";
  name = "Eva";
  email = "eva@shop";
  password = "old";
  profile_pic = none;
  phone = none;
  push_token = none;
  active = true;
  google_id = none;
  facebook_id = none;
  twitter_id = none;
  github_id = none;
  reset_password_token = none;
  reset_password_expires = none;
  tenants = [];
}

-- No hash is empty.
abbrev pub scrambled : String → String
scrambled password = if str_eq password "" then "#" else password

abbrev pub hasher : PasswordHasher
hasher = record {
  hash = λ password. ok (scrambled password);
  compare = λ password hash. ok (str_eq (scrambled password) hash);
}

abbrev pub queue : AccountQueue Db
queue = record { enqueue = λ name job s. (ok tt, s) }

pub queue-IsMailing : IsMailing queue accounts
queue-IsMailing = record { enqueue_lem = λ name job s. (s, refl, λ full k. refl) }

eva-IsFresh : IsFresh accounts "abc" (some eva_row)
eva-IsFresh k v there has = elim (Bool-cases (str_eq "u1" k)) [
  | inl e ↦ absurd (ground (arith, e, there, has))
  | inr e ↦ absurd (ground (arith, e, there))
]

in_time : pos 1000 <ℤ expiry (pos 0)
unfolding ◌+ℤ◌
in_time = omega arith

forgot_then_reset_example :
    (s₁ : Db) × (forgot_password store queue "https://shop" "abc"
        (pos 0)
        none
        "eva@shop"
        none
        (some eva_row)
      ≡ (ok link_sent, s₁))
    × (s₂ : Db) × (reset_password store hasher (pos 1000) "abc" "fresh" s₁
        ≡ (ok password_changed, s₂))
    × (w : User) × (accounts false "u1" s₂ ≡ some w)
    × (w.password ≡ some "fresh")
    × (w.email ≡ "eva@shop")
unfolding find_by_email
forgot_then_reset_example =
    forgot_then_reset store accounts
      (user_repository-IsAccounts client (λ a b. pos 0) rows client-IsUserClient) queue
      queue-IsMailing hasher "https://shop" "eva@shop" "abc" "fresh" "fresh" none none (pos 0)
      (pos 1000) (some eva_row) (map_to_user eva_row) refl refl refl refl refl eva-IsFresh in_time

abbrev waiting : UserRow
waiting = record eva_row {
  reset_password_token = some "abc";
  reset_password_expires = some (pos 3600000);
}

waiting-IsOnly : IsOnly accounts "abc" "u1" (some waiting)
waiting-IsOnly k v there has = elim (Bool-cases (str_eq "u1" k)) [
  | inl e ↦ sym ((str_eq_iff "u1" k).0 e)
  | inr e ↦ absurd (ground (arith, e, there))
]

waiting-Opens : (now : ℕ) → now < 3600000 → Opens "abc" (pos now) (map_to_user waiting)
waiting-Opens now soon = (refl, pos 3600000, refl, ground (arith, soon))

reset_twice_example :
    (s₁ : Db) × (reset_password store hasher (pos 1000) "abc" "one" (some waiting)
      ≡ (ok password_changed, s₁))
    × (s₂ : Db) × (reset_password store hasher (pos 2000) "abc" "two" s₁
        ≡ (ok password_changed, s₂))
    × (w : User) × (accounts false "u1" s₂ ≡ some w)
    × (w.password ≡ some "two")
reset_twice_example =
    reset_twice store accounts
      (user_repository-IsAccounts client (λ a b. pos 0) rows client-IsUserClient) hasher "u1" "abc"
      "one" "two" "one" "two" (pos 1000) (pos 2000) (some waiting) (map_to_user waiting) refl refl
      refl refl refl refl (waiting-Opens 1000 (omega arith)) (waiting-Opens 2000 (omega arith))
      waiting-IsOnly

abbrev renewed : Db
renewed = some (record waiting { password = "fresh" })

renewed_run :
    reset_password store hasher (pos 1000) "abc" "fresh" (some waiting)
    ≡ (ok password_changed, renewed)
unfolding reset_password find_by_reset_token update
renewed_run = refl

reset_needs_token_example :
    ((e : Thrown) × (reset_password store hasher (pos 1000) "abc" "fresh" (some waiting)
        ≡ (err e, some waiting)))
    ⊎ ((db' : Db) × (reset_password store hasher (pos 1000) "abc" "fresh" (some waiting)
          ≡ (ok password_changed, db'))
        × IsRenewed client
            (λ a b. pos 0)
            rows
            client-IsUserClient
            hasher
            "abc"
            "fresh"
            (pos 1000)
            (some waiting)
            db')
reset_needs_token_example =
    reset_needs_token client (λ a b. pos 0) rows client-IsUserClient hasher "abc" "fresh" (pos 1000)
      (some waiting)
