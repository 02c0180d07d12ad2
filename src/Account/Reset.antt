-- ===== src/Account/Reset.antt =====
-- From a forgotten password to a new one: core/application/auth/forgot-password and reset-password.
use api_neutra_v.Prelude.{
  ◌≡◌, ◌≢◌, inl, inr, refl, ap, sym, ◌∙◌, subst, true, false, Bool, String, Option, some, truthy,
  str_eq, str_eq_iff, Bool-cases, arith,
}
use api_neutra_v.Prelude.Int.{◌<ℤ◌}
use api_neutra_v.Runtime.{ok, Time}
use api_neutra_v.Access.{User, PasswordHasher}
use api_neutra_v.Account.{AccountJob, UserChanges, AccountRepository, AccountQueue, no_options}
use api_neutra_v.Account.Password.{
  link_job, forgot_password, reset_password, issued, expiry, new_password, link_sent,
  password_changed,
}
use api_neutra_v.Account.Stored.{IsAccounts, Opens, changed}

-- No account has the token; no other account than this one has it.
abbrev pub IsFresh : {S : Type 0} → (Bool → String → S → Option User) → String → S → Type 0
IsFresh row token s =
    (k : String) (v : User) → row false k s ≡ some v → v.reset_password_token ≢ some token

abbrev pub IsOnly : {S : Type 0} → (Bool → String → S → Option User) → String → String → S → Type 0
IsOnly row token id s =
    (k : String) (v : User) → row false k s ≡ some v → v.reset_password_token ≡ some token → k ≡ id

-- The queue takes every job and leaves the users alone.
pub record IsMailing {S : Type 0} (queue : AccountQueue S) (row : Bool → String → S → Option User)
    : Type 0 where
  pub enqueue_lem :
      (name : String) (job : AccountJob) (s : S)
      → (s' : S) × (queue.enqueue name job s ≡ (ok tt, s'))
        × ((full : Bool) (k : String) → row full k s' ≡ row full k s)

module _ {S : Type 0} (users : AccountRepository S) (row : Bool → String → S → Option User)
    (accounts : IsAccounts users row) where
  IsOnly-after :
      (id token : String) (d : UserChanges) (s : S)
      → IsOnly row token id s
      → IsOnly row token id (users.update id d s).1
  IsOnly-after id token d s only k v there has = elim (Bool-cases (str_eq k id)) [
    | inl same ↦ (str_eq_iff k id).0 same
    | inr apart ↦
        let other : k ≢ id = λ e. ground (arith, (str_eq_iff k id).1 e, apart) in
        only k v (sym (accounts.update_others false id k d s other) ∙ there) has
  ]

  -- One reset with a token that opens the account and no other.
  reset_works :
      (hasher : PasswordHasher) (id token password hash : String) (now : Time) (s : S) (u : User)
      → truthy token ≡ true
      → truthy password ≡ true
      → hasher.hash password ≡ ok hash
      → row false id s ≡ some u
      → Opens token now u
      → IsOnly row token id s
      → (s' : S) × (reset_password users hasher now token password s ≡ (ok password_changed, s'))
        × ((full : Bool) (o : User)
            → row full id s ≡ some o
            → row full id s' ≡ some (changed (new_password hash) o))
        × IsOnly row token id s'
  unfolding reset_password
  reset_works hasher id token password hash now s u written filled hashed there opens only =
      let (v, found) = accounts.token_lem id token now s u there opens in
      let (is, opened) = accounts.by_token_lem token now s v found in
      let mine : v.id ≡ id = only v.id v is opened.0 in
      let (w, s', wrote) = accounts.update_works id (new_password hash) s u there refl in
      let wrote_it : users.update v.id (new_password hash) s ≡ (ok w, s') =
        ap (λ k. users.update k (new_password hash) s) mine ∙ wrote in
      (
        s',
        ground (arith, written, filled, found, hashed, wrote_it),
        λ full o is. accounts.update_lem full id (new_password hash) s s' o w is wrote,
        subst (IsOnly row token id) (ap (λ x. x.1) wrote)
            (IsOnly-after id token (new_password hash) s only),
      )

  -- Whoever asks for a link with the e-mail of an account, and uses its fresh token within the hour,
  -- gets the new password: both calls succeed, and the account has the hash and its e-mail. The
  -- database and the queue answer.
  pub forgot_then_reset :
      (queue : AccountQueue S)
      → IsMailing queue row
      → (hasher : PasswordHasher) (frontend email token password hash : String)
        (tenant origin : Option String) (now later : Time) (s : S) (u : User)
      → truthy email ≡ true
      → truthy token ≡ true
      → truthy password ≡ true
      → hasher.hash password ≡ ok hash
      → users.find_by_email email no_options s ≡ ok (some u)
      → IsFresh row token s
      → later <ℤ expiry now
      → (s₁ : S) × (forgot_password users queue frontend token now tenant email origin s
          ≡ (ok link_sent, s₁))
        × (s₂ : S) × (reset_password users hasher later token password s₁
            ≡ (ok password_changed, s₂))
        × (w : User) × (row false u.id s₂ ≡ some w)
        × (w.password ≡ some hash)
        × (w.email ≡ u.email)
  unfolding forgot_password
  forgot_then_reset queue mails hasher frontend email token password hash tenant origin now later s
        u asked written filled hashed found fresh soon =
      let there = accounts.by_email_lem email no_options s u found in
      let (w, s₁, wrote) = accounts.update_works u.id (issued token now) s u there refl in
      let mine = accounts.update_lem false u.id (issued token now) s s₁ u w there wrote in
      let only₁ : IsOnly row token u.id s₁ =
        subst (IsOnly row token u.id) (ap (λ x. x.1) wrote) (
          IsOnly-after u.id token (issued token now) s (λ k v is has. absurd (fresh k v is has))) in
      let (s₂, sent, keeps) =
        mails.enqueue_lem "notifications" (link_job frontend token tenant origin u) s₁ in
      let only₂ : IsOnly row token u.id s₂ = λ k v is. only₁ k v (sym (keeps false k) ∙ is) in
      let (s₃, reset, after, only₃) =
        reset_works hasher u.id token password hash later s₂ (changed (issued token now) u) written
          filled hashed (keeps false u.id ∙ mine) (refl, expiry now, refl, soon) only₂ in
      (
        s₂,
        ground (arith, asked, found, wrote, sent),
        s₃,
        reset,
        changed (new_password hash) (changed (issued token now) u),
        after false (changed (issued token now) u) (keeps false u.id ∙ mine),
        refl,
        refl,
      )

  -- A reset leaves the token in place: until it expires it sets further passwords.
  pub reset_twice :
      (hasher : PasswordHasher) (id token first second hash₁ hash₂ : String) (now later : Time)
      (s : S) (u : User)
      → truthy token ≡ true
      → truthy first ≡ true
      → truthy second ≡ true
      → hasher.hash first ≡ ok hash₁
      → hasher.hash second ≡ ok hash₂
      → row false id s ≡ some u
      → Opens token now u
      → Opens token later u
      → IsOnly row token id s
      → (s₁ : S) × (reset_password users hasher now token first s ≡ (ok password_changed, s₁))
        × (s₂ : S) × (reset_password users hasher later token second s₁ ≡ (ok password_changed, s₂))
        × (w : User) × (row false id s₂ ≡ some w)
        × (w.password ≡ some hash₂)
  reset_twice hasher id token first second hash₁ hash₂ now later s u written filled again hashed
        hashed_again there opens still only =
      let (s₁, done, after, only₁) =
        reset_works hasher id token first hash₁ now s u written filled hashed there opens only in
      let v : User = changed (new_password hash₁) u in
      let (s₂, done_again, after_again, only₂) =
        reset_works hasher id token second hash₂ later s₁ v written again hashed_again
          (after false u there) still only₁ in
      (
        s₁,
        done,
        s₂,
        done_again,
        changed (new_password hash₂) v,
        after_again false v (after false u there),
        refl,
      )
