-- ===== src/Tenant/Resolved.antt =====
-- Which requests the tenant middleware lets pass: middleware/tenant.middleware.ts.
use api_neutra_v.Prelude.{
  ◌≡◌, ◌⊎◌, inl, inr, refl, ap, ◌∙◌, subst, true, false, ◌||◌, String, Option, none, some,
  starts_with, present, Option-cases, Bool-cases, arith,
}
use api_neutra_v.Errors.{Thrown}
use api_neutra_v.Runtime.{ok, err, answer}
use api_neutra_v.Tenant.{Tenant, TenantRepository}
use api_neutra_v.Tenant.Request.{
  Request, RequestTenant, passes, answers, TenantKeys, is_test, is_management_route,
  normalized_path, tenant_keys, request_tenant, tenant_not_found, tenant_inactive, tenant_failed,
  look_up, tenant_middleware, no_keys, or_keys, from_headers, from_cookies, from_host, from_path,
  is_development,
}

module _ {S : Type 0} (tenants : TenantRepository S) (environment process : String)
    (r : Request) where
  -- A pass with a tenant, which was found and is active; and one without, on a management route for
  -- which no tenant was found.
  abbrev pub Admits : S → Option RequestTenant → Type 0
  Admits s none =
      (look_up tenants (tenant_keys environment r) s ≡ (ok none, s))
      × (is_management_route (normalized_path r) ≡ true)
  Admits s (some q) =
      (t : Tenant) × (look_up tenants (tenant_keys environment r) s ≡ (ok (some t), s))
      × (t.active ≡ true)
      × (q ≡ request_tenant t)

  looked_up :
      (k : TenantKeys) (s : S)
      → ((o : Option Tenant) × (look_up tenants k s ≡ (ok o, s)))
        ⊎ ((e : Thrown) × (look_up tenants k s ≡ (err e, s)))
  looked_up k s = elim (Option-cases k.slug) [
    | inr (slug, e) ↦ elim (answer (tenants.find_by_slug slug s)) [
      | inl (o, read) ↦ inl (o, ground (arith, e, read))
      | inr (x, read) ↦ inr (x, ground (arith, e, read))
    ]
    | inl e ↦ elim (Option-cases k.id) [
      | inl f ↦ inl (none, ground (arith, e, f))
      | inr (id, f) ↦ elim (answer (tenants.find_by_id id s)) [
        | inl (o, read) ↦ inl (o, ground (arith, e, f, read))
        | inr (x, read) ↦ inr (x, ground (arith, e, f, read))
      ]
    ]
  ]

  -- Outside the test environments, a request under /api that passes has the tenant that was found
  -- for it and is active, or no tenant, on a management route. Nothing is written.
  pub tenant_middleware-Admits :
      (s s' : S) (o : Option RequestTenant)
      → starts_with "/api" (normalized_path r) ≡ true
      → (is_test environment || is_test process) ≡ false
      → tenant_middleware tenants environment process r s ≡ (ok (passes o), s')
      → (s' ≡ s) × Admits s o
  unfolding tenant_middleware
  tenant_middleware-Admits s s' o api live h = elim (looked_up (tenant_keys environment r) s) [
    | inr (e, failed) ↦ absurd (ground (arith, api, live, failed, h))
    | inl (none, read) ↦ elim (Bool-cases (is_management_route (normalized_path r))) [
      | inr shop ↦ absurd (ground (arith, api, live, read, shop, h))
      | inl office ↦ (
        ground (arith, api, live, read, office, h),
        subst (Admits s) {x = none} {y = o} (ground (arith, api, live, read, office, h))
            (read, office),
      )
    ]
    | inl (some t, read) ↦ elim (Bool-cases t.active) [
      | inr asleep ↦ absurd (ground (arith, api, live, read, asleep, h))
      | inl awake ↦ (
        ground (arith, api, live, read, awake, h),
        subst (Admits s) {x = some (request_tenant t)} {y = o}
            (ground (arith, api, live, read, awake, h)) (t, read, awake, refl),
      )
    ]
  ]

  -- Every other outcome is an answer: 404 without a tenant outside the management routes, 403 for an
  -- inactive tenant, and 500 for whatever the repository throws. Nothing is written.
  pub tenant_middleware_answers :
      (s : S)
      → starts_with "/api" (normalized_path r) ≡ true
      → (is_test environment || is_test process) ≡ false
      → ((look_up tenants (tenant_keys environment r) s ≡ (ok none, s))
          → is_management_route (normalized_path r) ≡ false
          → tenant_middleware tenants environment process r s ≡ (ok (answers tenant_not_found), s))
        × ((t : Tenant)
            → look_up tenants (tenant_keys environment r) s ≡ (ok (some t), s)
            → t.active ≡ false
            → tenant_middleware tenants environment process r s ≡ (ok (answers tenant_inactive), s))
        × ((e : Thrown)
            → look_up tenants (tenant_keys environment r) s ≡ (err e, s)
            → tenant_middleware tenants environment process r s ≡ (ok (answers tenant_failed), s))
  unfolding tenant_middleware
  tenant_middleware_answers s api live = (
    λ read shop. ground (arith, api, live, read, shop),
    λ t read asleep. ground (arith, api, live, read, asleep),
    λ e read. ground (arith, api, live, read),
  )

  kept : (k next : TenantKeys) → no_keys k ≡ false → or_keys k next ≡ k
  kept k next e = rw e refl

  -- When a header names a tenant, the headers alone decide: cookies, host and path are not read.
  pub headers_first :
      (present r.tenant_id || present r.tenant_slug) ≡ true
      → tenant_keys environment r ≡ from_headers r
  unfolding tenant_keys
  headers_first given =
      let some_key : no_keys (from_headers r) ≡ false = ground (arith, given) in
      let first = kept (from_headers r) (from_cookies r) some_key in
      let second =
        ap (λ k. or_keys k (from_host r)) first ∙ kept (from_headers r) (from_host r) some_key in
      ap
        (λ k.
          or_keys k
            (from_path (is_management_route (normalized_path r) || is_development environment)))
        second
      ∙ kept (from_headers r)
          (from_path (is_management_route (normalized_path r) || is_development environment))
          some_key
