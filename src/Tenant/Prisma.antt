-- ===== src/Tenant/Prisma.antt =====
-- infrastructure/database/prisma/tenant.prisma-repository.ts, over a Prisma client that is a
-- parameter.
use mathlib.Core.Option
use api_neutra_v.Prelude.{Bool, true, String, Option, some, List, map, or_default}
use api_neutra_v.Errors.{duplicate_handler, not_found_handler}
use api_neutra_v.Runtime.{Result, Action, rethrow, returns, ask, Time}
use api_neutra_v.Tenant.{Tenant, TenantType, store, TenantConfig, TenantChanges, TenantRepository}
use api_neutra_v.Tenant.Update.{empty_config}

pub record TenantRow : Type 0 where
  pub id : String
  pub name : String
  pub slug : String
  pub type : TenantType
  pub active : Bool
  pub config : Option TenantConfig
  pub created_at : Time
  pub updated_at : Time

-- A column that is absent from an update keeps its value.
pub record TenantClient (DB : Type 0) : Type 0 where
  pub find_id : String → DB → Result (Option TenantRow)
  pub find_slug : String → DB → Result (Option TenantRow)
  pub find_many : DB → Result (List TenantRow)
  pub create_tenant : TenantChanges → Action DB TenantRow
  pub update_tenant : String → TenantChanges → Action DB TenantRow
  pub delete_tenant : String → Action DB TenantRow

abbrev pub to_entity : TenantRow → Tenant
to_entity r = record {
  id = r.id;
  name = r.name;
  slug = r.slug;
  type = r.type;
  config = some (or_default r.config empty_config);
  active = r.active;
  created_at = r.created_at;
  updated_at = r.updated_at;
}

abbrev new_columns : TenantChanges → TenantChanges
new_columns d = record {
  name = d.name;
  slug = d.slug;
  type = some (or_default d.type store);
  config = some (or_default d.config empty_config);
  active = some (or_default d.active true);
}

module _ {DB : Type 0} (client : TenantClient DB) where
  unfoldable pub find_by_id : String → DB → Result (Option Tenant)
  find_by_id id db = ask (Option.map to_entity) (client.find_id id db)

  unfoldable pub find_by_slug : String → DB → Result (Option Tenant)
  find_by_slug slug db = ask (Option.map to_entity) (client.find_slug slug db)

  unfoldable pub create : TenantChanges → Action DB Tenant
  create d =
      rethrow (duplicate_handler "Tenant" "slug" (or_default d.slug ""))
        (returns to_entity (client.create_tenant (new_columns d)))

  unfoldable pub update : String → TenantChanges → Action DB Tenant
  update id d =
      rethrow (not_found_handler "Tenant" id) (returns to_entity (client.update_tenant id d))

  unfoldable pub delete : String → Action DB (Unit {0})
  delete id = rethrow (not_found_handler "Tenant" id) (returns (λ _. tt) (client.delete_tenant id))

  abbrev pub tenant_repository : TenantRepository DB
  tenant_repository = record {
    find_by_id = find_by_id;
    find_by_slug = find_by_slug;
    find_all = λ db. ask (map to_entity) (client.find_many db);
    create = create;
    update = update;
    delete = delete;
  }
