-- ===== src/Auth/Authorization.antt =====
-- apps/api/src/auth/authorization.ts: `authorize`, with the data of auth/types.ts.
pub mod Grants
use jejak.Prelude.{Bool, true, false, not, ◌&&◌, ◌||◌, Option, none, some, List, [], ◌∷◌}
use jejak.Prelude.Tests.{if◌then◌else◌}
use jejak.Prelude.Text.{Text, text_eq}

pub data ActorRole : Type 0 where
  seller originator issuer facility servicer resolver admin oracle system : ActorRole

pub record ActiveRoleGrant : Type 0 where
  pub grant_id : Text
  pub role : ActorRole

pub record AuthorizationContext : Type 0 where
  pub actor_id : Text
  pub membership_id : Text
  pub role_grant_id : Text
  pub role : ActorRole
  pub tenant_id : Text

pub record ResourceAssignment : Type 0 where
  pub capability : Text
  pub resource_id : Text
  pub resource_type : Text

pub record AuthorizationInput : Type 0 where
  pub actor_id : Text
  pub assignments : Option (List ResourceAssignment)
  pub grants : List ActiveRoleGrant
  pub membership_id : Text
  pub required_roles : List ActorRole
  pub resource : Option ResourceAssignment
  pub tenant_id : Text

-- A value, or an `AuthorizationError`.
pub data Decision : Type 0 where
  authorized : AuthorizationContext → Decision
  forbidden : Decision

unfoldable pub same_role : ActorRole → ActorRole → Bool
same_role seller seller = true
same_role originator originator = true
same_role issuer issuer = true
same_role facility facility = true
same_role servicer servicer = true
same_role resolver resolver = true
same_role admin admin = true
same_role oracle oracle = true
same_role system system = true
same_role _ _ = false

-- `grants.find((candidate) => candidate.role === role)`
unfoldable pub find_grant : ActorRole → List ActiveRoleGrant → Option ActiveRoleGrant
find_grant role [] = none
find_grant role (g ∷ gs) =
    let rest = find_grant role gs in if same_role g.role role then some g else rest

abbrev pub first_found : Option ActiveRoleGrant → Option ActiveRoleGrant → Option ActiveRoleGrant
first_found (some g) rest = some g
first_found none rest = rest

-- The grant of the first required role that has one.
unfoldable pub chosen_grant : List ActorRole → List ActiveRoleGrant → Option ActiveRoleGrant
chosen_grant [] grants = none
chosen_grant (role ∷ roles) grants =
    first_found (find_grant role grants) (chosen_grant roles grants)

abbrev pub same_assignment : ResourceAssignment → ResourceAssignment → Bool
same_assignment candidate resource =
    text_eq candidate.resource_type resource.resource_type
    && text_eq candidate.resource_id resource.resource_id
    && text_eq candidate.capability resource.capability

unfoldable pub some_assignment : ResourceAssignment → List ResourceAssignment → Bool
some_assignment resource [] = false
some_assignment resource (a ∷ as') = same_assignment a resource || some_assignment resource as'

abbrev pub is_assigned : Option (List ResourceAssignment) → ResourceAssignment → Bool
is_assigned none resource = false
is_assigned (some assignments) resource = some_assignment resource assignments

-- An administrator needs no assignment.
abbrev pub may_use : AuthorizationInput → ActorRole → Option ResourceAssignment → Bool
may_use input role none = true
may_use input role (some resource) = same_role role admin || is_assigned input.assignments resource

abbrev pub context_of : AuthorizationInput → ActiveRoleGrant → AuthorizationContext
context_of input grant = record {
  actor_id = input.actor_id;
  membership_id = input.membership_id;
  role_grant_id = grant.grant_id;
  role = grant.role;
  tenant_id = input.tenant_id;
}

abbrev pub authorize_by : AuthorizationInput → Option ActiveRoleGrant → Decision
authorize_by input none = forbidden
authorize_by input (some grant) =
    if may_use input grant.role input.resource
    then authorized (context_of input grant)
    else forbidden

unfoldable pub authorize : AuthorizationInput → Decision
authorize input = authorize_by input (chosen_grant input.required_roles input.grants)
