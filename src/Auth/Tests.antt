-- ===== src/Auth/Tests.antt =====
-- A seller with an assignment of a claim.
use jejak.Prelude.{◌≡◌, ◌≢◌, refl, none, some, [], ◌∷◌}
use mathlib.Core.List.{Memᴰ}
use jejak.Prelude.Text.{codes, text_eq}
use jejak.Auth.Authorization.{
  seller, originator, ActiveRoleGrant, ResourceAssignment, AuthorizationInput, authorized,
  forbidden, same_role, find_grant, chosen_grant, some_assignment, context_of, authorize,
}
use jejak.Auth.Authorization.Grants.{MayUse, Names, authorize_sound, authorize_complete}

abbrev grant : ActiveRoleGrant
grant = record { grant_id = codes "grant"; role = seller }

abbrev claim : ResourceAssignment
claim = record {
  capability = codes "read";
  resource_id = codes "claim-1";
  resource_type = codes "claim";
}

abbrev input : AuthorizationInput
input = record {
  actor_id = codes "actor";
  assignments = some (claim ∷ []);
  grants = grant ∷ [];
  membership_id = codes "member";
  required_roles = originator ∷ seller ∷ [];
  resource = some claim;
  tenant_id = codes "tenant";
}

input-computed : authorize input ≡ authorized (context_of input grant)
unfolding authorize chosen_grant find_grant same_role some_assignment text_eq
input-computed = refl

authorize_sound_example :
    (g : ActiveRoleGrant) × Memᴰ g input.grants
    × Memᴰ g.role input.required_roles
    × MayUse input.assignments g.role input.resource
    × Names input g (context_of input grant)
authorize_sound_example = authorize_sound input (context_of input grant) input-computed

authorize_complete_example : authorize (record input { resource = none }) ≢ forbidden
authorize_complete_example =
    authorize_complete (record input { resource = none }) grant (Memᴰ.head refl)
      (Memᴰ.tail (Memᴰ.head refl)) refl
