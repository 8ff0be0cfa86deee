-- ===== src/Auth/Authorization/Grants.antt =====
-- Who is authorized (apps/api/src/auth/authorization.ts).
use jejak.Prelude.{
  ◌≡◌, ◌≢◌, ◌⊎◌, refl, sym, ap, ◌∙◌, inl, inr, true, Option, none, some, List, [], ◌∷◌, arith,
}
use mathlib.Core.List.{Memᴰ}
use jejak.Prelude.Text.{text_eq_iff}
use jejak.Prelude.Tests.{Bool-cases, Option-cases}
use jejak.Auth.Authorization.{
  ActorRole, seller, originator, issuer, facility, servicer, resolver, admin, oracle, system,
  ActiveRoleGrant, AuthorizationContext, AuthorizationInput, authorized, forbidden, same_role,
  find_grant, chosen_grant, may_use, context_of, authorize_by, authorize, ResourceAssignment,
  same_assignment, some_assignment, is_assigned,
}

same_role_sound : (a b : ActorRole) → same_role a b ≡ true → a ≡ b
unfolding same_role
same_role_sound seller b h = ground arith
same_role_sound originator b h = ground arith
same_role_sound issuer b h = ground arith
same_role_sound facility b h = ground arith
same_role_sound servicer b h = ground arith
same_role_sound resolver b h = ground arith
same_role_sound admin b h = ground arith
same_role_sound oracle b h = ground arith
same_role_sound system b h = ground arith

same_role_refl : (a : ActorRole) → same_role a a ≡ true
unfolding same_role
same_role_refl seller = refl
same_role_refl originator = refl
same_role_refl issuer = refl
same_role_refl facility = refl
same_role_refl servicer = refl
same_role_refl resolver = refl
same_role_refl admin = refl
same_role_refl oracle = refl
same_role_refl system = refl

find_grant_sound :
    (role : ActorRole) (gs : List ActiveRoleGrant) (g : ActiveRoleGrant)
    → find_grant role gs ≡ some g
    → Memᴰ g gs × (g.role ≡ role)
unfolding find_grant
find_grant_sound role [] g h = cc
find_grant_sound role (x ∷ gs) g h = elim (Bool-cases (same_role x.role role)) [
  | inl t ↦ let e : g ≡ x = cc in (Memᴰ.head e, ap (λ y. y.role) e ∙ same_role_sound x.role role t)
  | inr f ↦
      let found : find_grant role gs ≡ some g = cc in
      let (m, r) = find_grant_sound role gs g found in (Memᴰ.tail m, r)
]

chosen_grant_sound :
    (roles : List ActorRole) (gs : List ActiveRoleGrant) (g : ActiveRoleGrant)
    → chosen_grant roles gs ≡ some g
    → Memᴰ g gs × Memᴰ g.role roles
unfolding chosen_grant
chosen_grant_sound [] gs g h = cc
chosen_grant_sound (role ∷ roles) gs g h = elim (Option-cases (find_grant role gs)) [
  | inl n ↦
      let later : chosen_grant roles gs ≡ some g = cc in
      let (m, r) = chosen_grant_sound roles gs g later in (m, Memᴰ.tail r)
  | inr (x, e) ↦
      let found : find_grant role gs ≡ some g = cc in
      let (m, r) = find_grant_sound role gs g found in (m, Memᴰ.head r)
]

-- What a role may use: anything where no resource is asked for, any resource as an administrator,
-- and else a resource of which the actor has an assignment with the same type, id and capability.
abbrev pub MayUse :
    Option (List ResourceAssignment) → ActorRole → Option ResourceAssignment → Type 0
MayUse assignments role none = Unit
MayUse assignments role (some resource) =
    (role ≡ admin)
    ⊎ ((held : List ResourceAssignment) × (assignments ≡ some held) × Memᴰ resource held)

same_assignment_sound : (a b : ResourceAssignment) → same_assignment a b ≡ true → b ≡ a
same_assignment_sound a b h =
    let kind : a.resource_type ≡ b.resource_type =
      ground (arith, text_eq_iff a.resource_type b.resource_type) in
    let id : a.resource_id ≡ b.resource_id =
      ground (arith, text_eq_iff a.resource_id b.resource_id) in
    let capability : a.capability ≡ b.capability =
      ground (arith, text_eq_iff a.capability b.capability) in
    λ i. record {
      capability = sym capability i;
      resource_id = sym id i;
      resource_type = sym kind i;
    }

some_assignment_sound :
    (r : ResourceAssignment) (as' : List ResourceAssignment)
    → some_assignment r as' ≡ true
    → Memᴰ r as'
unfolding some_assignment
some_assignment_sound r [] h = cc
some_assignment_sound r (a ∷ as') h = elim (Bool-cases (same_assignment a r)) [
  | inl t ↦ Memᴰ.head (same_assignment_sound a r t)
  | inr f ↦ Memᴰ.tail (some_assignment_sound r as' (rw f at h))
]

is_assigned_sound :
    (o : Option (List ResourceAssignment)) (r : ResourceAssignment)
    → is_assigned o r ≡ true
    → (held : List ResourceAssignment) × (o ≡ some held) × Memᴰ r held
is_assigned_sound none r h = cc
is_assigned_sound (some held) r h = (held, refl, some_assignment_sound r held h)

may_use-MayUse :
    (input : AuthorizationInput) (role : ActorRole) (o : Option ResourceAssignment)
    → may_use input role o ≡ true
    → MayUse input.assignments role o
may_use-MayUse input role none h = tt
may_use-MayUse input role (some r) h = elim (Bool-cases (same_role role admin)) [
  | inl t ↦ inl (same_role_sound role admin t)
  | inr f ↦ inr (is_assigned_sound input.assignments r (rw f at h))
]

authorize_by_sound :
    (input : AuthorizationInput) (o : Option ActiveRoleGrant) (c : AuthorizationContext)
    → authorize_by input o ≡ authorized c
    → (g : ActiveRoleGrant) × (o ≡ some g)
      × (may_use input g.role input.resource ≡ true)
      × (c ≡ context_of input g)
authorize_by_sound input none c h = cc
authorize_by_sound input (some g) c h = elim (Bool-cases (may_use input g.role input.resource)) [
  | inl t ↦ let e : c ≡ context_of input g = cc in (g, refl, t, e)
  | inr f ↦ cc
]

-- The context of an actor that a grant authorizes.
pub record Names (input : AuthorizationInput) (g : ActiveRoleGrant) (c : AuthorizationContext)
    : Type 0 where
  pub actor : c.actor_id ≡ input.actor_id
  pub membership : c.membership_id ≡ input.membership_id
  pub tenant : c.tenant_id ≡ input.tenant_id
  pub grant : c.role_grant_id ≡ g.grant_id
  pub role : c.role ≡ g.role

context_of-Names :
    (input : AuthorizationInput) (g : ActiveRoleGrant) (c : AuthorizationContext)
    → c ≡ context_of input g
    → Names input g c
context_of-Names input g c e = record {
  actor = ap (λ x. x.actor_id) e;
  membership = ap (λ x. x.membership_id) e;
  tenant = ap (λ x. x.tenant_id) e;
  grant = ap (λ x. x.role_grant_id) e;
  role = ap (λ x. x.role) e;
}

-- An actor is authorized only by a grant that it holds, of a required role. Where a resource is asked
-- for, the role of that grant is ADMIN, or the assignments of the actor have one of the same type, id
-- and capability. The context has the actor, the membership and the tenant of the input, and the id
-- and the role of that grant.
pub authorize_sound :
    (input : AuthorizationInput) (c : AuthorizationContext)
    → authorize input ≡ authorized c
    → (g : ActiveRoleGrant) × Memᴰ g input.grants
      × Memᴰ g.role input.required_roles
      × MayUse input.assignments g.role input.resource
      × Names input g c
unfolding authorize
authorize_sound input c h =
    let (g, e, m, q) =
      authorize_by_sound input (chosen_grant input.required_roles input.grants) c h in
    let (held, required) = chosen_grant_sound input.required_roles input.grants g e in
    (g, held, required, may_use-MayUse input g.role input.resource m, context_of-Names input g c q)

find_grant_complete :
    (role : ActorRole) (gs : List ActiveRoleGrant) (g : ActiveRoleGrant)
    → Memᴰ g gs
    → g.role ≡ role
    → find_grant role gs ≢ none
unfolding find_grant
find_grant_complete role [] g m r h = elim m [ ]
find_grant_complete role (x ∷ gs) g (Memᴰ.head e) r h =
    let same : same_role x.role role ≡ true =
      rw (sym (ap (λ y. y.role) e), r) (same_role_refl role) in
    cc
find_grant_complete role (x ∷ gs) g (Memᴰ.tail m) r h = elim (Bool-cases (same_role x.role role)) [
  | inl t ↦ cc
  | inr f ↦ find_grant_complete role gs g m r cc
]

chosen_grant_complete :
    (roles : List ActorRole) (gs : List ActiveRoleGrant) (g : ActiveRoleGrant)
    → Memᴰ g gs
    → Memᴰ g.role roles
    → chosen_grant roles gs ≢ none
unfolding chosen_grant
chosen_grant_complete [] gs g m r h = elim r [ ]
chosen_grant_complete (role ∷ roles) gs g m (Memᴰ.head e) h =
    elim (Option-cases (find_grant role gs)) [
      | inl n ↦ find_grant_complete role gs g m e n
      | inr (x, e') ↦ cc
    ]
chosen_grant_complete (role ∷ roles) gs g m (Memᴰ.tail r) h =
    elim (Option-cases (find_grant role gs)) [
      | inl n ↦ chosen_grant_complete roles gs g m r cc
      | inr (x, e') ↦ cc
    ]

-- An actor that holds a grant of a required role is not refused where no resource is asked for.
pub authorize_complete :
    (input : AuthorizationInput) (g : ActiveRoleGrant)
    → Memᴰ g input.grants
    → Memᴰ g.role input.required_roles
    → input.resource ≡ none
    → authorize input ≢ forbidden
unfolding authorize
authorize_complete input g m r n h =
    elim (Option-cases (chosen_grant input.required_roles input.grants)) [
      | inl e ↦ chosen_grant_complete input.required_roles input.grants g m r e
      | inr (x, e) ↦ let h' = (rw (e, n) at h) in cc
    ]
