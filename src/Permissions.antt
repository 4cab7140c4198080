-- ===== src/Permissions.antt =====
-- contracts/src/guard-permission-policy.ts and contracts/src/guard-permissions.ts: the account
-- permissions. A permission vector is a function of the permission's name.
use mina_guard.Base.{List, [], ◌∷◌}

pub data GuardPermissionName : Type 0 where
  edit_state send receive set_delegate set_permissions set_verification_key set_zkapp_uri
        edit_action_state set_token_symbol increment_nonce set_voting_for set_timing access :
      GuardPermissionName

pub data GuardPermissionKind : Type 0 where
  none_kind either_kind proof_kind signature_kind impossible_kind : GuardPermissionKind

abbrev pub Permissions : Type 0
Permissions = GuardPermissionName → GuardPermissionKind

abbrev pub guard_permission_names : List GuardPermissionName
guard_permission_names =
    edit_state ∷ send ∷ receive ∷ set_delegate ∷ set_permissions ∷ set_verification_key
    ∷ set_zkapp_uri ∷ edit_action_state ∷ set_token_symbol ∷ increment_nonce ∷ set_voting_for
    ∷ set_timing ∷ access ∷ []

-- `GUARD_PERMISSIONS`, and `GUARD_PERMISSION_KINDS` in the policy that browsers share.
pub guard_permissions : Permissions
guard_permissions edit_state = proof_kind
guard_permissions send = proof_kind
guard_permissions receive = none_kind
guard_permissions set_delegate = proof_kind
guard_permissions set_permissions = impossible_kind
guard_permissions set_verification_key = impossible_kind
guard_permissions set_zkapp_uri = impossible_kind
guard_permissions edit_action_state = proof_kind
guard_permissions set_token_symbol = impossible_kind
guard_permissions increment_nonce = impossible_kind
guard_permissions set_voting_for = impossible_kind
guard_permissions set_timing = impossible_kind
guard_permissions access = none_kind

-- `GUARD_DEPLOY_PERMISSIONS`: the spread of `GUARD_PERMISSIONS` with one entry replaced.
pub guard_deploy_permissions : Permissions
unfolding guard_permissions
guard_deploy_permissions set_permissions = proof_kind
guard_deploy_permissions name = guard_permissions name
