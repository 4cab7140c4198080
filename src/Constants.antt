-- ===== src/Constants.antt =====
-- contracts/src/constants.ts and contracts/src/network-domain.ts.
pub mod Domain
use mina_guard.Base.{
  ℕ, String, Bool, false, Option, none, some, [], Result, ok, err, not, if◌then◌else◌,
}
use text.Mathlib.Text.{◌==◌ as str_eq}
use mina_guard.Platform.{Field, Platform, NetworkDomainName, mainnet, testnet, devnet, fsub}

-- `NETWORK_DOMAIN_IDS`
unfoldable pub network_domain_ids : NetworkDomainName → Field
network_domain_ids mainnet = 1
network_domain_ids testnet = 2
network_domain_ids devnet = 2

-- The comparison of two environment variables, either of which may be `undefined`.
abbrev pub disagree : Option String → Option String → Bool
disagree (some a) (some b) = not (str_eq a b)
disagree _ _ = false

-- `browserNetwork ?? nodeDomain`
abbrev pub first_defined : Option String → Option String → Option String
first_defined none b = b
first_defined (some a) _ = some a

abbrev pub parse_domain : Option String → Result NetworkDomainName
parse_domain none =
    err "Set NEXT_PUBLIC_MINA_NETWORK or MINA_NETWORK_DOMAIN to mainnet, testnet, or devnet"
parse_domain (some d) =
    if str_eq d "mainnet"
    then ok mainnet
    else if str_eq d "testnet"
    then ok testnet
    else if str_eq d "devnet"
    then ok devnet
    else err "Set NEXT_PUBLIC_MINA_NETWORK or MINA_NETWORK_DOMAIN to mainnet, testnet, or devnet"

unfoldable pub resolve_network_domain : Option String → Option String → Result NetworkDomainName
resolve_network_domain browser node =
    if disagree browser node
    then err "NEXT_PUBLIC_MINA_NETWORK and MINA_NETWORK_DOMAIN disagree"
    else parse_domain (first_defined browser node)

abbrev pub max_owners : ℕ
max_owners = 20

abbrev pub max_receivers : ℕ
max_receivers = 9

abbrev pub native_token_id : Field
native_token_id = 1

abbrev pub proposed_marker : Field
proposed_marker = 1

module _ ⦃o : Platform⦄ where
  unfoldable pub initial_owner_chain : Field
  initial_owner_chain = o.hash_with_prefix "owner-chain" []

  -- `Field(0).sub(1)`
  unfoldable pub executed_marker : Field
  executed_marker = fsub 0 1

  unfoldable pub network_domain : Field
  unfolding network_domain_ids
  network_domain = network_domain_ids o.network_domain_name

-- `TxType` and `Destination`
abbrev pub transfer_type : Field
transfer_type = 0

abbrev pub add_owner_type : Field
add_owner_type = 1

abbrev pub remove_owner_type : Field
remove_owner_type = 2

abbrev pub change_threshold_type : Field
change_threshold_type = 3

abbrev pub set_delegate_type : Field
set_delegate_type = 4

abbrev pub create_child_type : Field
create_child_type = 5

abbrev pub allocate_child_type : Field
allocate_child_type = 6

abbrev pub reclaim_child_type : Field
reclaim_child_type = 7

abbrev pub destroy_child_type : Field
destroy_child_type = 8

abbrev pub enable_child_multi_sig_type : Field
enable_child_multi_sig_type = 9

abbrev pub local : Field
local = 0

abbrev pub remote : Field
remote = 1
