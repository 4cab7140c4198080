-- ===== src/Constants/Domain.antt =====
-- `resolveNetworkDomain` of contracts/src/network-domain.ts: theorems on the resolved network.
use text.Mathlib.Text.{◌==◌ as str_eq}
use text.Mathlib.TextEquality.{eq_iff}
use mina_guard.Base.{
  String, ◌≡◌, ◌≢◌, ◌⊎◌, ◌∙◌, sym, ap, refl, Option, none, some, ok, Bool-cases, inl, inr, arith,
}
use mina_guard.Platform.{NetworkDomainName, mainnet, testnet, devnet}
use mina_guard.Constants.{resolve_network_domain, parse_domain}

abbrev pub network_name : NetworkDomainName → String
network_name mainnet = "mainnet"
network_name testnet = "testnet"
network_name devnet = "devnet"

-- The variable is not set, or it names the network.
abbrev pub Agrees : Option String → NetworkDomainName → Type 0
Agrees v d = (v ≡ none) ⊎ (v ≡ some (network_name d))

parse_domain-ok :
    (s : String) (d : NetworkDomainName) → parse_domain (some s) ≡ ok d → s ≡ network_name d
parse_domain-ok s d e = elim (Bool-cases (str_eq s "mainnet")) [
  | inl m ↦ ground (arith, (eq_iff s "mainnet").0 m)
  | inr m ↦ elim (Bool-cases (str_eq s "testnet")) [
    | inl t ↦ ground (arith, (eq_iff s "testnet").0 t)
    | inr t ↦ elim (Bool-cases (str_eq s "devnet")) [
      | inl v ↦ ground (arith, (eq_iff s "devnet").0 v)
      | inr v ↦ ground arith
    ]
  ]
]

-- Where the build's network is resolved, every variable that is set names exactly that network,
-- and at least one is set.
pub resolve_network_domain-Agrees :
    (browser node : Option String) (d : NetworkDomainName)
    → resolve_network_domain browser node ≡ ok d
    → Agrees browser d × Agrees node d × ((browser ≢ none) ⊎ (node ≢ none))
unfolding resolve_network_domain
resolve_network_domain-Agrees none none d e = ground arith
resolve_network_domain-Agrees none (some b) d e =
    (inl refl, inr (ap some (parse_domain-ok b d e)), inr (λ z. cc))
resolve_network_domain-Agrees (some a) none d e =
    (inr (ap some (parse_domain-ok a d e)), inl refl, inl (λ z. cc))
resolve_network_domain-Agrees (some a) (some b) d e = elim (Bool-cases (str_eq a b)) [
  | inl same ↦
      let name = parse_domain-ok a d (rw same at e) in
      (inr (ap some name), inr (ap some (sym ((eq_iff a b).0 same) ∙ name)), inl (λ z. cc))
  | inr differ ↦ absurd (cc (rw differ at e))
]
