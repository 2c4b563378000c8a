-- ===== src/Validators.antt =====
-- src/p2p/validators/validators.ts (ValidatorsGroup) and parseWalletInfo of
-- src/p2p/validators/validator.ts: the members of the network and their keys.
pub mod Quorum
use threshold_sig_multiparty.Prelude.{
  ℕ, zero, suc, ◌+◌, ◌*◌, ◌/◌, String, Bool, true, false, not, ◌||◌, List, [], ◌∷◌, ◌++◌, Option,
  none, some, map, if◌then◌else◌, length, any, select, get_elem?,
}
use threshold_sig_multiparty.Prelude.Eq.{◌==◌, string_eq}
use threshold_sig_multiparty.Prelude.Dict.{lookup, insert}
use threshold_sig_multiparty.Prelude.Result.{Result, ok, err, ◌>>=◌}
use threshold_sig_multiparty.Platform.{Platform}

-- `Map<string, string>`, in the order of insertion.
abbrev pub Members : Type 0
Members = List (String × String)

pub record WalletInfo : Type 0 where
  pub public_key : String
  pub validator_id : String
  pub port : String

-- `list.includes(x)`
abbrev pub includes : String → List String → Bool
includes x = any (λ y. y == x)

-- `update`: an empty key is refused.
unfoldable pub update : String → String → Members → Members × Bool
unfolding insert
update key validator_id m = if key == "" then (m, false) else (insert key validator_id m, true)

-- `delete`
unfoldable pub delete : String → Members → Members × Bool
delete key m = (select (λ p. not (p.0 == key)) m, true)

-- `filter((value, index, self) => self.indexOf(value) === index)`, with the values passed over.
unfoldable pub unique_from : List String → List String → List String
unique_from seen [] = []
unique_from seen (v ∷ vs) =
    let rest = unique_from (v ∷ seen) vs in if includes v seen then rest else v ∷ rest

unfoldable pub get_all_validators : Members → List String
unfolding unique_from
get_all_validators m = unique_from [] (map (λ p. p.1) m)

unfoldable pub parse_wallet_info : Platform → String → Option WalletInfo
parse_wallet_info P template = elim (P.match_wallet_info template) [
  | none ↦ none
  | some (k, v, p) ↦ some (record { public_key = k; validator_id = v; port = p })
]

-- The loop of `getAllKeys`: reading a field of `null` throws.
unfoldable pub parse_all : Platform → List String → Result (List WalletInfo)
unfolding parse_wallet_info
parse_all P [] = ok []
parse_all P (t ∷ ts) = elim (parse_wallet_info P t) [
  | none ↦ err "Cannot read properties of null"
  | some i ↦ (parse_all P ts >>= λ is. ok (i ∷ is))
]

unfoldable pub get_all_keys : Platform → Members → Result (List WalletInfo)
unfolding parse_all get_all_validators
get_all_keys P m = parse_all P (get_all_validators m)

-- `publickKeys[ports.indexOf(nodeId)]`, `none` for `undefined`.
unfoldable pub key_at_port : String → List WalletInfo → Option String
key_at_port node_id [] = none
key_at_port node_id (i ∷ is) =
    if i.port == node_id then some i.public_key else key_at_port node_id is

unfoldable pub get_public_key_from_node_id : Platform → Members → String → Result (Option String)
unfolding get_all_keys key_at_port
get_public_key_from_node_id P m node_id = do is ← get_all_keys P m; ok (key_at_port node_id is)

abbrev pub public_keys : List WalletInfo → List String
public_keys = map (λ i. i.public_key)

unfoldable pub is_valid_validator : Platform → Members → String → Result Bool
unfolding get_all_keys
is_valid_validator P m key = do is ← get_all_keys P m; ok (includes key (public_keys is))

-- `Math.ceil(n * 0.67)`. The product of doubles rounds to a number with this ceiling for every n
-- below 1500.
unfoldable pub quorum : ℕ → ℕ
quorum n = (67 * n + 99) / 100
