-- ===== src/Tokens/Fee.antt =====
-- src/utils/fee.ts: the fee of a transaction, from its inputs, its outputs and its nano contract actions.
use hathor_wallet_lib.Prelude.{
  ℕ, ◌+◌, ◌*◌, Bool, true, false, ◌&&◌, ◌||◌, not, Option, none, some, List, [], ◌∷◌, ltb, ◌==◌,
  if◌then◌else◌,
}
use hathor_wallet_lib.Result.{Result, ok, err, ◌>>=◌, token_missing, token_not_found}
use hathor_wallet_lib.Wallet.Maps.{Name, MapOf, add_name, get, get_or, has, set}
use hathor_wallet_lib.Wallet.Select.{native_token}
use hathor_wallet_lib.Tokens.Data.{DataInput, DataOutput, TokenVersion, fee}

-- What is read of an input or an output: its token, if it has one, and isAuthorityTokenElement.
pub record TokenElement : Type 0 where
  pub token : Option Name
  pub is_authority : Bool

unfoldable pub input_element : DataInput → TokenElement
input_element i = record { token = some i.token; is_authority = not (i.authorities == 0) }

unfoldable pub output_element : DataOutput → TokenElement
output_element o = record { token = o.token; is_authority = not (o.authorities == 0) }

-- The actions that take or give an amount; the others have no part in the fee.
pub data ActionType : Type 0 where
  deposit withdrawal grant_authority acquire_authority : ActionType

pub record NanoAction : Type 0 where
  pub token : Option Name
  pub kind : ActionType

abbrev pub fee_per_output : ℕ
fee_per_output = 1

abbrev pub add_one : Name → MapOf ℕ → MapOf ℕ
add_one t m = set t (get_or 0 t m + 1) m

unfoldable pub group_element : TokenElement → MapOf ℕ → Result (MapOf ℕ)
group_element e m =
    if e.is_authority
    then ok m
    else elim e.token [ none ↦ err token_missing | some t ↦ ok (add_one t m) ]

-- groupTokenElementsByTokenUid; of each array only its length is read.
unfoldable pub group_elements : List TokenElement → MapOf ℕ → Result (MapOf ℕ)
group_elements [] m = ok m
group_elements (e ∷ es) m = group_element e m >>= λ m'. group_elements es m'

-- `new Set([...keys])`
unfoldable pub add_keys : MapOf ℕ → List Name → List Name
add_keys [] ns = ns
add_keys (e ∷ m) ns = add_keys m (add_name (e.0) ns)

-- `delete` of a Set
unfoldable pub drop_name : Name → List Name → List Name
drop_name k [] = []
drop_name k (n ∷ ns) = if n == k then ns else n ∷ drop_name k ns

-- What the loop over the actions changes.
pub record Actions : Type 0 where
  pub tokens_set : List Name
  pub deposits : MapOf ℕ
  pub withdraws : MapOf ℕ

abbrev pub count_action : ActionType → Name → Actions → Actions
count_action deposit t s = record s { deposits = add_one t s.deposits }
count_action withdrawal t s = record s { withdraws = add_one t s.withdraws }
count_action grant_authority t s = s
count_action acquire_authority t s = s

abbrev pub note_action : NanoAction → Actions → Actions
note_action a s = elim a.token [
  | none ↦ s
  | some t ↦
      if t == native_token
      then s
      else count_action a.kind t (record s { tokens_set = add_name t s.tokens_set })
]

unfoldable pub note_actions : List NanoAction → Actions → Actions
note_actions [] s = s
note_actions (a ∷ as') s = note_actions as' (note_action a s)

abbrev pub is_fee_version : Option TokenVersion → Bool
is_fee_version (some fee) = true
is_fee_version _ = false

-- The fee of one token, from its numbers of outputs and whether it has inputs.
abbrev pub counts_fee : ℕ → Bool → ℕ
counts_fee output_count has_inputs =
    (if has_inputs && output_count == 0 then fee_per_output else 0) + output_count * fee_per_output

module _ (tokens : MapOf (Option TokenVersion)) (inputs outputs : MapOf ℕ) (s : Actions) where
  unfoldable pub token_fee : Name → Result ℕ
  token_fee t = elim (get t tokens) [
    | none ↦ err token_not_found
    | some version ↦ ok (
        if is_fee_version version
        then counts_fee (get_or 0 t outputs + get_or 0 t s.deposits)
            (has t inputs || ltb 0 (get_or 0 t s.withdraws))
        else 0)
  ]

  -- The `for` over the tokens.
  unfoldable pub fee_loop : List Name → ℕ → Result ℕ
  fee_loop [] sum = ok sum
  fee_loop (t ∷ ts) sum = token_fee t >>= λ f. fee_loop ts (sum + f)

-- Fee.calculate
unfoldable pub calculate :
    List TokenElement → List TokenElement → MapOf (Option TokenVersion) → List NanoAction → Result ℕ
calculate inputs outputs tokens actions = do
  non_authority_inputs ← group_elements inputs []
  non_authority_outputs ← group_elements outputs []
  let s = note_actions actions (record {
    tokens_set = add_keys non_authority_outputs (add_keys non_authority_inputs []);
    deposits = [];
    withdraws = [];
  })
  fee_loop tokens non_authority_inputs non_authority_outputs s (drop_name native_token s.tokens_set)
      0

-- calculateTokenCreationTxFee
unfoldable pub calculate_token_creation_tx_fee : List TokenElement → ℕ
calculate_token_creation_tx_fee [] = 0
calculate_token_creation_tx_fee (e ∷ es) =
    (if e.is_authority then 0 else fee_per_output) + calculate_token_creation_tx_fee es
