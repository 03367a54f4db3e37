-- ===== src/Wallet/Store.antt =====
-- src/storage/memory_store.ts, and the marks that src/storage/storage.ts keeps beside it: the state of
-- the wallet, with the reads and writes that processing transactions makes.
use hathor_wallet_lib.Prelude.{
  Bool, true, false, ◌&&◌, Option, none, some, List, [], ◌∷◌, ◌==◌, if◌then◌else◌,
}
use hathor_wallet_lib.Prelude.Int.{ℤ}
use hathor_wallet_lib.Wallet.Maps.{Name, MapOf, get, has, set}
use hathor_wallet_lib.Wallet.Types.{
  HistoryTx, AddressInfo, AddressMeta, TokenMeta, empty_balance, UtxoId, Utxo, LockedUtxo,
}
use hathor_wallet_lib.Wallet.Rules.{resolve_spent_output}

pub record Store : Type 0 where
  pub addresses : MapOf AddressInfo
  pub addresses_metadata : MapOf AddressMeta
  pub tokens_metadata : MapOf TokenMeta
  pub seqnum_metadata : MapOf ℤ
  pub history : MapOf HistoryTx
  pub utxos : List Utxo
  pub locked_utxos : List LockedUtxo
  pub utxos_selected_as_input : List UtxoId

-- getDefaultAddressMeta, and the metadata that a new token starts with
abbrev pub default_address_meta : AddressMeta
default_address_meta = record { num_transactions = 0; balances = [] }

abbrev pub default_token_meta : TokenMeta
default_token_meta = record { num_transactions = 0; balance = empty_balance }

-- isAddressMine
abbrev pub is_address_mine : Store → Name → Bool
is_address_mine s a = has a s.addresses

abbrev pub edit_token_meta : Name → TokenMeta → Store → Store
edit_token_meta token meta s = record s { tokens_metadata = set token meta s.tokens_metadata }

abbrev pub edit_address_meta : Name → AddressMeta → Store → Store
edit_address_meta address meta s = record s {
  addresses_metadata = set address meta s.addresses_metadata;
}

abbrev pub edit_seqnum_meta : Name → ℤ → Store → Store
edit_seqnum_meta address seqnum s = record s {
  seqnum_metadata = set address seqnum s.seqnum_metadata;
}

-- The keys `${txId}:${index}` are equal when both parts are.
abbrev pub same_id : UtxoId → UtxoId → Bool
same_id a b = a.tx_id == b.tx_id && a.index == b.index

abbrev pub put_utxo : Utxo → List Utxo → List Utxo
put_utxo u [] = u ∷ []
put_utxo u (v ∷ vs) = if same_id v.id u.id then u ∷ vs else v ∷ put_utxo u vs

abbrev pub drop_utxo : UtxoId → List Utxo → List Utxo
drop_utxo k [] = []
drop_utxo k (v ∷ vs) = if same_id v.id k then vs else v ∷ drop_utxo k vs

abbrev pub find_utxo : UtxoId → List Utxo → Option Utxo
find_utxo k [] = none
find_utxo k (v ∷ vs) = if same_id v.id k then some v else find_utxo k vs

abbrev pub save_utxo : Utxo → Store → Store
save_utxo u s = record s { utxos = put_utxo u s.utxos }

abbrev pub delete_utxo : UtxoId → Store → Store
delete_utxo k s = record s { utxos = drop_utxo k s.utxos }

abbrev pub get_utxo : Store → UtxoId → Option Utxo
get_utxo s k = find_utxo k s.utxos

abbrev pub locked_id : LockedUtxo → UtxoId
locked_id l = record { tx_id = l.tx.tx_id; index = l.index }

abbrev put_locked : LockedUtxo → List LockedUtxo → List LockedUtxo
put_locked l [] = l ∷ []
put_locked l (k ∷ ks) = if same_id (locked_id k) (locked_id l) then l ∷ ks else k ∷ put_locked l ks

abbrev drop_locked : UtxoId → List LockedUtxo → List LockedUtxo
drop_locked k [] = []
drop_locked k (l ∷ ls) = if same_id (locked_id l) k then ls else l ∷ drop_locked k ls

abbrev pub save_locked_utxo : LockedUtxo → Store → Store
save_locked_utxo l s = record s { locked_utxos = put_locked l s.locked_utxos }

abbrev pub unlock_utxo : LockedUtxo → Store → Store
unlock_utxo l s = record s { locked_utxos = drop_locked (locked_id l) s.locked_utxos }

abbrev has_id : UtxoId → List UtxoId → Bool
has_id k [] = false
has_id k (x ∷ xs) = if same_id x k then true else has_id k xs

abbrev drop_id : UtxoId → List UtxoId → List UtxoId
drop_id k [] = []
drop_id k (x ∷ xs) = if same_id x k then xs else x ∷ drop_id k xs

abbrev pub is_utxo_selected_as_input : Store → UtxoId → Bool
is_utxo_selected_as_input s k = has_id k s.utxos_selected_as_input

-- utxoSelectAsInput with `markAs` false: nothing happens where the transaction or its output is unknown.
pub unselected : UtxoId → Store → List UtxoId
unselected k s = elim (get k.tx_id s.history) [
  | none ↦ s.utxos_selected_as_input
  | some tx ↦ elim (resolve_spent_output tx k.index) [
    | none ↦ s.utxos_selected_as_input
    | some _ ↦ drop_id k s.utxos_selected_as_input
  ]
]

abbrev pub unselect_utxo : UtxoId → Store → Store
unselect_utxo k s = record s { utxos_selected_as_input = unselected k s }

unfoldable pub clean_metadata : Store → Store
clean_metadata s = record s {
  tokens_metadata = [];
  addresses_metadata = [];
  utxos = [];
  locked_utxos = [];
}
