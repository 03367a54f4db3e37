-- ===== src/Wallet/Ledger.antt =====
-- A change of one balance of the wallet, which src/utils/storage.ts writes twice, to the token's metadata
-- and to that of the address: both keep the same accounts.
use hathor_wallet_lib.Prelude.{◌≡◌, sym, ◌∙◌, ap, arith, ◌==◌, if◌then◌else◌}
use hathor_wallet_lib.Prelude.Int.{ℤ, pos, pos_part, neg_part, ◌+ℤ◌, int_laws}
use hathor_wallet_lib.Wallet.Maps.{Name, MapOf, set, get_or, get_or-set, sum_of, sum_of-set}
use hathor_wallet_lib.Wallet.Types.{Balance, empty_balance, TokenMeta, AddressMeta}
use hathor_wallet_lib.Wallet.Balances.{Part, part, part-empty, IsShift}
use hathor_wallet_lib.Wallet.Store.{
  Store, default_address_meta, default_token_meta, edit_token_meta, edit_address_meta,
}

abbrev pub token_meta : Store → Name → TokenMeta
token_meta s token = get_or default_token_meta token s.tokens_metadata

abbrev pub address_meta : Store → Name → AddressMeta
address_meta s address = get_or default_address_meta address s.addresses_metadata

-- The metadata that is missing is created, the balance of the token is changed in both, and both are saved.
unfoldable pub change_balance : (Balance → Balance) → Name → Name → Store → Store
change_balance f token address s =
    let t = token_meta s token in
    let a = address_meta s address in
    let balance = get_or empty_balance token a.balances in
    edit_address_meta address (record a { balances = set token (f balance) a.balances })
      (edit_token_meta token (record t { balance = f t.balance }) s)

-- The counters that the wallet shows for a token, and those of the addresses added up.
unfoldable pub token_part : Store → Name → Part → ℤ
token_part s token p = part p (token_meta s token).balance

unfoldable pub address_part : Name → Part → AddressMeta → ℤ
address_part token p meta = part p (get_or empty_balance token meta.balances)

unfoldable pub addresses_part : Store → Name → Part → ℤ
addresses_part s token p = sum_of (address_part token p) s.addresses_metadata

-- Every counter of every token is the sum of the counters of the wallet's addresses.
unfoldable pub IsBalanced : Store → Type 0
IsBalanced s = (token : Name) (p : Part) → token_part s token p ≡ addresses_part s token p

-- What a change of balance adds to a counter of a token.
unfoldable pub shift_of : (Balance → Balance) → Name → Name → Part → ℤ
shift_of f token t p = if token == t then part p (f empty_balance) else pos 0

add_zero : (a : ℤ) → a +ℤ pos 0 ≡ a
add_zero a = omega int_laws

cancel_old : (x y old d : ℤ) → x +ℤ old ≡ y +ℤ (old +ℤ d) → x ≡ y +ℤ d
cancel_old x y old d h = omega (int_laws, ap pos_part h, ap neg_part h)

module _ (f : Balance → Balance) (f-IsShift : IsShift f) (token : Name) where
  pub part-get_or :
      (t : Name) (p : Part) (m : MapOf Balance)
      → part p (get_or empty_balance t (set token (f (get_or empty_balance token m)) m))
        ≡ part p (get_or empty_balance t m) +ℤ shift_of f token t p
  unfolding IsShift shift_of
  part-get_or t p m =
      rw (get_or-set empty_balance t token (f (get_or empty_balance token m)) m) ground (
        arith,
        f-IsShift p (get_or empty_balance t m),
        add_zero (part p (get_or empty_balance t m)),
      )

  module _ (address : Name) (s : Store) where
    pub token_part-change_balance :
        (t : Name) (p : Part)
        → token_part (change_balance f token address s) t p
          ≡ token_part s t p +ℤ shift_of f token t p
    unfolding token_part change_balance IsShift shift_of
    token_part-change_balance t p =
        rw
          (get_or-set default_token_meta t token
            (record {
              num_transactions = (token_meta s token).num_transactions;
              balance = f (token_meta s token).balance;
            })
            s.tokens_metadata)
          ground (arith, f-IsShift p (token_meta s t).balance, add_zero (token_part s t p))

    pub addresses_part-change_balance :
        (t : Name) (p : Part)
        → addresses_part (change_balance f token address s) t p
          ≡ addresses_part s t p +ℤ shift_of f token t p
    unfolding addresses_part change_balance address_part
    addresses_part-change_balance t p =
        let meta = address_meta s address in
        cancel_old _ _ (address_part t p meta) (shift_of f token t p) (
          sum_of-set (address_part t p) default_address_meta address
            (record meta {
              balances = set token (f (get_or empty_balance token meta.balances)) meta.balances;
            })
            s.addresses_metadata (part-empty p)
          ∙ ap (λ x. addresses_part s t p +ℤ x) (part-get_or t p meta.balances))

    pub change_balance-IsBalanced : IsBalanced s → IsBalanced (change_balance f token address s)
    unfolding IsBalanced
    change_balance-IsBalanced h t p =
        token_part-change_balance t p
        ∙ ap (λ x. x +ℤ shift_of f token t p) (h t p)
        ∙ sym (addresses_part-change_balance t p)
