-- ===== src/Wallet/Counts.antt =====
-- The counts of transactions and the note of the caller in processNewTx (src/utils/storage.ts) leave the
-- balances as they are.
use hathor_wallet_lib.Prelude.{◌≡◌, refl, sym, ◌∙◌, ap, arith, Option, none, some, List, [], ◌∷◌}
use hathor_wallet_lib.Prelude.Int.{ℤ, pos, pos_part, neg_part, ◌+ℤ◌, int_laws}
use hathor_wallet_lib.Wallet.Maps.{Name, get, get_or, or_else, get_or-set, sum_of-set}
use hathor_wallet_lib.Wallet.Types.{empty_balance, TokenMeta, AddressMeta}
use hathor_wallet_lib.Wallet.Balances.{Part, part, part-empty}
use hathor_wallet_lib.Wallet.Store.{
  Store, default_address_meta, default_token_meta, edit_token_meta, edit_address_meta,
}
use hathor_wallet_lib.Wallet.Ledger.{
  token_part, addresses_part, address_part, address_meta, token_meta,
}
use hathor_wallet_lib.Wallet.Moves.{Moves, no_gain, Moves-still}
use hathor_wallet_lib.Wallet.Process.{count_token, count_address, count_tokens, count_addresses}

add_zero : (a : ℤ) → a ≡ a +ℤ pos 0
add_zero a = omega int_laws

same_sum : (x y old : ℤ) → x +ℤ old ≡ y +ℤ old → x ≡ y +ℤ pos 0
same_sum x y old h = omega (int_laws, ap pos_part h, ap neg_part h)

-- New metadata of a token, or of an address, with the balances that it had.
pub Moves-edit_token :
    (t : Name) (meta : TokenMeta) (s : Store)
    → meta.balance ≡ (token_meta s t).balance
    → Moves no_gain s (edit_token_meta t meta s)
unfolding token_part addresses_part
Moves-edit_token t meta s e = record {
  addresses_same = refl;
  history_same = refl;
  utxos_distinct = λ d. d;
  token_gain = λ u p.
      rw (get_or-set default_token_meta u t meta s.tokens_metadata) ground
        (arith, ap (part p) e, add_zero (token_part s u p));
  addresses_gain = λ u p. add_zero _;
}

pub Moves-edit_address :
    (a : Name) (meta : AddressMeta) (s : Store)
    → meta.balances ≡ (address_meta s a).balances
    → Moves no_gain s (edit_address_meta a meta s)
unfolding token_part addresses_part address_part
Moves-edit_address a meta s e = record {
  addresses_same = refl;
  history_same = refl;
  utxos_distinct = λ d. d;
  token_gain = λ t p. add_zero _;
  addresses_gain = λ t p. same_sum _ _ (address_part t p (address_meta s a)) (
      sum_of-set (address_part t p) default_address_meta a meta s.addresses_metadata (part-empty p)
      ∙ ap (λ b. addresses_part s t p +ℤ part p (get_or empty_balance t b)) e);
}

count_token-Moves :
    (gain : Name → Part → ℤ) (s s' : Store) (t : Name) (found : Option TokenMeta)
    → get t s'.tokens_metadata ≡ found
    → Moves gain s s'
    → Moves gain s (count_token t found s')
unfolding count_token
count_token-Moves gain s s' t none e h = h
count_token-Moves gain s s' t (some meta) e h =
    Moves-still gain s s' _ h
      (Moves-edit_token t _ s' (ap (λ x. (or_else default_token_meta x).balance) (sym e)))

pub count_tokens-Moves :
    (gain : Name → Part → ℤ) (s : Store) (ts : List Name) (s' : Store)
    → Moves gain s s'
    → Moves gain s (count_tokens ts s')
unfolding count_tokens
count_tokens-Moves gain s [] s' h = h
count_tokens-Moves gain s (t ∷ ts) s' h =
    count_tokens-Moves gain s ts _ (count_token-Moves gain s s' t _ refl h)

count_address-Moves :
    (gain : Name → Part → ℤ) (s s' : Store) (a : Name) (found : Option AddressMeta)
    → get a s'.addresses_metadata ≡ found
    → Moves gain s s'
    → Moves gain s (count_address a found s')
unfolding count_address
count_address-Moves gain s s' a none e h = h
count_address-Moves gain s s' a (some meta) e h =
    Moves-still gain s s' _ h
      (Moves-edit_address a _ s' (ap (λ x. (or_else default_address_meta x).balances) (sym e)))

pub count_addresses-Moves :
    (gain : Name → Part → ℤ) (s : Store) (addresses : List Name) (s' : Store)
    → Moves gain s s'
    → Moves gain s (count_addresses addresses s')
unfolding count_addresses
count_addresses-Moves gain s [] s' h = h
count_addresses-Moves gain s (a ∷ rest) s' h =
    count_addresses-Moves gain s rest _ (count_address-Moves gain s s' a _ refl h)
