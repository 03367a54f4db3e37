-- ===== src/Tests/Scans.antt =====
-- A run for the gap limit of src/utils/storage.ts: a wallet that has used its first address.
use hathor_wallet_lib.Prelude.{ℕ, ◌+◌, ◌≡◌, refl, arith, true, false, none, some, List, [], ◌∷◌}
use hathor_wallet_lib.Prelude.Int.{pos, ◌+ℤ◌, ◌-ℤ◌}
use hathor_wallet_lib.Result.{ok}
use hathor_wallet_lib.Wallet.Maps.{Name}
use hathor_wallet_lib.Wallet.Types.{AddressInfo}
use hathor_wallet_lib.Wallet.Scan.{
  Book, Window, check_gap_limit, load_addresses, load_legacy, load_pair, save_address,
  save_in_chain, note_loaded,
}
use hathor_wallet_lib.Wallet.Cursor.{Event, notes, hands_out, saves, updates, happen_all}
use hathor_wallet_lib.Wallet.Cursor.Within.{AreWithin, IsWithin, happen_all-AreWithin}
use hathor_wallet_lib.Wallet.Notes.{IsLoaded}
use hathor_wallet_lib.Wallet.Gap.{load_addresses-check_gap_limit}

abbrev derive : ℕ → Name
derive i = i + 100

abbrev legacy : ℕ → AddressInfo
legacy i = record { index = i; kind = none; ct_mapping_address = none }

abbrev book : ℕ → List (Name × AddressInfo) → List (ℕ × Name) → Book
book last_loaded addresses indexes = record {
  addresses = addresses;
  legacy = record {
    current = pos 0;
    last_loaded = last_loaded;
    last_used = pos 0;
    indexes = indexes;
  };
  shielded_chain = record { current = pos 0; last_loaded = 0; last_used = pos 0; indexes = [] };
  single_address = false;
}

abbrev first_used : Book
first_used = book 0 ((100, legacy 0) ∷ []) ((0, 100) ∷ [])

abbrev with_two_more : Book
with_two_more =
    book 2 ((100, legacy 0) ∷ (101, legacy 1) ∷ (102, legacy 2) ∷ [])
      ((0, 100) ∷ (1, 101) ∷ (2, 102) ∷ [])

abbrev two_more : Window
two_more = record { next_index = 1; count = 2 }

first_used-IsLoaded : IsLoaded first_used.legacy
unfolding IsLoaded
first_used-IsLoaded i h = ground (arith, h)

window_of_two : check_gap_limit 2 false first_used ≡ some two_more
unfolding check_gap_limit ◌+ℤ◌ ◌-ℤ◌
window_of_two = refl

two_loaded : load_addresses derive none 1 2 first_used ≡ ok with_two_more
unfolding load_addresses load_legacy load_pair save_address save_in_chain note_loaded
two_loaded = refl

load_addresses-check_gap_limit_example : check_gap_limit 2 false with_two_more ≡ none
load_addresses-check_gap_limit_example =
    load_addresses-check_gap_limit derive 2 first_used with_two_more two_more first_used-IsLoaded
      window_of_two two_loaded

-- The last address is found in a transaction, handed out and noted again, and another one is saved.
abbrev events : List Event
events =
    notes (record { address = some 102; has_value = true } ∷ [])
    ∷ hands_out true true
    ∷ updates (record {
      legacy_max_address_index = pos 2;
      shielded_max_address_index = pos 3;
      tokens = [];
    })
    ∷ saves 103 (legacy 3)
    ∷ []

with_two_more-AreWithin : AreWithin with_two_more
unfolding AreWithin IsWithin
with_two_more-AreWithin = (omega arith, omega arith)

happen_all-AreWithin_example : AreWithin (happen_all events with_two_more)
happen_all-AreWithin_example = happen_all-AreWithin events with_two_more with_two_more-AreWithin
