-- ===== src/Wallet/Notes.antt =====
-- What saving an address (MemoryStore.saveAddress of src/storage/memory_store.ts) does to its chain.
use hathor_wallet_lib.Prelude.{
  ℕ, ◌≤◌, ◌≡◌, refl, arith, Bool, true, ◌==◌, ◌&&◌, ltb, if◌then◌else◌, if_cases, ltb→lt, [], ◌∷◌,
}
use hathor_wallet_lib.Prelude.Int.{ℤ, pos, negsuc, ltb_ℤ, eq_ℤ}
use hathor_wallet_lib.Wallet.Maps.{Name, MapOf, has, set}
use hathor_wallet_lib.Wallet.Scan.{Chain, set_current, note_loaded}

has-set :
    {V : Type 0} (j k : Name) (v : V) (m : MapOf V)
    → has j (set k v m) ≡ (if k == j then true else has j m)
has-set j k v [] = refl
has-set j k v (e ∷ m) = ground (arith, has-set j k v m)

-- Every index that a chain has is at most the last one loaded.
unfoldable pub IsLoaded : Chain → Type 0
IsLoaded c = (i : ℕ) → has i c.indexes ≡ true → i ≤ c.last_loaded

-- What saving an index does to its chain.
pub record Notes (i : ℕ) (c c' : Chain) : Type 0 where
  pub same_used : c'.last_used ≡ c.last_used
  pub grown : c.last_loaded ≤ c'.last_loaded
  pub reached : i ≤ c'.last_loaded
  pub loaded : IsLoaded c → IsLoaded c'

module _ (single : Bool) (index : ℕ) (base58 : Name) (c : Chain) where
  saved : Chain
  saved = record c { indexes = set index base58 c.indexes }

  raised : Chain → Chain
  raised d = if ltb d.last_loaded index then record d { last_loaded = index } else d

  loaded_after :
      (n : ℕ)
      → c.last_loaded ≤ n
      → index ≤ n
      → IsLoaded c
      → (j : ℕ) → has j (set index base58 c.indexes) ≡ true
      → j ≤ n
  unfolding IsLoaded
  loaded_after n up at h j e = ground (arith, up, at, h j, e, has-set j index base58 c.indexes)

  raised-Notes : (current : ℤ) → Notes index c (raised (record saved { current = current }))
  unfolding saved raised IsLoaded
  raised-Notes current =
      if_cases (Notes index c) (ltb c.last_loaded index) _ _
        (λ below. record {
          same_used = refl;
          grown = omega (arith, ltb→lt _ _ below);
          reached = omega arith;
          loaded = loaded_after index (omega (arith, ltb→lt _ _ below)) (omega arith);
        })
        (λ above. record {
          same_used = refl;
          grown = omega arith;
          reached = ground (arith, above);
          loaded = loaded_after c.last_loaded (omega arith) (ground (arith, above));
        })

  pub note_loaded-Notes : Notes index c (note_loaded single index base58 c)
  unfolding note_loaded saved raised
  note_loaded-Notes =
      if_cases (λ d. Notes index c (raised d)) (eq_ℤ c.current (negsuc 0))
        (set_current single (pos index) saved) saved
        (λ _.
          if_cases (λ d. Notes index c (raised d)) (single && ltb_ℤ (pos 0) (pos index)) saved
            (record saved { current = pos index }) (λ _. raised-Notes c.current)
            (λ _. raised-Notes (pos index)))
        (λ _. raised-Notes c.current)
