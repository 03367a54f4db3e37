-- ===== src/Wallet/Maps.antt =====
-- A JavaScript `Map` with names for keys: its entries, in the order in which the keys were first set.
use hathor_wallet_lib.Prelude.{
  ℕ, ◌≡◌, refl, arith, Bool, true, false, Option, none, some, List, [], ◌∷◌, ◌++◌, ◌==◌,
  if◌then◌else◌,
}
use hathor_wallet_lib.Prelude.Int.{ℤ, pos, ◌+ℤ◌, int_laws}

abbrev pub Name : Type 0
Name = ℕ

abbrev pub MapOf : Type 0 → Type 0
MapOf V = List (Name × V)

-- A `Set` of names, in the order of insertion.
abbrev pub has_name : Name → List Name → Bool
has_name k [] = false
has_name k (x ∷ xs) = if x == k then true else has_name k xs

abbrev pub add_name : Name → List Name → List Name
add_name k xs = if has_name k xs then xs else xs ++ k ∷ []

abbrev pub is_found : {A : Type 0} → Option A → Bool
is_found none = false
is_found (some a) = true

module _ {V : Type 0} where
  abbrev pub get : Name → MapOf V → Option V
  get k [] = none
  get k (e ∷ m) = if e.0 == k then some e.1 else get k m

  abbrev pub has : Name → MapOf V → Bool
  has k [] = false
  has k (e ∷ m) = if e.0 == k then true else has k m

  -- The first entry of the key is replaced; a new key comes last.
  abbrev pub set : Name → V → MapOf V → MapOf V
  set k v [] = (k, v) ∷ []
  set k v (e ∷ m) = if e.0 == k then (e.0, v) ∷ m else e ∷ set k v m

  pub get-set :
      (j k : Name) (v : V) (m : MapOf V) → get j (set k v m) ≡ (if k == j then some v else get j m)
  get-set j k v [] = refl
  get-set j k v (e ∷ m) = ground (arith, get-set j k v m)

  pub has-get : (k : Name) (m : MapOf V) → has k m ≡ is_found (get k m)
  has-get k [] = refl
  has-get k (e ∷ m) = ground (arith, has-get k m)

  abbrev pub or_else : V → Option V → V
  or_else d none = d
  or_else d (some v) = v

  abbrev pub get_or : V → Name → MapOf V → V
  get_or d k m = or_else d (get k m)

  pub get_or-set :
      (d : V) (j k : Name) (v : V) (m : MapOf V)
      → get_or d j (set k v m) ≡ (if k == j then v else get_or d j m)
  get_or-set d j k v m = ground (arith, get-set j k v m)

  -- The sum of a value's weight over the entries.
  unfoldable pub sum_of : (V → ℤ) → MapOf V → ℤ
  sum_of f [] = pos 0
  sum_of f (e ∷ m) = f e.1 +ℤ sum_of f m

  -- Setting a key puts the new weight in the place of the old one, which is nothing for a new key.
  pub sum_of-set :
      (f : V → ℤ) (d : V) (k : Name) (v : V) (m : MapOf V)
      → f d ≡ pos 0
      → sum_of f (set k v m) +ℤ f (get_or d k m) ≡ sum_of f m +ℤ f v
  unfolding sum_of
  sum_of-set f d k v [] z = rw z (omega int_laws)
  sum_of-set f d k v (e ∷ m) z = grind (int_laws, sum_of-set f d k v m z)
