-- ===== src/Template/Ledger/Places.antt =====
-- The places of the tokens of a transaction under construction (src/template/transaction/context.ts).
use hathor_wallet_lib.Prelude.{
  ℕ, suc, ◌≤◌, ◌<◌, ◌≡◌, refl, ◌∙◌, ap, sym, arith, Bool, true, false, Option, none, some, List, [],
  ◌∷◌, ◌++◌, ◌==◌, length,
}
use hathor_wallet_lib.Prelude.Int.{pos, int_laws}
use hathor_wallet_lib.Wallet.Maps.{Name}
use hathor_wallet_lib.Template.Context.{TemplateOutput, index_of}
use hathor_wallet_lib.Template.Ledger.{sum_by, all_by, value_at, sum_outputs, fits}

-- `indexOf` at a name and what follows it.
abbrev next : Bool → Option ℕ → Option ℕ
next true m = some 0
next false none = none
next false (some i) = some (suc i)

index_of-cons : (t n : Name) (ns : List Name) → index_of t (n ∷ ns) ≡ next (n == t) (index_of t ns)
unfolding index_of
index_of-cons t n ns = ground arith

next_bound :
    (b : Bool) (m : Option ℕ) (count i : ℕ)
    → ((j : ℕ) → m ≡ some j → j < count)
    → next b m ≡ some i
    → i < suc count
next_bound true m count i below h = ground (arith, h)
next_bound false none count i below h = absurd (cc)
next_bound false (some j) count i below h = ground (arith, h, below j refl)

pub index_of_bound : (t : Name) (ts : List Name) (i : ℕ) → index_of t ts ≡ some i → i < length ts
unfolding index_of
index_of_bound t [] i h = absurd (cc)
index_of_bound t (n ∷ ns) i h =
    next_bound (n == t) (index_of t ns) (length ns) i (index_of_bound t ns)
      (sym (index_of-cons t n ns) ∙ h)

next_inj :
    (b b' : Bool) (m m' : Option ℕ) (i : ℕ) {same : Type 0}
    → (b ≡ true → b' ≡ true → same)
    → ((j : ℕ) → m ≡ some j → m' ≡ some j → same)
    → next b m ≡ some i
    → next b' m' ≡ some i
    → same
next_inj true true m m' i here later h k = here refl refl
next_inj true false m none i here later h k = absurd (cc)
next_inj true false m (some j) i here later h k = absurd (ground (arith, h, k))
next_inj false true none m' i here later h k = absurd (cc)
next_inj false true (some j) m' i here later h k = absurd (ground (arith, h, k))
next_inj false false none m' i here later h k = absurd (cc)
next_inj false false (some j) none i here later h k = absurd (cc)
next_inj false false (some j) (some j') i here later h k = later j refl (ground (arith, h, k))

-- Two tokens have two places.
pub index_of_inj :
    (s t : Name) (ts : List Name) (i : ℕ)
    → index_of s ts ≡ some i
    → index_of t ts ≡ some i
    → (s == t) ≡ true
unfolding index_of
index_of_inj s t [] i h k = absurd (cc)
index_of_inj s t (n ∷ ns) i h k =
    next_inj (n == s) (n == t) (index_of s ns) (index_of t ns) i (λ a b. ground (arith, a, b))
      (index_of_inj s t ns) (sym (index_of-cons s n ns) ∙ h) (sym (index_of-cons t n ns) ∙ k)

abbrev pub grown : Bool → ℕ → Option ℕ → Option ℕ
grown b count (some i) = some i
grown true count none = some count
grown false count none = none

next_grown :
    (b c : Bool) (count : ℕ) (m : Option ℕ)
    → next b (grown c count m) ≡ grown c (suc count) (next b m)
next_grown true c count m = refl
next_grown false c count (some i) = refl
next_grown false true count none = refl
next_grown false false count none = refl

-- A token that is put at the end changes no place.
pub index_of-append :
    (s t : Name) (ts : List Name)
    → index_of s (ts ++ t ∷ []) ≡ grown (t == s) (length ts) (index_of s ts)
unfolding index_of
index_of-append s t [] = ground arith
index_of-append s t (n ∷ ns) =
    index_of-cons s n (ns ++ t ∷ [])
    ∙ ap (next (n == s)) (index_of-append s t ns)
    ∙ next_grown (n == s) (t == s) (length ns) (index_of s ns)
    ∙ ap (grown (t == s) (suc (length ns))) (sym (index_of-cons s n ns))

-- No funds stand at a place that is not given yet.
no_value_at :
    (n : ℕ) (os : List TemplateOutput)
    → n ≤ 126
    → all_by (fits n) os ≡ true
    → sum_by (value_at n) os ≡ pos 0
unfolding sum_by all_by
no_value_at n [] few h = refl
no_value_at n (o ∷ os) few h =
    let rest : all_by (fits n) os ≡ true = ground (arith, h) in
    let none_here : value_at n o ≡ pos 0 = ground (arith, h, few) in
    rw (none_here, no_value_at n os few rest) (omega int_laws)

pub all_by-fits :
    (n m : ℕ) (os : List TemplateOutput)
    → n ≤ m
    → all_by (fits n) os ≡ true
    → all_by (fits m) os ≡ true
unfolding all_by
all_by-fits n m [] le h = refl
all_by-fits n m (o ∷ os) le h =
    let rest : all_by (fits n) os ≡ true = ground (arith, h) in
    ground (arith, h, le, all_by-fits n m os le rest)

-- What is counted of a token stays when another one is put at the end.
pub sum_outputs-grown :
    (b : Bool) (count : ℕ) (m : Option ℕ) (os : List TemplateOutput)
    → count ≤ 126
    → all_by (fits count) os ≡ true
    → sum_outputs (grown b count m) os ≡ sum_outputs m os
unfolding sum_outputs
sum_outputs-grown b count (some i) os few h = refl
sum_outputs-grown true count none os few h = no_value_at count os few h
sum_outputs-grown false count none os few h = refl
