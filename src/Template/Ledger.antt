-- ===== src/Template/Ledger.antt =====
-- What the transaction that a template builds (src/template/transaction) takes in and gives out, counted
-- over its inputs and outputs.
pub mod Places
pub mod Moves
pub mod Steps
pub mod Instructions
pub mod Selections
pub mod Completed
pub mod Whole
pub mod Actions
pub mod Runs
use hathor_wallet_lib.Prelude.{
  ℕ, zero, suc, ◌+◌, ◌-◌, ◌≤◌, ◌≡◌, refl, ◌∙◌, ap, arith, Bool, true, false, ◌&&◌, ◌||◌, Option,
  none, some, List, [], ◌∷◌, ◌++◌, ◌==◌, leb, if◌then◌else◌, length, take, drop, take-append-drop,
  not,
}
use hathor_wallet_lib.Prelude.Int.{ℤ, pos, negsuc, ◌+ℤ◌, ◌-ℤ◌, int_laws}
use hathor_wallet_lib.Result.{Result, ok, err}
use hathor_wallet_lib.Wallet.Maps.{Name}
use hathor_wallet_lib.Wallet.Types.{HistoryOutput, HistoryTx, UtxoId}
use hathor_wallet_lib.Wallet.Rules.{is_authority_output}
use hathor_wallet_lib.Wallet.Select.{native_token}
use hathor_wallet_lib.Template.Balance.{spent_output}
use hathor_wallet_lib.Template.Context.{
  TemplateOutput, Interpreter, Context, index_of, add_items, is_create_token_tx_context,
}
use hathor_wallet_lib.Template.Amounts.{tokens_of}

unfoldable pub sum_by {ℓ} : {A : Type ℓ} → (A → ℤ) → List A → ℤ
sum_by f [] = pos 0
sum_by f (x ∷ xs) = f x +ℤ sum_by f xs

unfoldable pub all_by {ℓ} : {A : Type ℓ} → (A → Bool) → List A → Bool
all_by f [] = true
all_by f (x ∷ xs) = f x && all_by f xs

module _ {ℓ} {A : Type ℓ} where
  sum_by-append : (f : A → ℤ) (xs ys : List A) → sum_by f (xs ++ ys) ≡ sum_by f xs +ℤ sum_by f ys
  unfolding sum_by
  sum_by-append f [] ys = omega int_laws
  sum_by-append f (x ∷ xs) ys = rw (sum_by-append f xs ys) (omega int_laws)

  all_by-append :
      (f : A → Bool) (xs ys : List A) → all_by f (xs ++ ys) ≡ (all_by f xs && all_by f ys)
  unfolding all_by
  all_by-append f [] ys = refl
  all_by-append f (x ∷ xs) ys = ground (arith, all_by-append f xs ys)

  sum_by-insert :
      (f : A → ℤ) (n : ℕ) (items xs : List A)
      → sum_by f (take n xs ++ (items ++ drop n xs)) ≡ sum_by f items +ℤ sum_by f xs
  sum_by-insert f n items xs =
      let whole = ap (sum_by f) (take-append-drop n xs) in
      grind (
        int_laws,
        sum_by-append f (take n xs) (items ++ drop n xs),
        sum_by-append f items (drop n xs),
        sum_by-append f (take n xs) (drop n xs),
        whole,
      )

  all_by-insert :
      (f : A → Bool) (n : ℕ) (items xs : List A)
      → all_by f (take n xs ++ (items ++ drop n xs)) ≡ (all_by f items && all_by f xs)
  all_by-insert f n items xs =
      let whole = ap (all_by f) (take-append-drop n xs) in
      ground (
        arith,
        all_by-append f (take n xs) (items ++ drop n xs),
        all_by-append f items (drop n xs),
        all_by-append f (take n xs) (drop n xs),
        whole,
      )

  -- Wherever they are put, the items count once.
  pub sum_by-add_items :
      (f : A → ℤ) (position : ℤ) (items xs : List A)
      → sum_by f (add_items position items xs) ≡ sum_by f items +ℤ sum_by f xs
  sum_by-add_items f (pos n) items xs = sum_by-insert f n items xs
  sum_by-add_items f (negsuc zero) items xs = rw (sum_by-append f xs items) (omega int_laws)
  sum_by-add_items f (negsuc (suc n)) items xs = sum_by-insert f (length xs - (n + 2)) items xs

  pub all_by-add_items :
      (f : A → Bool) (position : ℤ) (items xs : List A)
      → all_by f (add_items position items xs) ≡ (all_by f items && all_by f xs)
  all_by-add_items f (pos n) items xs = all_by-insert f n items xs
  all_by-add_items f (negsuc zero) items xs = ground (arith, all_by-append f xs items)
  all_by-add_items f (negsuc (suc n)) items xs = all_by-insert f (length xs - (n + 2)) items xs

-- An output of funds at a place after the native token's, counted from 0.
abbrev pub value_at : ℕ → TemplateOutput → ℤ
value_at i o = if o.token_data == suc i then pos o.value else pos 0

unfoldable pub sum_outputs : Option ℕ → List TemplateOutput → ℤ
sum_outputs none os = pos 0
sum_outputs (some i) os = sum_by (value_at i) os

-- An authority, or funds at one of the places.
abbrev pub fits : ℕ → TemplateOutput → Bool
fits count o = leb o.token_data count || leb 128 o.token_data

abbrev is_same : UtxoId → UtxoId → Bool
is_same a b = a.tx_id == b.tx_id && a.index == b.index

unfoldable pub has_id : UtxoId → List UtxoId → Bool
has_id id [] = false
has_id id (i ∷ is) = is_same i id || has_id id is

-- No input is there twice.
unfoldable pub are_distinct : List UtxoId → Bool
unfolding has_id
are_distinct [] = true
are_distinct (i ∷ is) = not (has_id i is) && are_distinct is

-- The inputs, each once.
unfoldable pub once : List UtxoId → List UtxoId
unfolding has_id
once [] = []
once (i ∷ is) = let rest = once is in if has_id i is then rest else i ∷ rest

pub once-distinct : (is : List UtxoId) → are_distinct is ≡ true → once is ≡ is
unfolding once are_distinct
once-distinct [] h = refl
once-distinct (i ∷ is) h =
    let new : has_id i is ≡ false = ground (arith, h) in
    let rest : are_distinct is ≡ true = ground (arith, h) in rw (new, once-distinct is rest) refl

module _ (interpreter : Interpreter) where
  abbrev pub funds_in : Name → HistoryOutput → ℤ
  funds_in t o =
      if o.token == t
      then (if is_authority_output o.token_data then pos 0 else pos o.value)
      else pos 0

  abbrev pub funds_found : Name → Result HistoryOutput → ℤ
  funds_found t (err e) = pos 0
  funds_found t (ok o) = funds_in t o

  abbrev pub found_amount : Name → ℕ → Result HistoryTx → ℤ
  found_amount t index (err e) = pos 0
  found_amount t index (ok tx) = funds_found t (spent_output tx index)

  -- What the output that an input spends holds of a token.
  unfoldable pub input_amount : Name → UtxoId → ℤ
  input_amount t id = found_amount t id.index (interpreter.get_tx id.tx_id)

  -- The funds of a token in the inputs, as often as these occur, less those in the outputs.
  unfoldable pub left_over : Name → Context → ℤ
  left_over t ctx =
      sum_by (input_amount t) ctx.inputs -ℤ sum_outputs (index_of t ctx.tokens) ctx.outputs

  -- What the outputs that are spent hold of a token, each counted once, less what the new ones do.
  unfoldable pub funds_left : Name → Context → ℤ
  funds_left t ctx =
      sum_by (input_amount t) (once ctx.inputs) -ℤ sum_outputs (index_of t ctx.tokens) ctx.outputs

  -- The context of a transaction that creates no token: every output has its place, and for every token but
  -- the native one the balance is what the inputs and the outputs come to.
  pub record IsLedger (ctx : Context) : Type 0 where
    pub ordinary : is_create_token_tx_context ctx ≡ false
    pub places : all_by (fits (length ctx.tokens)) ctx.outputs ≡ true
    pub amounts :
        (t : Name) → (native_token == t) ≡ false → tokens_of t ctx.balance ≡ left_over t ctx

-- The tokens of a transaction whose places an authority can stand at.
abbrev pub AreFew : Context → Type 0
AreFew ctx = length ctx.tokens ≤ 127
