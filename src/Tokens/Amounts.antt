-- ===== src/Tokens/Amounts.antt =====
-- Deposits and withdrawals: getDepositAmount, getWithdrawAmount and the data fee of src/utils/tokens.ts.
use native.Mathlib.Nat.{le_trans, mul-le-mul_left, div-mul-le_self, lt-div-mul-add}
use hathor_wallet_lib.Prelude.{
  ℕ, ◌+◌, ◌*◌, ◌-◌, ◌/◌, ◌≤◌, ◌<◌, ◌≡◌, arith, ◌==◌, if◌then◌else◌, List, [], ◌∷◌,
}
use hathor_wallet_lib.Prelude.Int.{ℤ, pos, negsuc}
use hathor_wallet_lib.Result.{
  Result, ok, err, ◌>>=◌, negative_amount, bad_division, ok_inj, >>=-eq-ok,
}

-- storage.getTokenDepositPercentageFraction
pub record Fraction : Type 0 where
  pub numerator : ℕ
  pub denominator : ℕ

-- ceilDiv, of a dividend that is not negative
unfoldable pub ceil_div : ℕ → ℕ → Result ℕ
ceil_div a b = if b == 0 then err bad_division else ok ((a + b - 1) / b)

unfoldable pub get_deposit_amount : ℤ → Fraction → Result ℕ
get_deposit_amount (pos amount) f = ceil_div (f.numerator * amount) f.denominator
get_deposit_amount (negsuc n) f = err negative_amount

-- A division of a bigint by 0 throws.
unfoldable pub get_withdraw_amount : ℕ → Fraction → Result ℕ
get_withdraw_amount amount f =
    if f.denominator == 0 then err bad_division else ok (f.numerator * amount / f.denominator)

abbrev pub data_script_output_fee : ℕ
data_script_output_fee = 1

-- getDataFee
abbrev pub get_data_fee : ℕ → ℕ
get_data_fee data_len = data_script_output_fee * data_len

-- What is returned for melting the amounts one by one.
unfoldable pub withdraw_all : List ℕ → Fraction → Result ℕ
withdraw_all [] f = ok 0
withdraw_all (amount ∷ amounts) f =
    get_withdraw_amount amount f >>= λ w. withdraw_all amounts f >>= λ rest. ok (w + rest)

unfoldable pub total_amount : List ℕ → ℕ
total_amount [] = 0
total_amount (amount ∷ amounts) = amount + total_amount amounts

deposit_covers :
    (amount : ℕ) (f : Fraction) (d : ℕ)
    → get_deposit_amount (pos amount) f ≡ ok d
    → (0 < f.denominator) × (f.numerator * amount ≤ d * f.denominator)
unfolding get_deposit_amount ceil_div
deposit_covers amount f d h = grind (arith, div-mul-le_self, lt-div-mul-add)

withdrawal_covered :
    (amount : ℕ) (f : Fraction) (w : ℕ)
    → get_withdraw_amount amount f ≡ ok w
    → (0 < f.denominator) × (w * f.denominator ≤ f.numerator * amount)
unfolding get_withdraw_amount
withdrawal_covered amount f w h = grind (arith, div-mul-le_self)

cancel : (w d k : ℕ) → 0 < k → w * k ≤ d * k → w ≤ d
cancel w d k h le = grind arith

withdrawals_covered :
    (f : Fraction) (amounts : List ℕ) (w : ℕ)
    → withdraw_all amounts f ≡ ok w
    → w * f.denominator ≤ f.numerator * total_amount amounts
unfolding withdraw_all total_amount
withdrawals_covered f [] w h = rw (← ok_inj h) (omega arith)
withdrawals_covered f (amount ∷ amounts) w h =
    let (a, e, h') = >>=-eq-ok (get_withdraw_amount amount f) _ h in
    let (b, e', h'') = >>=-eq-ok (withdraw_all amounts f) _ h' in
    let one = withdrawal_covered amount f a e in
    let rest = withdrawals_covered f amounts b e' in rw (← ok_inj h'') (grind (arith, one, rest))

-- Tokens are never worth more melted than their deposit: if the deposit for an amount is `d`, and amounts
-- that are not more in total are melted one by one, what is returned for them is at most `d`.
pub withdraw_all-get_deposit_amount :
    (amount : ℕ) (melted : List ℕ) (f : Fraction) (d w : ℕ)
    → get_deposit_amount (pos amount) f ≡ ok d
    → withdraw_all melted f ≡ ok w
    → total_amount melted ≤ amount
    → w ≤ d
withdraw_all-get_deposit_amount amount melted f d w h k le =
    let (positive, covers) = deposit_covers amount f d h in
    let covered = withdrawals_covered f melted w k in
    cancel w d f.denominator positive
      (le_trans covered (le_trans (mul-le-mul_left f.numerator le) covers))
