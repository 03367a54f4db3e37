-- ===== src/Wallet/Gap.antt =====
-- What loading the window of checkGapLimit (src/utils/storage.ts) does to a chain.
use hathor_wallet_lib.Prelude.{
  ℕ, zero, suc, ◌+◌, ◌≤◌, ◌<◌, ◌≡◌, refl, sym, ◌∙◌, ap, arith, false, none, some, if_cases,
  Bool-cases, inl, inr, ◌≢◌,
}
use hathor_wallet_lib.Prelude.Int.{max_ℤ, ℤ, pos, pos_part, ◌+ℤ◌, ◌-ℤ◌, ltb_ℤ, int_laws}
use hathor_wallet_lib.Result.{Error, Result, ok, err, ◌>>=◌}
use hathor_wallet_lib.Wallet.Maps.{or_else, Name, has}
use hathor_wallet_lib.Wallet.Notes.{IsLoaded, note_loaded-Notes}
use hathor_wallet_lib.Wallet.Scan.{
  Chain, Book, Window, save_in_chain, save_address, load_legacy, load_pair, load_addresses,
  needs_more, check_gap_limit,
}

-- What holds of a result, if there is one.
Ok : (Book → Type 0) → Result Book → Type 0
Ok P (err e) = Unit {0}
Ok P (ok b) = P b

Ok-bind :
    (P Q : Book → Type 0) (r : Result Book) (f : Book → Result Book)
    → Ok P r
    → ((b : Book) → P b → Ok Q (f b))
    → Ok Q (r >>= f)
unfolding Ok
Ok-bind P Q (err e) f h k = tt
Ok-bind P Q (ok b) f h k = k b h

-- The chain has loaded the index.
record Reaches (i : ℕ) (c c' : Chain) : Type 0 where
  used_kept : c'.last_used ≡ c.last_used
  no_less : c.last_loaded ≤ c'.last_loaded
  index_loaded : i ≤ c'.last_loaded
  still_loaded : IsLoaded c'

ends_loaded :
    (start count n : ℕ)
    → start ≤ n
    → (0 < count → suc start + count ≤ suc n)
    → start + suc count ≤ suc n
ends_loaded start zero n h k = omega (arith, h)
ends_loaded start (suc count) n h k = omega (arith, k (omega arith))

-- What loading a window does to the legacy chain.
record Loads (start count : ℕ) (c c' : Chain) : Type 0 where
  used_same : c'.last_used ≡ c.last_used
  never_less : c.last_loaded ≤ c'.last_loaded
  window_loaded : 0 < count → start + count ≤ suc c'.last_loaded

then_Loads :
    (start count : ℕ) (c d : Chain)
    → Reaches start c d
    → (r : Result Book) → Ok (λ b'. Loads (suc start) count d b'.legacy) r
    → Ok (λ b'. Loads start (suc count) c b'.legacy) r
unfolding Ok
then_Loads start count c d m (err e) h = tt
then_Loads start count c d m (ok b') h = record {
  used_same = h.used_same ∙ m.used_kept;
  never_less = omega (arith, m.no_less, h.never_less);
  window_loaded = λ _.
      ends_loaded start count b'.legacy.last_loaded (omega (arith, m.index_loaded, h.never_less))
        h.window_loaded;
}

-- A wallet without shielded keys.
module _ (derive : ℕ → Name) where
  load_legacy-Reaches :
      (i : ℕ) (b : Book)
      → IsLoaded b.legacy
      → Ok (λ b'. Reaches i b.legacy b'.legacy) (load_legacy derive none i b)
  unfolding load_legacy save_address save_in_chain Ok IsLoaded
  load_legacy-Reaches i b h =
      if_cases (Ok (λ b'. Reaches i b.legacy b'.legacy)) (has i b.legacy.indexes) _ _
        (λ known. record {
          used_kept = refl;
          no_less = omega arith;
          index_loaded = h i known;
          still_loaded = h;
        })
        (λ _.
          if_cases (Ok (λ b'. Reaches i b.legacy b'.legacy)) (has (derive i) b.addresses) _ _
            (λ _. tt)
            (λ _.
              let n = note_loaded-Notes b.single_address i (derive i) b.legacy in
              record {
                used_kept = n.same_used;
                no_less = n.grown;
                index_loaded = n.reached;
                still_loaded = n.loaded h;
              }))

  load_addresses-Loads :
      (count start : ℕ) (b : Book)
      → IsLoaded b.legacy
      → Ok (λ b'. Loads start count b.legacy b'.legacy) (load_addresses derive none start count b)
  unfolding load_addresses load_pair Ok
  load_addresses-Loads zero start b h = record {
    used_same = refl;
    never_less = omega arith;
    window_loaded = λ lt. absurd (omega (arith, lt));
  }
  load_addresses-Loads (suc count) start b h =
      Ok-bind (λ b'. Reaches start b.legacy b'.legacy)
        (λ b'. Loads start (suc count) b.legacy b'.legacy) (load_legacy derive none start b) _
        (load_legacy-Reaches start b h)
        (λ b' r.
          then_Loads start count b.legacy b'.legacy r
            (load_addresses derive none (suc start) count b')
            (load_addresses-Loads count (suc start) b' r.still_loaded))

none≢some : {A : Type 0} (a : A) → none ≢ some a
none≢some a h = cc

-- A window of the size that checkGapLimit computes reaches the target.
window_enough :
    (t : ℤ) (n : ℕ) → ltb_ℤ (pos (n + pos_part (max_ℤ (max_ℤ t t -ℤ pos n) (pos 1)))) t ≡ false
window_enough t n = grind int_laws

still_enough : (t : ℤ) (a b : ℕ) → ltb_ℤ (pos a) t ≡ false → a ≤ b → ltb_ℤ (pos b) t ≡ false
still_enough t a b h k = grind int_laws

module _ (gap_limit : ℕ) (b : Book) where
  -- The first index that is not loaded, and enough to reach the target.
  expected : Window
  expected =
      let t = b.legacy.last_used +ℤ pos gap_limit in
      record {
        next_index = b.legacy.last_loaded + 1;
        count = pos_part (max_ℤ (max_ℤ t t -ℤ pos b.legacy.last_loaded) (pos 1));
      }

  check_window : (w : Window) → check_gap_limit gap_limit false b ≡ some w → w ≡ expected
  unfolding check_gap_limit expected
  check_window w h = elim (Bool-cases (needs_more gap_limit b.legacy)) [
    | inl e ↦
        (let found : check_gap_limit gap_limit false b ≡ some expected = rw e refl in
          ap (or_else expected) (sym h ∙ found))
    | inr e ↦
        (let nothing : check_gap_limit gap_limit false b ≡ none = rw e refl in
          absurd (none≢some w (sym nothing ∙ h)))
  ]

  window_positive : 0 < expected.count
  unfolding expected
  window_positive = grind int_laws

  loaded-enough :
      (c : Chain)
      → Loads expected.next_index expected.count b.legacy c
      → needs_more gap_limit c ≡ false
  unfolding expected
  loaded-enough c l =
      let t = b.legacy.last_used +ℤ pos gap_limit in
      let n = b.legacy.last_loaded in
      still_enough (c.last_used +ℤ pos gap_limit) (n + expected.count) c.last_loaded
        (ap (λ x. ltb_ℤ (pos (n + expected.count)) (x +ℤ pos gap_limit)) l.used_same
          ∙ window_enough t n)
        (omega (arith, l.window_loaded window_positive))

result_or : Book → Result Book → Book
result_or d (err e) = d
result_or d (ok b) = b

err≢ok : (e : Error) (b : Book) → err e ≢ ok b
err≢ok e b h = cc

Ok-ok : (P : Book → Type 0) (r : Result Book) (b : Book) → r ≡ ok b → Ok P r → P b
unfolding Ok result_or
Ok-ok P (err e) b h k = absurd (err≢ok e b h)
Ok-ok P (ok c) b h k = let e : c ≡ b = ap (result_or b) h in rw (← e) k

-- One window fills the gap: in a wallet without shielded keys whose loaded indexes are at most the last
-- loaded one, once loadAddresses has loaded the window that checkGapLimit gives, and threw no error,
-- checkGapLimit asks for no more.
pub load_addresses-check_gap_limit :
    (derive : ℕ → Name) (gap_limit : ℕ) (b b' : Book) (w : Window)
    → IsLoaded b.legacy
    → check_gap_limit gap_limit false b ≡ some w
    → load_addresses derive none w.next_index w.count b ≡ ok b'
    → check_gap_limit gap_limit false b' ≡ none
unfolding check_gap_limit
load_addresses-check_gap_limit derive gap_limit b b' w h asked loaded =
    let e = expected gap_limit b in
    let same =
      ap (λ v. load_addresses derive none v.next_index v.count b)
        (sym (check_window gap_limit b w asked)) in
    let l =
      Ok-ok (λ c. Loads e.next_index e.count b.legacy c.legacy) _ b' (same ∙ loaded)
        (load_addresses-Loads derive e.count e.next_index b h) in
    rw (loaded-enough gap_limit b b'.legacy l) refl
