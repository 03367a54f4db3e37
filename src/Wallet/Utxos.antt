-- ===== src/Wallet/Utxos.antt =====
-- The utxos of the memory store (src/storage/memory_store.ts) as a map: each key has one utxo.
use hathor_wallet_lib.Prelude.{◌≡◌, refl, arith, true, false, none, List, [], ◌∷◌, if_cases, ◌∙◌}
use hathor_wallet_lib.Wallet.Types.{Utxo, UtxoId}
use hathor_wallet_lib.Wallet.Store.{same_id, put_utxo, drop_utxo, find_utxo}

unfoldable pub IsDistinct : List Utxo → Type 0
IsDistinct [] = Unit {0}
IsDistinct (u ∷ us) = (find_utxo u.id us ≡ none) × IsDistinct us

pub find-same_id :
    (j k : UtxoId) (us : List Utxo) → same_id j k ≡ true → find_utxo k us ≡ find_utxo j us
find-same_id j k [] h = refl
find-same_id j k (u ∷ us) h = ground (arith, find-same_id j k us h)

pub find-drop_utxo :
    (k : UtxoId) (us : List Utxo) → IsDistinct us → find_utxo k (drop_utxo k us) ≡ none
unfolding IsDistinct
find-drop_utxo k [] d = refl
find-drop_utxo k (u ∷ us) d = ground (arith, find-same_id u.id k us, find-drop_utxo k us d.1)

pub find-drop_other :
    (j k : UtxoId) (us : List Utxo) → find_utxo j us ≡ none → find_utxo j (drop_utxo k us) ≡ none
find-drop_other j k [] h = refl
find-drop_other j k (u ∷ us) h = ground (arith, find-drop_other j k us)

pub drop_utxo-IsDistinct :
    (k : UtxoId) (us : List Utxo) → IsDistinct us → IsDistinct (drop_utxo k us)
unfolding IsDistinct
drop_utxo-IsDistinct k [] d = d
drop_utxo-IsDistinct k (u ∷ us) d =
    if_cases IsDistinct (same_id u.id k) us (u ∷ drop_utxo k us) (λ _. d.1)
      (λ _. (find-drop_other u.id k us d.0, drop_utxo-IsDistinct k us d.1))

find-put_utxo :
    (j : UtxoId) (u : Utxo) (us : List Utxo)
    → same_id u.id j ≡ false
    → find_utxo j us ≡ none
    → find_utxo j (put_utxo u us) ≡ none
find-put_utxo j u [] h k = ground arith
find-put_utxo j u (v ∷ us) h k = ground (arith, find-put_utxo j u us h)

same_id_sym : (j k : UtxoId) → same_id j k ≡ same_id k j
same_id_sym j k = ground arith

pub put_utxo-IsDistinct : (u : Utxo) (us : List Utxo) → IsDistinct us → IsDistinct (put_utxo u us)
unfolding IsDistinct
put_utxo-IsDistinct u [] d = (refl, tt)
put_utxo-IsDistinct u (v ∷ us) d =
    if_cases IsDistinct (same_id v.id u.id) (u ∷ us) (v ∷ put_utxo u us)
      (λ e. (find-same_id v.id u.id us e ∙ d.0, d.1))
      (λ e. (find-put_utxo v.id u us (same_id_sym u.id v.id ∙ e) d.0, put_utxo-IsDistinct u us d.1))
