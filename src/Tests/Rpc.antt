-- ===== src/Tests/Rpc.antt =====
-- boa/rpc.py at concrete inputs.
use titanoboa.Prelude.{
  ℕ, zero, suc, ◌<◌, String, ◌≡◌, refl, true, Option, none, some, List, [], ◌∷◌, arith, nat_eq,
  string_eq, bytes_eq, pair_eq,
}
use titanoboa.Prelude.Result.{Result, ok}
use titanoboa.Rpc.{Item, fetch_multi, RpcFailure, wait_for_tx_receipt}
use titanoboa.Rpc.FetchMulti.{fetch_multi-answers, has_id}
use titanoboa.Rpc.Receipt.{wait_for_tx_receipt-Judged, Judged}

abbrev answer : ℕ → ℕ → Item String ℕ
answer id result = record { id = id; error = none; result = result }

abbrev answers : List ℕ
answers = 70 ∷ 71 ∷ 72 ∷ []

abbrev response : List (Item String ℕ)
response = answer 2 72 ∷ answer 0 70 ∷ answer 1 71 ∷ answer 0 70 ∷ []

all_answered : (i : ℕ) → i < 3 → has_id answers i response ≡ true
all_answered i h = ground arith

fetch_multi-answers_example : fetch_multi 3 response ≡ ok answers
fetch_multi-answers_example =
    fetch_multi-answers answers response
      ((refl, refl, (refl, refl, (refl, refl, (refl, refl, tt))))) all_answered

abbrev third : ℕ → Option String
third zero = none
third (suc zero) = none
third (suc (suc n)) = some "receipt"

wait_for_tx_receipt-Judged_example :
    (r : Result (RpcFailure Unit) String) × (wait_for_tx_receipt {E = Unit} third
        (λ poll. 100)
        5000
        1000
        250
        6
      ≡ some r)
    × Judged Unit third (λ poll. 100) 5000 1000 250 r 0
wait_for_tx_receipt-Judged_example =
    wait_for_tx_receipt-Judged Unit third (λ poll. 100) 5000 1000 250 5 (omega arith)
