-- ===== src/Rpc/FetchMulti.antt =====
-- boa/rpc.py: the results of a batch come back in the order of its payloads.
use titanoboa.Prelude.{
  ℕ, suc, ◌+◌, ◌<◌, ◌≡◌, refl, sym, ap, ◌∙◌, inl, inr, Bool, true, false, ◌||◌, none, some, List,
  [], ◌∷◌, arith, nat_beq, Bool-cases, Option-cases, nat_beq→eq, length, get_elem?, nat_eq,
  string_eq, bytes_eq, pair_eq,
}
use titanoboa.Prelude.Dict.{Dict, lookup, contains, insert, lookup-insert}
use titanoboa.Prelude.Result.{Result, ok}
use titanoboa.Rpc.{Item, RpcFailure, gather, in_order, fetch_multi}
use mathlib.Core.Path.{subst}

module _ {J : Type 0} (answers : List J) where
  -- every entry is the answer at its index
  abbrev Indexed : Dict ℕ J → Type 0
  Indexed results = (i : ℕ) (x : J) → lookup i results ≡ some x → get_elem? answers i ≡ some x

  Indexed-insert :
      (k : ℕ) (v : J) (results : Dict ℕ J)
      → get_elem? answers k ≡ some v
      → Indexed results
      → Indexed (insert k v results)
  Indexed-insert k v results h old i x e = elim (Bool-cases (nat_beq k i)) [
    | inl same ↦
        let at : k ≡ i = nat_beq→eq k i same in
        let found : lookup i (insert k v results) ≡ some v =
          lookup-insert k i v results ∙ rw same in
        subst (λ j. get_elem? answers j ≡ some x) at (h ∙ (sym found ∙ e))
    | inr other ↦
        let kept : lookup i (insert k v results) ≡ lookup i results =
          lookup-insert k i v results ∙ rw other in
        old i x (sym kept ∙ e)
  ]

module _ {E J : Type 0} (answers : List J) where
  -- items without errors, each with the answer to the request of its id, in any order
  abbrev pub Answered : List (Item E J) → Type 0
  Answered [] = Unit
  Answered (item ∷ items) =
      (item.error ≡ none) × (get_elem? answers item.id ≡ some item.result) × Answered items

  abbrev pub has_id : ℕ → List (Item E J) → Bool
  has_id i [] = false
  has_id i (item ∷ items) = nat_beq item.id i || has_id i items

  -- what gathering gives
  Gathered : List (Item E J) → Dict ℕ J → Result (RpcFailure E) (Dict ℕ J) → Type 0
  Gathered items before r =
      (results : Dict ℕ J) × (r ≡ ok results)
      × Indexed answers results
      × ((i : ℕ) → (has_id i items || contains i before) ≡ true → contains i results ≡ true)

  gather-Gathered :
      (items : List (Item E J)) (before : Dict ℕ J)
      → Answered items
      → Indexed answers before
      → Gathered items before (gather items before)
  unfolding gather Gathered
  gather-Gathered [] before a h = (before, refl, h, λ i c. c)
  gather-Gathered (item ∷ items) before (fine, right, more) h =
      let (results, e, ix, covers) =
        gather-Gathered items (insert item.id item.result before) more
          (Indexed-insert answers item.id item.result before right h) in
      (
        results,
        rw (fine, gather) e,
        ix,
        λ i c. covers i (ground (arith, lookup-insert item.id i item.result before)),
      )

  in_order-answers :
      (xs : List J) (i : ℕ) (results : Dict ℕ J)
      → Indexed answers results
      → ((k : ℕ) → k < length xs → contains (i + k) results ≡ true)
      → ((k : ℕ) → get_elem? answers (i + k) ≡ get_elem? xs k)
      → in_order {E = E} (length xs) i results ≡ ok xs
  unfolding in_order
  in_order-answers [] i results ix c same = refl
  in_order-answers (x ∷ xs) i results ix c same = elim (Option-cases (lookup i results)) [
    | inl miss ↦
        let e : i + 0 ≡ i = omega arith in
        let there : contains i results ≡ true = rw e at (c 0 (omega arith)) in absurd (ground arith)
    | inr (y, hit) ↦
        let e : i + 0 ≡ i = omega arith in
        let first : get_elem? answers i ≡ some x = rw e at (same 0) in
        let equal : y ≡ x = cc (ix i y hit, first) in
        let rest =
          in_order-answers xs (suc i) results ix
            (λ k l.
              let s : i + suc k ≡ suc i + k = omega arith in rw s at (c (suc k) (omega arith)))
            (λ k. let s : i + suc k ≡ suc i + k = omega arith in rw s at (same (suc k))) in
        rw (hit, rest) (ap (λ z. ok (z ∷ xs)) equal)
  ]

  -- Whatever the order of a response without errors, and however often it repeats an item, the
  -- batch gives the answers in the order of the payloads, provided that every id is answered.
  pub fetch_multi-answers :
      (response : List (Item E J))
      → Answered response
      → ((i : ℕ) → i < length answers → has_id i response ≡ true)
      → fetch_multi (length answers) response ≡ ok answers
  unfolding fetch_multi Gathered
  fetch_multi-answers response a complete =
      let (results, e, ix, covers) = gather-Gathered response [] a (λ i x h. cc h) in
      let order =
        in_order-answers answers 0 results ix
          (λ k l. let s : 0 + k ≡ k = omega arith in rw s (covers k (ground (arith, complete k l))))
          (λ k. let s : 0 + k ≡ k = omega arith in ap (get_elem? answers) s) in
      rw (e, order)
