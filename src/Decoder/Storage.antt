-- ===== src/Decoder/Storage.antt =====
-- `ByteAddressableStorage` of boa/contracts/vyper/decoder_utils.py, with `ceil32` and `floor32` of
-- boa/vm/utils.py. The 32 bytes of a slot are what `get_storage_slot` gives for it.
use titanoboa.Prelude.{
  length-drop, get_elem?-append_left, ℕ, zero, suc, ◌+◌, ◌-◌, ◌*◌, ◌/◌, ◌%◌, ◌≤◌, ◌<◌, ◌≡◌, refl,
  ap, ◌∙◌, inl, inr, List, [], ◌∷◌, ◌++◌, arith, ltb, Bool-cases, ltb→lt, length, get_elem?, take,
  drop, nat_eq, string_eq, bytes_eq, pair_eq, length-append,
}
use titanoboa.Prelude.Bytes.{Bytes, slice}

-- `n & ~31`
abbrev pub floor32 : ℕ → ℕ
floor32 n = n / 32 * 32

abbrev pub ceil32 : ℕ → ℕ
ceil32 n = floor32 (n + 31)

module _ (get_storage_slot : ℕ → Bytes) (key : ℕ) where
  -- the loop, with the rounds left and the slot
  pub gather_slots : ℕ → ℕ → Bytes
  gather_slots zero i = []
  gather_slots (suc rounds) i = get_storage_slot i ++ gather_slots rounds (i + 1)

  -- `storage[start:stop]`
  pub get_slice : ℕ → ℕ → Bytes
  get_slice start stop =
      let i = key + start / 32 in
      let ret = gather_slots (key + ceil32 stop / 32 - i) i in
      let start_ofst = floor32 start in slice ret (start - start_ofst) (stop - start_ofst)

module _ {ℓ} {A : Type ℓ} where
  get_elem?-append_right :
      (xs ys : List A) (i : ℕ) → get_elem? (xs ++ ys) (length xs + i) ≡ get_elem? ys i
  get_elem?-append_right [] ys i = let e : 0 + i ≡ i = omega arith in ap (get_elem? ys) e
  get_elem?-append_right (x ∷ xs) ys i =
      let e : suc (length xs) + i ≡ suc (length xs + i) = omega arith in
      ap (get_elem? (x ∷ (xs ++ ys))) e ∙ get_elem?-append_right xs ys i

  get_elem?-drop : (n : ℕ) (xs : List A) (i : ℕ) → get_elem? (drop n xs) i ≡ get_elem? xs (n + i)
  get_elem?-drop zero xs i = let e : i ≡ 0 + i = omega arith in ap (get_elem? xs) e
  get_elem?-drop (suc n) [] i = refl
  get_elem?-drop (suc n) (x ∷ xs) i =
      let e : suc (n + i) ≡ suc n + i = omega arith in
      get_elem?-drop n xs i ∙ ap (get_elem? (x ∷ xs)) e

  length-take_le : (n : ℕ) (xs : List A) → n ≤ length xs → length (take n xs) ≡ n
  length-take_le zero xs h = refl
  length-take_le (suc n) [] h = absurd (omega arith)
  length-take_le (suc n) (x ∷ xs) h = omega (arith, length-take_le n xs (omega arith))

  get_elem?-take : (n : ℕ) (xs : List A) (i : ℕ) → i < n → get_elem? (take n xs) i ≡ get_elem? xs i
  get_elem?-take zero xs i h = absurd (omega arith)
  get_elem?-take (suc n) [] i h = refl
  get_elem?-take (suc n) (x ∷ xs) zero h = refl
  get_elem?-take (suc n) (x ∷ xs) (suc i) h = get_elem?-take n xs i (omega arith)

module _ (get_storage_slot : ℕ → Bytes) (key : ℕ)
    (words : (i : ℕ) → length (get_storage_slot i) ≡ 32) where
  gather_slots-get_elem? :
      (rounds i j : ℕ)
      → j < rounds * 32
      → get_elem? (gather_slots get_storage_slot key rounds i) j
        ≡ get_elem? (get_storage_slot (i + j / 32)) (j % 32)
  unfolding gather_slots
  gather_slots-get_elem? zero i j h = absurd (omega arith)
  gather_slots-get_elem? (suc rounds) i j h = elim (Bool-cases (ltb j 32)) [
    | inl within ↦
        let l : j < 32 = ltb→lt j 32 within in
        let e : j ≡ j % 32 = omega arith in
        let s : i ≡ i + j / 32 = omega arith in
        get_elem?-append_left (get_storage_slot i) _ j (omega (arith, words i))
        ∙ (ap (get_elem? (get_storage_slot i)) e
            ∙ ap (λ t. get_elem? (get_storage_slot t) (j % 32)) s)
    | inr beyond ↦
        let g : 32 ≤ j = ground arith in
        let e : j ≡ length (get_storage_slot i) + (j - 32) = omega (arith, words i) in
        let q : i + 1 + (j - 32) / 32 ≡ i + j / 32 = omega arith in
        let m : (j - 32) % 32 ≡ j % 32 = omega arith in
        ap (get_elem? (get_storage_slot i ++ gather_slots get_storage_slot key rounds (i + 1))) e
        ∙ (get_elem?-append_right (get_storage_slot i) _ (j - 32)
            ∙ (gather_slots-get_elem? rounds (i + 1) (j - 32) (omega arith)
                ∙ (ap (λ t. get_elem? (get_storage_slot t) ((j - 32) % 32)) q
                    ∙ ap (get_elem? (get_storage_slot (i + j / 32))) m)))
  ]

  length-gather_slots :
      (rounds i : ℕ) → length (gather_slots get_storage_slot key rounds i) ≡ rounds * 32
  unfolding gather_slots
  length-gather_slots zero i = refl
  length-gather_slots (suc rounds) i =
      let rest = gather_slots get_storage_slot key rounds (i + 1) in
      omega (
        arith,
        length-append (get_storage_slot i) rest,
        words i,
        length-gather_slots rounds (i + 1),
      )

  length-get_slice :
      (start stop : ℕ) → length (get_slice get_storage_slot key start stop) ≡ stop - start
  unfolding get_slice
  length-get_slice start stop =
      let i = key + start / 32 in
      let rounds = key + ceil32 stop / 32 - i in
      let a = start - floor32 start in
      let ret = gather_slots get_storage_slot key rounds i in
      let n = stop - floor32 start - a in
      let all : length ret ≡ rounds * 32 = length-gather_slots rounds i in
      let left : length (drop a ret) ≡ length ret - a = length-drop a ret in
      let enough : n ≤ length (drop a ret) = omega (arith, all, left) in
      length-take_le n (drop a ret) enough ∙ omega arith

  get_slice_byte :
      (start stop j : ℕ)
      → start + j < stop
      → get_elem? (get_slice get_storage_slot key start stop) j
        ≡ get_elem? (get_storage_slot (key + (start + j) / 32)) ((start + j) % 32)
  unfolding get_slice
  get_slice_byte start stop j h =
      let i = key + start / 32 in
      let rounds = key + ceil32 stop / 32 - i in
      let a = start - floor32 start in
      let q : i + (a + j) / 32 ≡ key + (start + j) / 32 = omega arith in
      let m : (a + j) % 32 ≡ (start + j) % 32 = omega arith in
      get_elem?-take (stop - floor32 start - a) _ j (omega arith)
      ∙ (get_elem?-drop a (gather_slots get_storage_slot key rounds i) j
          ∙ (gather_slots-get_elem? rounds i (a + j) (omega arith)
              ∙ (ap (λ t. get_elem? (get_storage_slot t) ((a + j) % 32)) q
                  ∙ ap (get_elem? (get_storage_slot (key + (start + j) / 32))) m)))

  -- Where slots have 32 bytes, a slice has as many bytes as lie from `start` to `stop`, none where
  -- `stop` is not beyond `start`, and its byte `j` is the byte of the storage at `start + j`: that of
  -- the slot after the key by the whole words, at the rest.
  pub get_slice-get_elem? :
      (start stop : ℕ)
      → (length (get_slice get_storage_slot key start stop) ≡ stop - start)
        × ((j : ℕ)
            → start + j < stop
            → get_elem? (get_slice get_storage_slot key start stop) j
              ≡ get_elem? (get_storage_slot (key + (start + j) / 32)) ((start + j) % 32))
  get_slice-get_elem? start stop = (length-get_slice start stop, get_slice_byte start stop)
