-- ===== src/Options/Decode.antt =====
-- The walks over an option field compute on the list of options that the field holds.
use ndhc.Common.{
  ℕ, zero, suc, ◌+◌, ◌≤◌, ◌<◌, ◌≡◌, ◌∙◌, refl, ap, Bytes, some, List, [], ◌∷◌, ◌++◌, length,
  get_elem?, read_range, length-append, append_assoc, arith, next, stop, loop, Bool-cases, inl, inr,
  if◌then◌else◌, ltb, ◌==◌, loop_next, loop_stop, get_elem?-first, get_elem?-second, read_range-at,
}
use ndhc.Options.Dcode
use ndhc.Options.Items.{
  Item, pad, opt, encode, encode_item, AllItems, overload_of, overloads, collect,
}
use ndhc.Options.Scan.{overload_round, get_round, end_round}

-- One item is passed.
shift :
    (buf pre tail : Bytes) (x : Item) (xs : List Item)
    → buf ≡ pre ++ (encode (x ∷ xs) ++ tail)
    → buf ≡ pre ++ encode_item x ++ (encode xs ++ tail)
shift buf pre tail x xs e = e ∙ simp append_assoc

module _ (buf rest : Bytes) (size : ℕ) (fits : length buf ≡ size) where
  -- The index of the front of `items` in the buffer.
  pub record At (items : List Item) (pre : Bytes) (i : ℕ) : Type 0 where
    pub valid : AllItems items
    pub layout : buf ≡ pre ++ (encode items ++ (Dcode.end ∷ rest))
    pub index : i ≡ length pre

  At-room :
      (items : List Item) (pre : Bytes) (i : ℕ)
      → At items pre i
      → i + length (encode items) + 1 ≤ size
  At-room items pre i a = omega (
    arith,
    ap length a.layout,
    length-append pre (encode items ++ (Dcode.end ∷ rest)),
    length-append (encode items) (Dcode.end ∷ rest),
  )

  At-next :
      (x : Item) (xs : List Item) (pre : Bytes) (i j : ℕ)
      → At (x ∷ xs) pre i
      → j ≡ i + length (encode_item x)
      → At xs (pre ++ encode_item x) j
  At-next x xs pre i j a e = record {
    valid = a.valid.1;
    layout = shift buf pre (Dcode.end ∷ rest) x xs a.layout;
    index = omega (arith, a.index, length-append pre (encode_item x));
  }

  At-end : (pre : Bytes) (i : ℕ) → At [] pre i → get_elem? buf i ≡ some Dcode.end
  At-end pre i a = get_elem?-first buf pre rest Dcode.end i a.layout a.index

  At-pad :
      (xs : List Item) (pre : Bytes) (i : ℕ)
      → At (pad ∷ xs) pre i
      → get_elem? buf i ≡ some Dcode.padding
  At-pad xs pre i a = get_elem?-first buf pre _ Dcode.padding i a.layout a.index

  At-code :
      (c : ℕ) (d : Bytes) (xs : List Item) (pre : Bytes) (i : ℕ)
      → At (opt c d ∷ xs) pre i
      → get_elem? buf i ≡ some c
  At-code c d xs pre i a = get_elem?-first buf pre _ c i a.layout a.index

  At-length :
      (c : ℕ) (d : Bytes) (xs : List Item) (pre : Bytes) (i : ℕ)
      → At (opt c d ∷ xs) pre i
      → get_elem? buf (i + 1) ≡ some (length d)
  At-length c d xs pre i a = get_elem?-second buf pre _ c (length d) i a.layout a.index

  At-value :
      (c : ℕ) (d : Bytes) (xs : List Item) (pre : Bytes) (i : ℕ)
      → At (opt c d ∷ xs) pre i
      → read_range (i + 2) (length d) buf ≡ some d
  At-value c d xs pre i a =
      read_range-at buf (pre ++ (c ∷ length d ∷ [])) d (encode xs ++ (Dcode.end ∷ rest)) (i + 2)
        (a.layout ∙ simp append_assoc)
        (omega (arith, a.index, length-append pre (c ∷ length d ∷ [])))

  pub end_loop :
      (items : List Item) (pre : Bytes) (i fuel : ℕ)
      → At items pre i
      → length (encode items) < fuel
      → loop fuel (end_round buf size) i ≡ some (some (i + length (encode items)))
  end_loop items pre i zero a f = elim f [ ]
  end_loop [] pre i (suc fuel) a f =
      loop_stop (end_round buf size) fuel i (some (i + 0))
        (unfold end_round in ground (arith, At-end pre i a, At-room [] pre i a))
  end_loop (pad ∷ xs) pre i (suc fuel) a f =
      loop_next (end_round buf size) fuel i (i + 1)
        (unfold end_round in ground (arith, At-pad xs pre i a, At-room _ pre i a))
      ∙ end_loop xs (pre ++ encode_item pad) (i + 1) fuel
          (At-next pad xs pre i (i + 1) a (omega arith)) (omega arith)
      ∙ ap (λ k. some (some k)) (omega arith)
  end_loop (opt c d ∷ xs) pre i (suc fuel) a f =
      let j = i + (length d + 1) + 1 in
      let room = length-append d (encode xs) in
      loop_next (end_round buf size) fuel i j (
        unfold end_round in
        ground (
          arith,
          At-code c d xs pre i a,
          At-length c d xs pre i a,
          At-room _ pre i a,
          a.valid,
          room,
        ))
      ∙ end_loop xs (pre ++ encode_item (opt c d)) j fuel
          (At-next (opt c d) xs pre i j a (omega arith)) (omega (arith, room))
      ∙ ap (λ k. some (some k)) (omega (arith, room))

  At-octet :
      (c v : ℕ) (vs : Bytes) (xs : List Item) (pre : Bytes) (i : ℕ)
      → At (opt c (v ∷ vs) ∷ xs) pre i
      → get_elem? buf (i + 2) ≡ some v
  At-octet c v vs xs pre i a =
      get_elem?-first buf (pre ++ (c ∷ length (v ∷ vs) ∷ []))
        (vs ++ (encode xs ++ (Dcode.end ∷ rest))) v (i + 2) (a.layout ∙ simp append_assoc)
        (omega (arith, a.index, length-append pre (c ∷ length (v ∷ vs) ∷ [])))

  overload_opt :
      (c : ℕ) (d : Bytes) (xs : List Item) (pre : Bytes) (i ol : ℕ)
      → At (opt c d ∷ xs) pre i
      → overload_round buf size (i, ol)
        ≡ some (next (i + length (encode_item (opt c d)), overload_of c d ol))
  unfolding overload_round
  overload_opt c [] xs pre i ol a =
      ground (arith, At-code c [] xs pre i a, At-length c [] xs pre i a, At-room _ pre i a, a.valid)
  overload_opt c (v ∷ []) xs pre i ol a = ground (
    arith,
    At-code c (v ∷ []) xs pre i a,
    At-length c (v ∷ []) xs pre i a,
    At-octet c v [] xs pre i a,
    At-room _ pre i a,
    a.valid,
  )
  overload_opt c (v ∷ w ∷ d) xs pre i ol a = ground (
    arith,
    At-code c (v ∷ w ∷ d) xs pre i a,
    At-length c (v ∷ w ∷ d) xs pre i a,
    At-room _ pre i a,
    a.valid,
    length-append d (encode xs),
  )

  pub overload_loop :
      (items : List Item) (pre : Bytes) (i ol fuel : ℕ)
      → At items pre i
      → length (encode items) < fuel
      → loop fuel (overload_round buf size) (i, ol) ≡ some (overloads ol items)
  overload_loop items pre i ol zero a f = elim f [ ]
  overload_loop [] pre i ol (suc fuel) a f =
      loop_stop (overload_round buf size) fuel (i, ol) ol
        (unfold overload_round in ground (arith, At-end pre i a, At-room [] pre i a))
  overload_loop (pad ∷ xs) pre i ol (suc fuel) a f =
      loop_next (overload_round buf size) fuel (i, ol) (i + 1, ol)
        (unfold overload_round in ground (arith, At-pad xs pre i a, At-room _ pre i a))
      ∙ overload_loop xs (pre ++ encode_item pad) (i + 1) ol fuel
          (At-next pad xs pre i (i + 1) a (omega arith)) (omega arith)
  overload_loop (opt c d ∷ xs) pre i ol (suc fuel) a f =
      let j = i + length (encode_item (opt c d)) in
      let room = length-append d (encode xs) in
      loop_next (overload_round buf size) fuel (i, ol) (j, overload_of c d ol)
        (overload_opt c d xs pre i ol a)
      ∙ overload_loop xs (pre ++ encode_item (opt c d)) j (overload_of c d ol) fuel
          (At-next (opt c d) xs pre i j a refl) (omega (arith, room))

  get_opt :
      (c dlen d : ℕ) (v : Bytes) (xs : List Item) (pre : Bytes) (i : ℕ) (dbuf : Bytes)
      → At (opt d v ∷ xs) pre i
      → get_round buf size c dlen (i, dbuf) ≡ (
          if d == c
          then if ltb dlen (length v + length dbuf)
            then some (stop dbuf)
            else some (next (i + (length v + 2), dbuf ++ v))
          else some (next (i + (length v + 2), dbuf)))
  unfolding get_round
  get_opt c dlen d v xs pre i dbuf a = ground (
    arith,
    At-code d v xs pre i a,
    At-length d v xs pre i a,
    At-value d v xs pre i a,
    At-room _ pre i a,
    a.valid,
    length-append v (encode xs),
  )

  pub get_loop :
      (c dlen : ℕ) (items : List Item) (pre : Bytes) (i : ℕ) (dbuf : Bytes) (fuel : ℕ)
      → At items pre i
      → length (encode items) < fuel
      → loop fuel (get_round buf size c dlen) (i, dbuf) ≡ some (collect c dlen dbuf items)
  get_loop c dlen items pre i dbuf zero a f = elim f [ ]
  get_loop c dlen [] pre i dbuf (suc fuel) a f =
      loop_stop (get_round buf size c dlen) fuel (i, dbuf) dbuf
        (unfold get_round in ground (arith, At-end pre i a, At-room [] pre i a))
  get_loop c dlen (pad ∷ xs) pre i dbuf (suc fuel) a f =
      loop_next (get_round buf size c dlen) fuel (i, dbuf) (i + 1, dbuf)
        (unfold get_round in ground (arith, At-pad xs pre i a, At-room _ pre i a))
      ∙ get_loop c dlen xs (pre ++ encode_item pad) (i + 1) dbuf fuel
          (At-next pad xs pre i (i + 1) a (omega arith)) (omega arith)
  get_loop c dlen (opt d v ∷ xs) pre i dbuf (suc fuel) a f =
      let j = i + (length v + 2) in
      let room = length-append v (encode xs) in
      let later = λ (out : Bytes).
        get_loop c dlen xs (pre ++ encode_item (opt d v)) j out fuel
          (At-next (opt d v) xs pre i j a (omega arith)) (omega (arith, room)) in
      let go = λ (out : Bytes) (e : get_round buf size c dlen (i, dbuf) ≡ some (next (j, out))).
        loop_next (get_round buf size c dlen) fuel (i, dbuf) (j, out) e ∙ later out in
      elim (Bool-cases (d == c)) [
        | inr other ↦ rw other (go dbuf (get_opt c dlen d v xs pre i dbuf a ∙ rw other))
        | inl same ↦ elim (Bool-cases (ltb dlen (length v + length dbuf))) [
          | inl full ↦
              rw (same, full)
                (loop_stop (get_round buf size c dlen) fuel (i, dbuf) dbuf
                  (get_opt c dlen d v xs pre i dbuf a ∙ rw (same, full)))
          | inr fits ↦
              rw (same, fits)
                (go (dbuf ++ v) (get_opt c dlen d v xs pre i dbuf a ∙ rw (same, fits)))
        ]
      ]
