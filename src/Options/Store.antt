-- ===== src/Options/Store.antt =====
-- What the writers of src/options.c do to a packet whose `options[]` holds a list of options.
use ndhc.Common.{
  ℕ, ◌+◌, ◌≤◌, ◌<◌, ◌≡◌, ◌⊎◌, ◌∙◌, refl, ap, sym, Bytes, Option, some, List, [], ◌∷◌, ◌++◌, length,
  length-append, append_assoc, append-nil, arith, write, write_all, write-at, write_all-at,
  write_all_one, split_room, ◌>>=◌, be16, be32,
}
use ndhc.Options.Append.{add_option_string, add_u8_option, add_u16_option, add_u32_option}
use ndhc.Options.Dcode
use ndhc.Options.Items.{Item, opt, encode, encode_item, IsItem, AllItems, Holds}
use ndhc.Options.Lookup.{get_end_option_idx_lem}
use ndhc.Options.Packet.{Dhcpmsg, options_size}

pub encode-append : (xs ys : List Item) → encode (xs ++ ys) ≡ encode xs ++ encode ys
encode-append [] ys = refl
encode-append (x ∷ xs) ys = rw (encode-append xs ys) (sym (append_assoc (encode_item x) _ _))

AllItems-append : (xs : List Item) (x : Item) → AllItems xs → IsItem x → AllItems (xs ++ x ∷ [])
AllItems-append [] x h i = (i, tt)
AllItems-append (y ∷ xs) x h i = (h.0, AllItems-append xs x h.1 i)

-- The stores of one option behind the others, with the end marker after it.
stores : Bytes → ℕ → ℕ → Bytes → Option Bytes
stores buf end c v = do
  o1 ← write buf end c
  o2 ← write o1 (end + 1) (length v)
  o3 ← write_all o2 (end + 2) v
  write o3 (end + (2 + length v)) Dcode.end

stores_one :
    (buf : Bytes) (end c v : ℕ)
    → stores buf end c (v ∷ []) ≡ (do
      o1 ← write buf end c
      o2 ← write o1 (end + 1) 1
      o3 ← write o2 (end + 2) v
      write o3 (end + 3) Dcode.end)
unfolding stores
stores_one buf end c v = simp write_all_one

module _ (size : ℕ) (buf : Bytes) (items : List Item) (h : Holds size buf items) where
  stores-Holds :
      (c : ℕ) (v : Bytes)
      → IsItem (opt c v)
      → length (encode items) + (2 + length v) < size
      → (o : Bytes) × (stores buf (length (encode items)) c v ≡ some o)
        × Holds size o (items ++ opt c v ∷ [])
  unfolding stores
  stores-Holds c v i room =
      let e = encode items in
      let known = length-append e (Dcode.end ∷ h.rest) in
      let (a, z, old, r3, split, l2) =
        split_room (length v) h.rest (omega (arith, ap length h.layout, h.fits, known)) in
      let p1 = e ++ (c ∷ []) in
      let p2 = e ++ (c ∷ length v ∷ []) in
      let p3 = e ++ (c ∷ length v ∷ v) in
      let o1 = e ++ (c ∷ a ∷ (old ++ (z ∷ r3))) in
      let o2 = p1 ++ (length v ∷ (old ++ (z ∷ r3))) in
      let o3 = p2 ++ (v ++ (z ∷ r3)) in
      let o4 = p3 ++ (Dcode.end ∷ r3) in
      let s1 : write buf (length e) c ≡ some o1 =
        write-at buf e (a ∷ (old ++ (z ∷ r3))) Dcode.end c (length e)
          (h.layout ∙ ap (λ r. e ++ (Dcode.end ∷ r)) split) refl in
      let s2 : write o1 (length e + 1) (length v) ≡ some o2 =
        write-at o1 p1 (old ++ (z ∷ r3)) a (length v) (length e + 1) (simp append_assoc)
          (omega (arith, length-append e (c ∷ []))) in
      let s3 : write_all o2 (length e + 2) v ≡ some o3 =
        write_all-at v old o2 p2 (z ∷ r3) (length e + 2) (simp append_assoc) l2
          (omega (arith, length-append e (c ∷ length v ∷ []))) in
      let s4 : write o3 (length e + (2 + length v)) Dcode.end ≡ some o4 =
        write-at o3 p3 r3 z Dcode.end (length e + (2 + length v)) (simp append_assoc)
          (omega (arith, length-append e (c ∷ length v ∷ v))) in
      (
        o4,
        rw (s1, s2, s3, s4),
        record {
          valid = AllItems-append items (opt c v) h.valid i;
          rest = r3;
          layout = rw encode-append (simp (append_assoc, append-nil));
          fits = omega (
            arith,
            ap length h.layout,
            h.fits,
            known,
            ap length split,
            l2,
            length-append old (z ∷ r3),
            length-append p3 (Dcode.end ∷ r3),
            length-append e (c ∷ length v ∷ v),
          );
        },
      )

-- The result of a writer that appends one option behind the others, and changes nothing else.
abbrev pub Adds : Dhcpmsg → List Item → ℕ → Bytes → Option (Dhcpmsg × ℕ) → Type 0
Adds packet items c v result =
    (o : Bytes) × (result ≡ some (record packet { options = o }, 2 + length v))
    × Holds options_size o (items ++ opt c v ∷ [])

module _ (packet : Dhcpmsg) (items : List Item) (h : Holds options_size packet.options items) where
  abbrev Fits : ℕ → Type 0
  Fits n = length (encode items) + (2 + n) < options_size

  -- In a packet that holds a list of options, a string of at most 255 octets that fits, and whose
  -- code is neither a pad nor an end, is appended as one option, with the end marker behind it.
  pub add_option_string_lem :
      (c : ℕ) (v : Bytes)
      → IsItem (opt c v)
      → length v ≤ 255
      → length (encode items) + (2 + length v) < options_size
      → Adds packet items c v (add_option_string packet c v)
  unfolding add_option_string stores
  add_option_string_lem c v i short room =
      let (o, e, ho) = stores-Holds options_size packet.options items h c v i room in
      (o, ground (arith, e, get_end_option_idx_lem packet items h), ho)

  -- In a packet that holds a list of options, an option of one octet that fits, and whose code is
  -- neither a pad nor an end, is appended behind the others.
  pub add_u8_option_lem :
      (c v : ℕ)
      → IsItem (opt c [])
      → length (encode items) + 3 < options_size
      → Adds packet items c (v ∷ []) (add_u8_option packet c v)
  unfolding add_u8_option
  add_u8_option_lem c v i room =
      let (o, e, ho) =
        stores-Holds options_size packet.options items h c (v ∷ []) i (omega arith) in
      (o, ground (arith, rw stores_one at e, get_end_option_idx_lem packet items h), ho)

  -- In a packet that holds a list of options, an option of two octets in network order that fits,
  -- and whose code is neither a pad nor an end, is appended behind the others.
  pub add_u16_option_lem :
      (c v : ℕ)
      → IsItem (opt c [])
      → length (encode items) + 4 < options_size
      → Adds packet items c (be16 v) (add_u16_option packet c v)
  unfolding add_u16_option stores
  add_u16_option_lem c v i room =
      let (o, e, ho) =
        stores-Holds options_size packet.options items h c (be16 v) i (omega arith) in
      (o, ground (arith, e, get_end_option_idx_lem packet items h), ho)

  -- In a packet that holds a list of options, an option of four octets in network order that fits,
  -- and whose code is neither a pad nor an end, is appended behind the others.
  pub add_u32_option_lem :
      (c v : ℕ)
      → IsItem (opt c [])
      → length (encode items) + 6 < options_size
      → Adds packet items c (be32 v) (add_u32_option packet c v)
  unfolding add_u32_option stores
  add_u32_option_lem c v i room =
      let (o, e, ho) =
        stores-Holds options_size packet.options items h c (be32 v) i (omega arith) in
      (o, ground (arith, e, get_end_option_idx_lem packet items h), ho)

  -- In a packet that holds a list of options, a string that is longer than 255 octets, or that
  -- does not fit, leaves the packet as it was.
  add_option_string_refused :
      (c : ℕ) (v : Bytes)
      → (255 < length v) ⊎ (options_size ≤ length (encode items) + (2 + length v))
      → add_option_string packet c v ≡ some (packet, 0)
  unfolding add_option_string
  add_option_string_refused c v no_room = ground (arith, get_end_option_idx_lem packet items h)
