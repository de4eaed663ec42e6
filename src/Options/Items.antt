-- ===== src/Options/Items.antt =====
-- An abstract view of an option field: a list of options, with pads between them. The functions
-- below say on that list what RFC 2132 and RFC 3396 mean, with no index and no buffer.
use ndhc.Common.{
  ℕ, ◌+◌, ◌≤◌, ◌≡◌, ◌≢◌, Bytes, not, ◌&&◌, List, [], ◌∷◌, ◌++◌, length, ltb, ◌==◌, if◌then◌else◌,
  bit_or, length-append, arith, sym, append_assoc, append-nil,
}
use ndhc.Options.Dcode
use ndhc.Options.Scan.{has_bit}

pub data Item : Type 0 where
  pad : Item
  opt : ℕ → Bytes → Item

abbrev pub encode_item : Item → Bytes
encode_item pad = Dcode.padding ∷ []
encode_item (opt c v) = c ∷ length v ∷ v

abbrev pub encode : List Item → Bytes
encode [] = []
encode (x ∷ xs) = encode_item x ++ encode xs

-- A code that is neither the pad nor the end.
abbrev pub IsItem : Item → Type 0
IsItem pad = Unit
IsItem (opt c v) = (c ≢ Dcode.padding) × (c ≢ Dcode.end)

abbrev pub AllItems : List Item → Type 0
AllItems [] = Unit
AllItems (x ∷ xs) = IsItem x × AllItems xs

-- A field of `size` octets begins with the encoding of `items` and an end marker.
pub record Holds (size : ℕ) (buf : Bytes) (items : List Item) : Type 0 where
  pub valid : AllItems items
  pub rest : Bytes
  pub layout : buf ≡ encode items ++ (Dcode.end ∷ rest)
  pub fits : length buf ≡ size

-- What one option adds to the overload bits.
abbrev pub overload_of : ℕ → Bytes → ℕ → ℕ
overload_of c (v ∷ []) ol = if c == Dcode.overload then bit_or ol v else ol
overload_of c _ ol = ol

abbrev pub overloads : ℕ → List Item → ℕ
overloads ol [] = ol
overloads ol (pad ∷ xs) = overloads ol xs
overloads ol (opt c v ∷ xs) = overloads (overload_of c v ol) xs

-- The values of an option, joined, behind what is there already; it stops where one does not fit.
abbrev pub collect : ℕ → ℕ → Bytes → List Item → Bytes
collect c dlen dbuf [] = dbuf
collect c dlen dbuf (pad ∷ xs) = collect c dlen dbuf xs
collect c dlen dbuf (opt d v ∷ xs) =
    let skip = collect c dlen dbuf xs in
    let take = collect c dlen (dbuf ++ v) xs in
    if not (d == c) then skip else if ltb dlen (length v + length dbuf) then dbuf else take

-- The values of an option, joined (RFC 3396).
abbrev pub values : ℕ → List Item → Bytes
values c [] = []
values c (pad ∷ xs) = values c xs
values c (opt d v ∷ xs) = if d == c then v ++ values c xs else values c xs

pub collect-values :
    (c dlen : ℕ) (dbuf : Bytes) (xs : List Item)
    → length dbuf + length (values c xs) ≤ dlen
    → collect c dlen dbuf xs ≡ dbuf ++ values c xs
collect-values c dlen dbuf [] h = sym (append-nil dbuf)
collect-values c dlen dbuf (pad ∷ xs) h = collect-values c dlen dbuf xs h
collect-values c dlen dbuf (opt d v ∷ xs) h = ground (
  arith,
  collect-values c dlen dbuf xs,
  collect-values c dlen (dbuf ++ v) xs,
  length-append dbuf v,
  length-append v (values c xs),
  append_assoc dbuf v (values c xs),
)

-- The overload bits of a packet with these items in `options[]`, `file[]` and `sname[]`.
unfoldable pub overload_items : List Item → List Item → List Item → ℕ
overload_items o f s =
    let ol = overloads 0 o in
    if has_bit ol 1 && has_bit ol 2
    then ol
    else if has_bit ol 1
    then bit_or ol (overloads ol f)
    else if has_bit ol 2
    then bit_or ol (overloads ol s)
    else ol

-- The value of an option: from `options[]`, then from `file[]` and `sname[]` as overloaded.
unfoldable pub lookup_items : ℕ → ℕ → List Item → List Item → List Item → Bytes
lookup_items c dlen o f s =
    let ol = overload_items o f s in
    let d0 = collect c dlen [] o in
    let d1 = if has_bit ol 1 then collect c dlen d0 f else d0 in
    if has_bit ol 2 then collect c dlen d1 s else d1
