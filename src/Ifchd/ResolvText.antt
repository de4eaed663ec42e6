-- ===== src/Ifchd/ResolvText.antt =====
-- The text that `write_resolve_conf` of src/ifchd.c gives to resolv.conf.
use ndhc.Common.{
  ℕ, zero, suc, ◌+◌, ◌≤◌, Bytes, false, Option, some, List, [], ◌∷◌, ◌++◌, ◌≡◌, ◌≢◌, refl, ap,
  append_assoc, arith, length, take, ◌==◌, ltb,
}
use ndhc.Common.Process.{returned}
use ndhc.Ifchd.Resolv.{
  pieces, before_comma, newline, ns_str, dom_str, srch_str, nameserver_writes, domain_writes,
  write_contents, write_resolve_conf, cut_strings, perform_dns, perform_domain, max_buf,
}
use ndhc.Ifchd.Appends.{
  Works, concat, contents, writeordie-Appends, writeordie_all-Appends, write_append_fd-Appends,
  finish_resolve_conf_lem,
}
use ndhc.Ifchd.World.{Ifch, ok}

-- A line for each name server.
unfoldable pub nameserver_lines : List Bytes → Bytes
nameserver_lines [] = []
nameserver_lines (p ∷ ps) = ns_str ++ (p ++ (newline ++ nameserver_lines ps))

unfoldable pub spaced : List Bytes → Bytes
spaced [] = []
spaced (d ∷ ds) = b' ' ∷ (d ++ spaced ds)

unfoldable pub search_line : List Bytes → Bytes
unfolding spaced
search_line [] = []
search_line (d ∷ ds) = newline ++ (srch_str ++ (d ++ spaced ds))

-- The first domain, and a line to search for at most six others.
unfoldable pub domain_lines : List Bytes → Bytes
unfolding search_line
domain_lines [] = []
domain_lines (d ∷ ds) = dom_str ++ (d ++ search_line (take 6 ds))

-- The whole file, between the texts of the files for its head and its tail.
abbrev pub resolv_text : Option Bytes → List Bytes → List Bytes → Option Bytes → Bytes
resolv_text head namesvrs domains tail =
    contents head
    ++ (nameserver_lines namesvrs ++ (domain_lines domains ++ (newline ++ contents tail)))

nameserver_writes_lem : (ps : List Bytes) → concat (nameserver_writes ps) ≡ nameserver_lines ps
unfolding nameserver_writes nameserver_lines concat
nameserver_writes_lem [] = refl
nameserver_writes_lem (p ∷ ps) =
    ap (λ t. ns_str ++ (p ++ (newline ++ t))) (nameserver_writes_lem ps)

-- Behind the second domain, `m` more are written.
domain_writes-spaced :
    (m numdoms : ℕ) (ps : List Bytes)
    → numdoms + suc m ≡ 7
    → 2 ≤ numdoms
    → concat (domain_writes numdoms ps) ≡ spaced (take (suc m) ps)
unfolding domain_writes spaced concat
domain_writes-spaced m numdoms [] e h = refl
domain_writes-spaced zero numdoms (p ∷ ps) e h = let six : numdoms ≡ 6 = omega arith in rw six refl
domain_writes-spaced (suc m) numdoms (p ∷ ps) e h =
    let first : (numdoms == 0) ≡ false = ground arith in
    let second : (numdoms == 1) ≡ false = ground arith in
    let last : ltb 6 (numdoms + 1) ≡ false = ground arith in
    rw (first, second, last)
      (ap (λ t. b' ' ∷ (p ++ t))
        (domain_writes-spaced m (numdoms + 1) ps (omega arith) (omega arith)))

domain_writes_lem : (ps : List Bytes) → concat (domain_writes 0 ps) ≡ domain_lines ps
unfolding domain_writes domain_lines search_line concat
domain_writes_lem [] = refl
domain_writes_lem (d ∷ []) = refl
domain_writes_lem (d ∷ s ∷ ps) =
    ap (λ t. dom_str ++ (d ++ (newline ++ (srch_str ++ (s ++ t)))))
      (domain_writes-spaced 4 2 ps refl (omega arith))

text :
    (namesvrs domains head tail : Bytes)
    → (((head ++ concat (nameserver_writes (pieces namesvrs)))
            ++ concat (domain_writes 0 (pieces domains)))
          ++ newline)
        ++ tail
      ≡ head
        ++ (nameserver_lines (pieces namesvrs)
            ++ (domain_lines (pieces domains) ++ (newline ++ tail)))
text namesvrs domains head tail = simp (nameserver_writes_lem, domain_writes_lem, append_assoc) refl

fits_buffer : (str : Bytes) → length str ≤ 1024 → ltb max_buf (length str) ≡ false
fits_buffer str h = ground (arith, h)

-- The file before is `file`, which the text replaces.
write_contents_lem :
    (w : Ifch) (works : Works w.kernel) (file namesvrs domains : Bytes) (head tail : Option Bytes)
    (n : ℕ)
    → (n' : ℕ) × (write_contents namesvrs domains head tail
          (record w { resolv_conf = some file; tick = n })
        ≡ returned ok (record w {
          namesvrs = before_comma namesvrs;
          domains = before_comma domains;
          resolv_conf = some (resolv_text head (pieces namesvrs) (pieces domains) tail);
          tick = n';
        }))
unfolding write_contents cut_strings
write_contents_lem w works file namesvrs domains head tail n =
    let ns = nameserver_writes (pieces namesvrs) in
    let ds = domain_writes 0 (pieces domains) in
    let t1 = contents head in
    let t2 = t1 ++ concat ns in
    let t3 = t2 ++ concat ds in
    let t4 = t3 ++ newline in
    let t5 = t4 ++ contents tail in
    let (r1, n1, e1) = write_append_fd-Appends w works head [] file n in
    let (r2, n2, e2) = writeordie_all-Appends w works ns t1 r1 n1 in
    let (r3, n3, e3) = writeordie_all-Appends w works ds t2 r2 n2 in
    let (r4, n4, e4) = writeordie-Appends w works newline t3 r3 n3 in
    let (r5, n5, e5) = write_append_fd-Appends w works tail t4 r4 n4 in
    let w' = record w { namesvrs = before_comma namesvrs; domains = before_comma domains } in
    let (n6, e6) = finish_resolve_conf_lem w' works t5 r5 n5 in
    (n6, rw (e1, e2, e3, e4, e5, e6, text namesvrs domains (contents head) (contents tail)) refl)

not_empty : (n c : ℕ) (cs : Bytes) → take (suc n) (c ∷ cs) ≢ []
not_empty n c cs e = cc

module _ (w : Ifch) (works : Works w.kernel) where
  write_resolve_conf_lem :
      (file namesvrs domains : Bytes)
      → namesvrs ≢ []
      → (n : ℕ) × (write_resolve_conf
            (record w { namesvrs = namesvrs; domains = domains; resolv_conf = some file })
          ≡ returned ok (record w {
            namesvrs = before_comma namesvrs;
            domains = before_comma domains;
            resolv_conf = some (resolv_text w.head (pieces namesvrs) (pieces domains) w.tail);
            tick = n;
          }))
  unfolding write_resolve_conf
  write_resolve_conf_lem file [] domains some_str = absurd (some_str refl)
  write_resolve_conf_lem file (c ∷ cs) domains some_str = rw (works.lseek w.tick) (
      write_contents_lem (record w { namesvrs = c ∷ cs; domains = domains }) works file (c ∷ cs)
        domains w.head w.tail (w.tick + 1))

  -- Where every call on files works, and for a list of name servers that is not empty and has at most
  -- 1024 octets: `perform_dns` gives resolv.conf, whatever it held, the text with a line for each name
  -- server, the first domain, and at most six others to search; of the list and of the domains only
  -- the part before the first comma is kept.
  pub perform_dns_lem :
      (file str : Bytes)
      → str ≢ []
      → length str ≤ 1024
      → (n : ℕ) × (perform_dns str (record w { resolv_conf = some file })
          ≡ returned ok (record w {
            namesvrs = before_comma (take 1023 str);
            domains = before_comma w.domains;
            resolv_conf =
                some (resolv_text w.head (pieces (take 1023 str)) (pieces w.domains) w.tail);
            tick = n;
          }))
  unfolding perform_dns
  perform_dns_lem file [] some_str fits = absurd (some_str refl)
  perform_dns_lem file (c ∷ cs) some_str fits =
      rw (fits_buffer (c ∷ cs) fits)
        (write_resolve_conf_lem file (take 1023 (c ∷ cs)) w.domains (not_empty 1022 c cs))

  pub perform_domain_lem :
      (file str : Bytes)
      → w.namesvrs ≢ []
      → length str ≤ 1024
      → (n : ℕ) × (perform_domain str (record w { resolv_conf = some file })
          ≡ returned ok (record w {
            namesvrs = before_comma w.namesvrs;
            domains = before_comma (take 1023 str);
            resolv_conf =
                some (resolv_text w.head (pieces w.namesvrs) (pieces (take 1023 str)) w.tail);
            tick = n;
          }))
  unfolding perform_domain
  perform_domain_lem file str some_str fits =
      rw (fits_buffer str fits) (write_resolve_conf_lem file w.namesvrs (take 1023 str) some_str)
