-- ===== src/Ifchd/ResolvAgain.antt =====
-- A second rewrite of resolv.conf by `write_resolve_conf` of src/ifchd.c, which has put a NUL where a
-- comma was.
use ndhc.Common.{
  ℕ, ◌≤◌, Bytes, false, some, List, [], ◌∷◌, ◌≡◌, ◌≢◌, refl, ap, ◌∙◌, inl, inr, ◌==◌, Bool-cases,
  length, take,
}
use ndhc.Common.Process.{returned, ◌>>=◌, bind-returned}
use ndhc.Ifchd.Appends.{Works}
use ndhc.Ifchd.Resolv.{pieces, before_comma, perform_dns, perform_domain}
use ndhc.Ifchd.ResolvText.{resolv_text, perform_dns_lem, perform_domain_lem}
use ndhc.Ifchd.World.{Ifch, ok}

-- At most one string.
abbrev only : Bytes → List Bytes
only [] = []
only (c ∷ cs) = (c ∷ cs) ∷ []

cons_first-only :
    (c : ℕ) (s : Bytes) → (c == b',') ≡ false → pieces s ≡ only s → pieces (c ∷ s) ≡ (c ∷ s) ∷ []
unfolding pieces
cons_first-only c [] e h = rw e refl
cons_first-only c (d ∷ s) e h = rw (e, h) refl

pieces-before_comma : (s : Bytes) → pieces (before_comma s) ≡ only (before_comma s)
unfolding before_comma pieces
pieces-before_comma [] = refl
pieces-before_comma (c ∷ cs) = elim (Bool-cases (c == b',')) [
  | inl e ↦ rw e refl
  | inr e ↦ rw e (cons_first-only c (before_comma cs) e (pieces-before_comma cs))
]

before_comma_twice : (s : Bytes) → before_comma (before_comma s) ≡ before_comma s
unfolding before_comma
before_comma_twice [] = refl
before_comma_twice (c ∷ cs) = elim (Bool-cases (c == b',')) [
  | inl e ↦ rw e refl
  | inr e ↦ rw (e, e) (ap (◌∷◌ c) (before_comma_twice cs))
]

only-some : (s : Bytes) → s ≢ [] → only s ≡ s ∷ []
only-some [] h = absurd (h refl)
only-some (c ∷ cs) h = refl

before_comma-some : (ns : Bytes) → before_comma (take 1023 ns) ≢ [] → ns ≢ []
unfolding before_comma
before_comma-some [] h e = h refl
before_comma-some (c ∷ cs) h e = cc

-- Where every call on files works, for a list of name servers and one of domains of at most 1024
-- octets, and a first name server that is not the empty text: after `perform_dns` and then
-- `perform_domain`, the file has a line for the first name server alone, whatever the list held
-- behind it, with the lines for all the domains.
pub perform_dns-domain :
    (w : Ifch)
    → Works w.kernel
    → (file namesvrs domains : Bytes) → before_comma (take 1023 namesvrs) ≢ []
    → length namesvrs ≤ 1024
    → length domains ≤ 1024
    → let first = before_comma (take 1023 namesvrs) in
      (n : ℕ) × ((perform_dns namesvrs >>= λ _. perform_domain domains)
          (record w { resolv_conf = some file })
        ≡ returned ok (record w {
          namesvrs = first;
          domains = before_comma (take 1023 domains);
          resolv_conf = some (resolv_text w.head (first ∷ []) (pieces (take 1023 domains)) w.tail);
          tick = n;
        }))
perform_dns-domain w works file namesvrs domains some_first fits fits_too =
    let first = before_comma (take 1023 namesvrs) in
    let (n, e) =
      perform_dns_lem w works file namesvrs (before_comma-some namesvrs some_first) fits in
    let w' = record w { namesvrs = first; domains = before_comma w.domains; tick = n } in
    let before = resolv_text w.head (pieces (take 1023 namesvrs)) (pieces w.domains) w.tail in
    let (m, g) = perform_domain_lem w' works before domains some_first fits_too in
    (
      m,
      bind-returned (perform_dns namesvrs) (λ _. perform_domain domains) ok
            (record w { resolv_conf = some file }) (record w' { resolv_conf = some before }) e
          ∙ g
          ∙ rw
              (
                before_comma_twice (take 1023 namesvrs),
                pieces-before_comma (take 1023 namesvrs),
                only-some first some_first,
              )
              refl,
    )
