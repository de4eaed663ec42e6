-- ===== src/Tests/Resolv.antt =====
-- The theorems on resolv.conf, at concrete texts.
use ndhc.Common.{ℕ, ◌≢◌, take, Bytes, none, some, [], ◌∷◌, ◌≡◌, refl, arith}
use ndhc.Common.Process.{returned, ◌>>=◌}
use ndhc.Ifchd.Appends.{Works}
use ndhc.Ifchd.Resolv.{perform_dns, perform_domain, before_comma, pieces}
use ndhc.Ifchd.ResolvText.{resolv_text, perform_dns_lem}
use ndhc.Ifchd.ResolvAgain.{perform_dns-domain}
use ndhc.Ifchd.World.{ok}
use ndhc.Tests.Ifchd.{kernel, ifch}

kernel-Works : Works kernel
kernel-Works = record {
  lseek = λ n. refl;
  read = λ n. refl;
  write = λ n. refl;
  ftruncate = λ n. refl;
  fsync = λ n. refl;
}

-- "9.9.9.9,8.8.8.8", the first of them, and "a,b".
abbrev two_servers : Bytes
two_servers =
    b'9' ∷ b'.' ∷ b'9' ∷ b'.' ∷ b'9' ∷ b'.' ∷ b'9' ∷ b',' ∷ b'8' ∷ b'.' ∷ b'8' ∷ b'.' ∷ b'8' ∷ b'.'
    ∷ b'8' ∷ []

abbrev one_server : Bytes
one_server = b'9' ∷ b'.' ∷ b'9' ∷ b'.' ∷ b'9' ∷ b'.' ∷ b'9' ∷ []

abbrev two_domains : Bytes
two_domains = b'a' ∷ b',' ∷ b'b' ∷ []

dns_example :
    (n : ℕ) × (perform_dns two_servers (record ifch { resolv_conf = some [] })
      ≡ returned ok (record ifch {
        namesvrs = before_comma two_servers;
        domains = before_comma [];
        resolv_conf = some (resolv_text none (pieces two_servers) (pieces []) none);
        tick = n;
      }))
dns_example = perform_dns_lem ifch kernel-Works [] two_servers (λ e. cc) (omega arith)

first_server : before_comma (take 1023 two_servers) ≢ []
unfolding before_comma
first_server e = cc

dns_domain_example :
    (n : ℕ) × ((perform_dns two_servers >>= λ _. perform_domain two_domains)
        (record ifch { resolv_conf = some [] })
      ≡ returned ok (record ifch {
        namesvrs = one_server;
        domains = b'a' ∷ [];
        resolv_conf =
            some (resolv_text none (one_server ∷ []) ((b'a' ∷ []) ∷ (b'b' ∷ []) ∷ []) none);
        tick = n;
      }))
unfolding before_comma pieces
dns_domain_example =
    perform_dns-domain ifch kernel-Works [] two_servers two_domains first_server (omega arith)
      (omega arith)
