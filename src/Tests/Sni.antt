-- ===== src/Tests/Sni.antt =====
-- A ClientHello with a host name behind another extension and another name, for both readers.
use sni_router.Prelude.{◌≡◌, refl, [], ◌∷◌, ◌++◌, some, Option, arith}
use sni_router.Prelude.Outcomes.{Bytes, ok, err, Post, run_steps}
use sni_router.Sni.{extract_sni, truncated_body}
use sni_router.Sni.Safety.{extract_sni-Post}
use sni_router.Sni.Written.{Hello, write_hello, IsWritable}
use sni_router.Sni.RoundTrip.{extract_sni-write_hello}
use sni_router.Sni.Http3.{extract_tls_sni, extract_tls_sni-extract_sni}

abbrev ten_zeros : Bytes
ten_zeros = 0 ∷ 0 ∷ 0 ∷ 0 ∷ 0 ∷ 0 ∷ 0 ∷ 0 ∷ 0 ∷ 0 ∷ []

-- The host name is "a.se".
abbrev sample_hello : Hello
sample_hello = record {
  opening = 3 ∷ 3 ∷ 0 ∷ 0 ∷ (ten_zeros ++ (ten_zeros ++ ten_zeros));
  session_id = 5 ∷ [];
  cipher_suites = 0x13 ∷ 0x01 ∷ [];
  compression = 0 ∷ [];
  earlier_extensions = (16, 0 ∷ 0 ∷ []) ∷ [];
  later_extensions = [];
  earlier_names = (1, 9 ∷ []) ∷ [];
  later_names = [];
  host = 97 ∷ 46 ∷ 115 ∷ 101 ∷ [];
}

extract_sni-truncated : extract_sni (λ x. x) (1 ∷ 0 ∷ 0 ∷ 1 ∷ []) ≡ err truncated_body
unfolding run_steps extract_sni
extract_sni-truncated = refl

extract_sni-runs :
    extract_sni (λ x. x) (write_hello sample_hello) ≡ ok (some (97 ∷ 46 ∷ 115 ∷ 101 ∷ []))
unfolding run_steps extract_sni
extract_sni-runs = refl

sample_hello-IsWritable : IsWritable sample_hello
sample_hello-IsWritable = record {
  opening_size = refl;
  ciphers_even = refl;
  ciphers_size = omega arith;
  other_extensions = (λ e. omega arith, omega arith, omega arith, tt);
  other_names = (λ e. omega arith, omega arith, omega arith, tt);
  host_size = omega arith;
  list_size = omega arith;
  block_size = omega arith;
  body_size = omega arith;
}

extract_sni-write_hello_example :
    extract_sni (λ x. x) (write_hello sample_hello) ≡ ok (some (97 ∷ 46 ∷ 115 ∷ 101 ∷ []))
extract_sni-write_hello_example =
    extract_sni-write_hello (λ x. x) sample_hello sample_hello-IsWritable

extract_sni-Post_example :
    Post {A = Option Bytes} (λ _. Unit {0}) (extract_sni (λ x. x) (write_hello sample_hello))
extract_sni-Post_example = extract_sni-Post (λ x. x) (write_hello sample_hello)

extract_tls_sni-extract_sni_example :
    extract_tls_sni (λ (x : Bytes). x) (write_hello sample_hello)
    ≡ extract_sni (λ x. x) (write_hello sample_hello)
extract_tls_sni-extract_sni_example =
    extract_tls_sni-extract_sni (λ x. x) (write_hello sample_hello)
