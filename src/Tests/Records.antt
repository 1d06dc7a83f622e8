-- ===== src/Tests/Records.antt =====
-- A ClientHello with an empty body in two records, of which the first is cut in two by the initial bytes.
use sni_router.Prelude.{◌≡◌, refl, [], ◌∷◌}
use sni_router.Prelude.Outcomes.{Bytes, ok, Post, run_steps}
use sni_router.Records.{clienthello, no_clienthello, unexpected_content_type, read_tls_clienthello}
use sni_router.Records.Replay.{Keeps, read_tls_clienthello-Post}

abbrev arrived : Bytes
arrived = 22 ∷ 3 ∷ 1 ∷ []

abbrev arriving : Bytes
arriving = 0 ∷ 1 ∷ 1 ∷ 22 ∷ 3 ∷ 1 ∷ 0 ∷ 3 ∷ 0 ∷ 0 ∷ 0 ∷ 99 ∷ []

read_tls_clienthello-runs :
    read_tls_clienthello arrived arriving
    ≡ ok (
      record {
        bytes = 22 ∷ 3 ∷ 1 ∷ 0 ∷ 1 ∷ 1 ∷ 22 ∷ 3 ∷ 1 ∷ 0 ∷ 3 ∷ 0 ∷ 0 ∷ 0 ∷ [];
        stream = 99 ∷ [];
      },
      clienthello (1 ∷ 0 ∷ 0 ∷ 0 ∷ []),
    )
unfolding run_steps read_tls_clienthello
read_tls_clienthello-runs = refl

read_tls_clienthello-other :
    read_tls_clienthello (71 ∷ 69 ∷ 84 ∷ 32 ∷ 47 ∷ []) []
    ≡ ok (
      record { bytes = 71 ∷ 69 ∷ 84 ∷ 32 ∷ 47 ∷ []; stream = [] },
      no_clienthello unexpected_content_type,
    )
unfolding run_steps read_tls_clienthello
read_tls_clienthello-other = refl

read_tls_clienthello-Post_example :
    Post
      (Keeps (record { bytes = arrived; stream = arriving }))
      (read_tls_clienthello arrived arriving)
read_tls_clienthello-Post_example = read_tls_clienthello-Post arrived arriving
