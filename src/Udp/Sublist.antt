-- ===== src/Udp/Sublist.antt =====
-- Datagrams in order, with some left out.
use sni_router.Prelude.{◌≡◌, refl, ap, List, [], ◌∷◌, ◌++◌, length, length-append, arith}
use sni_router.Udp.{QueuedDatagram}

-- The first list is the second with some entries left out.
pub data IsSublist : List QueuedDatagram → List QueuedDatagram → Type 0 where
  empty : IsSublist [] []
  keep :
      {ds es : List QueuedDatagram} (d : QueuedDatagram)
      → IsSublist ds es
      → IsSublist (d ∷ ds) (d ∷ es)
  skip :
      {ds es : List QueuedDatagram} (d : QueuedDatagram) → IsSublist ds es → IsSublist ds (d ∷ es)

pub keep_last :
    {ds es : List QueuedDatagram} (d : QueuedDatagram)
    → IsSublist ds es
    → IsSublist (ds ++ d ∷ []) (es ++ d ∷ [])
keep_last d empty = keep d empty
keep_last d (keep e h) = keep e (keep_last d h)
keep_last d (skip e h) = skip e (keep_last d h)

pub skip_last :
    {ds es : List QueuedDatagram} (d : QueuedDatagram)
    → IsSublist ds es
    → IsSublist ds (es ++ d ∷ [])
skip_last d empty = skip d empty
skip_last d (keep e h) = keep e (skip_last d h)
skip_last d (skip e h) = skip e (skip_last d h)

nothing_left : {ds : List QueuedDatagram} → IsSublist ds [] → ds ≡ []
nothing_left empty = refl

pub leave_out :
    (front : List QueuedDatagram) (d : QueuedDatagram) (back es : List QueuedDatagram)
    → IsSublist (front ++ d ∷ back) es
    → IsSublist (front ++ back) es
leave_out front d back [] h = absurd (
    omega
      (arith, length-append front (d ∷ back), ap (length {A = QueuedDatagram}) (nothing_left h)))
leave_out [] d back (e ∷ es) (keep _ h) = skip d h
leave_out [] d back (e ∷ es) (skip _ h) = skip e (leave_out [] d back es h)
leave_out (f ∷ front) d back (e ∷ es) (keep _ h) = keep f (leave_out front d back es h)
leave_out (f ∷ front) d back (e ∷ es) (skip _ h) = skip e (leave_out (f ∷ front) d back es h)
