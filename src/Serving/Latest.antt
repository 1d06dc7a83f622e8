-- ===== src/Serving/Latest.antt =====
-- Each connection is served under the configuration that was loaded last before it.
use sni_router.Prelude.{ℕ, suc, ◌+◌, ◌≡◌, ap, ◌∙◌, List, [], ◌∷◌, ◌++◌, some, get_elem?, arith}
use sni_router.Prelude.Outcomes.{ok, err, panic, out_of_fuel}
use sni_router.Serving.{Wake, accepted, hup, mainloop}

module _ {Config Accepted : Type 0} where
  -- How many connections are accepted.
  abbrev pub count : List (Wake Config Accepted) → ℕ
  count [] = 0
  count (accepted conn ∷ wakes) = suc (count wakes)
  count (hup loaded ∷ wakes) = count wakes

  -- The last configuration that a signal has loaded, or the first one.
  abbrev pub latest : Config → List (Wake Config Accepted) → Config
  latest config [] = config
  latest config (accepted conn ∷ wakes) = latest config wakes
  latest config (hup (ok c) ∷ wakes) = latest c wakes
  latest config (hup (err e) ∷ wakes) = latest config wakes
  latest config (hup panic ∷ wakes) = latest config wakes
  latest config (hup out_of_fuel ∷ wakes) = latest config wakes

  -- The connection behind any connections and signals is served by the task in the order of the connections, with a
  -- number that is greater by one from task to task, under the configuration that the last signal that could load one
  -- has loaded, or the first configuration where none could.
  pub mainloop-latest :
      (config : Config) (id : ℕ) (before after : List (Wake Config Accepted)) (conn : Accepted)
      → get_elem? (mainloop config id (before ++ accepted conn ∷ after)) (count before)
        ≡ some (record { id = (id + count before); config = (latest config before); conn = conn })
  unfolding mainloop
  mainloop-latest config id [] after conn =
      ap (λ n. some (record { id = n; config = config; conn = conn })) (omega arith)
  mainloop-latest config id (accepted conn' ∷ before) after conn =
      mainloop-latest config (id + 1) before after conn
      ∙ ap (λ n. some (record { id = n; config = (latest config before); conn = conn }))
          (omega arith)
  mainloop-latest config id (hup (ok c) ∷ before) after conn =
      mainloop-latest c id before after conn
  mainloop-latest config id (hup (err e) ∷ before) after conn =
      mainloop-latest config id before after conn
  mainloop-latest config id (hup panic ∷ before) after conn =
      mainloop-latest config id before after conn
  mainloop-latest config id (hup out_of_fuel ∷ before) after conn =
      mainloop-latest config id before after conn
