-- ===== src/Serving.antt =====
-- `mainloop` of src/main.rs: the connections that it accepts and the signals to load the configuration again, in the
-- order in which they come. A task is given its number and the configuration of its time.
pub mod Latest
use sni_router.Prelude.{ℕ, ◌+◌, List, [], ◌∷◌}
use sni_router.Prelude.Outcomes.{Outcome, ok, err, panic, out_of_fuel}
use sni_router.Loading.{LoadError}

-- A connection, or SIGHUP with what `load_config` then returns.
pub data Wake (Config Accepted : Type 0) : Type 0 where
  accepted : Accepted → Wake Config Accepted
  hup : Outcome LoadError Config → Wake Config Accepted

pub record Task (Config Accepted : Type 0) : Type 0 where
  pub id : ℕ
  pub config : Config
  pub conn : Accepted

-- The configuration stays where the new one is not loaded.
abbrev pub reloaded : {Config : Type 0} → Outcome LoadError Config → Config → Config
reloaded (ok c) config = c
reloaded (err e) config = config
reloaded panic config = config
reloaded out_of_fuel config = config

-- The tasks that are spawned.
unfoldable pub mainloop :
    {Config Accepted : Type 0}
    → Config
    → ℕ
    → List (Wake Config Accepted)
    → List (Task Config Accepted)
mainloop config id [] = []
mainloop config id (accepted conn ∷ wakes) =
    record { id = id; config = config; conn = conn } ∷ mainloop config (id + 1) wakes
mainloop config id (hup loaded ∷ wakes) = mainloop (reloaded loaded config) id wakes
