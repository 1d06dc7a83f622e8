-- ===== src/Router/Mainloop.antt =====
-- `mainloop` of src/bin/sni-router-h3.rs: the events that `select!` picks, one after another, and what follows an error.
pub mod Safety
use sni_router.Prelude.{ℕ, List, [], ◌∷◌, Option, none, some}
use sni_router.Prelude.Outcomes.{Bytes}
use sni_router.Net.{SocketAddr}
use sni_router.Router.{Library, World, Config, Limits, Router, new, set_config}
use sni_router.Router.Action.{Action, Ending, done, failed, panicked, pure, modify}
use sni_router.Router.Cleanup.{cleanup}
use sni_router.Router.Client.{handle_datagram}
use sni_router.Router.Reply.{handle_backend_datagram}

-- A datagram of a client, one of a path's backend, SIGHUP with what `load_config` gave, and the tick of 30 seconds.
pub data Event (lib : Library) : Type 1 where
  client : World → SocketAddr → Bytes → Event lib
  backend : World → ℕ → Bytes → Event lib
  hangup : Option (Config lib) → Event lib
  tick : World → Event lib

module _ {lib : Library} where
  -- `router.limits = opt.limits` of `main`
  unfoldable pub start : Config lib → ℕ → Limits → Router lib
  unfolding new
  start config idle_timeout limits = record (new config idle_timeout) { limits = limits }

  -- `match load_config(..).await { Ok(config) => set_config, Err(e) => error! }`
  abbrev pub reload : Option (Config lib) → Action lib (Unit {0})
  reload none = pure tt
  reload (some config) = modify (set_config config)

  unfoldable pub handle : Event lib → Action lib (Unit {0})
  handle (client w peer packet) = handle_datagram w peer packet
  handle (backend w id packet) = handle_backend_datagram w id packet
  handle (hangup loaded) = reload loaded
  handle (tick w) = cleanup w

  -- An error is logged, and the loop goes on with the router as the handler left it.
  abbrev pub after : Ending (Router lib) (Unit {0}) → Option (Router lib)
  after (done _ r) = some r
  after (failed _ r) = some r
  after panicked = none

  abbrev pub continue_with :
      Option (Router lib) → (Router lib → Option (Router lib)) → Option (Router lib)
  continue_with none k = none
  continue_with (some r) k = k r

  -- The router after the events; a panic ends the loop.
  unfoldable pub mainloop : List (Event lib) → Router lib → Option (Router lib)
  unfolding handle
  mainloop [] r = some r
  mainloop (event ∷ events) r = continue_with (after (handle event r)) (mainloop events)
