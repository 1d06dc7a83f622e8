-- ===== src/Router/Mainloop/Safety.antt =====
-- Any sequence of events leaves the router with its invariant.
use sni_router.Prelude.{ℕ, ◌≡◌, refl, true, List, [], ◌∷◌, none, some, arith}
use sni_router.Prelude.Equality.{nat_Key, bytes_Key, pair_Key}
use sni_router.Prelude.Maps
use sni_router.Prelude.OrderedMap.{lookup}
use sni_router.Prelude.Outcomes.{Bytes}
use sni_router.CidRoutes
use sni_router.CidRoutes.{empty_routes}
use sni_router.Quic.Decrypt.Safety.{IsRing}
use sni_router.Router.{Library, Config, Limits, Router, new, set_config}
use sni_router.Router.Action.{Ending, Ends, is_done, is_failed, Anything, Ends-weaken}
use sni_router.Router.Cleanup.Safety.{cleanup-Ends}
use sni_router.Router.Client.Safety.{handle_datagram-Ends}
use sni_router.Router.Invariant.{holds, Inv}
use sni_router.Router.Invariant.Reply.{handle_backend_datagram-Ends}
use sni_router.Router.Mainloop.{
  Event, client, backend, hangup, tick, start, handle, after, mainloop,
}

module _ {lib : Library} where
  pub start-Inv :
      (config : Config lib) (idle_timeout : ℕ) (limits : Limits)
      → Inv (start config idle_timeout limits)
  unfolding start new Maps.get CidRoutes.get lookup
  start-Inv config idle_timeout limits = (
    record { distinct = tt; exact = refl; each = tt; few = omega arith; few_bytes = omega arith },
    record {
      few = omega arith;
      distinct = tt;
      fresh = λ _ _. refl;
      valid = record { ascending = tt; tables = tt };
      owned = λ c j h. ground (arith, h);
      found = λ c j h. ground (arith, h);
      few_cids = λ j d h. absurd (ground (arith, h));
      leads = λ path id h. ground (arith, h);
    },
  )

  handle-Ends :
      IsRing lib.ring
      → (event : Event lib) (r : Router lib) → Inv r
      → Ends Inv Anything (handle event r)
  unfolding handle set_config
  handle-Ends good (client w peer packet) r i = handle_datagram-Ends w good peer packet r i
  handle-Ends good (backend w id packet) r i = handle_backend_datagram-Ends w id packet r i
  handle-Ends good (hangup none) r i = is_done i tt
  handle-Ends good (hangup (some config)) r i = is_done i tt
  handle-Ends good (tick w) r i = Ends-weaken (cleanup-Ends w r i) λ _ _ _. tt

  after-Inv :
      (ending : Ending (Router lib) (Unit {0}))
      → Ends Inv Anything ending
      → (s : Router lib) × (after ending ≡ some s) × Inv s
  after-Inv _ (is_done {s} i _) = (s, refl, i)
  after-Inv _ (is_failed {s} i) = (s, refl, i)

  -- With a ring whose keys and masks have the documented sizes, no sequence of events makes the loop panic: whatever
  -- the clients and the backends send, the sockets answer and the configuration becomes, a router that has the
  -- invariant still has it after them.
  pub mainloop-Inv :
      IsRing lib.ring
      → (events : List (Event lib)) (r : Router lib) → Inv r
      → (s : Router lib) × (mainloop events r ≡ some s) × Inv s
  unfolding mainloop
  mainloop-Inv good [] r i = (r, refl, i)
  mainloop-Inv good (event ∷ events) r i =
      let (s, e, j) = after-Inv (handle event r) (handle-Ends good event r i) in
      rw e (mainloop-Inv good events s j)

  -- With a ring whose keys and masks have the documented sizes, after any events from the start of the router, the index
  -- finds a path for a connection ID exactly where that path holds it, so that no two paths hold one.
  pub mainloop-get :
      IsRing lib.ring
      → (config : Config lib) (idle_timeout : ℕ) (limits : Limits) (events : List (Event lib))
      → (s : Router lib) × (mainloop events (start config idle_timeout limits) ≡ some s)
        × ((cid : Bytes) (id : ℕ)
            → holds cid (Maps.get id s.connections) ≡ true
            → CidRoutes.get s.cid_routes cid ≡ some id)
        × ((cid : Bytes) (id : ℕ)
            → CidRoutes.get s.cid_routes cid ≡ some id
            → holds cid (Maps.get id s.connections) ≡ true)
  mainloop-get good config idle_timeout limits events =
      let (s, e, (_, i)) = mainloop-Inv good events _ (start-Inv config idle_timeout limits) in
      (s, e, i.found, i.owned)
