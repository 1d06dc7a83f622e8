-- ===== src/Router/Client/Entering.antt =====
-- What entering the connection ID of a client changes: `add_cid_route` of src/bin/sni-router-h3.rs.
use mathlib.Core.List.{append-nil}
use mathlib.Core.Path.{subst, sym}
use sni_router.Prelude.{
  ℕ, ◌≡◌, refl, ◌&&◌, not, inl, inr, Bool, true, false, List, [], ◌∷◌, ◌++◌, Option, none, some,
  leb, nat_eq, nat_eq_iff, length, Bool-cases, if◌then◌else◌,
}
use sni_router.Prelude.Equality.{nat_Key, bytes_Key, bytes_eq, bytes_eq_iff}
use sni_router.Prelude.Maps
use sni_router.Prelude.Maps.{is_some, get-put}
use sni_router.Prelude.Sets
use sni_router.Prelude.Outcomes.{Bytes}
use sni_router.CidRoutes
use sni_router.CidRoutes.Laws.{owner_or, get-insert}
use sni_router.Quic.LongHeader.{LongPacketCids}
use sni_router.Router.{Library, Connection, Router, Output, cid_limit_hit}
use sni_router.Router.Establish.{is_empty}
use sni_router.Router.Forward.{claim_cid, add_cid_route, add_scid}
use sni_router.Router.Invariant.Forward.{free_of_owned, kept_owner}
use sni_router.Router.Invariant.Routed.{get-insert_free}
use sni_router.Router.Lookup.{lb_backend}

-- The connection ID of a packet's sender: none with a short header.
abbrev pub scid_of : Option LongPacketCids → Bytes
scid_of none = []
scid_of (some long) = long.scid

module _ {lib : Library} where
  -- A connection ID that is not empty, not one of QUIC-LB, and not one that the path has.
  abbrev pub is_other : Router lib → Connection lib.Text → Bytes → Bool
  is_other r conn cid =
      not (is_empty cid) && not (is_some (lb_backend r cid)) && not (Sets.member cid conn.cids)

  abbrev pub is_full : Router lib → Connection lib.Text → Bool
  is_full r conn = leb r.limits.max_cids_per_path (length conn.cids)

  -- No other path has it.
  abbrev pub is_free : Router lib → ℕ → Bytes → Bool
  is_free r id cid = nat_eq (owner_or id (CidRoutes.get r.cid_routes cid)) id

  abbrev pub enters : Router lib → ℕ → Connection lib.Text → Bytes → Bool
  enters r id conn cid = (is_other r conn cid && not (is_full r conn)) && is_free r id cid

  abbrev pub hits_limit : Router lib → Connection lib.Text → Bytes → Bool
  hits_limit r conn cid = is_other r conn cid && is_full r conn

  -- From `r`, where the log has come to `log`: the path is that of `conn`, with the connection ID where it is entered;
  -- the index has it then, and is as it was for all others; the other paths and what is pending are as they were.
  pub record Entered (r : Router lib) (log : List (Output lib.Text)) (id : ℕ)
      (conn : Connection lib.Text) (cid : Bytes) (entered hit : Bool) (r' : Router lib)
      : Type 0 where
    pub path :
        Maps.get id r'.connections
        ≡ some (if entered then record conn { cids = conn.cids ++ cid ∷ [] } else conn)
    pub others :
        (j : ℕ) → nat_eq id j ≡ false → Maps.get j r'.connections ≡ Maps.get j r.connections
    pub index :
        (c : Bytes)
        → CidRoutes.get r'.cid_routes c
          ≡ (if entered && bytes_eq cid c then some id else CidRoutes.get r.cid_routes c)
    pub is_logged : r'.log ≡ log ++ (if hit then cid_limit_hit ∷ [] else [])
    pub waiting : (r'.pending ≡ r.pending) × (r'.pending_bytes ≡ r.pending_bytes)
    pub routes : (r'.client_routes ≡ r.client_routes) × (r'.lb_paths ≡ r.lb_paths)

  module _ (r : Router lib) (id : ℕ) (conn : Connection lib.Text) where
    unchanged-Entered :
        (cid : Bytes)
        → Maps.get id r.connections ≡ some conn
        → Entered r r.log id conn cid false false r
    unchanged-Entered cid e = record {
      path = e;
      others = λ j other. refl;
      index = λ c. refl;
      is_logged = sym (append-nil r.log);
      waiting = (refl, refl);
      routes = (refl, refl);
    }

    limit-Entered :
        (cid : Bytes)
        → Maps.get id r.connections ≡ some conn
        → Entered r r.log id conn cid false true (record r { log = r.log ++ cid_limit_hit ∷ [] })
    limit-Entered cid e = record {
      path = e;
      others = λ j other. refl;
      index = λ c. refl;
      is_logged = refl;
      waiting = (refl, refl);
      routes = (refl, refl);
    }

    pub path_put :
        (conn' : Connection lib.Text) → Maps.get id (Maps.put id conn' r.connections) ≡ some conn'
    path_put conn' = rw (get-put id id conn' r.connections, (nat_eq_iff id id).1 refl) refl

    pub others_put :
        (conn' : Connection lib.Text) (j : ℕ)
        → nat_eq id j ≡ false
        → Maps.get j (Maps.put id conn' r.connections) ≡ Maps.get j r.connections
    others_put conn' j other = rw (get-put id j conn' r.connections, other) refl

    claim_cid-Entered :
        (b : ℕ) (cid : Bytes)
        → Maps.get id r.connections ≡ some conn
        → Entered r r.log id conn
            (b ∷ cid)
            (is_free r id (b ∷ cid))
            false
            (claim_cid id (b ∷ cid) conn r)
    claim_cid-Entered b cid e =
        let key : Bytes = b ∷ cid in
        let owner = CidRoutes.get r.cid_routes key in
        elim (Bool-cases (nat_eq (owner_or id owner) id)) [
          | inl g ↦
              rw ((get-insert r.cid_routes b cid id key).1, g)
                (record {
                  path = path_put (record conn { cids = conn.cids ++ key ∷ [] });
                  others = others_put (record conn { cids = conn.cids ++ key ∷ [] });
                  index = λ c. get-insert_free r.cid_routes b cid id c (free_of_owned id owner g);
                  is_logged = sym (append-nil r.log);
                  waiting = (refl, refl);
                  routes = (refl, refl);
                })
          | inr g ↦
              rw ((get-insert r.cid_routes b cid id key).1, g)
                (record {
                  path = e;
                  others = λ j other. refl;
                  index = λ c.
                      rw (get-insert r.cid_routes b cid id c).0
                        (elim (Bool-cases (bytes_eq key c)) [
                          | inl f ↦ rw f (
                              subst (λ x. some (owner_or id owner) ≡ CidRoutes.get r.cid_routes x)
                                ((bytes_eq_iff key c).0 f) (sym (kept_owner id owner g)))
                          | inr f ↦ rw f refl
                        ]);
                  is_logged = sym (append-nil r.log);
                  waiting = (refl, refl);
                  routes = (refl, refl);
                })
        ]

    add_cid_route-Entered :
        (cid : Bytes)
        → Maps.get id r.connections ≡ some conn
        → Entered r r.log id conn cid
            (enters r id conn cid)
            (hits_limit r conn cid)
            (add_cid_route id cid r)
    unfolding add_cid_route
    add_cid_route-Entered [] e = unchanged-Entered [] e
    add_cid_route-Entered (b ∷ cid) e = elim (Bool-cases (is_some (lb_backend r (b ∷ cid)))) [
      | inl l ↦ rw l (unchanged-Entered (b ∷ cid) e)
      | inr l ↦
          rw (l, e)
            (elim (Bool-cases (Sets.member (b ∷ cid) conn.cids)) [
              | inl m ↦ rw m (unchanged-Entered (b ∷ cid) e)
              | inr m ↦
                  rw m (elim (Bool-cases (leb r.limits.max_cids_per_path (length conn.cids))) [
                    | inl f ↦ rw f (limit-Entered (b ∷ cid) e)
                    | inr f ↦ rw f (claim_cid-Entered b cid e)
                  ])
            ])
    ]

    pub add_scid-Entered :
        (long : Option LongPacketCids)
        → Maps.get id r.connections ≡ some conn
        → Entered r r.log id conn
            (scid_of long)
            (enters r id conn (scid_of long))
            (hits_limit r conn (scid_of long))
            (add_scid id long r)
    add_scid-Entered none e = unchanged-Entered [] e
    add_scid-Entered (some long) e = add_cid_route-Entered long.scid e
