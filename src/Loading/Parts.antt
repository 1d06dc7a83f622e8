-- ===== src/Loading/Parts.antt =====
-- The parts of a configuration that are loaded: ACLs, patterns, backends and QUIC-LB servers.
use mathlib.Core.List.{append_assoc, append-nil}
use sni_router.Prelude.{
  ℕ, zero, suc, ◌<◌, ◌≡◌, refl, ap, sym, ◌∙◌, inl, inr, Bool, true, false, List, [], ◌∷◌, ◌++◌,
  Option, none, some, Bool-cases, Option-cases, ltb, tests, arith,
}
use sni_router.Prelude.Equality.{Key, ◌==◌, nat_Key}
use sni_router.Prelude.Maps.{Map, is_some, get, put}
use sni_router.Prelude.Maps.Distinct.{Distinct, put-Distinct}
use sni_router.Prelude.Outcomes.{
  Post, returns, fails, Post-bind, Post-bail_if, Post-ok_or, Post-weaken, ok_or, run_steps,
}
use sni_router.Net.{SocketAddr, normalize_socket_addr}
use sni_router.QuicLb
use sni_router.QuicLb.{Codec}
use sni_router.Messages.{
  AclRulePb, AclPb, null_type, proxy_type, pass_type, BackendPb, backend_pb, no_sorry_pb, sorry_pb,
  QuicLbPb,
}
use sni_router.Loading.{
  IpNet, v4_net, v6_net, Loader, LoadError, bad_regex, unresolved, codec_or_bail, first_addr,
  source_net, load_acl_rules, load_acl, load_acl_or_accept, resolve_one_addr, load_backend,
  compile_full_match, load_regex, load_servers, load_quic_lb, or_else, positive,
}
use sni_router.Loading.Loaded.{
  Pairwise, limit, LbChecked, IsSource, mapped, plain, AclRuleLoaded, AclLoaded, RegexLoaded,
  IsFirst, BackendLoaded, from_null, from_proxy, ServerLoaded, LbLoaded,
}

pub ok_or-Post :
    {A : Type 0} {P : A → Type 0} (o : Option A) (e : LoadError)
    → ((a : A) → o ≡ some a → P a)
    → Post P (ok_or o e)
unfolding ok_or
ok_or-Post none e k = fails
ok_or-Post (some a) e k = returns (k a refl)

pub positive-limit : (ms : ℕ) → positive ms ≡ limit ms
positive-limit zero = refl
positive-limit (suc ms) = ground arith

-- A new key goes to the end.
put-fresh :
    {K V : Type 0} ⦃e : Key K⦄ (k : K) (v : V) (m : Map K V)
    → is_some (get k m) ≡ false
    → put k v m ≡ m ++ (k, v) ∷ []
unfolding get put
put-fresh k v [] h = refl
put-fresh k v ((j, w) ∷ m) h = elim (Bool-cases (j == k)) [
  | inl s ↦ absurd (ground arith)
  | inr s ↦ rw (s, put-fresh k v m (rw s at h)) refl
]

module _ (env : Loader) where
  open env use {
    Regex, Net, Text, Cipher, parse_net, regex_new, wrapped, wrapped_line, lookup_host, read_key,
  }

  source_net-Post :
      (text : Text) (net : IpNet Net)
      → parse_net text ≡ some net
      → Post (IsSource env text) (source_net env net)
  unfolding source_net
  source_net-Post text (v4_net ip prefix) e = ok_or-Post _ _ λ net n. mapped ip prefix e n
  source_net-Post text (v6_net net) e = returns (plain e)

  load_acl_rules-Post :
      (pbs : List (AclRulePb Text))
      → Post (Pairwise (AclRuleLoaded env) pbs) (load_acl_rules env pbs)
  unfolding load_acl_rules
  load_acl_rules-Post [] = returns tt
  load_acl_rules-Post (pb ∷ pbs) = Post-ok_or _ _ _ λ parsed e.
      Post-bind _ _ (source_net-Post pb.source parsed e) λ source s. Post-bail_if _ _ _ λ specified.
        Post-bind _ _ (load_acl_rules-Post pbs) λ rules more. returns ((s, refl, specified), more)

  pub load_acl_or_accept-Post :
      (pb : Option (AclPb Text)) → Post (AclLoaded env pb) (load_acl_or_accept env pb)
  unfolding load_acl
  load_acl_or_accept-Post none = returns (refl, refl)
  load_acl_or_accept-Post (some pb) =
      Post-bind _ _ (load_acl_rules-Post pb.rules) λ rules s. returns (s, refl)

  pub resolve_one_addr-Post : (host : Text) → Post (IsFirst env host) (resolve_one_addr env host)
  unfolding resolve_one_addr ok_or
  resolve_one_addr-Post host = Post-ok_or _ _ _ λ addrs e. first-Post addrs e
    where
      first-Post :
          (addrs : List SocketAddr)
          → lookup_host host ≡ some addrs
          → Post (IsFirst env host) (ok_or (first_addr addrs) unresolved)
      first-Post [] e = fails
      first-Post (addr ∷ rest) e = returns (rest, e)

  pub load_backend-Post : (pb : BackendPb Text) → Post (BackendLoaded env pb) (load_backend env pb)
  unfolding run_steps load_backend
  load_backend-Post (backend_pb none none no_sorry_pb) = fails
  load_backend-Post (backend_pb none none (sorry_pb s)) = fails
  load_backend-Post (backend_pb none (some tls) s) = fails
  load_backend-Post (backend_pb (some be) (some tls) s) = fails
  load_backend-Post (backend_pb (some be) none (sorry_pb s)) = fails
  load_backend-Post (backend_pb (some null_type) none no_sorry_pb) = returns from_null
  load_backend-Post (backend_pb (some (pass_type path)) none no_sorry_pb) = fails
  load_backend-Post (backend_pb (some (proxy_type host true tls)) none no_sorry_pb) = fails
  load_backend-Post (backend_pb (some (proxy_type host false tls)) none no_sorry_pb) =
      Post-bind _ _ (resolve_one_addr-Post host) λ to f. returns (from_proxy f)

  ok_or-line :
      (pattern : Text) (valid : Regex)
      → regex_new pattern ≡ some valid
      → regex_new (wrapped pattern) ≡ none
      → Post
          (RegexLoaded env false (some pattern))
          (ok_or (or_else env none (regex_new (wrapped_line pattern))) bad_regex)
  ok_or-line pattern valid v e = ok_or-Post _ _ λ re l. ((valid, v), inr (e, l))

  pub load_regex-Post :
      (regex : Option Text) (is_default : Bool)
      → Post (RegexLoaded env is_default regex) (load_regex env regex is_default)
  unfolding compile_full_match ok_or
  load_regex-Post none true = ok_or-Post _ _ λ re e. e
  load_regex-Post (some re) true = fails
  load_regex-Post none false = fails
  load_regex-Post (some pattern) false = Post-ok_or _ _ _ λ valid v.
      elim (Option-cases (regex_new (wrapped pattern))) [
        | inl e ↦ rw e (ok_or-line pattern valid v e)
        | inr (re, e) ↦ rw e (returns ((valid, v), inl e))
      ]

  load_servers-Post :
      (pbs : List (Option ℕ × Text)) (servers : Map ℕ SocketAddr)
      → Distinct servers
      → Post
          (λ out.
            Distinct out
            × ((more : Map ℕ SocketAddr) × (out ≡ servers ++ more)
                × Pairwise (ServerLoaded env) pbs more))
          (load_servers env pbs servers)
  unfolding load_servers
  load_servers-Post [] servers d = returns (d, ([], sym (append-nil servers), tt))
  load_servers-Post ((server_id, host) ∷ pbs) servers d = Post-ok_or _ _ _ λ sid s.
      Post-bind _ _ (resolve_one_addr-Post host) λ to f. Post-bail_if _ _ _ λ fresh.
        let v = normalize_socket_addr to in
        Post-weaken (load_servers-Post pbs _ (put-Distinct sid v servers d))
          λ out (d', (more, is, loaded)). (
            d',
            (
              (sid, v) ∷ more,
              is
                  ∙ ap (λ (m : Map ℕ SocketAddr). m ++ more) (put-fresh sid v servers fresh)
                  ∙ append_assoc servers ((sid, v) ∷ []) more,
              ((s, (to, f, refl)), loaded),
            ),
          )

  codec_or_bail-Post :
      (config_id : ℕ) (cipher : Cipher)
      → Post
          (λ codec. (codec.config_id ≡ config_id) × (codec.cipher ≡ cipher) × (codec.config_id < 7))
          (codec_or_bail (QuicLb.new config_id cipher))
  unfolding QuicLb.new
  codec_or_bail-Post config_id cipher = elim (Bool-cases (ltb config_id 7)) [
    | inl e ↦ rw e (returns (refl, refl, omega tests))
    | inr e ↦ rw e fails
  ]

  pub load_quic_lb-Post :
      (pbs : List (QuicLbPb Text)) (config_ids : List ℕ)
      → Post
          (λ lbs. LbChecked config_ids lbs × Pairwise (LbLoaded env) pbs lbs)
          (load_quic_lb env pbs config_ids)
  unfolding load_quic_lb
  load_quic_lb-Post [] config_ids = returns (tt, tt)
  load_quic_lb-Post (pb ∷ pbs) config_ids = Post-bail_if _ _ _ λ _. Post-bail_if _ _ _ λ other.
      Post-ok_or _ _ _ λ cipher key.
        Post-bind _ _ (codec_or_bail-Post pb.config_id cipher) λ codec (same, as_read, few).
          Post-bind _ _ (load_servers-Post pb.servers [] tt) λ servers (d, (more, is, loaded)).
            Post-bail_if _ _ _ λ some_servers.
              Post-bind _ _ (load_quic_lb-Post pbs _) λ rest (r, rest_loaded). returns (
                (few, rw same other, some_servers, d, rw same r),
                ((same, rw as_read key, rw is loaded), rest_loaded),
              )
