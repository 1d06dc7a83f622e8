-- ===== src/Backends.antt =====
-- `Backend` of src/main.rs: where the TCP router sends a connection. The configurations of rustls are parameters; an
-- address and a path are texts.
use sni_router.Prelude.{Bool, true, false, Option}

mutual
  pub data Backend (Text ServerConfig ClientConfig : Type 0) : Type 0 where
    null : Backend Text ServerConfig ClientConfig
    -- `path`, `frontend_tls` and `sorry`
    pass :
        Text
        → Option ServerConfig
        → Sorry Text ServerConfig ClientConfig
        → Backend Text ServerConfig ClientConfig
    -- `addr`, `proxy_header`, `frontend_tls`, `backend_tls` and `sorry`
    proxy :
        Text
        → Bool
        → Option ServerConfig
        → Option ClientConfig
        → Sorry Text ServerConfig ClientConfig
        → Backend Text ServerConfig ClientConfig

  -- `Option<Box<Backend>>`
  pub data Sorry (Text ServerConfig ClientConfig : Type 0) : Type 0 where
    no_sorry : Sorry Text ServerConfig ClientConfig
    sorry : Backend Text ServerConfig ClientConfig → Sorry Text ServerConfig ClientConfig

-- `sorry.is_some()`
abbrev pub has_sorry :
    {Text ServerConfig ClientConfig : Type 0} → Sorry Text ServerConfig ClientConfig → Bool
has_sorry no_sorry = false
has_sorry (sorry backend) = true
