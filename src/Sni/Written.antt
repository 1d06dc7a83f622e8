-- ===== src/Sni/Written.antt =====
-- A ClientHello with a host name, as RFC 5246 and RFC 6066 lay it out.
use sni_router.Prelude.{ℕ, ◌+◌, ◌%◌, ◌^◌, ◌<◌, ◌≡◌, ◌≢◌, List, [], ◌∷◌, ◌++◌, length}
use sni_router.Prelude.BigEndian.{to_be_bytes, client_hello}
use sni_router.Prelude.Outcomes.{Bytes}

abbrev pub IsU16 : ℕ → Type 0
IsU16 n = n < 65536

-- A part behind its length in two bytes.
abbrev pub part_onto : Bytes → Bytes → Bytes
part_onto part rest = to_be_bytes 2 (length part) ++ (part ++ rest)

abbrev pub sized : Bytes → Bytes
sized part = to_be_bytes 2 (length part) ++ part

-- A name of the server_name list: its type, and the name behind its length.
abbrev pub name_onto : ℕ × Bytes → Bytes → Bytes
name_onto (name_type, name) rest = name_type ∷ part_onto name rest

abbrev pub names_onto : List (ℕ × Bytes) → Bytes → Bytes
names_onto [] rest = rest
names_onto (n ∷ names) rest = name_onto n (names_onto names rest)

-- An extension: its type, and its data behind their length.
abbrev pub extension_onto : ℕ × Bytes → Bytes → Bytes
extension_onto (etype, part) rest = to_be_bytes 2 etype ++ part_onto part rest

abbrev pub extensions_onto : List (ℕ × Bytes) → Bytes → Bytes
extensions_onto [] rest = rest
extensions_onto (e ∷ es) rest = extension_onto e (extensions_onto es rest)

pub record Hello : Type 0 where
  -- legacy_version and random
  pub opening : Bytes
  pub session_id : Bytes
  pub cipher_suites : Bytes
  pub compression : Bytes
  -- the extensions before server_name, of other types, and the bytes behind it
  pub earlier_extensions : List (ℕ × Bytes)
  pub later_extensions : Bytes
  -- the names before the host name, of other types, and the bytes behind it
  pub earlier_names : List (ℕ × Bytes)
  pub later_names : Bytes
  pub host : Bytes

abbrev pub name_list : Hello → Bytes
name_list h = names_onto h.earlier_names (name_onto (0, h.host) h.later_names)

abbrev pub extension_block : Hello → Bytes
extension_block h =
    extensions_onto h.earlier_extensions
      (extension_onto (0, sized (name_list h)) h.later_extensions)

abbrev pub hello_body : Hello → Bytes
hello_body h =
    h.opening
    ++ (length h.session_id
        ∷ (h.session_id
            ++ part_onto h.cipher_suites
                (length h.compression ∷ (h.compression ++ sized (extension_block h)))))

abbrev pub write_hello : Hello → Bytes
write_hello h = client_hello (hello_body h)

-- Parts of another type than `server_name`, or than `host_name`.
abbrev pub AreOther : List (ℕ × Bytes) → Type 0
AreOther [] = Unit {0}
AreOther ((kind, part) ∷ others) = (kind ≢ 0) × IsU16 kind × IsU16 (length part) × AreOther others

-- Every length fits its field.
pub record IsWritable (h : Hello) : Type 0 where
  pub opening_size : length h.opening ≡ 34
  pub ciphers_even : length h.cipher_suites % 2 ≡ 0
  pub ciphers_size : IsU16 (length h.cipher_suites)
  pub other_extensions : AreOther h.earlier_extensions
  pub other_names : AreOther h.earlier_names
  pub host_size : IsU16 (length h.host)
  pub list_size : length (name_list h) + 2 < 65536
  pub block_size : IsU16 (length (extension_block h))
  pub body_size : length (hello_body h) < 2 ^ 24
