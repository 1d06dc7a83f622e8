-- ===== src/Quic/Error.antt =====
-- The `bail!` and `anyhow!` sites of the QUIC parsers in src/bin/sni-router-h3.rs, one constructor
-- for each message.
pub data QuicError : Type 0 where
  missing_varint truncated_varint : QuicError
  truncated_long_header truncated_dcid truncated_scid : QuicError
  not_long_header unsupported_version not_initial truncated_token truncated_payload : QuicError
  truncated_crypto truncated_close unexpected_frame : QuicError
  label_too_long hkdf_failed key_failed : QuicError
  too_short_for_sample header_protection truncated_packet_number decrypt_failed : QuicError
  too_many_fragments not_client_hello : QuicError
