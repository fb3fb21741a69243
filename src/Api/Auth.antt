-- ===== src/Api/Auth.antt =====
-- `verify_operator_auth` of src/api.rs.
use cardano_lightning_relay.Prelude.{
  String, str_eq, strip_prefix, Option, none, some, Bool, true, false,
}

-- The header is the text of `authorization`, if there is one and it is text. The answer says
-- whether the request may go on.
unfoldable pub verify_operator_auth : Option String → Option String → Bool
unfolding strip_prefix
verify_operator_auth header none = true
verify_operator_auth none (some token) = false
verify_operator_auth (some v) (some token) = elim (strip_prefix v "Bearer ") [
  | none ↦ false
  | some provided ↦ str_eq provided token
]
