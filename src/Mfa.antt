-- ===== src/Mfa.antt =====
-- internal/services/security/totp.go: the second factor of a user, with the rows of
-- internal/models/security.go and user.go that it reads and writes. A user's id and a
-- time, in seconds, are numbers. The columns that no call here uses are left out.
pub mod Totp
pub mod Manager
pub mod Calls
pub mod Counter
pub mod Replay
pub mod Codes
pub mod Recovery
pub mod Overlap
mod Examples
use oneinstack_panel.Common.{ℕ, Bool, Option, List}
use oneinstack_panel.Common.Int.{ℤ}
use oneinstack_panel.Text.{Text}

pub record UserMfa : Type 0 where
  pub user_id : ℕ
  pub enabled : Bool
  pub secret_encrypted : Text
  pub pending_secret_encrypted : Text
  pub recovery_code_hashes_json : Text
  pub recovery_codes_generation : ℕ
  pub last_totp_counter : ℤ

-- The columns of a user that the second factor reads and writes.
pub record User : Type 0 where
  pub id : ℕ
  pub password : Text
  pub security_version : ℕ

-- The columns of a session that the second factor reads and writes.
pub record UserSession : Type 0 where
  pub user_id : ℕ
  pub revoked_at : Option ℕ
  pub revocation_reason : Text

pub record MfaDb : Type 0 where
  pub mfa : List UserMfa
  pub users : List User
  pub sessions : List UserSession

pub data MfaError : Type 0 where
  user_not_found mfa_unavailable mfa_already_enabled mfa_not_enabled invalid_second_factor :
      MfaError
  invalid_password credential_error : MfaError

-- What the service takes from the cipher of utils, from internal/crypto and from Go's packages
-- `encoding/base32`, `encoding/json`, `crypto/hmac`: each may fail where it does so in Go.
pub record Crypto : Type 0 where
  pub decode_base32 : Text → Option (List ℕ)
  pub hmac_sha1 : List ℕ → List ℕ → List ℕ
  pub hmac_sha256_hex : List ℕ → Text → Text
  pub encrypt_credential : Text → Text → Option Text
  pub decrypt_credential : Text → Text → Option Text
  pub derive_subkey : Text → Option (List ℕ)
  pub check_password : Text → Text → Bool
  pub encode_hashes : List Text → Text
  pub decode_hashes : Text → Option (List Text)
