-- ===== src/Crypto.antt =====
-- packages/core/src/sentinel_core/crypto/envelope.py, and `get_crypto` of
-- apps/api/sentinel_api_app/deps.py. The Fernet cipher of the `cryptography` package is a
-- parameter; bytes are lists of numbers, and what is random is an argument.
pub mod Sample
use security_tool.Prelude.{
  ℕ, Bool, true, List, [], ◌∷◌, Option, none, some, Text, if◌then◌else◌, all, Outcome, ok, raise,
  ◌≡◌, Memᴰ,
}

abbrev pub Bytes : Type 0
Bytes = List ℕ

-- `Fernet`, `MultiFernet` and UTF-8. A key is refused unless it is valid; `encrypt` takes the
-- randomness of the token, and `decrypt` is `none` where it raises InvalidToken.
pub record Fernet : Type 0 where
  pub is_valid : Bytes → Bool
  pub encrypt : Bytes → Bytes → Bytes → Bytes
  pub decrypt : Bytes → Bytes → Option Bytes
  pub multi_encrypt : List Bytes → Bytes → Bytes → Bytes
  pub multi_decrypt : List Bytes → Bytes → Option Bytes
  pub encode : Text → Bytes
  pub decode : Bytes → Option Text

-- What the package documents. MultiFernet encrypts with the first key and tries all to decrypt.
pub record IsCipher (f : Fernet) : Type 0 where
  pub decrypt-encrypt :
      (key iv plaintext : Bytes)
      → f.is_valid key ≡ true
      → f.decrypt key (f.encrypt key iv plaintext) ≡ some plaintext
  pub multi_decrypt-encrypt :
      (key : Bytes) (others keys : List Bytes) (iv plaintext : Bytes)
      → Memᴰ key keys
      → f.multi_decrypt keys (f.multi_encrypt (key ∷ others) iv plaintext) ≡ some plaintext
  pub decode-encode : (s : Text) → f.decode (f.encode s) ≡ some s

pub data CryptoFault : Type 0 where
  value_error invalid_token decode_error runtime_error : CryptoFault

-- `LocalMasterKeyProvider`
pub record MasterKeyProvider : Type 0 where
  pub master_keys : List Bytes

module _ (f : Fernet) where
  unfoldable pub new_provider : List Bytes → Outcome CryptoFault MasterKeyProvider
  unfolding all
  new_provider [] = raise value_error
  new_provider (k ∷ ks) =
      if all f.is_valid (k ∷ ks) then ok record { master_keys = k ∷ ks } else raise value_error

  unfoldable pub wrap : MasterKeyProvider → Bytes → Bytes → Bytes
  wrap p iv data_key = f.multi_encrypt p.master_keys iv data_key

  abbrev pub or_fault {ℓ} : {A : Type ℓ} → CryptoFault → Option A → Outcome CryptoFault A
  or_fault e none = raise e
  or_fault e (some x) = ok x

  unfoldable pub unwrap : MasterKeyProvider → Bytes → Outcome CryptoFault Bytes
  unwrap p wrapped = or_fault invalid_token (f.multi_decrypt p.master_keys wrapped)

  -- `EnvelopeCrypto.encrypt` and `decrypt`; `Fernet(data_key)` refuses a key that is not valid.
  unfoldable pub encrypt : Bytes → Bytes → Bytes → Outcome CryptoFault Bytes
  encrypt data_key iv plaintext =
      if f.is_valid data_key then ok (f.encrypt data_key iv plaintext) else raise value_error

  unfoldable pub decrypt : Bytes → Bytes → Outcome CryptoFault Bytes
  decrypt data_key ciphertext =
      if f.is_valid data_key
      then or_fault invalid_token (f.decrypt data_key ciphertext)
      else raise value_error

  -- `_master_key_provider`, and `get_crypto` on the key of the settings.
  unfoldable pub get_crypto : Text → Outcome CryptoFault MasterKeyProvider
  unfolding new_provider
  get_crypto [] = raise runtime_error
  get_crypto (c ∷ kms_master_key) = new_provider (f.encode (c ∷ kms_master_key) ∷ [])
