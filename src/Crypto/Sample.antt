-- ===== src/Crypto/Sample.antt =====
-- A cipher for which the documented laws hold: a stand-in for `Fernet` in the tests.
use security_tool.Prelude.{
  ℕ, zero, suc, true, ◌≡◌, refl, sym, List, [], ◌∷◌, ◌++◌, Option, none, some, text_beq,
  text_beq_iff, Memᴰ, length, take, if◌then◌else◌, ap, Bool-cases, inl, inr,
}
use security_tool.Crypto.{Bytes, Fernet, IsCipher}

-- The rest of a text after its first characters.
unfoldable pub drop_first : ℕ → Bytes → Bytes
drop_first zero s = s
drop_first (suc n) [] = []
drop_first (suc n) (c ∷ s) = drop_first n s

-- A token is the key's length, the key and the plaintext.
abbrev seal : Bytes → Bytes → Bytes
seal key plaintext = length key ∷ (key ++ plaintext)

unfoldable pub unseal : Bytes → Bytes → Option Bytes
unfolding drop_first
unseal key [] = none
unseal key (n ∷ s) = if text_beq key (take n s) then some (drop_first n s) else none

abbrev or_next : Option Bytes → Option Bytes → Option Bytes
or_next none o = o
or_next (some p) o = some p

unfoldable pub unseal_any : List Bytes → Bytes → Option Bytes
unfolding unseal
unseal_any [] token = none
unseal_any (k ∷ ks) token = or_next (unseal k token) (unseal_any ks token)

abbrev seal_first : List Bytes → Bytes → Bytes
seal_first [] plaintext = plaintext
seal_first (k ∷ ks) plaintext = seal k plaintext

abbrev pub cipher : Fernet
cipher = record {
  is_valid = λ k. true;
  encrypt = λ k iv p. seal k p;
  decrypt = unseal;
  multi_encrypt = λ ks iv p. seal_first ks p;
  multi_decrypt = unseal_any;
  encode = λ s. s;
  decode = λ b. some b;
}

take-append : (k p : Bytes) → take (length k) (k ++ p) ≡ k
take-append [] [] = refl
take-append [] (c ∷ p) = refl
take-append (c ∷ k) p = ap (λ s. c ∷ s) (take-append k p)

drop_first-append : (k p : Bytes) → drop_first (length k) (k ++ p) ≡ p
unfolding drop_first
drop_first-append [] p = refl
drop_first-append (c ∷ k) p = drop_first-append k p

-- A token opens with its own key, and with another one not at all.
unseal-seal :
    (other key p : Bytes)
    → unseal other (seal key p) ≡ (if text_beq other key then some p else none)
unfolding unseal
unseal-seal other key p = rw (take-append key p, drop_first-append key p) refl

unseal_any-seal :
    (key : Bytes) (keys : List Bytes) (p : Bytes)
    → Memᴰ key keys
    → unseal_any keys (seal key p) ≡ some p
unfolding unseal_any
unseal_any-seal key [] p m = elim m [ ]
unseal_any-seal key (k ∷ keys) p (Memᴰ.head e) =
    rw (unseal-seal k key p, (text_beq_iff k key).1 (sym e)) refl
unseal_any-seal key (k ∷ keys) p (Memᴰ.tail m) = elim (Bool-cases (text_beq k key)) [
  | inl e ↦ rw (unseal-seal k key p, e) refl
  | inr e ↦ rw (unseal-seal k key p, e) (unseal_any-seal key keys p m)
]

pub cipher-IsCipher : IsCipher cipher
cipher-IsCipher = record {
  decrypt-encrypt = λ key iv p h. rw (unseal-seal key key p, (text_beq_iff key key).1 refl) refl;
  multi_decrypt-encrypt = λ key others keys iv p m. unseal_any-seal key keys p m;
  decode-encode = λ s. refl;
}
