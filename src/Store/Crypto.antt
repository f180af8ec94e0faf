-- ===== src/Store/Crypto.antt =====
-- internal/store/crypto.go. AES, GCM, SHA-256 and base64 are Go's: a parameter, and the nonce that
-- `rand.Reader` gives is an argument, `none` where reading it fails. A text is its bytes.
use tokenomics.Base.{
  String, ℕ, Bool, true, false, not, List, ◌++◌, Option, none, some, Result, ok, err, if◌then◌else◌,
  length, ltb, take, drop, take-append, drop-append, length-append, ◌≡◌, ◌<◌, refl, sym, ◌∙◌, arith,
  Bool-cases, inl, inr,
}
use tokenomics.Base.Eq.{string_eq, ◌==◌, ==_iff}

pub record Crypto : Type 1 where
  pub Byte : Type 0
  pub nonce_size : ℕ
  pub cipher_ok : List Byte → Bool
  pub gcm_ok : List Byte → Bool
  pub seal : List Byte → List Byte → String → List Byte
  pub open_sealed : List Byte → List Byte → List Byte → Option String
  pub encode : List Byte → String
  pub decode : String → Option (List Byte)
  pub sum256 : String → List Byte

-- What the packages document: base64 and GCM are inverted, and only nothing is encoded as nothing.
pub record CryptoLaws (c : Crypto) : Type 0 where
  pub decode-encode : (xs : List c.Byte) → c.decode (c.encode xs) ≡ some xs
  pub open-seal :
      (key nonce : List c.Byte) (s : String) → c.open_sealed key nonce (c.seal key nonce s) ≡ some s
  pub encode_nonempty : (xs : List c.Byte) → c.encode xs ≡ "" → length xs ≡ 0
  pub nonce_nonempty : 0 < c.nonce_size

pub data CryptoError : Type 0 where
  bad_cipher bad_gcm bad_nonce bad_base64 too_short bad_tag : CryptoError

module _ (c : Crypto) where
  open c use {Byte, nonce_size, cipher_ok, gcm_ok, seal, open_sealed, encode, decode, sum256}

  unfoldable pub derive_key : String → List Byte
  derive_key secret = sum256 secret

  unfoldable pub encrypt : Option (List Byte) → String → List Byte → Result CryptoError String
  encrypt nonce plaintext key =
      if not (cipher_ok key)
      then err bad_cipher
      else if not (gcm_ok key)
      then err bad_gcm
      else elim nonce [ none ↦ err bad_nonce | some n ↦ ok (encode (n ++ seal key n plaintext)) ]

  unfoldable pub decrypt : String → List Byte → Result CryptoError String
  decrypt encoded key = elim (decode encoded) [
    | none ↦ err bad_base64
    | some bytes ↦
        if not (cipher_ok key)
        then err bad_cipher
        else if not (gcm_ok key)
        then err bad_gcm
        else if ltb (length bytes) nonce_size
        then err too_short
        else elim (open_sealed key (take nonce_size bytes) (drop nonce_size bytes)) [
          | none ↦ err bad_tag
          | some plaintext ↦ ok plaintext
        ]
  ]

  -- An encryption without an error had a working cipher.
  encrypt-ok :
      (nonce : List Byte) (s encoded : String) (key : List Byte)
      → encrypt (some nonce) s key ≡ ok encoded
      → (cipher_ok key ≡ true)
        × (gcm_ok key ≡ true)
        × (encode (nonce ++ seal key nonce s) ≡ encoded)
  unfolding encrypt
  encrypt-ok nonce s encoded key e = ground arith

  module _ (laws : CryptoLaws c) where
    -- What is encrypted with a key and a nonce of the size that GCM asks for is decrypted with that
    -- key to the same text, wherever the encryption gave no error.
    pub decrypt-encrypt :
        (nonce : List Byte) (s encoded : String) (key : List Byte)
        → length nonce ≡ nonce_size
        → encrypt (some nonce) s key ≡ ok encoded
        → decrypt encoded key ≡ ok s
    unfolding encrypt decrypt
    decrypt-encrypt nonce s encoded key size e =
        let (cipher, gcm, same) = encrypt-ok nonce s encoded key e in
        let sealed = seal key nonce s in
        let long : ltb (length (nonce ++ sealed)) nonce_size ≡ false =
          ground (arith, length-append nonce sealed) in
        let opened = laws.open-seal key nonce s in
        rw
          (
            sym same,
            decrypt,
            laws.decode-encode (nonce ++ sealed),
            cipher,
            gcm,
            long,
            sym size,
            take-append nonce sealed,
            drop-append nonce sealed,
            opened,
          )
          refl

    -- What was encrypted is not the empty text, which marks a record as plain.
    pub encrypt_nonempty :
        (nonce : List Byte) (s encoded : String) (key : List Byte)
        → length nonce ≡ nonce_size
        → encrypt (some nonce) s key ≡ ok encoded
        → (encoded == "") ≡ false
    encrypt_nonempty nonce s encoded key size e =
        let (cipher, gcm, same) = encrypt-ok nonce s encoded key e in
        let sealed = seal key nonce s in
        elim (Bool-cases (encoded == "")) [
          | inr good ↦ good
          | inl bad ↦
              let empty =
                laws.encode_nonempty (nonce ++ sealed) (same ∙ (==_iff encoded "").0 bad) in
              let positive = laws.nonce_nonempty in
              absurd (omega (arith, length-append nonce sealed, empty, positive, size))
        ]
