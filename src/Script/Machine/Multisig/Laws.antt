-- ===== src/Script/Machine/Multisig/Laws.antt =====
-- Relations for the two loops of `op_checkmultisig` of hathor/transaction/scripts.py.
use khathor.Crypto.{Platform}
use khathor.Bytes.{Bytes}
use khathor.Prelude.{List, ◌∷◌, none, Option, some, [], ◌≡◌, true, false}

-- Each signature of the message verifies with a public key of its own, in the same order.
pub data Signed (p : Platform) (message : Bytes) : List Bytes → List Bytes → Type 0 where
  done : {keys : List Bytes} → Signed p message [] keys
  skip :
      {key : Bytes} {signatures keys : List Bytes}
      → Signed p message signatures keys
      → Signed p message signatures (key ∷ keys)
  sign :
      {key signature : Bytes} {signatures keys : List Bytes}
      → p.ecdsa_verify key signature message ≡ true
      → Signed p message signatures keys
      → Signed p message (signature ∷ signatures) (key ∷ keys)

-- The keys behind the first that verifies the signature, if there is one.
pub data Found (p : Platform) (message signature : Bytes)
    : List Bytes → Option (List Bytes) → Type 0 where
  nowhere : Found p message signature [] none
  here :
      {key : Bytes} {keys : List Bytes}
      → p.ecdsa_verify key signature message ≡ true
      → Found p message signature (key ∷ keys) (some keys)
  later :
      {key : Bytes} {keys : List Bytes} {o : Option (List Bytes)}
      → p.ecdsa_verify key signature message ≡ false
      → Found p message signature keys o
      → Found p message signature (key ∷ keys) o

module _ {p : Platform} {message : Bytes} where
  Signed-tail :
      {signature : Bytes} {signatures keys : List Bytes}
      → Signed p message (signature ∷ signatures) keys
      → Signed p message signatures keys
  Signed-tail (skip d) = skip (Signed-tail d)
  Signed-tail (sign v d) = skip d

  pub not-Signed_of_Found :
      {signature : Bytes} {signatures keys : List Bytes}
      → Found p message signature keys none
      → ¬ Signed p message (signature ∷ signatures) keys
  not-Signed_of_Found nowhere s = elim s [ ]
  not-Signed_of_Found (later f r) (skip d) = not-Signed_of_Found r d
  not-Signed_of_Found (later f r) (sign v d) = cc

  pub Signed-of_Found :
      {signature : Bytes} {signatures keys rest : List Bytes}
      → Found p message signature keys (some rest)
      → Signed p message signatures rest
      → Signed p message (signature ∷ signatures) keys
  Signed-of_Found (here v) d = sign v d
  Signed-of_Found (later f r) d = skip (Signed-of_Found r d)

  pub rest-Signed :
      {signature : Bytes} {signatures keys rest : List Bytes}
      → Found p message signature keys (some rest)
      → Signed p message (signature ∷ signatures) keys
      → Signed p message signatures rest
  rest-Signed (here v) (skip d) = Signed-tail d
  rest-Signed (here v) (sign w d) = d
  rest-Signed (later f r) (skip d) = rest-Signed r d
  rest-Signed (later f r) (sign w d) = cc
