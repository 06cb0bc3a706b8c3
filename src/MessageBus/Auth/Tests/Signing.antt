-- ===== src/MessageBus/Auth/Tests/Signing.antt =====
-- A toy signature for runs of the model of message_bus/src/auth: the payload written out as a text,
-- which its reader takes apart.
use Prim.Native.Char.{code}
use kpm_cursor.Base.{
  ℕ, zero, suc, String, ◌≡◌, refl, ap, some, List, [], ◌∷◌, arith, eq_iff, str_eq, ◌==◌,
  if◌then◌else◌, length,
}
use kpm_cursor.MessageBus.Auth.{Membership, Payload, Crypto, IsCrypto}
use kpm_cursor.Base.Integers.{decimal}

unfoldable pub write_nat : ℕ → String → String
write_nat zero rest = String.◌∷◌ "." rest
write_nat (suc n) rest = String.◌∷◌ "I" (write_nat n rest)

unfoldable pub read_nat : String → ℕ × String
read_nat String.[] = (0, "")
read_nat (String.◌∷◌ c s) =
    let later = read_nat s in if code c == b'I' then (suc later.0, later.1) else (0, s)

read-write_nat :
    (n : ℕ) (rest : String) → ◌≡◌ {A = ℕ × String} (read_nat (write_nat n rest)) (n, rest)
unfolding write_nat read_nat
read-write_nat zero rest = refl
read-write_nat (suc n) rest = rw (read-write_nat n rest)

unfoldable pub write_text : String → String → String
write_text String.[] rest = String.◌∷◌ "." rest
write_text (String.◌∷◌ c s) rest = String.◌∷◌ "c" (String.◌∷◌ c (write_text s rest))

unfoldable pub read_text : String → String × String
read_text String.[] = ("", "")
read_text (String.◌∷◌ c String.[]) = ("", "")
read_text (String.◌∷◌ c (String.◌∷◌ d s)) =
    let later = read_text s in
    if code c == b'c' then (String.◌∷◌ d later.0, later.1) else ("", String.◌∷◌ d s)

read-write_text :
    (s rest : String) → ◌≡◌ {A = String × String} (read_text (write_text s rest)) (s, rest)
unfolding write_text read_text
read-write_text String.[] String.[] = refl
read-write_text String.[] (String.◌∷◌ c rest) = refl
read-write_text (String.◌∷◌ c s) rest = rw (read-write_text s rest)

unfoldable pub write_members : List Membership → String → String
unfolding write_nat write_text
write_members [] rest = rest
write_members (m ∷ ms) rest =
    write_nat m.id (write_text m.name (write_text m.role (write_members ms rest)))

unfoldable pub read_members : ℕ → String → List Membership
unfolding read_nat read_text
read_members zero s = []
read_members (suc n) s =
    let id = read_nat s in
    let name = read_text id.1 in
    let role = read_text name.1 in
    record { id = id.0; name = name.0; role = role.0 } ∷ read_members n role.1

read-write_members :
    (ms : List Membership) (rest : String) → read_members (length ms) (write_members ms rest) ≡ ms
unfolding write_members read_members
read-write_members [] rest = refl
read-write_members (m ∷ ms) rest = rw (
  read-write_nat m.id (write_text m.name (write_text m.role (write_members ms rest))),
  read-write_text m.name (write_text m.role (write_members ms rest)),
  read-write_text m.role (write_members ms rest),
  read-write_members ms rest,
)

unfoldable pub write_payload : Payload → ℕ → String
unfolding write_members decimal
write_payload p seconds = write_nat p.user_id (
    write_text p.email (
      write_text p.role
        (write_nat (length p.companies) (write_members p.companies (decimal seconds)))))

unfoldable pub read_payload : String → Payload
unfolding read_members
read_payload s =
    let user_id = read_nat s in
    let email = read_text user_id.1 in
    let role = read_text email.1 in
    let count = read_nat role.1 in
    record {
      user_id = user_id.0;
      email = email.0;
      role = role.0;
      companies = read_members count.0 count.1;
    }

read-write_payload : (p : Payload) (seconds : ℕ) → read_payload (write_payload p seconds) ≡ p
unfolding write_payload read_payload
read-write_payload p seconds =
    let members = write_members p.companies (decimal seconds) in
    rw (
      read-write_nat p.user_id
          (write_text p.email (write_text p.role (write_nat (length p.companies) members))),
      read-write_text p.email (write_text p.role (write_nat (length p.companies) members)),
      read-write_text p.role (write_nat (length p.companies) members),
      read-write_nat (length p.companies) members,
      read-write_members p.companies (decimal seconds),
    )

unfoldable pub toy : Crypto
unfolding write_payload read_payload
toy = record {
  hash_password = λ salt password. password;
  compare_password = λ password hash. str_eq password hash;
  sign = write_payload;
  verify = λ token now. some (read_payload token);
  lifetime = 86400;
  sha256 = λ text. text;
}

pub toy-IsCrypto : IsCrypto toy
unfolding toy
toy-IsCrypto = record {
  compare-hash = λ salt password. ground (arith, eq_iff password password);
  verify-sign = λ p signed_at now fresh. ap some (read-write_payload p signed_at);
}
