-- ===== src/Transactions/Samples.antt =====
-- A signer that can be run: an encoding of bindings without dots, and a stand-in for the HMAC.
-- A character is written as two, a dot as "dd"; a text ends with ";;". Numbers are written in unary.
use Prim.Native.Char.{Char, code}
use text.Mathlib.TextEquality.{Char-path}
use vcv_rack_mcp.Prelude.{
  ℕ, zero, suc, ◌≡◌, refl, String, false, ◌==◌, if◌then◌else◌, arith, Bool-cases, inl, inr, sym, ap,
  some,
}
use vcv_rack_mcp.Transactions.{TokenBinding, Signer, has_dot}

abbrev dot : Char
dot = "."

unfoldable pub write_text : String → String → String
write_text String.[] rest = String.◌∷◌ ";" (String.◌∷◌ ";" rest)
write_text (String.◌∷◌ c s) rest =
    if code c == b'.'
    then String.◌∷◌ "d" (String.◌∷◌ "d" (write_text s rest))
    else String.◌∷◌ "x" (String.◌∷◌ c (write_text s rest))

unfoldable pub read_text : String → String × String
read_text (String.◌∷◌ t (String.◌∷◌ c rest)) =
    let (s, after) = read_text rest in
    if code t == b';'
    then (String.[], rest)
    else if code t == b'd'
    then (String.◌∷◌ dot s, after)
    else (String.◌∷◌ c s, after)
read_text _ = (String.[], String.[])

unfoldable pub write_number : ℕ → String → String
write_number zero rest = String.◌∷◌ ";" rest
write_number (suc n) rest = String.◌∷◌ "x" (write_number n rest)

unfoldable pub read_number : String → ℕ × String
read_number String.[] = (0, String.[])
read_number (String.◌∷◌ t rest) =
    let (n, after) = read_number rest in if code t == b';' then (0, rest) else (suc n, after)

read-write_text : (s rest : String) → read_text (write_text s rest) ≡ (s, rest)
unfolding read_text write_text
read-write_text String.[] rest = refl
read-write_text (String.◌∷◌ c s) rest = elim (Bool-cases (code c == b'.')) [
  | inl d ↦
      let same : c ≡ dot = Char-path c dot (ground arith) in
      rw (d, read-write_text s rest) (ap (λ x. (String.◌∷◌ x s, rest)) (sym same))
  | inr o ↦ rw (o, read-write_text s rest) refl
]

read-write_number : (n : ℕ) (rest : String) → read_number (write_number n rest) ≡ (n, rest)
unfolding read_number write_number
read-write_number zero rest = refl
read-write_number (suc n) rest = rw (read-write_number n rest) refl

dotless_text : (s rest : String) → has_dot rest ≡ false → has_dot (write_text s rest) ≡ false
unfolding write_text
dotless_text String.[] rest h = h
dotless_text (String.◌∷◌ c s) rest h = ground (arith, dotless_text s rest h)

dotless_number :
    (n : ℕ) (rest : String) → has_dot rest ≡ false → has_dot (write_number n rest) ≡ false
unfolding write_number
dotless_number zero rest h = h
dotless_number (suc n) rest h = dotless_number n rest h

unfoldable pub write_binding : TokenBinding → String
write_binding b = write_text b.instance_id (
    write_text b.session_id (
      write_number b.patch_epoch (
        write_text b.base_fingerprint
          (write_text b.plan_hash (write_text b.risk_level (write_number b.expires_at ""))))))

unfoldable pub read_binding : String → TokenBinding
read_binding s0 =
    let (instance_id, s1) = read_text s0 in
    let (session_id, s2) = read_text s1 in
    let (patch_epoch, s3) = read_number s2 in
    let (base_fingerprint, s4) = read_text s3 in
    let (plan_hash, s5) = read_text s4 in
    let (risk_level, s6) = read_text s5 in
    let (expires_at, s7) = read_number s6 in
    record {
      instance_id = instance_id;
      session_id = session_id;
      patch_epoch = patch_epoch;
      base_fingerprint = base_fingerprint;
      plan_hash = plan_hash;
      risk_level = risk_level;
      expires_at = expires_at;
    }

pub read-write_binding : (b : TokenBinding) → read_binding (write_binding b) ≡ b
unfolding read_binding write_binding
read-write_binding b = simp (read-write_text, read-write_number)

pub dotless_binding : (b : TokenBinding) → has_dot (write_binding b) ≡ false
unfolding write_binding
dotless_binding b = dotless_text b.instance_id _ (
    dotless_text b.session_id _ (
      dotless_number b.patch_epoch _ (
        dotless_text b.base_fingerprint _ (
          dotless_text b.plan_hash _
            (dotless_text b.risk_level _ (dotless_number b.expires_at "" refl))))))

abbrev pub sample_signer : Signer
sample_signer = record {
  hmac = λ body. body;
  encode = write_binding;
  decode = λ body. some (read_binding body);
  encode_dotless = dotless_binding;
  decode-encode = λ b. ap some (read-write_binding b);
}
