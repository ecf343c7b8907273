-- ===== src/Socks5/Auth/Input.antt =====
-- What the reads of `authenticate` (ippop/socks5/socks5.go) have taken from the client when they
-- succeed.
use titan_ipoverlay.Prelude.{
  ℕ, zero, suc, ◌≡◌, refl, sym, ap, subst, ◌≤◌, ◌∙◌, Bool, true, false, [], ◌∷◌, ◌++◌, arith,
  length, take, drop, ltb, take-append-drop, length-take, ◌==◌, if◌then◌else◌,
}
use titan_ipoverlay.Prelude.Str.{Str}
use titan_ipoverlay.Prelude.Exec.{
  Result, ok, err, pure, raise, bind-eq-ok, ◌>>=◌, Ensures, Ensures-bind,
}
use titan_ipoverlay.Socks5.Conn.{
  Error, Conn, Io, eof, read_full, read_byte, first_byte, write, pending, user_auth_version,
  bad_auth_version,
}
use titan_ipoverlay.Socks5.Auth.{read_auth_methods, read_user_and_password, check_auth_version}

pub read_full-ok :
    (n : ℕ) (c : Conn) {s : Str}
    → (read_full n c).0 ≡ ok s
    → (c.input ≡ s ++ (read_full n c).1.input) × (length s ≡ n)
unfolding read_full
read_full-ok n c {s = s} h = go (ltb (length c.input) n) refl h
  where
    out : Bool → Result Error Str × Conn
    out b =
        if b
        then (err eof, record c { input = [] })
        else (ok (take n c.input), record c { input = drop n c.input })

    go :
        (b : Bool)
        → ltb (length c.input) n ≡ b
        → (out b).0 ≡ ok s
        → (c.input ≡ s ++ (out b).1.input) × (length s ≡ n)
    go true e k = absurd (cc k)
    go false e k =
        let taken : take n c.input ≡ s = cc in
        let long : n ≤ length c.input = ground (arith, e) in
        (
          subst (λ t. c.input ≡ t ++ drop n c.input) taken (sym (take-append-drop n c.input)),
          ap length (sym taken) ∙ length-take n c.input long,
        )

pub read_byte-ok : (c : Conn) {b : ℕ} → (read_byte c).0 ≡ ok b → c.input ≡ b ∷ (read_byte c).1.input
unfolding read_byte
read_byte-ok c h = go c.input h
  where
    go : (s : Str) {b : ℕ} → (first_byte s c).0 ≡ ok b → s ≡ b ∷ (first_byte s c).1.input
    go [] h = absurd (cc h)
    go (x ∷ s) h = cc h

pub write-input : (b : Str) (c : Conn) → (write b c).1.input ≡ c.input
unfolding write
write-input b c = go c.writable
  where
    go : (k : ℕ) → (pending k b c).1.input ≡ c.input
    go zero = refl
    go (suc k) = refl

pub read_auth_methods-ok :
    (c : Conn) {methods : Str}
    → (read_auth_methods c).0 ≡ ok methods
    → c.input ≡ length methods ∷ (methods ++ (read_auth_methods c).1.input)
unfolding read_auth_methods
read_auth_methods-ok c {methods = methods} h =
    let (n, e, k, q) = bind-eq-ok read_byte (λ n. read_full n) c h in
    let first = read_byte-ok c e in
    let (rest, long) = read_full-ok n (read_byte c).1 k in cc (first, rest, long, q)

header_user :
    (header : Str) (c : Conn) {n : ℕ}
    → (check_auth_version header c).0 ≡ ok n
    → length header ≡ 2
    → (header ≡ user_auth_version ∷ n ∷ []) × ((check_auth_version header c).1 ≡ c)
unfolding check_auth_version
header_user [] c h l = absurd (cc h)
header_user (v ∷ []) c h l = absurd (cc h)
header_user (v ∷ n ∷ x ∷ rest) c h l = absurd (omega arith)
header_user (v ∷ n ∷ []) c h l = go (v == user_auth_version) refl h
  where
    go :
        (b : Bool) {m : ℕ}
        → (v == user_auth_version) ≡ b
        → ((if b then pure n else raise bad_auth_version) c).0 ≡ ok m
        → (v ∷ n ∷ [] ≡ user_auth_version ∷ m ∷ [])
          × (((if b then pure n else raise bad_auth_version) c).1 ≡ c)
    go true e k = ground (arith, e)
    go false e k = absurd (cc k)

-- The message of RFC 1929, in what is left of the bytes `i` after each read.
module _ (i : Str) where
  abbrev Header : Str → Conn → Type 0
  Header header c = (i ≡ header ++ c.input) × (length header ≡ 2)

  abbrev NameNext : ℕ → Conn → Type 0
  NameNext n c = i ≡ user_auth_version ∷ n ∷ c.input

  abbrev AfterName : Str → Conn → Type 0
  AfterName user c = i ≡ user_auth_version ∷ length user ∷ (user ++ c.input)

  abbrev PassNext : Str → ℕ → Conn → Type 0
  PassNext user m c = i ≡ user_auth_version ∷ length user ∷ (user ++ m ∷ c.input)

  abbrev pub AfterPass : Str → Str → Conn → Type 0
  AfterPass user pass c =
      i ≡ user_auth_version ∷ length user ∷ (user ++ length pass ∷ (pass ++ c.input))

  abbrev got : Str → Str → Io (Str × Str)
  got user pass = pure (user, pass)

  abbrev last_read : Str → ℕ → Io (Str × Str)
  last_read user m = read_full m >>= got user

  abbrev pass_read : Str → Io (Str × Str)
  pass_read user = read_byte >>= last_read user

  abbrev name_read : ℕ → Io (Str × Str)
  name_read n = read_full n >>= pass_read

  last_read-AfterPass :
      (user : Str) (m : ℕ)
      → Ensures (PassNext user m) (last_read user m) (λ up c. AfterPass up.0 up.1 c)
  last_read-AfterPass user m =
      Ensures-bind (PassNext user m) (AfterPass user) (λ up c. AfterPass up.0 up.1 c) (read_full m)
        (got user)
        (λ c pass at_pass h.
          let (e, l) = read_full-ok m c h in
          subst (λ k. i ≡ user_auth_version ∷ length user ∷ (user ++ k)) (cc (e, l)) at_pass)
        (λ pass c up after h.
          let same : ◌≡◌ {A = Str × Str} (user, pass) up = cc in
          subst (λ up. AfterPass up.0 up.1 c) same after)

  pass_read-AfterPass :
      (user : Str) → Ensures (AfterName user) (pass_read user) (λ up c. AfterPass up.0 up.1 c)
  pass_read-AfterPass user =
      Ensures-bind (AfterName user) (PassNext user) (λ up c. AfterPass up.0 up.1 c) read_byte
        (last_read user)
        (λ c m at_name h.
          subst (λ k. i ≡ user_auth_version ∷ length user ∷ (user ++ k)) (read_byte-ok c h) at_name)
        (last_read-AfterPass user)

  name_read-AfterPass : (n : ℕ) → Ensures (NameNext n) (name_read n) (λ up c. AfterPass up.0 up.1 c)
  name_read-AfterPass n =
      Ensures-bind (NameNext n) AfterName (λ up c. AfterPass up.0 up.1 c) (read_full n) pass_read
        (λ c user at_name h.
          let (e, l) = read_full-ok n c h in
          subst (λ k. i ≡ user_auth_version ∷ k) (cc (e, l)) at_name)
        pass_read-AfterPass

  pub read_user_and_password-AfterPass :
      Ensures (λ c. i ≡ c.input) read_user_and_password (λ up c. AfterPass up.0 up.1 c)
  unfolding read_user_and_password
  read_user_and_password-AfterPass =
      Ensures-bind (λ c. i ≡ c.input) Header (λ up c. AfterPass up.0 up.1 c) (read_full 2)
        (λ header. check_auth_version header >>= name_read)
        (λ c header at h. let (e, l) = read_full-ok 2 c h in (at ∙ e, l))
        (λ header.
          Ensures-bind (Header header) NameNext (λ up c. AfterPass up.0 up.1 c)
            (check_auth_version header) name_read
            (λ c n at h.
              let (v, same) = header_user header c h at.1 in
              subst (λ t. i ≡ user_auth_version ∷ n ∷ t.input) (sym same)
                (subst (λ k. i ≡ k ++ c.input) v at.0))
            name_read-AfterPass)
