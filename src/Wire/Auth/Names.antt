-- ===== src/Wire/Auth/Names.antt =====
-- The texts of python/vedadb/wire/vbp/auth.py, read back.
use vedadb_driver.Base.{
  ℕ, ◌≡◌, refl, sym, ap, ◌∙◌, Bool, true, false, not, ◌&&◌, List, [], ◌∷◌, ◌++◌, arith, ◌==◌,
  if◌then◌else◌, if_cases, ==_iff,
}
use vedadb_driver.Base.Dict.{codes_eq, get, put}
use vedadb_driver.Wire.Opcodes.{codes}
use vedadb_driver.Wire.Auth.{
  Crypto, split_comma, split_equals, put_parts, counted, parse_server_first, saslname, ScramClient,
  client_first, server_first,
}

-- No comma stands in the text.
abbrev pub no_comma : List ℕ → Bool
no_comma [] = true
no_comma (c ∷ cs) = not (c == 44) && no_comma cs

split_comma-append :
    (s t : List ℕ)
    → no_comma s ≡ true
    → split_comma (s ++ (44 ∷ t)) ≡ (s, (split_comma t).0 ∷ (split_comma t).1)
unfolding split_comma
split_comma-append [] t h = refl
split_comma-append (c ∷ s) t h =
    let e : (c == 44) ≡ false = ground (arith, h) in
    let ih = split_comma-append s t (ground (arith, h)) in rw (e, ih)

split_comma-last : (s : List ℕ) → no_comma s ≡ true → split_comma s ≡ (s, [])
unfolding split_comma
split_comma-last [] h = refl
split_comma-last (c ∷ s) h =
    let e : (c == 44) ≡ false = ground (arith, h) in
    let ih = split_comma-last s (ground (arith, h)) in rw (e, ih)

-- The parts of the server's first message.
server_first-parts :
    (r s i : List ℕ)
    → no_comma r ≡ true
    → no_comma s ≡ true
    → no_comma i ≡ true
    → split_comma (server_first r s i)
      ≡ (codes "r=" ++ r, (codes "s=" ++ s) ∷ (codes "i=" ++ i) ∷ [])
unfolding server_first
server_first-parts r s i a b c = rw (
  split_comma-append (codes "r=" ++ r) (codes "s=" ++ (s ++ (codes ",i=" ++ i)))
      (ground (arith, a)),
  split_comma-append (codes "s=" ++ s) (codes "i=" ++ i) (ground (arith, b)),
  split_comma-last (codes "i=" ++ i) (ground (arith, c)),
)

pub parse_server_first-ok :
    {E : Type 0} (k : Crypto) (r s i : List ℕ)
    → no_comma r ≡ true
    → no_comma s ≡ true
    → no_comma i ≡ true
    → parse_server_first {E = E} k (server_first r s i) ≡ counted r s (k.int i)
unfolding parse_server_first put_parts put get split_equals
parse_server_first-ok k r s i a b c = rw (server_first-parts r s i a b c)

-- A server's reading of an escaped name.
unfoldable pub read_name : List ℕ → List ℕ
read_name [] = []
read_name (a ∷ []) = a ∷ []
read_name (a ∷ b ∷ []) = a ∷ b ∷ []
read_name (a ∷ b ∷ c ∷ cs) =
    let rest = read_name cs in
    let next = read_name (b ∷ c ∷ cs) in
    if a == 61 then (if b == 51 then 61 else 44) ∷ rest else a ∷ next

read_name-plain : (c : ℕ) (s : List ℕ) → (c == 61) ≡ false → read_name (c ∷ s) ≡ c ∷ read_name s
unfolding read_name
read_name-plain c [] h = refl
read_name-plain c (d ∷ []) h = refl
read_name-plain c (d ∷ e ∷ s) h = rw h

cons-eq : (a c : ℕ) (s t : List ℕ) → c ≡ a → s ≡ t → a ∷ s ≡ c ∷ t
cons-eq a c s t e h = rw (sym e, h)

read_name-saslname : (s : List ℕ) → read_name (saslname s) ≡ s
unfolding saslname read_name
read_name-saslname [] = refl
read_name-saslname (c ∷ s) =
    let P : List ℕ → Type 0 = λ t. read_name t ≡ c ∷ s in
    let ih = read_name-saslname s in
    if_cases P (c == 61) (λ h. cons-eq 61 c (read_name (saslname s)) s ((==_iff c 61).0 h) ih)
      (λ h.
        if_cases P (c == 44) (λ g. cons-eq 44 c (read_name (saslname s)) s ((==_iff c 44).0 g) ih)
          (λ g. read_name-plain c (saslname s) h ∙ ap (λ t. c ∷ t) ih))

saslname-no_comma : (s : List ℕ) → no_comma (saslname s) ≡ true
unfolding saslname
saslname-no_comma [] = refl
saslname-no_comma (c ∷ s) =
    let P : List ℕ → Type 0 = λ t. no_comma t ≡ true in
    let ih = saslname-no_comma s in
    if_cases P (c == 61) (λ h. ih)
      (λ h. if_cases P (c == 44) (λ g. ih) (λ g. ground (arith, g, ih)))

-- A server that splits the client's first message at the commas finds the name and the nonce in it, and
-- reads the user's name back from the escaped one, whatever characters it has: if no comma stands
-- in the nonce.
pub client_first-reads :
    (c : ScramClient)
    → no_comma c.client_nonce ≡ true
    → (split_comma (client_first c)
        ≡ (codes "n=" ++ saslname c.username, (codes "r=" ++ c.client_nonce) ∷ []))
      × (read_name (saslname c.username) ≡ c.username)
unfolding client_first
client_first-reads c h = (
  rw (
    split_comma-append (codes "n=" ++ saslname c.username) (codes "r=" ++ c.client_nonce)
        (ground (arith, saslname-no_comma c.username)),
    split_comma-last (codes "r=" ++ c.client_nonce) (ground (arith, h)),
  ),
  read_name-saslname c.username,
)
