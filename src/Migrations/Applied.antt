-- ===== src/Migrations/Applied.antt =====
-- What `migrate` of python/vedadb/migrations.py applies and records.
use vedadb_driver.Base.{
  leb, ℕ, suc, ◌≤◌, ◌≡◌, refl, sym, ap, ◌∙◌, Bool, true, false, not, ◌&&◌, ◌||◌, Option, none, some,
  List, [], ◌∷◌, ◌++◌, append_assoc, append-nil, arith, All, ◌==◌, if◌then◌else◌, if_cases, ok, err,
}
use vedadb_driver.Base.Dict.{nat_eq}
use vedadb_driver.Base.Sets.{has, has-add, has-append}
use vedadb_driver.Migrations.{
  MigrationRecord, Migration, Database, Outcome, to_set, is_past, missing, versions, returned,
  and_then, record_of, upgraded, apply, migrate_loop,
}
use mathlib.Core.Path.{subst}

abbrev pub record_versions : List MigrationRecord → List ℕ
record_versions [] = []
record_versions (r ∷ rs) = r.version ∷ record_versions rs

-- The tracking table: its rows, and what the statements on it do to them. A version is its key.
pub record Tracking (D E : Type 0) ⦃db : Database D E⦄ : Type 0 where
  pub rows : D → List MigrationRecord
  pub select_versions-rows : (d : D) → db.select_versions d ≡ ok (record_versions (rows d))
  pub insert-rows :
      (r : MigrationRecord) (d : D)
      → has r.version (record_versions (rows d)) ≡ false
      → ((db.insert r d).1 ≡ none) × (rows (db.insert r d).0 ≡ rows d ++ (r ∷ []))

abbrev pub within : Option ℕ → ℕ → Bool
within none v = true
within (some t) v = leb v t

-- The versions that are to be applied: not yet applied, and at most the target.
unfoldable pub is_due : List ℕ → Option ℕ → ℕ → Bool
unfolding has
is_due applied target v = not (has v applied) && within target v

pub past-within : (target : Option ℕ) (v : ℕ) → within target v ≡ not (is_past target v)
past-within none v = refl
past-within (some t) v = ground arith

unfoldable pub due : List ℕ → Option ℕ → List ℕ → List ℕ
unfolding is_due
due applied target [] = []
due applied target (v ∷ vs) =
    let rest = due applied target vs in if is_due applied target v then v ∷ rest else rest

-- Ascending, and no version twice.
abbrev pub Ascending : List ℕ → Type 0
Ascending [] = Unit {0}
Ascending (v ∷ vs) = All (λ w. suc v ≤ w) vs × Ascending vs

pub has-to_set : (v : ℕ) (vs : List ℕ) → has v (to_set vs) ≡ has v vs
unfolding has to_set
has-to_set v [] = refl
has-to_set v (w ∷ vs) = has-add v w (to_set vs) ∙ ground (arith, has-to_set v vs)

pub and-false : (b : Bool) → (b && false) ≡ false
and-false true = refl
and-false false = refl

-- From the first version past the target on, none is due.
due-past :
    (applied : List ℕ) (target : Option ℕ) (v : ℕ) (vs : List ℕ)
    → is_past target v ≡ true
    → All (λ w. suc v ≤ w) vs
    → due applied target vs ≡ []
unfolding due is_due
due-past applied target v [] p a = refl
due-past applied none v (w ∷ vs) p a = cc
due-past applied (some t) v (w ∷ vs) p a =
    ground (arith, p, a.0, due-past applied (some t) v vs p a.1)

due-stop :
    (applied : List ℕ) (target : Option ℕ) (v : ℕ) (vs : List ℕ)
    → is_past target v ≡ true
    → All (λ w. suc v ≤ w) vs
    → due applied target (v ∷ vs) ≡ []
unfolding due is_due
due-stop applied target v vs p a =
    rw (past-within target v, p, and-false (not (has v applied))) (due-past applied target v vs p a)

pub due-skip :
    (applied : List ℕ) (target : Option ℕ) (v : ℕ) (vs : List ℕ)
    → has v applied ≡ true
    → due applied target (v ∷ vs) ≡ due applied target vs
unfolding due is_due
due-skip applied target v vs h = rw h

pub due-take :
    (applied : List ℕ) (target : Option ℕ) (v : ℕ) (vs : List ℕ)
    → has v applied ≡ false
    → is_past target v ≡ false
    → due applied target (v ∷ vs) ≡ v ∷ due applied target vs
unfolding due is_due
due-take applied target v vs h p = rw (h, past-within target v, p)

pub record_versions-append :
    (xs ys : List MigrationRecord)
    → record_versions (xs ++ ys) ≡ record_versions xs ++ record_versions ys
record_versions-append [] ys = refl
record_versions-append (x ∷ xs) ys = ap (λ vs. x.version ∷ vs) (record_versions-append xs ys)

-- A number above which the others lie is none of them.
has-Ascending :
    (v w : ℕ) (vs : List ℕ) → All (λ w. suc v ≤ w) vs → has w vs ≡ true → (v == w) ≡ false
unfolding has
has-Ascending v w [] a i = cc
has-Ascending v w (u ∷ vs) a i = ground (arith, a.0, i, has-Ascending v w vs a.1)

pub has-later : (v w : ℕ) (vs : List ℕ) → has w vs ≡ true → has w (v ∷ vs) ≡ true
unfolding has
has-later v w vs h = ground (arith, h)

has-one :
    (w v : ℕ) (vs : List ℕ)
    → has w vs ≡ false
    → (v == w) ≡ false
    → (has w vs || has w (v ∷ [])) ≡ false
unfolding has
has-one w v vs h e = rw (h, e)

pub has-head : (v : ℕ) (vs : List ℕ) → has v (v ∷ vs) ≡ true
unfolding has
has-head v vs = ground arith

some_is_not : {A : Type 0} {x : A} → some x ≡ none → ⊥
some_is_not h = cc

module _ {D E : Type 0} ⦃db : Database D E⦄ where
  -- An upgrade leaves the tracking table as it is, whether it ends or raises.
  abbrev pub Quiet : Tracking D E → Migration D E → Type 0
  Quiet t m = (d : D) → t.rows (m.upgrade d).0 ≡ t.rows d

  -- The table has the returned records at its end, and they are of the versions given; after an
  -- exception, which `S` excludes, it has records of the first of these.
  abbrev pub Recorded : Tracking D E → Type 0 → List MigrationRecord → List ℕ → Outcome D E → Type 0
  Recorded t S before vs (d, ok rs) = (t.rows d ≡ before ++ rs) × (record_versions rs ≡ vs)
  Recorded t S before vs (d, err e) =
      (rs : List MigrationRecord) × (ws : List ℕ) × (t.rows d ≡ before ++ rs)
      × (record_versions rs ++ ws ≡ vs)
      × (S → ⊥)

  returned-Recorded :
      (t : Tracking D E) (S S' : Type 0) (before : List MigrationRecord) (vs : List ℕ)
      (r : MigrationRecord) (o : Outcome D E)
      → (S' → S)
      → Recorded t S (before ++ (r ∷ [])) vs o
      → Recorded t S' before (r.version ∷ vs) (returned r o)
  returned-Recorded t S S' before vs r (d, ok rs) g (p, q) =
      (p ∙ append_assoc before (r ∷ []) rs, ap (λ ws. r.version ∷ ws) q)
  returned-Recorded t S S' before vs r (d, err e) g (rs, ws, p, q, k) =
      (r ∷ rs, ws, p ∙ append_assoc before (r ∷ []) rs, ap (λ ws. r.version ∷ ws) q, λ s. k (g s))

  -- No version that is still to come and was not applied is in the table.
  abbrev Fresh : Tracking D E → List ℕ → List ℕ → D → Type 0
  Fresh t applied vs d =
      (v : ℕ) → has v applied ≡ false → has v vs ≡ true → has v (record_versions (t.rows d)) ≡ false

  and_then-Recorded :
      (t : Tracking D E) (S S' : Type 0) (before : List MigrationRecord) (vs : List ℕ)
      (r : MigrationRecord) (x : D × Option E) (rest : D → Outcome D E)
      → (S' → S)
      → x.1 ≡ none
      → t.rows x.0 ≡ before ++ (r ∷ [])
      → Recorded t S (t.rows x.0) vs (rest x.0)
      → Recorded t S' before (r.version ∷ vs) (and_then r x rest)
  and_then-Recorded t S S' before vs r (d, some e) rest g n p q = cc
  and_then-Recorded t S S' before vs r (d, none) rest g n p q =
      returned-Recorded t S S' before vs r (rest d) g (subst (λ b. Recorded t S b vs (rest d)) p q)

  upgraded-Recorded :
      (t : Tracking D E) (S S' : Type 0) (before : List MigrationRecord) (vs : List ℕ)
      (m : Migration D E) (x : D × Option E) (rest : D → Outcome D E)
      → (S' → S)
      → (S' → x.1 ≡ none)
      → t.rows x.0 ≡ before
      → has m.version (record_versions before) ≡ false
      → ((d : D)
          → t.rows d ≡ before ++ (record_of m (db.time x.0) ∷ [])
          → Recorded t S (t.rows d) vs (rest d))
      → Recorded t S' before (m.version ∷ vs) (upgraded m x rest)
  upgraded-Recorded t S S' before vs m (d, some e) rest g u p f q =
      ([], m.version ∷ vs, p ∙ sym (append-nil before), refl, λ s. some_is_not (u s))
  upgraded-Recorded t S S' before vs m (d, none) rest g u p f q =
      let r = record_of m (db.time d) in
      let new : ((db.insert r d).1 ≡ none) × (t.rows (db.insert r d).0 ≡ t.rows d ++ (r ∷ [])) =
        t.insert-rows r d (ap (λ b. has m.version (record_versions b)) p ∙ f) in
      let e : t.rows (db.insert r d).0 ≡ before ++ (r ∷ []) = new.1 ∙ ap (λ b. b ++ (r ∷ [])) p in
      and_then-Recorded t S S' before vs r (db.insert r d) rest g new.0 e (q (db.insert r d).0 e)

  apply-Recorded :
      (t : Tracking D E) (S S' : Type 0) (vs : List ℕ) (dep : Option ℕ) (m : Migration D E) (d : D)
      (rest : D → Outcome D E)
      → (S' → S)
      → (S' → dep ≡ none)
      → (S' → (d : D) → (m.upgrade d).1 ≡ none)
      → Quiet t m
      → has m.version (record_versions (t.rows d)) ≡ false
      → ((d' : D) (now : ℕ)
          → t.rows d' ≡ t.rows d ++ (record_of m now ∷ [])
          → Recorded t S (t.rows d') vs (rest d'))
      → Recorded t S' (t.rows d) (m.version ∷ vs) (apply dep m d rest)
  apply-Recorded t S S' vs (some dep) m d rest g n u quiet f q =
      ([], m.version ∷ vs, sym (append-nil (t.rows d)), refl, λ s. some_is_not (n s))
  apply-Recorded t S S' vs none m d rest g n u quiet f q =
      upgraded-Recorded t S S' (t.rows d) vs m (m.upgrade d) rest g (λ s. u s d) (quiet d) f
        (λ d' e. q d' (db.time (m.upgrade d).0) e)

  -- The version just recorded is less than those to come.
  Fresh-next :
      (t : Tracking D E) (applied : List ℕ) (v : ℕ) (vs : List ℕ) (d d' : D) (r : MigrationRecord)
      → r.version ≡ v
      → All (λ w. suc v ≤ w) vs
      → Fresh t applied (v ∷ vs) d
      → t.rows d' ≡ t.rows d ++ (r ∷ [])
      → Fresh t applied vs d'
  Fresh-next t applied v vs d d' r e a f p w n i =
      let old : has w (record_versions (t.rows d)) ≡ false = f w n (has-later v w vs i) in
      let o : (v == w) ≡ false = has-Ascending v w vs a i in
      let o' : (r.version == w) ≡ false = ap (λ u. u == w) e ∙ o in
      ap (λ rs. has w (record_versions rs)) p
      ∙ (ap (has w) (record_versions-append (t.rows d) (r ∷ []))
          ∙ (has-append w (record_versions (t.rows d)) (r.version ∷ [])
              ∙ has-one w r.version (record_versions (t.rows d)) old o'))

  -- The dependencies were applied before the call, and the upgrade does not raise.
  abbrev pub Succeeds : List ℕ → Migration D E → Type 0
  Succeeds applied m = (missing m.dependencies applied ≡ none) × ((d : D) → (m.upgrade d).1 ≡ none)

  weaker :
      (t : Tracking D E) (S S' : Type 0) (before : List MigrationRecord) (vs : List ℕ)
      (o : Outcome D E)
      → (S' → S)
      → Recorded t S before vs o
      → Recorded t S' before vs o
  weaker t S S' before vs (d, ok rs) g h = h
  weaker t S S' before vs (d, err e) g (rs, ws, p, q, k) = (rs, ws, p, q, λ s. k (g s))

  pub loop-Recorded :
      (t : Tracking D E) (applied : List ℕ) (target : Option ℕ) (ms : List (Migration D E)) (d : D)
      → All (Quiet t) ms
      → Ascending (versions ms)
      → Fresh t applied (versions ms) d
      → Recorded t
          (All (Succeeds applied) ms)
          (t.rows d)
          (due applied target (versions ms))
          (migrate_loop applied target ms d)
  unfolding migrate_loop versions due
  loop-Recorded t applied target [] d quiet asc f = (sym (append-nil (t.rows d)), refl)
  loop-Recorded t applied target (m ∷ ms) d quiet asc f =
      let vs = m.version ∷ versions ms in
      let S = All (Succeeds applied) ms in
      let S' = All (Succeeds applied) (m ∷ ms) in
      let rest = migrate_loop applied target ms in
      if_cases (Recorded t S' (t.rows d) (due applied target vs)) (has m.version applied)
        (λ h.
          subst (λ ws. Recorded t S' (t.rows d) ws (rest d))
            (sym (due-skip applied target m.version (versions ms) h))
            (weaker t S S' (t.rows d) (due applied target (versions ms)) (rest d) (λ s. s.1)
              (loop-Recorded t applied target ms d quiet.1 asc.1
                (λ v n i. f v n (has-later m.version v (versions ms) i)))))
        (λ h.
          if_cases (Recorded t S' (t.rows d) (due applied target vs)) (is_past target m.version)
            (λ p. (
              sym (append-nil (t.rows d)),
              sym (due-stop applied target m.version (versions ms) p asc.0),
            ))
            (λ p.
              subst
                (λ ws.
                  Recorded t S' (t.rows d) ws (apply (missing m.dependencies applied) m d rest))
                (sym (due-take applied target m.version (versions ms) h p))
                (apply-Recorded t S S' (due applied target (versions ms))
                  (missing m.dependencies applied) m d rest (λ s. s.1) (λ s. s.0.0) (λ s. s.0.1)
                  quiet.0 (f m.version h (has-head m.version (versions ms)))
                  (λ d' now e. loop-Recorded t applied target ms d' quiet.1 asc.1 (
                    Fresh-next t applied m.version (versions ms) d d' (record_of m now) refl asc.0 f
                      e)))))
