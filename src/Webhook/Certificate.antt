-- ===== src/Webhook/Certificate.antt =====
-- The certificate that the webhook serves (`ensure_tls`, src/webhook.rs).
use kube_hardware_autoscaler.Base.{
  ℕ, zero, suc, ◌+◌, ◌*◌, ◌≤◌, String, true, not, ◌≡◌, refl, sym, subst, ◌⊎◌, inl, inr, Option,
  none, some, arith, ltb, is_some_and, lookup, str_eq, eq_iff, Bool-cases,
}
use kube_hardware_autoscaler.Base.Time.{Time}
use kube_hardware_autoscaler.Drivers.Driver.{Result, ok, err, ok-injective, ok≢err}
use kube_hardware_autoscaler.Webhook.{
  Tls, Secret, renewal, tls_of, tls_from_secret, TlsError, Stored, Round, Step, round, next_round,
  rounds, ensure_tls, found, issued_and_stored, failed_with, again, usable, unless_usable,
  after_write,
}

-- The Secret holds this certificate, for the names asked for, and it is valid for 30 more days.
abbrev pub Holds : Time → String → Secret → Tls → Type 0
Holds now dns_names s tls =
    (s.dns_names ≡ some dns_names)
    × ((t : Time) × (s.not_after ≡ some t) × (now + 30 * 24 * 60 * 60 * 1000000000 ≤ t))
    × (lookup "ca.crt" s.text ≡ some tls.ca_pem)
    × (lookup "tls.crt" s.text ≡ some tls.cert_pem)
    × (lookup "tls.key" s.text ≡ some tls.key_pem)

named : (o : Option String) (d : String) → is_some_and o (λ x. str_eq x d) ≡ true → o ≡ some d
named none d h = cc
named (some x) d h = ground (arith, eq_iff x d)

lasting :
    (o : Option Time) (until : Time)
    → is_some_and o (λ t. not (ltb t until)) ≡ true
    → (t : Time) × (o ≡ some t) × (until ≤ t)
lasting none until h = cc
lasting (some t) until h = (t, refl, grind arith)

tls_of-some :
    (ca cert key : Option String) (tls : Tls)
    → tls_of ca cert key ≡ some tls
    → (ca ≡ some tls.ca_pem) × (cert ≡ some tls.cert_pem) × (key ≡ some tls.key_pem)
tls_of-some (some ca) (some cert) (some key) tls h = (cc, cc, cc)
tls_of-some none cert key tls h = cc
tls_of-some (some ca) none key tls h = cc
tls_of-some (some ca) (some cert) none tls h = cc

tls_from_secret-Holds :
    (now : Time) (dns_names : String) (s : Secret) (tls : Tls)
    → tls_from_secret now dns_names s ≡ some tls
    → Holds now dns_names s tls
unfolding tls_from_secret
tls_from_secret-Holds now dns_names s tls h =
    elim (Bool-cases (is_some_and s.dns_names (λ d. str_eq d dns_names))) [
      | inr e ↦ let h' : none ≡ some tls = rw e at h in cc
      | inl e ↦ elim (Bool-cases (is_some_and s.not_after (λ t. not (ltb t (now + renewal))))) [
        | inr d ↦ let h' : none ≡ some tls = rw (e, d) at h in cc
        | inl d ↦
            let h' : tls_of (lookup "ca.crt" s.text) (lookup "tls.crt" s.text)
                  (lookup "tls.key" s.text)
                ≡ some tls =
              rw (e, d) at h in
            let (ca, cert, key) = tls_of-some _ _ _ tls h' in
            (named s.dns_names dns_names e, lasting s.not_after (now + renewal) d, ca, cert, key)
      ]
    ]

-- In a round, the Secret held the certificate; or it was issued and the write of the Secret succeeded.
abbrev pub Stands : String → Round → Tls → Type 0
Stands dns_names r tls =
    ((s : Secret) × (r.existing ≡ ok (some s)) × Holds r.now dns_names s tls)
    ⊎ ((r.issued ≡ ok tls) × (r.write tls ≡ Stored.stored))

-- Another process wrote the Secret first.
abbrev pub Conflict : Round → Type 0
Conflict r = (tls : Tls) × (r.issued ≡ ok tls) × (r.write tls ≡ Stored.conflict)

-- What a step tells of its round.
abbrev Meaning : String → Round → Step → Type 0
Meaning dns_names r (found tls) = Stands dns_names r tls
Meaning dns_names r (issued_and_stored tls) = Stands dns_names r tls
Meaning dns_names r (failed_with e) = Unit
Meaning dns_names r again = Conflict r

module _ (dns_names : String) (r : Round) where
  after_write-Meaning :
      (tls : Tls) (w : Stored)
      → r.issued ≡ ok tls
      → r.write tls ≡ w
      → Meaning dns_names r (after_write tls w)
  after_write-Meaning tls Stored.stored i e = inr (i, e)
  after_write-Meaning tls Stored.conflict i e = (tls, i, e)
  after_write-Meaning tls (Stored.failed why) i e = tt

  issued-Meaning :
      (i : Result Tls String)
      → r.issued ≡ i
      → Meaning dns_names r (elim i [
        | err e ↦ failed_with (TlsError.issuing e)
        | ok tls ↦ after_write tls (r.write tls)
      ])
  issued-Meaning (err e) h = tt
  issued-Meaning (ok tls) h = after_write-Meaning tls (r.write tls) h refl

  usable-Meaning :
      (s : Option Secret) (t : Option Tls)
      → r.existing ≡ ok s
      → usable r.now dns_names s ≡ t
      → Meaning dns_names r (unless_usable r t)
  usable-Meaning s none h e = issued-Meaning r.issued refl
  usable-Meaning none (some tls) h e = cc
  usable-Meaning (some s) (some tls) h e = inl (s, h, tls_from_secret-Holds r.now dns_names s tls e)

  existing-Meaning :
      (x : Result (Option Secret) String)
      → r.existing ≡ x
      → Meaning dns_names r (elim x [
        | err e ↦ failed_with (TlsError.api e)
        | ok s ↦ unless_usable r (usable r.now dns_names s)
      ])
  existing-Meaning (err e) h = tt
  existing-Meaning (ok s) h = usable-Meaning s (usable r.now dns_names s) h refl

  round-Meaning : Meaning dns_names r (round dns_names r)
  unfolding round
  round-Meaning = existing-Meaning r.existing refl

-- Of so many rounds: the last one gives the certificate, and each one before it met a conflict.
abbrev pub Obtained : String → ℕ → (ℕ → Round) → Tls → Type 0
Obtained dns_names zero at tls = ⊥
Obtained dns_names (suc n) at tls =
    Stands dns_names (at n) tls ⊎ (Conflict (at n) × Obtained dns_names n at tls)

next_round-Obtained :
    (dns_names : String) (n : ℕ) (at : ℕ → Round) (s : Step) (later : Result Tls TlsError)
    (tls : Tls)
    → Meaning dns_names (at n) s
    → (later ≡ ok tls → Obtained dns_names n at tls)
    → next_round s later ≡ ok tls
    → Obtained dns_names (suc n) at tls
next_round-Obtained dns_names n at (found t) later tls m k h =
    inl (subst (Stands dns_names (at n)) (ok-injective h) m)
next_round-Obtained dns_names n at (issued_and_stored t) later tls m k h =
    inl (subst (Stands dns_names (at n)) (ok-injective h) m)
next_round-Obtained dns_names n at (failed_with e) later tls m k h = cc
next_round-Obtained dns_names n at again later tls m k h = inr (m, k h)

rounds-Obtained :
    (dns_names : String) (n : ℕ) (at : ℕ → Round) (tls : Tls)
    → rounds dns_names n at ≡ ok tls
    → Obtained dns_names n at tls
unfolding rounds
rounds-Obtained dns_names zero at tls h = absurd (ok≢err (sym h))
rounds-Obtained dns_names (suc n) at tls h =
    next_round-Obtained dns_names n at (round dns_names (at n)) (rounds dns_names n at) tls
      (round-Meaning dns_names (at n)) (λ e. rounds-Obtained dns_names n at tls e) h

-- A certificate that the webhook serves is one of the Secret's: in one of three rounds the Secret held
-- it, for these DNS names and with at least 30 days left, or it was newly issued and its write
-- succeeded; and in each round before, the write met the write of another process.
pub ensure_tls-Obtained :
    (dns_names : String) (at : ℕ → Round) (tls : Tls)
    → ensure_tls dns_names at ≡ ok tls
    → Obtained dns_names 3 at tls
unfolding ensure_tls
ensure_tls-Obtained dns_names at tls h = rounds-Obtained dns_names 3 at tls h
