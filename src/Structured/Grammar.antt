-- ===== src/Structured/Grammar.antt =====
-- The bracket structure of a JSON object, as a grammar of its characters, and that the scan of
-- guardrails/schema_validator.py follows it.
use finguard_major_project.Prelude.{
  ℕ, suc, zero, ◌≡◌, ◌≢◌, ◌⊎◌, ◌↔◌, refl, sym, subst, ap, true, false, [], ◌∷◌, ◌==◌, ==_iff, arith,
  Bool-cases, inl, inr,
}
use finguard_major_project.Structured.{Codes, Scan, start, advance, closes}

-- `InObject n cs`: after an opening brace that stands within n others, cs is the rest of the outermost
-- object and nothing more. A string goes from its quote to the next quote that no backslash escapes,
-- and what stands in it opens and closes nothing.
mutual
  pub InObject : ℕ → Codes → Type 0
  InObject n [] = ⊥
  InObject n (c ∷ cs) =
      ((c ≡ b'"') × InString n cs)
      ⊎ ((c ≡ b'{') × InObject (suc n) cs)
      ⊎ ((c ≡ b'}') × (n ≡ 0) × (cs ≡ []))
      ⊎ ((c ≡ b'}') × (m : ℕ) × (n ≡ suc m) × InObject m cs)
      ⊎ ((c ≢ b'"') × (c ≢ b'{') × (c ≢ b'}') × InObject n cs)

  pub InString : ℕ → Codes → Type 0
  InString n [] = ⊥
  InString n (c ∷ cs) =
      ((c ≡ b'"') × InObject n cs)
      ⊎ ((c ≡ b'\\') × Escaped n cs)
      ⊎ ((c ≢ b'"') × (c ≢ b'\\') × InString n cs)

  pub Escaped : ℕ → Codes → Type 0
  Escaped n [] = ⊥
  Escaped n (c ∷ cs) = InString n cs

-- A text whose last character, and no character before it, closes what the scan has open.
abbrev pub Ends : Scan → Codes → Type 0
Ends s [] = ⊥
Ends s (c ∷ []) = closes s c ≡ true
Ends s (c ∷ d ∷ cs) = (closes s c ≡ false) × Ends (advance s c) (d ∷ cs)

abbrev outside : ℕ → Scan
outside n = record { depth = suc n; in_string = false; escaped = false }

abbrev inside : ℕ → Scan
inside n = record { depth = suc n; in_string = true; escaped = false }

abbrev after_backslash : ℕ → Scan
after_backslash n = record { depth = suc n; in_string = true; escaped = true }

-- The first character closes and is the last, or it does not close and the rest ends.
abbrev Step : Scan → ℕ → Codes → Type 0
Step s c cs = ((closes s c ≡ true) × (cs ≡ [])) ⊎ ((closes s c ≡ false) × Ends (advance s c) cs)

Ends-Step : (s : Scan) (c : ℕ) (cs : Codes) → Ends s (c ∷ cs) → Step s c cs
Ends-Step s c [] h = inl (h, refl)
Ends-Step s c (d ∷ ds) h = inr h

Step-Ends : (s : Scan) (c : ℕ) (cs : Codes) → Step s c cs → Ends s (c ∷ cs)
Step-Ends s c [] (inl (h, e)) = h
Step-Ends s c [] (inr (h, e)) = absurd e
Step-Ends s c (d ∷ ds) (inl (h, e)) = absurd (cc e)
Step-Ends s c (d ∷ ds) (inr h) = h

-- A character that does not close, with what it leads to.
abbrev Goes : Scan → ℕ → Scan → Type 0
Goes s c t = (closes s c ≡ false) × (advance s c ≡ t)

Goes-Ends : (s t : Scan) (c : ℕ) (cs : Codes) → Goes s c t → Ends t cs → Ends s (c ∷ cs)
Goes-Ends s t c cs (f, e) h = Step-Ends s c cs (inr (f, subst (λ x. Ends x cs) (sym e) h))

Ends-Goes : (s t : Scan) (c : ℕ) (cs : Codes) → Goes s c t → Ends s (c ∷ cs) → Ends t cs
Ends-Goes s t c cs (f, e) h = split (Ends-Step s c cs h)
  where
    split : Step s c cs → Ends t cs
    split (inl (x, y)) = absurd (cc (f, x))
    split (inr (x, y)) = subst (λ x. Ends x cs) e y

Goes-quote : (n c : ℕ) → c ≡ b'"' → Goes (outside n) c (inside n)
unfolding advance closes
Goes-quote n c e = rw e (refl, refl)

Goes-open : (n c : ℕ) → c ≡ b'{' → Goes (outside n) c (outside (suc n))
unfolding advance closes
Goes-open n c e =
    rw e (refl, ap (λ k. record { depth = k; in_string = false; escaped = false }) (omega arith))

Goes-close : (m c : ℕ) → c ≡ b'}' → Goes (outside (suc m)) c (outside m)
unfolding advance closes
Goes-close m c e =
    rw e (
      ground arith,
      ap (λ k. record { depth = k; in_string = false; escaped = false }) (omega arith),
    )

closes_last : (c : ℕ) → c ≡ b'}' → closes (outside 0) c ≡ true
unfolding closes
closes_last c e = rw e refl

Goes-plain : (n c : ℕ) → c ≢ b'"' → c ≢ b'{' → c ≢ b'}' → Goes (outside n) c (outside n)
unfolding advance closes
Goes-plain n c q o x = (ground arith, ground arith)

Goes-end_string : (n c : ℕ) → c ≡ b'"' → Goes (inside n) c (outside n)
unfolding advance closes
Goes-end_string n c e = rw e (refl, refl)

Goes-backslash : (n c : ℕ) → c ≡ b'\\' → Goes (inside n) c (after_backslash n)
unfolding advance closes
Goes-backslash n c e = rw e (refl, refl)

Goes-in_string : (n c : ℕ) → c ≢ b'"' → c ≢ b'\\' → Goes (inside n) c (inside n)
unfolding advance closes
Goes-in_string n c q o = (ground arith, ground arith)

Goes-escaped : (n c : ℕ) → Goes (after_backslash n) c (inside n)
unfolding advance closes
Goes-escaped n c = (refl, refl)

mutual
  unfolding InObject

  InObject-Ends : (n : ℕ) (cs : Codes) → InObject n cs → Ends (outside n) cs
  InObject-Ends n [] h = absurd h
  InObject-Ends n (c ∷ cs) (inl (e, h)) =
      Goes-Ends _ (inside n) c cs (Goes-quote n c e) (InString-Ends n cs h)
  InObject-Ends n (c ∷ cs) (inr (inl (e, h))) =
      Goes-Ends _ (outside (suc n)) c cs (Goes-open n c e) (InObject-Ends (suc n) cs h)
  InObject-Ends n (c ∷ cs) (inr (inr (inl (e, z, l)))) =
      Step-Ends (outside n) c cs (inl (rw z (closes_last c e), l))
  InObject-Ends n (c ∷ cs) (inr (inr (inr (inl (e, m, k, h))))) =
      rw k (Goes-Ends _ (outside m) c cs (Goes-close m c e) (InObject-Ends m cs h))
  InObject-Ends n (c ∷ cs) (inr (inr (inr (inr (q, o, x, h))))) =
      Goes-Ends _ (outside n) c cs (Goes-plain n c q o x) (InObject-Ends n cs h)

  InString-Ends : (n : ℕ) (cs : Codes) → InString n cs → Ends (inside n) cs
  InString-Ends n [] h = absurd h
  InString-Ends n (c ∷ cs) (inl (e, h)) =
      Goes-Ends _ (outside n) c cs (Goes-end_string n c e) (InObject-Ends n cs h)
  InString-Ends n (c ∷ cs) (inr (inl (e, h))) =
      Goes-Ends _ (after_backslash n) c cs (Goes-backslash n c e) (Escaped-Ends n cs h)
  InString-Ends n (c ∷ cs) (inr (inr (q, b, h))) =
      Goes-Ends _ (inside n) c cs (Goes-in_string n c q b) (InString-Ends n cs h)

  Escaped-Ends : (n : ℕ) (cs : Codes) → Escaped n cs → Ends (after_backslash n) cs
  Escaped-Ends n [] h = absurd h
  Escaped-Ends n (c ∷ cs) h = Goes-Ends _ (inside n) c cs (Goes-escaped n c) (InString-Ends n cs h)

-- A character is the given one, or it is not.
is_or_not : (c d : ℕ) → (c ≡ d) ⊎ (c ≢ d)
is_or_not c d = elim (Bool-cases (c == d)) [
  | inl t ↦ inl ((==_iff c d).0 t)
  | inr f ↦ inr (λ e. cc (f, (==_iff c d).1 e))
]

-- A closing brace closes the outermost object or an inner one.
closing :
    (n c : ℕ) (cs : Codes)
    → c ≡ b'}'
    → Ends (outside n) (c ∷ cs)
    → ((n ≡ zero) × (cs ≡ [])) ⊎ ((m : ℕ) × (n ≡ suc m) × Ends (outside m) cs)
closing zero c cs e h = split (Ends-Step (outside 0) c cs h)
  where
    split :
        Step (outside 0) c cs
        → ((zero ≡ zero) × (cs ≡ [])) ⊎ ((m : ℕ) × (zero ≡ suc m) × Ends (outside m) cs)
    split (inl (x, y)) = inl (refl, y)
    split (inr (x, y)) = absurd (cc (x, closes_last c e))
closing (suc m) c cs e h =
    inr (m, refl, Ends-Goes (outside (suc m)) (outside m) c cs (Goes-close m c e) h)

mutual
  unfolding InObject

  Ends-InObject : (n : ℕ) (cs : Codes) → Ends (outside n) cs → InObject n cs
  Ends-InObject n [] h = absurd h
  Ends-InObject n (c ∷ cs) h = elim (is_or_not c b'"') [
    | inl e ↦ inl (e, Ends-InString n cs (Ends-Goes _ (inside n) c cs (Goes-quote n c e) h))
    | inr q ↦ elim (is_or_not c b'{') [
      | inl e ↦ inr (
          inl
            (e, Ends-InObject (suc n) cs (Ends-Goes _ (outside (suc n)) c cs (Goes-open n c e) h)))
      | inr o ↦ elim (is_or_not c b'}') [
        | inl e ↦ elim (closing n c cs e h) [
          | inl (z, l) ↦ inr (inr (inl (e, z, l)))
          | inr (m, k, g) ↦ inr (inr (inr (inl (e, m, k, Ends-InObject m cs g))))
        ]
        | inr x ↦ inr (
            inr (
              inr (
                inr (
                  q,
                  o,
                  x,
                  Ends-InObject n cs (Ends-Goes _ (outside n) c cs (Goes-plain n c q o x) h),
                ))))
      ]
    ]
  ]

  Ends-InString : (n : ℕ) (cs : Codes) → Ends (inside n) cs → InString n cs
  Ends-InString n [] h = absurd h
  Ends-InString n (c ∷ cs) h = elim (is_or_not c b'"') [
    | inl e ↦ inl (e, Ends-InObject n cs (Ends-Goes _ (outside n) c cs (Goes-end_string n c e) h))
    | inr q ↦ elim (is_or_not c b'\\') [
      | inl e ↦ inr (
          inl
            (e, Ends-Escaped n cs (Ends-Goes _ (after_backslash n) c cs (Goes-backslash n c e) h)))
      | inr b ↦
          inr (
            inr (q, b, Ends-InString n cs (Ends-Goes _ (inside n) c cs (Goes-in_string n c q b) h)))
    ]
  ]

  Ends-Escaped : (n : ℕ) (cs : Codes) → Ends (after_backslash n) cs → Escaped n cs
  Ends-Escaped n [] h = absurd h
  Ends-Escaped n (c ∷ cs) h = Ends-InString n cs (Ends-Goes _ (inside n) c cs (Goes-escaped n c) h)

Goes-start : Goes start b'{' (outside 0)
unfolding advance closes
Goes-start = (refl, refl)

-- What an opening brace begins ends exactly where the grammar says.
pub InObject-Ends_iff : (inner : Codes) → Ends start (b'{' ∷ inner) ↔ InObject 0 inner
InObject-Ends_iff inner = (
  (λ h. Ends-InObject 0 inner (Ends-Goes start (outside 0) b'{' inner Goes-start h)),
  (λ g. Goes-Ends start (outside 0) b'{' inner Goes-start (InObject-Ends 0 inner g)),
)
