-- ===== src/Learning/Leakage.antt =====
-- Nothing of the future, and no part of an episode, leaks between the parts of a split
-- (anomaly_detection/temporal/splits.py).
use finguard_major_project.Prelude.{
  ℕ, ◌+◌, ◌≤◌, ◌<◌, String, ◌≡◌, ◌⊎◌, inl, inr, refl, sym, ap, subst, ◌∙◌, Bool, true, false, not,
  ◌&&◌, ◌||◌, List, [], ◌∷◌, arith, leb, ltb, str_eq, eq_iff, Bool-cases, &&_split, ltb→lt, leb→le,
  map, ◌==◌,
}
use finguard_major_project.Outcome.{ok, guard, value_error, >>=-eq-ok, ok-injective}
use finguard_major_project.Learning.Splits.{
  Row, TemporalSplit, of_episode, earliest, latest, crosses, straddles, keeps, in_train, in_val,
  in_test, positions, temporal_split,
}

-- The row at a position.
abbrev pub At : ℕ → List Row → Row → Type 0
At i [] r = ⊥
At i (x ∷ rows) r = ((i ≡ 0) × (x ≡ r)) ⊎ ((j : ℕ) × (i ≡ j + 1) × At j rows r)

abbrev pub Holds : ℕ → List ℕ → Type 0
Holds i [] = ⊥
Holds i (j ∷ js) = (i ≡ j) ⊎ Holds i js

-- A row that passes the mask, at a position counted from `k`.
abbrev Passing : (Row → Bool) → ℕ → List Row → ℕ → Type 0
Passing mask k rows i = (j : ℕ) × (r : Row) × (i ≡ k + j) × At j rows r × (mask r ≡ true)

later :
    (mask : Row → Bool) (k : ℕ) (x : Row) (rows : List Row) (i : ℕ)
    → Passing mask (k + 1) rows i
    → Passing mask k (x ∷ rows) i
later mask k x rows i (j, r, e, at, p) = (j + 1, r, omega (arith, e), inr (j, refl, at), p)

-- A position is listed only for a row that passes the mask.
positions-passes :
    (mask : Row → Bool) (k : ℕ) (rows : List Row) (i : ℕ)
    → Holds i (positions mask k rows)
    → Passing mask k rows i
unfolding positions
positions-passes mask k [] i h = absurd h
positions-passes mask k (x ∷ rows) i h = elim (Bool-cases (mask x)) [
  | inl t ↦ elim (rw t at h) [
    | inl e ↦ (0, x, omega (arith, e), inl (refl, refl), t)
    | inr g ↦ later mask k x rows i (positions-passes mask (k + 1) rows i g)
  ]
  | inr f ↦ later mask k x rows i (positions-passes mask (k + 1) rows i (rw f at h))
]

abbrev Among : Row → List Row → Type 0
Among r [] = ⊥
Among r (x ∷ rows) = (x ≡ r) ⊎ Among r rows

Among-bounds :
    (r : Row) (rows : List Row) → Among r rows → (earliest rows ≤ r.time) × (r.time ≤ latest rows)
Among-bounds r [] w = absurd w
Among-bounds r (x ∷ []) (inl e) = let t = ap (λ q. q.time) e in (omega (arith, t), omega (arith, t))
Among-bounds r (x ∷ []) (inr w) = absurd w
Among-bounds r (x ∷ y ∷ rows) (inl e) =
    let t = ap (λ q. q.time) e in (omega (arith, t), omega (arith, t))
Among-bounds r (x ∷ y ∷ rows) (inr w) =
    let (lo, hi) = Among-bounds r (y ∷ rows) w in (omega (arith, lo), omega (arith, hi))

At-Among :
    (e : String) (rows : List Row) (i : ℕ) (r : Row)
    → At i rows r
    → str_eq r.episode e ≡ true
    → Among r (of_episode e rows)
At-Among e [] i r at same = absurd at
At-Among e (x ∷ rows) i r (inl (z, y)) same = rw (ap (λ q. str_eq q.episode e) y ∙ same) (inl y)
At-Among e (x ∷ rows) i r (inr (j, z, at)) same = elim (Bool-cases (str_eq x.episode e)) [
  | inl t ↦ rw t (inr (At-Among e rows j r at same))
  | inr f ↦ rw f (At-Among e rows j r at same)
]

-- Two rows of an episode that does not straddle are on the same side of each boundary.
same_side :
    (rows : List Row) (b lo hi : ℕ) (r q : Row)
    → crosses rows b ≡ false
    → Among r rows
    → Among q rows
    → ltb r.time b ≡ ltb q.time b
same_side rows b lo hi r q e wr wq =
    let (rl, rh) = Among-bounds r rows wr in let (ql, qh) = Among-bounds q rows wq in ground arith

At-unique : (rows : List Row) (i : ℕ) (r q : Row) → At i rows r → At i rows q → r ≡ q
At-unique [] i r q a b = absurd a
At-unique (x ∷ rows) i r q (inl (z, e)) (inl (y, f)) = sym e ∙ f
At-unique (x ∷ rows) i r q (inl (z, e)) (inr (k, y, b)) = absurd (omega (arith, z, y))
At-unique (x ∷ rows) i r q (inr (j, z, a)) (inl (y, f)) = absurd (omega (arith, z, y))
At-unique (x ∷ rows) i r q (inr (j, z, a)) (inr (k, y, b)) =
    let same : k ≡ j = omega (arith, z, y) in
    At-unique rows j r q a (subst (λ n. At n rows q) same b)

-- The row at a listed position passes the mask.
listed :
    (mask : Row → Bool) (rows : List Row) (i : ℕ) (r : Row)
    → Holds i (positions mask 0 rows)
    → At i rows r
    → mask r ≡ true
listed mask rows i r h at =
    let (j, q, e, place, p) = positions-passes mask 0 rows i h in
    let same : j ≡ i = omega (arith, e) in
    ap mask (At-unique rows i r q at (subst (λ n. At n rows q) same place)) ∙ p

nonempty_keeps :
    (rows : List Row) (b1 b2 : ℕ) (r : Row)
    → keeps rows b1 b2 r ≡ true
    → str_eq r.episode "" ≡ false
    → (crosses (of_episode r.episode rows) b1 ≡ false)
      × (crosses (of_episode r.episode rows) b2 ≡ false)
unfolding keeps straddles
nonempty_keeps rows b1 b2 r k e =
    split (crosses (of_episode r.episode rows) b1) (crosses (of_episode r.episode rows) b2)
      (rw e at k)
  where
    split : (a b : Bool) → not (a || b) ≡ true → (a ≡ false) × (b ≡ false)
    split false false h = (refl, refl)
    split true b h = absurd (cc h)
    split false true h = absurd (cc h)

module _ (rows : List Row) (b1 b2 : ℕ) where
  -- Two kept rows of one episode are on the same side of both boundaries.
  together :
      (i j : ℕ) (r q : Row)
      → At i rows r
      → At j rows q
      → keeps rows b1 b2 r ≡ true
      → r.episode ≡ q.episode
      → str_eq r.episode "" ≡ false
      → (ltb r.time b1 ≡ ltb q.time b1) × (ltb r.time b2 ≡ ltb q.time b2)
  together i j r q ar aq k same e =
      let (c1, c2) = nonempty_keeps rows b1 b2 r k e in
      let r_in = At-Among r.episode rows i r ar ((eq_iff r.episode r.episode).1 refl) in
      let q_in = At-Among r.episode rows j q aq ((eq_iff q.episode r.episode).1 (sym same)) in
      (
        same_side (of_episode r.episode rows) b1 0 0 r q c1 r_in q_in,
        same_side (of_episode r.episode rows) b2 0 0 r q c2 r_in q_in,
      )

-- Every row of the first part is earlier than every row of the second, and no episode has rows in both.
abbrev pub Apart : List Row → List ℕ → List ℕ → Type 0
Apart rows first second =
    (i j : ℕ) (r q : Row)
    → Holds i first
    → Holds j second
    → At i rows r
    → At j rows q
    → (r.time < q.time) × (r.episode ≡ q.episode → r.episode ≡ "")

pub record NoLeak (rows : List Row) (split : TemporalSplit) : Type 0 where
  pub train_val : Apart rows split.train split.val
  pub train_test : Apart rows split.train split.test
  pub val_test : Apart rows split.val split.test

-- Two masks whose rows a boundary `b` between the first and the second divides.
divided :
    (rows : List Row) (b1 b2 b : ℕ) (first second : Row → Bool)
    → (b ≡ b1) ⊎ (b ≡ b2)
    → ((r : Row) → first r ≡ true → r.time < b)
    → ((r : Row) → second r ≡ true → b ≤ r.time)
    → Apart rows
        (positions (λ r. keeps rows b1 b2 r && first r) 0 rows)
        (positions (λ r. keeps rows b1 b2 r && second r) 0 rows)
divided rows b1 b2 b first second which below above i j r q hi hj ar aq =
    let (kr, fr) = &&_split _ _ (listed (λ x. keeps rows b1 b2 x && first x) rows i r hi ar) in
    let (kq, sq) = &&_split _ _ (listed (λ x. keeps rows b1 b2 x && second x) rows j q hj aq) in
    let lo = below r fr in
    let up = above q sq in
    (
      omega (arith, lo, up),
      λ same. elim (Bool-cases (str_eq r.episode "")) [
        | inl e ↦ (eq_iff r.episode "").0 e
        | inr e ↦
            let (s1, s2) = together rows b1 b2 i j r q ar aq kr same e in
            absurd (elim which [
              | inl w ↦
                  crossing r.time q.time b (subst (λ x. ltb r.time x ≡ ltb q.time x) (sym w) s1) lo
                    up
              | inr w ↦
                  crossing r.time q.time b (subst (λ x. ltb r.time x ≡ ltb q.time x) (sym w) s2) lo
                    up
            ])
      ],
    )
  where
    crossing : (x y c : ℕ) → ltb x c ≡ ltb y c → x < c → c ≤ y → ⊥
    crossing x y c e lo up = ground arith

-- Where the quantiles do not fall as their fraction grows, a split leaks nothing: every row of the
-- training part is earlier than every row of validation and test, every row of validation is earlier
-- than every row of the test, and no episode has rows in two parts.
pub temporal_split-NoLeak :
    (quantile : List ℕ → ℕ → ℕ) (fractions : ℕ × ℕ × ℕ) (rows : List Row) (split : TemporalSplit)
    → ((times : List ℕ) (a b : ℕ) → a ≤ b → quantile times a ≤ quantile times b)
    → temporal_split quantile fractions rows ≡ ok split
    → NoLeak rows split
unfolding temporal_split
temporal_split-NoLeak quantile fractions rows split mono e =
    let (u, e1, e2) =
      >>=-eq-ok
        (guard (fractions.0 + fractions.1 + fractions.2 == 1000000)
          (value_error "fractions must sum to 1"))
        _ e in
    let times = map (λ r. r.time) rows in
    let b1 = quantile times fractions.0 in
    let b2 = quantile times (fractions.0 + fractions.1) in
    let ordered = mono times fractions.0 (fractions.0 + fractions.1) (omega arith) in
    subst (NoLeak rows) (ok-injective e2) (record {
      train_val =
          divided rows b1 b2 b1 (in_train b1 b2) (in_val b1 b2) (inl refl)
            (λ r t. ltb→lt r.time b1 t) (λ r t. val_above b1 b2 r.time t);
      train_test =
          divided rows b1 b2 b1 (in_train b1 b2) (in_test b1 b2) (inl refl)
            (λ r t. ltb→lt r.time b1 t) (λ r t. omega (arith, ordered, leb→le b2 r.time t));
      val_test =
          divided rows b1 b2 b2 (in_val b1 b2) (in_test b1 b2) (inr refl)
            (λ r t. val_below b1 b2 r.time t) (λ r t. leb→le b2 r.time t);
    })
  where
    val_above : (c d t : ℕ) → (leb c t && ltb t d) ≡ true → c ≤ t
    val_above c d t h = ground arith

    val_below : (c d t : ℕ) → (leb c t && ltb t d) ≡ true → t < d
    val_below c d t h = ground arith
