-- ===== src/Learning/Splits.antt =====
-- anomaly_detection/temporal/splits.py. A row is its time and its episode, and the unit of time is so
-- small that the quantiles are whole numbers. `quantile` stands for `np.quantile`; a fraction is in
-- millionths.
use Prim.Native.Nat.{min, max}
use finguard_major_project.Prelude.{
  ℕ, ◌+◌, String, Bool, not, ◌&&◌, ◌||◌, List, [], ◌∷◌, map, filter, length, leb, ltb, ◌==◌, str_eq,
  if◌then◌else◌,
}
use finguard_major_project.Pipeline.Store.{member}
use finguard_major_project.Outcome.{Outcome, ok, value_error, ◌>>◌, guard}

pub record Row : Type 0 where
  pub time : ℕ
  pub episode : String

-- The parts hold the positions of their rows.
pub record TemporalSplit : Type 0 where
  pub train : List ℕ
  pub val : List ℕ
  pub test : List ℕ
  pub boundaries : ℕ × ℕ
  pub purged_rows : ℕ
  pub purged_episodes : ℕ

abbrev pub of_episode : String → List Row → List Row
of_episode e rows = filter (λ r. str_eq r.episode e) rows

-- `ts[rows].min()` and `ts[rows].max()`
abbrev pub earliest : List Row → ℕ
earliest [] = 0
earliest (r ∷ []) = r.time
earliest (r ∷ q ∷ rows) = min r.time (earliest (q ∷ rows))

abbrev pub latest : List Row → ℕ
latest [] = 0
latest (r ∷ rows) = max r.time (latest rows)

-- `lo < b <= hi`
abbrev pub crosses : List Row → ℕ → Bool
crosses rows b = ltb (earliest rows) b && leb b (latest rows)

unfoldable pub straddles : List Row → ℕ → ℕ → String → Bool
straddles rows b1 b2 e =
    not (str_eq e "") && (crosses (of_episode e rows) b1 || crosses (of_episode e rows) b2)

-- `keep` of a row.
unfoldable pub keeps : List Row → ℕ → ℕ → Row → Bool
unfolding straddles
keeps rows b1 b2 r = not (straddles rows b1 b2 r.episode)

abbrev pub in_train : ℕ → ℕ → Row → Bool
in_train b1 b2 r = ltb r.time b1

abbrev pub in_val : ℕ → ℕ → Row → Bool
in_val b1 b2 r = leb b1 r.time && ltb r.time b2

abbrev pub in_test : ℕ → ℕ → Row → Bool
in_test b1 b2 r = leb b2 r.time

-- `positions[mask]`, from position `i` on.
unfoldable pub positions : (Row → Bool) → ℕ → List Row → List ℕ
positions mask i [] = []
positions mask i (r ∷ rows) =
    let rest = positions mask (i + 1) rows in if mask r then i ∷ rest else rest

-- `np.unique(episode_ids)`, less its order, which nothing reads.
abbrev pub unique : List String → List String
unique [] = []
unique (e ∷ es) = let rest = unique es in if member e rest then rest else e ∷ rest

unfoldable pub temporal_split : (List ℕ → ℕ → ℕ) → ℕ × ℕ × ℕ → List Row → Outcome TemporalSplit
unfolding keeps positions
temporal_split quantile fractions rows = do
  guard (fractions.0 + fractions.1 + fractions.2 == 1000000) (value_error "fractions must sum to 1")
  let times = map (λ r. r.time) rows
  let b1 = quantile times fractions.0
  let b2 = quantile times (fractions.0 + fractions.1)
  let keep = keeps rows b1 b2
  ok (record {
    train = positions (λ r. keep r && in_train b1 b2 r) 0 rows;
    val = positions (λ r. keep r && in_val b1 b2 r) 0 rows;
    test = positions (λ r. keep r && in_test b1 b2 r) 0 rows;
    boundaries = (b1, b2);
    purged_rows = length (filter (λ r. not (keep r)) rows);
    purged_episodes = length (filter (straddles rows b1 b2) (unique (map (λ r. r.episode) rows)));
  })
