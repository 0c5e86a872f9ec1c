-- ===== src/Examples/Learning.antt =====
-- A split of four rows, one of whose episodes is dropped.
use finguard_major_project.Prelude.{ℕ, refl, true, List, [], ◌∷◌, ◌≡◌, String}
use finguard_major_project.Outcome.{Outcome, is_ok, value, value-ok}
use finguard_major_project.Learning.Splits.{Row, TemporalSplit, temporal_split}
use finguard_major_project.Learning.Leakage.{NoLeak, temporal_split-NoLeak}

abbrev row : ℕ → String → Row
row time episode = record { time = time; episode = episode }

abbrev rows : List Row
rows = row 500000 "" ∷ row 590000 "E1" ∷ row 700000 "E1" ∷ row 750000 "E2" ∷ row 900000 "" ∷ []

abbrev splitting : Outcome TemporalSplit
splitting = temporal_split (λ times q. q) (600000, 200000, 200000) rows

splitting_ok : is_ok splitting ≡ true
unfolding temporal_split
splitting_ok = refl

one_purged : (value splitting splitting_ok).purged_episodes ≡ 1
unfolding temporal_split
one_purged = refl

temporal_split-NoLeak_example : NoLeak rows (value splitting splitting_ok)
temporal_split-NoLeak_example =
    temporal_split-NoLeak (λ times q. q) (600000, 200000, 200000) rows
      (value splitting splitting_ok) (λ times a b h. h) (value-ok splitting splitting_ok)
