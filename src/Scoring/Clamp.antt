-- ===== src/Scoring/Clamp.antt =====
-- The arithmetic of a score: steps, sums and the clamp.
use adaptive_admission_contr.Base.{ℕ, ◌≤◌, Bool, true, arith}
use adaptive_admission_contr.Base.Int.{ℤ, pos, ◌-ℤ◌, ◌≤ℤ◌, max_ℤ, min_ℤ, -ℤ_parts}
use adaptive_admission_contr.Scoring.{
  PenaltyConfig, step_penalty, clamp, ScoreClamp, Penalties, total_penalty, breakdown,
}

-- What the validation of a window checks.
pub record IsOrdered (w : PenaltyConfig) : Type 0 where
  pub thresholds : w.soft_threshold ≤ w.hard_threshold
  pub penalties : w.soft_penalty ≤ w.hard_penalty

-- In a valid window more hits never cost less, and no penalty is above the hard one.
pub step_penalty_mono :
    (w : PenaltyConfig) (count count' : ℕ)
    → IsOrdered w
    → count ≤ count'
    → (step_penalty count w ≤ step_penalty count' w) × (step_penalty count' w ≤ w.hard_penalty)
unfolding step_penalty
step_penalty_mono w count count' valid h = ground arith

pub clamp_bounds : (v lo hi : ℤ) → lo ≤ℤ hi → (lo ≤ℤ clamp v lo hi) × (clamp v lo hi ≤ℤ hi)
unfolding clamp max_ℤ min_ℤ
clamp_bounds v lo hi h = ground arith

clamp_mono : (v w lo hi : ℤ) → v ≤ℤ w → clamp v lo hi ≤ℤ clamp w lo hi
unfolding clamp max_ℤ min_ℤ
clamp_mono v w lo hi h = ground arith

pub record IsLighter (p q : Penalties) : Type 0 where
  pub ip : p.penalty_ip ≤ q.penalty_ip
  pub net24 : p.penalty_net24 ≤ q.penalty_net24
  pub net6 : p.penalty_net6 ≤ q.penalty_net6
  pub asn : p.penalty_asn ≤ q.penalty_asn
  pub country : p.penalty_country ≤ q.penalty_country
  pub user : p.penalty_user ≤ q.penalty_user

total_penalty_mono :
    (e : Bool) (p q : Penalties) → IsLighter p q → total_penalty e p ≤ total_penalty e q
unfolding total_penalty
total_penalty_mono e p q h = ground arith

sub_antitone : (b : ℤ) (m n : ℕ) → m ≤ n → b -ℤ pos n ≤ℤ b -ℤ pos m
sub_antitone b m n h = omega (arith, -ℤ_parts b (pos m), -ℤ_parts b (pos n))

-- Heavier penalties never raise the score, and an exemption never lowers it.
pub breakdown-antitone :
    (base : ℤ) (e : Bool) (bounds : ScoreClamp) (p q : Penalties)
    → IsLighter p q
    → ((breakdown base e bounds q).final ≤ℤ (breakdown base e bounds p).final)
      × ((breakdown base e bounds q).final ≤ℤ (breakdown base true bounds q).final)
unfolding breakdown
breakdown-antitone base e bounds p q h = (
  clamp_mono _ _ bounds.min_score bounds.max_score
      (sub_antitone base (total_penalty e p) (total_penalty e q) (total_penalty_mono e p q h)),
  clamp_mono _ _ bounds.min_score bounds.max_score (
      sub_antitone base (total_penalty true q) (total_penalty e q)
        (unfold total_penalty in ground arith)),
)

pub breakdown_bounds :
    (base : ℤ) (e : Bool) (bounds : ScoreClamp) (p : Penalties)
    → bounds.min_score ≤ℤ bounds.max_score
    → (bounds.min_score ≤ℤ (breakdown base e bounds p).final)
      × ((breakdown base e bounds p).final ≤ℤ bounds.max_score)
unfolding breakdown
breakdown_bounds base e bounds p h = clamp_bounds _ bounds.min_score bounds.max_score h
